-- ===== src/Rank/Tests.antt =====
-- The rank of a trojan link, and how a fragment hides a query's last value.
use v2pro_dock.Base.{◌≡◌, refl, true, nat_equal, string_equal}
use v2pro_dock.Stdlib.Sample.{sample}
use v2pro_dock.Rank.{dpi_rank}
use v2pro_dock.Rank.Tiers.{in_tiers, line_tiers, dpi_rank-tier}

dpi_rank-tier_example :
    in_tiers (dpi_rank sample "trojan://u@h") (line_tiers sample "trojan://u@h") ≡ true
dpi_rank-tier_example = dpi_rank-tier sample "trojan://u@h" (λ s. refl)
