-- ===== src/Pool/Tests.antt =====
-- A pool with a duplicate, and ranks.
use v2pro_dock.Base.{ℕ, String, List, [], ◌∷◌, str_eq, if◌then◌else◌, nat_equal, string_equal}
use v2pro_dock.Pool.{ProxyConfig}
use v2pro_dock.Fixtures.{conf_a, conf_b, conf_c}

abbrev doubled : List ProxyConfig
doubled = conf_a ∷ conf_b ∷ record conf_a { name = "again" } ∷ conf_c ∷ []

-- Only one share link carries the features that rank it.
abbrev rank_of : String → ℕ
rank_of raw = if str_eq raw "vless://b" then 3 else 0
