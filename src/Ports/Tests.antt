-- ===== src/Ports/Tests.antt =====
-- The default candidates, with the HTTP one in use on the host.
use v2pro_dock.Base.{ℕ, ◌≡◌, Bool, [], arith, nat_eq, nat_equal, string_equal}
use v2pro_dock.Ports.{is_taken, pick_aggregate_ports}
use v2pro_dock.Ports.Scan.{AllTaken, pick-same}

abbrev http_in_use : ℕ → Bool
http_in_use p = nat_eq p 27_016

in_use : AllTaken 27_018 [] http_in_use 27_016 27_017
unfolding is_taken
in_use q h g = ground arith

pick-same_example :
    (pick_aggregate_ports 27_017 27_016 27_018 [] http_in_use http_in_use).0
    ≡ (pick_aggregate_ports 27_017 27_016 27_018 [] http_in_use http_in_use).1
pick-same_example = pick-same 27_017 27_016 27_018 [] http_in_use (omega arith) (omega arith) in_use
