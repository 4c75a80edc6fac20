-- ===== src/Ports.antt =====
-- v2proxy/env.go: the stable ports of the aggregate endpoints. What an environment variable holds is
-- read by the standard library, and whether something listens on a port is the network's answer.
pub mod Scan
pub mod Tests
use v2pro_dock.Base.{
  ℕ, zero, suc, ◌+◌, ◌-◌, max, String, Bool, true, false, ◌||◌, Option, none, some, str_eq, ltb,
  leb, nat_eq, if◌then◌else◌, nat_equal, string_equal,
}
use v2pro_dock.Base.Dict.{Dict, lookup, insert}
use v2pro_dock.Base.Int.{ℤ, pos, negsuc}

abbrev pub max_port : ℕ
max_port = 27_999

-- `aggregatePort`: `v` is the variable without its blanks, `atoi` is `strconv.Atoi`.
unfoldable pub aggregate_port : (String → Option ℤ) → String → ℕ → ℕ
aggregate_port atoi v def = if str_eq v "" then def else (elim (atoi v) [
  | none ↦ def
  | some (negsuc _) ↦ def
  | some (pos n) ↦ if ltb 65_535 n then def else n
])

-- `portOrDefault`
unfoldable pub port_or_default : (String → Option ℤ) → String → ℕ → ℕ
port_or_default atoi v def = if str_eq v "" then def else (elim (atoi v) [
  | none ↦ def
  | some (negsuc _) ↦ def
  | some (pos n) ↦ if ltb n 1 || ltb 65_535 n then def else n
])

-- `p == apiPort || used[p]`, or something answers on the port.
unfoldable pub is_taken : ℕ → Dict ℕ Bool → (ℕ → Bool) → ℕ → Bool
is_taken api used listens p =
    nat_eq p api || (elim (lookup p used) [ none ↦ false | some b ↦ b ]) || listens p

-- The loop from the port `p` on, with the number of ports that are left as fuel.
unfoldable pub scan_from : ℕ → Dict ℕ Bool → (ℕ → Bool) → ℕ → ℕ → ℕ
unfolding is_taken
scan_from api used listens zero p = 0
scan_from api used listens (suc left) p =
    let rest = scan_from api used listens left (p + 1) in
    if is_taken api used listens p then rest else p

-- `scanAggPort`; a candidate is never negative, as `aggregatePort` gives it.
unfoldable pub scan_agg_port : ℕ → ℕ → Dict ℕ Bool → (ℕ → Bool) → ℕ
unfolding scan_from
scan_agg_port cand api used listens =
    if leb cand 0
    then 0
    else scan_from api used listens (max_port + 1 - max cand 1024) (max cand 1024)

-- `pickAggregatePorts`; each scan asks the network itself.
unfoldable pub pick_aggregate_ports : ℕ → ℕ → ℕ → Dict ℕ Bool → (ℕ → Bool) → (ℕ → Bool) → ℕ × ℕ
unfolding scan_agg_port
pick_aggregate_ports socks http api used listens_socks listens_http =
    (scan_agg_port socks api used listens_socks, scan_agg_port http api used listens_http)

-- The relay's endpoint is picked in `main` after the other two, whose ports it adds to the used.
abbrev pub with_port : ℕ → Dict ℕ Bool → Dict ℕ Bool
with_port p used = if ltb 0 p then insert p true used else used

unfoldable pub pick_relay_port : ℕ → ℕ → ℕ → ℕ → Dict ℕ Bool → (ℕ → Bool) → ℕ
unfolding scan_agg_port
pick_relay_port relay socks http api used listens =
    scan_agg_port relay api (with_port http (with_port socks used)) listens
