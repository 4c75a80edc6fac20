-- ===== src/Aggregate.antt =====
-- v2proxy/aggregate.go, and `pickBestBackend` and `GetAliveStatuses` of v2proxy/manager.go: which
-- instance serves a connection to the stable endpoints. A backend, "127.0.0.1:port" in the code,
-- is its port.
pub mod Ladder
pub mod Budget
pub mod Insertion
pub mod Tests
use mathlib.Core.List.{Perm}
use v2pro_dock.Base.{
  ℕ, ◌+◌, ◌-◌, ◌*◌, ◌≤◌, min, Bool, not, ◌&&◌, Option, none, some, List, [], ◌∷◌, ◌++◌, ltb, leb,
  if◌then◌else◌, nat_equal, string_equal, length, get_elem?, All,
}
use v2pro_dock.Egress.{second}
use v2pro_dock.Selector.{ProxySelector}
use v2pro_dock.Manager.{InstanceStatus, ProxyManager, alive}

-- Fastest first.
abbrev pub IsFastestFirst : List InstanceStatus → Type 0
IsFastestFirst [] = Unit {0}
IsFastestFirst (s ∷ ss) = All (λ t. s.lat_ms ≤ t.lat_ms) ss × IsFastestFirst ss

-- What `slices.SortFunc` by `LatMs` promises. It is not stable: ties may come in any order.
pub record LatencySort : Type 0 where
  pub sort : List InstanceStatus → List InstanceStatus
  pub sorts : (ss : List InstanceStatus) → IsFastestFirst (sort ss)
  pub permutes : (ss : List InstanceStatus) → Perm (sort ss) ss

-- `GetAliveStatuses`
unfoldable pub get_alive_statuses : LatencySort → ProxyManager → List InstanceStatus
get_alive_statuses by m = by.sort (alive m.statuses)

-- The first status whose streak qualifies it, or the head.
unfoldable pub first_qualified : ℕ → InstanceStatus → List InstanceStatus → InstanceStatus
first_qualified min_streak best [] = best
first_qualified min_streak best (s ∷ ss) =
    let rest = first_qualified min_streak best ss in if leb min_streak s.ok_streak then s else rest

abbrev pub backend_port : Bool → ProxySelector → ℕ
backend_port http_side s = if http_side then s.http_port else s.socks_port

-- The pick among statuses that are alive and sorted.
unfoldable pub pick_best : ℕ → List InstanceStatus → Option InstanceStatus
unfolding first_qualified
pick_best min_streak [] = none
pick_best min_streak (s ∷ ss) =
    some (if ltb 0 min_streak then first_qualified min_streak s (s ∷ ss) else s)

abbrev pub port_of : Bool → List ProxySelector → InstanceStatus → Option ℕ
port_of http_side insts s = elim (get_elem? insts s.index) [
  | none ↦ none
  | some i ↦ some (backend_port http_side i)
]

-- `pickBestBackend`, with the setting of AGG_MIN_STREAK.
unfoldable pub pick_best_backend : LatencySort → ℕ → Bool → ProxyManager → Option ℕ
unfolding pick_best get_alive_statuses
pick_best_backend by min_streak http_side m =
    elim (pick_best min_streak (get_alive_statuses by m)) [
      | none ↦ none
      | some best ↦ port_of http_side m.instances best
    ]

-- The two tiers of `orderedAlive`.
unfoldable pub qualified : ℕ → List InstanceStatus → List InstanceStatus
qualified min_streak [] = []
qualified min_streak (s ∷ ss) =
    let q = qualified min_streak ss in if leb min_streak s.ok_streak then s ∷ q else q

unfoldable pub unqualified : ℕ → List InstanceStatus → List InstanceStatus
unqualified min_streak [] = []
unqualified min_streak (s ∷ ss) =
    let r = unqualified min_streak ss in if leb min_streak s.ok_streak then r else s ∷ r

unfoldable pub ordered_alive : ℕ → List InstanceStatus → List InstanceStatus
unfolding qualified unqualified
ordered_alive min_streak ss =
    if ltb 0 min_streak && ltb 0 (length (qualified min_streak ss))
    then qualified min_streak ss ++ unqualified min_streak ss
    else ss

-- `portsForOrder`: entries with no instance or with no port are dropped.
unfoldable pub ports_for_order :
    (ProxySelector → ℕ) → List ProxySelector → List InstanceStatus → List ℕ
ports_for_order port insts [] = []
ports_for_order port insts (s ∷ ss) =
    let rest = ports_for_order port insts ss in
    elim (get_elem? insts s.index) [
      | none ↦ rest
      | some i ↦ if leb (port i) 0 then rest else port i ∷ rest
    ]

unfoldable pub aggregate_candidates : LatencySort → ℕ → Bool → ProxyManager → List ℕ
unfolding ordered_alive ports_for_order get_alive_statuses
aggregate_candidates by min_streak http_side m =
    ports_for_order (backend_port http_side) m.instances
      (ordered_alive min_streak (get_alive_statuses by m))

unfoldable pub aggregate_relay_candidates : LatencySort → ℕ → ProxyManager → List ℕ
unfolding ordered_alive ports_for_order get_alive_statuses
aggregate_relay_candidates by min_streak m =
    ports_for_order (λ s. s.relay_port) m.instances
      (ordered_alive min_streak (get_alive_statuses by m))

abbrev pub agg_failover_budget : ℕ
agg_failover_budget = 5 * second

abbrev pub agg_candidate_dial_budget : ℕ
agg_candidate_dial_budget = 750_000_000

-- `net.DialTimeout`: whether the backend accepts within a budget, and the time that the dial took,
-- which is never more than the budget.
pub record Dialer : Type 0 where
  pub dial : ℕ → ℕ → Bool × ℕ
  pub in_time : (port budget : ℕ) → (dial port budget).1 ≤ budget

-- The walk of `serveCandidates`: the backend that serves, or none when the client is cut loose,
-- and the time at the end.
unfoldable pub walk : Dialer → ℕ → ℕ → List ℕ → Option ℕ × ℕ
walk d deadline now [] = (none, now)
walk d deadline now (c ∷ cs) =
    let (accepted, spent) = d.dial c (min (deadline - now) agg_candidate_dial_budget) in
    let rest = walk d deadline (now + spent) cs in
    if leb deadline now then (none, now) else if accepted then (some c, now + spent) else rest

unfoldable pub serve_candidates : Dialer → ℕ → List ℕ → Option ℕ × ℕ
unfolding walk
serve_candidates d now cands = walk d (now + agg_failover_budget) now cands

-- `handleAggregateConn` and `handleRelayConn`
unfoldable pub handle_aggregate_conn :
    LatencySort → Dialer → ℕ → Bool → ℕ → ProxyManager → Option ℕ × ℕ
unfolding serve_candidates aggregate_candidates
handle_aggregate_conn by d min_streak http_backend now m =
    serve_candidates d now (aggregate_candidates by min_streak http_backend m)

unfoldable pub handle_relay_conn : LatencySort → Dialer → ℕ → ℕ → ProxyManager → Option ℕ × ℕ
unfolding serve_candidates aggregate_relay_candidates
handle_relay_conn by d min_streak now m =
    if not m.relay_alive
    then (none, now)
    else serve_candidates d now (aggregate_relay_candidates by min_streak m)
