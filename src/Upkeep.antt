-- ===== src/Upkeep.antt =====
-- The upkeep of one instance in v2proxy/manager.go: the health tick of `HealthCheckAll`, the
-- recovery of a refresh, and the anchoring of an instance whose pool was replaced. What other
-- methods do to the instance while a switch searches is an argument; the other instances are taken
-- to stay as they are during the round.
pub mod Recovery
pub mod Anchoring
pub mod Distinct
pub mod Tests
use v2pro_dock.Base.{
  ℕ, ◌+◌, ◌*◌, String, Bool, true, false, not, ◌&&◌, ◌||◌, Option, none, some, List, [], ◌∷◌,
  str_eq, ltb, leb, nat_eq, if◌then◌else◌, nat_equal, string_equal, set, is_some,
}
use v2pro_dock.Base.Dict.{Dict, insert, has}
use v2pro_dock.Pool.{ProxyConfig, key, find_key}
use v2pro_dock.Probe.{HealthResult}
use v2pro_dock.Egress.{EgressNotes, second}
use v2pro_dock.Selector.{
  ProxySelector, Scan, active_config, should_check, health_check, retain_active, latency_fresh,
  serving_traffic, serving_clients,
}
use v2pro_dock.Switch.{
  World, SwitchError, no_configs, no_working_config, winner_vanished, winner_failed, never_bound,
  not_verified, switch_to_next_excluding,
}
use v2pro_dock.Manager.{ProxyManager, build_excluding, mark_down, mark_ok}

-- What a switch meets: its worlds, its probes, and what happens to the instance meanwhile.
pub record Attempt : Type 0 where
  pub world : World
  pub later : World
  pub probes : List (ℕ × HealthResult)
  pub during : ProxySelector → ProxySelector

-- The texts of the errors; what an error wraps is left out of its text.
abbrev pub message : SwitchError → String
message no_configs = "no configs available"
message no_working_config = "no working config found"
message winner_vanished = "winner vanished after refresh"
message winner_failed = "winner failed on serving port"
message never_bound = "winner never bound serving port"
message not_verified = "winner failed verification"

abbrev pub name_or_empty : Option ProxyConfig → String
name_or_empty none = ""
name_or_empty (some c) = c.name

-- The manager holds the instance by reference.
abbrev pub put : ℕ → ProxySelector → ProxyManager → ProxyManager
put i s m = record m { instances = set m.instances i s }

unfoldable pub switch_instance :
    Attempt → Dict String ℕ → ProxySelector → Option SwitchError × ProxySelector
unfolding switch_to_next_excluding
switch_instance a used s = switch_to_next_excluding a.world a.later used a.probes a.during s

-- The status after the switch of a health tick.
ticked : ℕ → Option SwitchError × ProxySelector → ProxyManager → ProxyManager
unfolding mark_down mark_ok active_config
ticked i (some e, s) m = mark_down i (message e) (put i s m)
ticked i (none, s) m = mark_ok i (name_or_empty (active_config s)) s.last_latency (put i s m)

after_check : Attempt → ℕ → Bool × ProxySelector → ProxyManager → ProxyManager
unfolding ticked mark_down mark_ok active_config build_excluding switch_instance
after_check a i (true, s) m = mark_ok i (name_or_empty (active_config s)) s.last_latency (put i s m)
after_check a i (false, s) m =
    let n = mark_down i "health check failed" (put i s m) in
    ticked i (switch_instance a (build_excluding n i) s) n

-- The round of `HealthCheckAll` for the instance `i`.
unfoldable pub health_tick :
    EgressNotes → ℕ → ℕ → HealthResult → Attempt → ℕ → ProxySelector → ProxyManager → ProxyManager
unfolding after_check should_check health_check
health_tick notes now later result a i s m =
    if should_check now s then after_check a i (health_check notes now later result s) m else m

-- A round of `recoverInstance`, and how it goes on: `rest` is the next round.
recovered :
    ℕ
    → Dict String ℕ
    → Option SwitchError × ProxySelector
    → (ProxySelector → ProxyManager → ProxyManager)
    → ProxyManager
    → ProxyManager
unfolding active_config mark_ok
recovered i used (some e, s) rest m = put i s m
recovered i used (none, s) rest m = elim (active_config s) [
  | none ↦ put i s m
  | some c ↦
      if has (key c) used then rest s (put i s m) else mark_ok i c.name s.last_latency (put i s m)
]

-- `recoverInstance` makes two rounds; here there is one for each attempt.
unfoldable pub recover_instance : List Attempt → ℕ → ProxySelector → ProxyManager → ProxyManager
unfolding recovered build_excluding switch_instance
recover_instance [] i s m = m
recover_instance (a ∷ more) i s m =
    let rest = recover_instance more i in
    recovered i (build_excluding m i) (switch_instance a (build_excluding m i) s) rest m

abbrev pub rotate_slow_latency : ℕ
rotate_slow_latency = 2_500_000_000

abbrev pub rotate_max_candidates : ℕ
rotate_max_candidates = 3

abbrev pub rotate_latency_max_age : ℕ
rotate_latency_max_age = 3 * (60 * second)

-- What a rotation meets: its probes, and whether the budget is over before the candidate at a
-- position.
pub record Rotation : Type 0 where
  pub probe : ProxyConfig → HealthResult
  pub expired : ℕ → Bool

-- The loop of `reconcileActive` over the pool, from the position `i`: the first candidate that is
-- decisively faster than `lat`.
unfoldable pub pick_faster :
    Rotation → Dict String ℕ → String → ℕ → ℕ → ℕ → List ProxyConfig → Option ProxyConfig
pick_faster r used active lat tried i [] = none
pick_faster r used active lat tried i (c ∷ cs) =
    let passed = pick_faster r used active lat tried (i + 1) cs in
    let probed = pick_faster r used active lat (tried + 1) (i + 1) cs in
    if leb rotate_max_candidates tried || r.expired i
    then none
    else if str_eq (key c) active || has (key c) used
    then passed
    else if not (r.probe c).working || leb (lat * 7) ((r.probe c).latency * 10)
    then probed
    else some c

-- Every key of the pool but one. The owner that the source writes is -1, and nothing reads it.
unfoldable pub all_but : String → List ProxyConfig → Dict String ℕ
all_but k [] = []
all_but k (c ∷ cs) =
    let rest = all_but k cs in if str_eq (key c) k then rest else insert (key c) 0 rest

-- What a switch to the one proven candidate leaves.
rotated : ℕ → String → Option SwitchError × ProxySelector → ProxyManager → ProxyManager
unfolding active_config mark_ok
rotated i k (some e, s) m = put i s m
rotated i k (none, s) m = elim (active_config s) [
  | none ↦ put i s m
  | some c ↦ if str_eq (key c) k then mark_ok i c.name s.last_latency (put i s m) else put i s m
]

rotate : Rotation → Attempt → ℕ → ProxyConfig → ProxySelector → ProxyManager → ProxyManager
unfolding pick_faster all_but rotated build_excluding switch_instance
rotate r a i active s m =
    elim (pick_faster r (build_excluding m i) (key active) s.last_latency 0 0 s.configs) [
      | none ↦ put i s m
      | some c ↦ rotated i (key c) (switch_instance a (all_but (key c) s.configs) s) m
    ]

-- The guards of a rotation, after the scan of the sockets.
idle_rotation :
    Rotation → Attempt → ℕ → ℕ → ProxyConfig → Bool × ProxySelector → ProxyManager → ProxyManager
unfolding rotate latency_fresh
idle_rotation r a now i active (true, s) m = put i s m
idle_rotation r a now i active (false, s) m =
    if not (latency_fresh rotate_latency_max_age now s) || ltb s.last_latency rotate_slow_latency
    then put i s m
    else rotate r a i active s m

-- The pool has the active config.
anchored :
    EgressNotes
    → Scan
    → Rotation
    → Attempt
    → ℕ
    → ℕ
    → ProxyConfig
    → ProxySelector
    → ProxyManager
    → ProxyManager
unfolding idle_rotation serving_traffic serving_clients
anchored notes scan r a now i active s m =
    if serving_traffic notes now s
    then m
    else idle_rotation r a now i active (serving_clients scan now s) m

rotated_away : ℕ → Option SwitchError × ProxySelector → ProxyManager → ProxyManager
unfolding active_config mark_ok mark_down
rotated_away i (some e, s) m = mark_down i (message e) (put i s m)
rotated_away i (none, s) m = elim (active_config s) [
  | none ↦ put i s m
  | some c ↦ mark_ok i c.name s.last_latency (put i s m)
]

-- The active config has gone from the pool.
vanished : Attempt → ℕ → Option ProxyConfig → ProxySelector → ProxyManager → ProxyManager
unfolding rotated_away mark_down build_excluding switch_instance retain_active
vanished a i prev s m = elim prev [
  | none ↦ rotate_away
  | some p ↦
      if nat_eq s.fail_count 0 && not (has (key p) (build_excluding m i))
      then put i (retain_active p s) m
      else rotate_away
]
  where
    rotate_away : ProxyManager
    rotate_away =
        let n = mark_down i "active config vanished from pool" m in
        rotated_away i (switch_instance a (build_excluding n i) s) n

-- `reconcileActive`; `prev` is what was active before the pool was replaced.
unfoldable pub reconcile_active :
    EgressNotes
    → Scan
    → Rotation
    → Attempt
    → ℕ
    → ℕ
    → Option ProxyConfig
    → ProxySelector
    → ProxyManager
    → ProxyManager
unfolding anchored vanished active_config
reconcile_active notes scan r a now i prev s m = elim (active_config s) [
  | none ↦ vanished a i prev s m
  | some c ↦
      if is_some (find_key (key c) s.configs)
      then anchored notes scan r a now i c s m
      else vanished a i prev s m
]
