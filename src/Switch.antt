-- ===== src/Switch.antt =====
-- `SwitchToNextExcluding` of v2proxy/selector.go and what it calls. A switch holds the mutex while
-- it takes its snapshot (`plan_switch`) and while it swaps (`swap`); the search between them runs
-- without it, so the instance that is swapped may be another state than the one planned for.
-- What the processes and the network answer is a `World`.
pub mod Order
pub mod Restore
pub mod Swap
pub mod Outcome
pub mod Keys
pub mod Tests
use v2pro_dock.Base.{
  ℕ, zero, suc, ◌+◌, ◌%◌, String, Bool, true, false, not, Option, none, some, List, [], ◌∷◌, str_eq,
  leb, nat_eq, if◌then◌else◌, nat_equal, string_equal, length, get_elem?,
}
use v2pro_dock.Base.Dict.{Dict, has}
use v2pro_dock.Base.Int.{ℤ, pos, negsuc}
use v2pro_dock.Pool.{ProxyConfig, key}
use v2pro_dock.Probe.{HealthResult}
use v2pro_dock.Selector.{ProxySelector, at_index, index_of, clear_serving_unproven}

-- `i == oldIndex`
abbrev pub is_index : ℕ → ℤ → Bool
is_index i (pos j) = nat_eq i j
is_index i (negsuc _) = false

-- `start := startIdx % n; if start < 0 { start = 0 }`: the remainder of a negative number is zero
-- or negative.
abbrev pub order_start : ℕ → ℤ → ℕ
order_start n (pos s) = s % n
order_start n (negsuc _) = 0

-- The rounds of `for k := range n` from `k` on; the last argument counts those that are left.
order_from : ℕ → ℕ → ℤ → ℕ → ℕ → List ℕ
order_from n start old k zero = []
order_from n start old k (suc left) =
    let i = (start + k) % n in
    let rest = order_from n start old (k + 1) left in if is_index i old then rest else i ∷ rest

unfoldable pub switch_order : ℕ → ℤ → ℤ → List ℕ
unfolding order_from
switch_order n start_idx old =
    if leb n 0 then [] else order_from n (order_start n start_idx) old 0 n

-- What the outside answers to the steps of a swap: whether a config renders, the PID of a child
-- that starts, whether it binds its port, and the exchange through that port.
pub record World : Type 0 where
  pub renders : ProxyConfig → Bool
  pub launch : ProxyConfig → Option ℕ
  pub binds : Bool
  pub verify : HealthResult
  pub clock : ℕ

pub data StartError : Type 0 where
  invalid_index render_failed launch_failed : StartError

-- `stopXray`
unfoldable pub stop_xray : ProxySelector → ProxySelector
stop_xray s = record s { xray = none }

-- A start stops the child that is still held before it launches the next.
started : Option ℕ → ProxySelector → Option StartError × ProxySelector
unfolding clear_serving_unproven
started none s = (some launch_failed, record s { xray = none })
started (some pid) s = (none, clear_serving_unproven (record s { xray = some pid }))

unfoldable pub start_config :
    World → Option ProxyConfig → ProxySelector → Option StartError × ProxySelector
unfolding started
start_config w none s = (some invalid_index, s)
start_config w (some c) s = if w.renders c then started (w.launch c) s else (some render_failed, s)

unfoldable pub start_xray : World → ℤ → ProxySelector → Option StartError × ProxySelector
unfolding start_config
start_xray w i s = start_config w (at_index s.configs i) s

pub data SwitchError : Type 0 where
  no_configs no_working_config winner_vanished winner_failed never_bound not_verified : SwitchError

-- What a switch takes from its snapshot: the pool, the candidates' indices and the served key.
pub record Plan : Type 0 where
  pub pool : List ProxyConfig
  pub cands : List ℕ
  pub old_key : String

-- `startIdx := s.activeIndex + 1; if startIdx >= len(configs) { startIdx = 0 }`
abbrev pub next_index : ℤ → ℕ → ℤ
next_index (pos i) n = if leb n (i + 1) then pos 0 else pos (i + 1)
next_index (negsuc zero) n = pos 0
next_index (negsuc (suc i)) n = negsuc i

abbrev pub key_at : List ProxyConfig → ℤ → String
key_at cs i = elim (at_index cs i) [ none ↦ "" | some c ↦ key c ]

-- Is the config at the index one that the switch must not take?
abbrev pub is_excluded : Dict String ℕ → List ProxyConfig → ℕ → Bool
is_excluded exclude cs i = elim (get_elem? cs i) [ none ↦ true | some c ↦ has (key c) exclude ]

unfoldable pub not_excluded : Dict String ℕ → List ProxyConfig → List ℕ → List ℕ
not_excluded exclude cs [] = []
not_excluded exclude cs (i ∷ is) =
    let rest = not_excluded exclude cs is in if is_excluded exclude cs i then rest else i ∷ rest

unfoldable pub candidates : Dict String ℕ → ProxySelector → List ℕ
unfolding not_excluded switch_order
candidates exclude s =
    let n = length s.configs in
    not_excluded exclude s.configs (switch_order n (next_index s.active_index n) s.active_index)

unfoldable pub plan_switch : Dict String ℕ → ProxySelector → Plan
unfolding candidates
plan_switch exclude s = record {
  pool = s.configs;
  cands = candidates exclude s;
  old_key = key_at s.configs s.active_index;
}

-- `searchCandidates`: the probes of the workers in the order in which they take the mutex over the
-- winner, each with the place of its index among the candidates that are handed out. The first
-- that works wins; a search that runs out of budget has fewer probes.
unfoldable pub search_candidates : List ℕ → List (ℕ × HealthResult) → Option (ℕ × ℕ)
search_candidates cands [] = none
search_candidates cands ((p, r) ∷ done) =
    let rest = search_candidates cands done in
    elim (get_elem? cands p) [
      | none ↦ rest
      | some i ↦ if r.working then some (i, r.latency) else rest
    ]

restored : ℕ → ℕ → Option StartError × ProxySelector → ProxySelector
restored i clock (none, t) = record t {
  active_index = pos i;
  fail_count = 0;
  ok_streak = 0;
  active_since = some clock;
}
restored i clock (some e, t) = t

restore_at : World → ℤ → ProxySelector → ProxySelector
unfolding restored start_xray
restore_at w (pos i) s = restored i w.clock (start_xray w (pos i) s)
restore_at w (negsuc _) s = s

-- `tryRestoreLocked`
unfoldable pub try_restore : World → String → ProxySelector → ProxySelector
unfolding restore_at
try_restore w old_key s =
    if str_eq old_key "" then s else restore_at w (index_of old_key s.configs) s

-- The verified winner is adopted.
adopted : World → ℕ → ℕ → ProxySelector → ProxySelector
adopted w cur lat t = record t {
  active_index = pos cur;
  last_latency = lat;
  last_probe = some w.clock;
  fail_count = 0;
  ok_streak = 0;
  active_since = some w.clock;
}

-- What follows the start of the winner; the world `later` is that of the restart after a failure.
swapped :
    World
    → World
    → String
    → ℕ
    → ℕ
    → Option StartError × ProxySelector
    → Option SwitchError × ProxySelector
unfolding stop_xray try_restore adopted
swapped w later old_key cur lat (some e, t) = (some winner_failed, try_restore later old_key t)
swapped w later old_key cur lat (none, t) =
    if not w.binds
    then (some never_bound, try_restore later old_key (stop_xray t))
    else if not w.verify.working
    then (some not_verified, try_restore later old_key (stop_xray t))
    else (none, adopted w cur lat t)

swap_at : World → World → String → ℤ → ℕ → ProxySelector → Option SwitchError × ProxySelector
unfolding swapped stop_xray start_xray
swap_at w later old_key (negsuc _) lat s = (some winner_vanished, s)
swap_at w later old_key (pos cur) lat s =
    swapped w later old_key cur lat (start_xray w (pos cur) (stop_xray s))

-- The winner is looked up by its key in the pool of the moment.
unfoldable pub swap :
    World → World → Plan → Option (ℕ × ℕ) → ProxySelector → Option SwitchError × ProxySelector
unfolding swap_at
swap w later p none s = (some no_working_config, s)
swap w later p (some (win, lat)) s =
    swap_at w later p.old_key (index_of (key_at p.pool (pos win)) s.configs) lat s

-- The whole switch: `during` is what other methods do to the instance while the search runs.
unfoldable pub switch_to_next_excluding :
    World
    → World
    → Dict String ℕ
    → List (ℕ × HealthResult)
    → (ProxySelector → ProxySelector)
    → ProxySelector
    → Option SwitchError × ProxySelector
unfolding plan_switch search_candidates swap
switch_to_next_excluding w later exclude done during s =
    let p = plan_switch exclude s in
    if nat_eq (length s.configs) 0
    then (some no_configs, s)
    else if nat_eq (length p.cands) 0
    then (some no_working_config, s)
    else swap w later p (search_candidates p.cands done) (during s)
