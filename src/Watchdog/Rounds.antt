-- ===== src/Watchdog/Rounds.antt =====
-- What the rounds over all instances keep: `HealthCheckAll` of v2proxy/manager.go and
-- `WatchdogCheck` of v2proxy/watchdog.go.
use v2pro_dock.Base.{
  ℕ, zero, suc, ◌+◌, ◌≡◌, refl, sym, inl, inr, Bool, not, ◌&&◌, ◌||◌, Option, none, some,
  Option-cases, nat_equal, string_equal, if_cases, maybe, maybe_cases, length, get_elem?, set,
  is_some,
}
use mathlib.Core.Path.{subst}
use v2pro_dock.Selector.{ProxySelector, active_config}
use v2pro_dock.Switch.{SwitchError}
use v2pro_dock.Switch.Keys.{switch-KeyAllowed}
use v2pro_dock.Manager.{ProxyManager, build_excluding, mark_down, mark_ok, status_of, is_ok}
use v2pro_dock.Upkeep.{Attempt, put, switch_instance}
use v2pro_dock.Upkeep.Distinct.{IsDistinct, health_tick-IsDistinct, set-IsDistinct}
use v2pro_dock.Watchdog.Check.{
  Tick, tick_one, health_checks, probe_relay, health_check_all, watched, watch_one, watch,
  watchdog_check,
}

-- Nothing else touches the instance while a switch searches.
abbrev pub IsStill : Attempt → Type 0
IsStill a = (x : ProxySelector) → a.during x ≡ x

Apart : ProxyManager → Type 0
Apart m = IsDistinct m.instances

-- One round of a loop, on the instance behind the index, if there is one.
round-Apart :
    (f : ProxySelector → ProxyManager → ProxyManager) (i : ℕ) (m : ProxyManager)
    → Apart m
    → ((s : ProxySelector) → get_elem? m.instances i ≡ some s → Apart (f s m))
    → Apart (maybe (get_elem? m.instances i) m (λ s. f s m))
round-Apart f i m a h = elim (Option-cases (get_elem? m.instances i)) [
  | inl e ↦ rw e a
  | inr (s, e) ↦ rw e (h s e)
]

tick_one-Apart :
    (t : Tick) (i : ℕ) (m : ProxyManager) (s : ProxySelector)
    → IsStill t.attempt
    → Apart m
    → get_elem? m.instances i ≡ some s
    → Apart (tick_one t i s m)
unfolding tick_one Apart
tick_one-Apart t i m s still a e =
    health_tick-IsDistinct t.notes t.now t.later t.result t.attempt i s m e a still

health_checks-Apart :
    (ticks : ℕ → Tick) (left i : ℕ) (m : ProxyManager)
    → ((j : ℕ) → IsStill (ticks j).attempt)
    → Apart m
    → Apart (health_checks ticks left i m)
unfolding health_checks
health_checks-Apart ticks zero i m still a = a
health_checks-Apart ticks (suc left) i m still a =
    health_checks-Apart ticks left (i + 1) _ still
      (round-Apart (tick_one (ticks i) i) i m a (λ s. tick_one-Apart (ticks i) i m s (still i) a))

watched-instances :
    (i : ℕ) (r : Option SwitchError × ProxySelector) (m : ProxyManager)
    → (watched i r m).instances ≡ set m.instances i r.1
unfolding watched mark_ok mark_down
watched-instances i (none, s) m =
    maybe_cases (λ n. n.instances ≡ set m.instances i s) (active_config s) (put i s m) _ refl
      (λ c. refl)
watched-instances i (some e, s) m = refl

watch_one-Apart :
    (open_ : Bool) (t : Attempt) (i : ℕ) (m : ProxyManager) (s : ProxySelector)
    → IsStill t
    → Apart m
    → get_elem? m.instances i ≡ some s
    → Apart (watch_one open_ t i s m)
unfolding watch_one Apart switch_instance mark_down
watch_one-Apart open_ t i m s still a e =
    if_cases Apart (not (is_ok (status_of m i)) || open_) _ _ (λ _. a)
      (λ _. subst IsDistinct (sym (watched-instances i r n)) (
        set-IsDistinct n i s r.1 a e
          (switch-KeyAllowed t.world t.later (build_excluding n i) t.probes t.during s (still s))))
  where
    n : ProxyManager
    n = mark_down i "watchdog: local SOCKS port unresponsive" m

    r : Option SwitchError × ProxySelector
    r = switch_instance t (build_excluding n i) s

watch-Apart :
    (socks_open : ℕ → Bool) (attempts : ℕ → Attempt) (left i : ℕ) (m : ProxyManager)
    → ((j : ℕ) → IsStill (attempts j))
    → Apart m
    → Apart (watch socks_open attempts left i m)
unfolding watch
watch-Apart o ts zero i m still a = a
watch-Apart o ts (suc left) i m still a = watch-Apart o ts left (i + 1) _ still (
    round-Apart (watch_one (o i) (ts i) i) i m a
      (λ s. watch_one-Apart (o i) (ts i) i m s (still i) a))

probe_relay-Apart :
    (configured working : Bool) (m : ProxyManager)
    → Apart m
    → Apart (probe_relay configured working m)
unfolding probe_relay Apart
probe_relay-Apart configured working m a =
    if_cases Apart (configured && is_some m.agg_relay) _ _ (λ _. a) (λ _. a)

-- A health round over all instances and the watchdog's check after it keep the instances apart: when
-- no two instances served the same key before, none do afterwards, whatever fails, switches or
-- restores on the way, and whatever the statuses and the ports are; given that nothing else touches
-- an instance while it switches.
pub rounds-IsDistinct :
    (ticks : ℕ → Tick) (configured working : Bool) (socks_open : ℕ → Bool) (attempts : ℕ → Attempt)
    (m : ProxyManager)
    → ((j : ℕ) → IsStill (ticks j).attempt)
    → ((j : ℕ) → IsStill (attempts j))
    → IsDistinct m.instances
    → IsDistinct
        (watchdog_check socks_open attempts (health_check_all ticks configured working m)).instances
unfolding watchdog_check health_check_all Apart
rounds-IsDistinct ticks configured working socks_open attempts m still calm a =
    watch-Apart socks_open attempts (length n.instances) 0 n calm (
      probe_relay-Apart configured working checked
        (health_checks-Apart ticks (length m.instances) 0 m still a))
  where
    checked : ProxyManager
    checked = health_checks ticks (length m.instances) 0 m

    n : ProxyManager
    n = probe_relay configured working checked
