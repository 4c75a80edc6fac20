-- ===== src/Watchdog/Check.antt =====
-- `HealthCheckAll` of v2proxy/manager.go and `WatchdogCheck` of v2proxy/watchdog.go: the loops over
-- the instances. What the check of an instance meets is an argument for each index.
use v2pro_dock.Base.{
  ℕ, zero, suc, ◌+◌, Bool, not, ◌&&◌, ◌||◌, Option, none, some, if◌then◌else◌, nat_equal,
  string_equal, maybe, length, get_elem?, is_some,
}
use v2pro_dock.Probe.{HealthResult}
use v2pro_dock.Egress.{EgressNotes}
use v2pro_dock.Selector.{ProxySelector, active_config}
use v2pro_dock.Switch.{SwitchError}
use v2pro_dock.Manager.{ProxyManager, build_excluding, mark_down, mark_ok, status_of, is_ok}
use v2pro_dock.Upkeep.{Attempt, put, switch_instance, health_tick, message}

-- What the round of `HealthCheckAll` for one instance meets.
pub record Tick : Type 0 where
  pub notes : EgressNotes
  pub now : ℕ
  pub later : ℕ
  pub result : HealthResult
  pub attempt : Attempt

unfoldable pub tick_one : Tick → ℕ → ProxySelector → ProxyManager → ProxyManager
unfolding health_tick
tick_one t i s m = health_tick t.notes t.now t.later t.result t.attempt i s m

-- The loop from the instance `i` on, with `left` instances to go.
unfoldable pub health_checks : (ℕ → Tick) → ℕ → ℕ → ProxyManager → ProxyManager
unfolding tick_one
health_checks ticks zero i m = m
health_checks ticks (suc left) i m =
    health_checks ticks left (i + 1)
      (maybe (get_elem? m.instances i) m (λ s. tick_one (ticks i) i s m))

-- `probeRelay`: nothing without a relay or its address, else one probe through the aggregate.
unfoldable pub probe_relay : Bool → Bool → ProxyManager → ProxyManager
probe_relay configured working m =
    if configured && is_some m.agg_relay then record m { relay_alive = working } else m

-- `HealthCheckAll`
unfoldable pub health_check_all : (ℕ → Tick) → Bool → Bool → ProxyManager → ProxyManager
unfolding health_checks probe_relay
health_check_all ticks configured working m =
    probe_relay configured working (health_checks ticks (length m.instances) 0 m)

-- The switch of an instance whose SOCKS port is dead: its status, if it serves a config again.
unfoldable pub watched : ℕ → Option SwitchError × ProxySelector → ProxyManager → ProxyManager
unfolding mark_down mark_ok active_config
watched i (some e, s) m = mark_down i (message e) (put i s m)
watched i (none, s) m =
    maybe (active_config s) (put i s m) (λ c. mark_ok i c.name s.last_latency (put i s m))

-- The body of the loop of `WatchdogCheck`; rebinding the HTTP port changes no state of the manager.
unfoldable pub watch_one : Bool → Attempt → ℕ → ProxySelector → ProxyManager → ProxyManager
unfolding watched mark_down build_excluding switch_instance status_of
watch_one socks_open a i s m =
    let n = mark_down i "watchdog: local SOCKS port unresponsive" m in
    if not (is_ok (status_of m i)) || socks_open
    then m
    else watched i (switch_instance a (build_excluding n i) s) n

unfoldable pub watch : (ℕ → Bool) → (ℕ → Attempt) → ℕ → ℕ → ProxyManager → ProxyManager
unfolding watch_one
watch socks_open attempts zero i m = m
watch socks_open attempts (suc left) i m =
    watch socks_open attempts left (i + 1)
      (maybe (get_elem? m.instances i) m (λ s. watch_one (socks_open i) (attempts i) i s m))

-- `WatchdogCheck` before its prune
unfoldable pub watchdog_check : (ℕ → Bool) → (ℕ → Attempt) → ProxyManager → ProxyManager
unfolding watch
watchdog_check socks_open attempts m = watch socks_open attempts (length m.instances) 0 m
