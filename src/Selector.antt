-- ===== src/Selector.antt =====
-- `ProxySelector` of v2proxy/selector.go: one serving instance, its pool, its health and the
-- evidence that it serves a client. A method that holds the mutex throughout is one step. Times
-- and durations are nanoseconds, `none` is Go's zero time, and each clock reading is an argument.
-- `activeIndex` is an `int` that is -1 when nothing is served.
pub mod Anchor
pub mod Health
pub mod Serving
pub mod Tests
use v2pro_dock.Base.{
  ℕ, ◌+◌, ◌-◌, ◌*◌, String, Bool, true, false, Option, none, some, List, [], ◌∷◌, str_eq, ltb, leb,
  if◌then◌else◌, nat_equal, string_equal, get_elem?,
}
use v2pro_dock.Base.Dict.{Dict, insert, delete}
use v2pro_dock.Base.Int.{ℤ, pos, negsuc}
use v2pro_dock.Pool.{ProxyConfig, key}
use v2pro_dock.Probe.{HealthResult, probe_inconclusive}
use v2pro_dock.Egress.{EgressNotes, egress_active, egress_grace, second}

abbrev pub health_fail_threshold : ℕ
health_fail_threshold = 3

abbrev pub subscription_refresh_interval : ℕ
subscription_refresh_interval = 120 * second

abbrev pub serving_socket_unproven_grace : ℕ
serving_socket_unproven_grace = 5 * subscription_refresh_interval

-- `xray` is the PID of the managed child, if there is one.
pub record ProxySelector : Type 0 where
  pub configs : List ProxyConfig
  pub active_index : ℤ
  pub fail_count : ℕ
  pub xray : Option ℕ
  pub socks_port : ℕ
  pub http_port : ℕ
  pub relay_port : ℕ
  pub check_interval : ℕ
  pub last_check : Option ℕ
  pub last_latency : ℕ
  pub last_probe : Option ℕ
  pub ok_streak : ℕ
  pub active_since : Option ℕ
  pub temp_pids : Dict ℕ Bool
  pub serving_unproven : Option ℕ

-- `NewProxySelector`; the relay port is set later, and zero is off.
unfoldable pub new_selector : ℕ → ℕ → ℕ → ProxySelector
new_selector socks http interval = record {
  configs = [];
  active_index = negsuc 0;
  fail_count = 0;
  xray = none;
  socks_port = socks;
  http_port = http;
  relay_port = 0;
  check_interval = interval;
  last_check = none;
  last_latency = 0;
  last_probe = none;
  ok_streak = 0;
  active_since = none;
  temp_pids = [];
  serving_unproven = none;
}

-- `xs[i]` behind the guard `i < 0 || i >= len(xs)`
abbrev pub at_index {ℓ} : {A : Type ℓ} → List A → ℤ → Option A
at_index xs (pos i) = get_elem? xs i
at_index xs (negsuc i) = none

unfoldable pub active_config : ProxySelector → Option ProxyConfig
active_config s = at_index s.configs s.active_index

-- The index that `slices.IndexFunc` and the loops over a pool find for a key, counted from `i`.
index_from : ℕ → String → List ProxyConfig → ℤ
index_from i k [] = negsuc 0
index_from i k (c ∷ cs) =
    let rest = index_from (i + 1) k cs in if str_eq (key c) k then pos i else rest

unfoldable pub index_of : String → List ProxyConfig → ℤ
unfolding index_from
index_of k cs = index_from 0 k cs

-- The key of the active config, or the empty string.
abbrev pub key_or_empty : Option ProxyConfig → String
key_or_empty none = ""
key_or_empty (some c) = key c

unfoldable pub update_configs : List ProxyConfig → ProxySelector → ProxySelector
unfolding active_config index_of
update_configs new s =
    let active_key = key_or_empty (active_config s) in
    record s {
      configs = new;
      active_index = if str_eq active_key "" then negsuc 0 else index_of active_key new;
    }

abbrev retain_at : ℤ → ProxyConfig → ProxySelector → ProxySelector
retain_at (pos i) c s = record s { active_index = pos i }
retain_at (negsuc _) c s = record s { configs = c ∷ s.configs; active_index = pos 0 }

unfoldable pub retain_active : ProxyConfig → ProxySelector → ProxySelector
unfolding index_of
retain_active c s = retain_at (index_of (key c) s.configs) c s

unfoldable pub should_check : ℕ → ProxySelector → Bool
should_check now s = elim s.last_check [ none ↦ true | some t ↦ leb s.check_interval (now - t) ]

unfoldable pub latency_fresh : ℕ → ℕ → ProxySelector → Bool
latency_fresh max_age now s = elim s.last_probe [ none ↦ false | some t ↦ leb (now - t) max_age ]

unfoldable pub serving_traffic : EgressNotes → ℕ → ProxySelector → Bool
serving_traffic notes now s = egress_active (s.http_port ∷ s.socks_port ∷ []) egress_grace now notes

-- The scan of the sockets: how many clients, and whether the answer is proven.
pub record Scan : Type 0 where
  pub clients : ℕ
  pub proven : Bool

unfoldable pub serving_clients : Scan → ℕ → ProxySelector → Bool × ProxySelector
serving_clients scan now s =
    if scan.proven
    then (ltb 0 scan.clients, record s { serving_unproven = none })
    else (elim s.serving_unproven [
      | none ↦ (true, record s { serving_unproven = some now })
      | some since ↦ (ltb (now - since) serving_socket_unproven_grace, s)
    ])

unfoldable pub clear_serving_unproven : ProxySelector → ProxySelector
clear_serving_unproven s = record s { serving_unproven = none }

-- `HealthCheck`. `now` and `later` are the readings for `lastCheck` and `activeSince`; `result` is
-- that of the probe, which is made only when the passive proof fails.
unfoldable pub health_check :
    EgressNotes → ℕ → ℕ → HealthResult → ProxySelector → Bool × ProxySelector
unfolding active_config serving_traffic
health_check notes now later result s = elim (active_config s) [
  | none ↦ (false, s)
  | some c ↦
      if serving_traffic notes now s
      then (true, record s { last_check = some now; fail_count = 0; ok_streak = s.ok_streak + 1 })
      else probed
]
  where
    measured : ProxySelector
    measured = record s {
      last_check = some now;
      last_latency = result.latency;
      last_probe = some now;
    }

    since : Option ℕ
    since = elim s.active_since [ none ↦ some later | some t ↦ some t ]

    probed : Bool × ProxySelector
    probed =
        if result.working
        then (
          true,
          record measured { fail_count = 0; ok_streak = s.ok_streak + 1; active_since = since },
        )
        else if probe_inconclusive result
        then (true, measured)
        else (
          ltb (s.fail_count + 1) health_fail_threshold,
          record measured { fail_count = s.fail_count + 1; ok_streak = 0 },
        )

-- `trackTemp`, `untrackTemp`: the PIDs of the throwaway probes in flight.
unfoldable pub track_temp : ℕ → ProxySelector → ProxySelector
track_temp pid s = if ltb 0 pid then record s { temp_pids = insert pid true s.temp_pids } else s

unfoldable pub untrack_temp : ℕ → ProxySelector → ProxySelector
untrack_temp pid s = record s { temp_pids = delete pid s.temp_pids }
