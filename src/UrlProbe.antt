-- ===== src/UrlProbe.antt =====
-- `runURLCheck` and `probePoolForURL` of v2proxy/urlcheck.go: one round of probing for a URL.
-- What the probes answer, in the order in which their goroutines take the mutex, is an argument:
-- for the pool, those of the candidates that were attempted before the budget was over.
pub mod Tally
pub mod Tests
use v2pro_dock.Base.{
  ℕ, ◌+◌, ◌-◌, ◌/◌, min, max, String, Bool, true, false, ◌&&◌, Option, none, some, List, [], ◌∷◌,
  ◌++◌, str_eq, ltb, nat_eq, if◌then◌else◌, nat_equal, string_equal, length, take,
}
use v2pro_dock.Base.Int.{ℤ, pos, negsuc}
use v2pro_dock.Pool.{ProxyConfig, key}
use v2pro_dock.Probe.{HealthResult}
use v2pro_dock.Selector.{ProxySelector, active_config, key_or_empty}
use v2pro_dock.UrlCheck.{CheckedProxy, UrlCheckResult}

abbrev pub switch_workers_default : ℕ
switch_workers_default = 3

abbrev pub switch_workers_max : ℕ
switch_workers_max = 8

-- `switchWorkerCount`: `v` is the variable without its blanks, `atoi` is `strconv.Atoi`.
unfoldable pub switch_worker_count : (String → Option ℤ) → String → ℕ
switch_worker_count atoi v = if str_eq v "" then switch_workers_default else (elim (atoi v) [
  | none ↦ switch_workers_default
  | some (negsuc _) ↦ 1
  | some (pos n) ↦ min (max n 1) switch_workers_max
])

-- The instances that serve an upstream, numbered from `i`.
serving_from : ℕ → List ProxySelector → List (ℕ × ProxyConfig)
unfolding active_config
serving_from i [] = []
serving_from i (s ∷ ss) =
    let rest = serving_from (i + 1) ss in
    elim (active_config s) [ none ↦ rest | some c ↦ (i, c) ∷ rest ]

unfoldable pub serving_instances : List ProxySelector → List (ℕ × ProxyConfig)
unfolding serving_from
serving_instances insts = serving_from 0 insts

abbrev pub by_instance : ℕ → ProxyConfig → HealthResult → CheckedProxy
by_instance i c r = record {
  name = c.name;
  endpoint = key c;
  instance_index = some i;
  latency_ms = r.latency / 1_000_000;
  from_pool = false;
}

abbrev pub by_pool : ProxyConfig → HealthResult → CheckedProxy
by_pool c r = record {
  name = c.name;
  endpoint = key c;
  instance_index = none;
  latency_ms = r.latency / 1_000_000;
  from_pool = true;
}

-- The body of a goroutine of the first part.
abbrev tally_one : ℕ → ProxyConfig → HealthResult → UrlCheckResult → UrlCheckResult
tally_one i c r res =
    if r.working
    then record res { checked = res.checked + 1; alive = res.alive ++ by_instance i c r ∷ [] }
    else record res { checked = res.checked + 1; failed = res.failed + 1 }

unfoldable pub tally : List ((ℕ × ProxyConfig) × HealthResult) → UrlCheckResult → UrlCheckResult
tally [] res = res
tally (((i, c), r) ∷ done) res = tally done (tally_one i c r res)

-- `cfg.Key() != activeKey`
unfoldable pub without_key : String → List ProxyConfig → List ProxyConfig
without_key k [] = []
without_key k (c ∷ cs) = let rest = without_key k cs in if str_eq (key c) k then rest else c ∷ rest

-- The candidates are truncated before the served config is dropped.
unfoldable pub pool_candidates : ℕ → ProxySelector → List ProxyConfig
unfolding without_key active_config
pool_candidates depth s = without_key (key_or_empty (active_config s)) (take depth s.configs)

unfoldable pub pool_working : List (ProxyConfig × HealthResult) → List CheckedProxy
pool_working [] = []
pool_working ((c, r) ∷ done) =
    let rest = pool_working done in if r.working then by_pool c r ∷ rest else rest

-- `probePoolForURL`: what works, how many were probed, and whether the pool was truncated.
unfoldable pub probe_pool_for_url :
    ℕ → ℕ → List ProxySelector → List (ProxyConfig × HealthResult) → List CheckedProxy × ℕ × Bool
unfolding pool_candidates pool_working
probe_pool_for_url workers depth [] done = ([], 0, false)
probe_pool_for_url workers depth (s ∷ ss) done =
    let truncated = ltb depth (length s.configs) in
    if ltb (min workers (length (pool_candidates depth s))) 1
    then ([], 0, truncated)
    else (pool_working done, length done, truncated)

-- The second part, added to the result of the first.
abbrev widened : List CheckedProxy × ℕ × Bool → UrlCheckResult → UrlCheckResult
widened (working, probed, truncated) res = record res {
  pool = working;
  truncated = truncated;
  checked = res.checked + probed;
  failed = res.failed + (probed - length working);
}

abbrev pub empty_result : String → String → ℕ → UrlCheckResult
empty_result k url depth = record {
  result_key = k;
  probed_url = url;
  alive = [];
  pool = [];
  depth = depth;
  checked = 0;
  failed = 0;
  cached = false;
  truncated = false;
}

-- `runURLCheck`: whether there is an error, and the result. `in_budget` is whether the budget has
-- time left after the first part.
unfoldable pub run_url_check :
    ℕ
    → String
    → String
    → ℕ
    → Bool
    → List ((ℕ × ProxyConfig) × HealthResult)
    → List (ProxyConfig × HealthResult)
    → List ProxySelector
    → Bool × UrlCheckResult
unfolding tally probe_pool_for_url
run_url_check workers k url depth in_budget done pool_done insts =
    let first = tally done (empty_result k url depth) in
    let both = widened (probe_pool_for_url workers depth insts pool_done) first in
    let res = if ltb 0 depth && in_budget then both else first in (nat_eq res.checked 0, res)
