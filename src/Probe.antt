-- ===== src/Probe.antt =====
-- v2proxy/healthcheck.go: the verdict on one probe, the set of probe targets and the race between
-- them. The exchange with a target (testSingleURL) is the network's: a leg's result is a datum.
pub mod Legs
pub mod Race
pub mod Tests
use v2pro_dock.Base.{
  ℕ, String, Bool, true, false, not, ◌&&◌, ◌||◌, Option, none, some, List, [], ◌∷◌, ◌++◌, str_eq,
  ltb, leb, nat_eq, if◌then◌else◌, nat_equal, string_equal,
}

-- `HealthResult`. Of `Error` the code reads only whether it is nil. Durations are nanoseconds.
pub record HealthResult : Type 0 where
  pub latency : ℕ
  pub working : Bool
  pub failed : Bool
  pub status : ℕ
  pub url : String

-- The result of a completed or failed exchange, as `testSingleURL` builds it.
unfoldable pub completed : ℕ → ℕ → String → HealthResult
completed code latency url = record {
  latency = latency;
  working = leb 200 code && ltb code 400;
  failed = false;
  status = code;
  url = url;
}

unfoldable pub transport_failure : ℕ → String → HealthResult
transport_failure latency url = record {
  latency = latency;
  working = false;
  failed = true;
  status = 0;
  url = url;
}

unfoldable pub telegram_working : HealthResult → Bool
telegram_working r = not r.failed

unfoldable pub probe_inconclusive : HealthResult → Bool
probe_inconclusive r = nat_eq r.status 429 || nat_eq r.status 403

pub data ProbeVerdict : Type 0 where
  adopt unproven reject : ProbeVerdict

unfoldable pub classify_probe : HealthResult → ProbeVerdict
unfolding probe_inconclusive
classify_probe r = if r.working then adopt else if probe_inconclusive r then unproven else reject

-- `grade` of a leg: `statusOK` or `telegramWorking`.
pub data Grade : Type 0 where
  status_ok telegram : Grade

pub record ProbeLeg : Type 0 where
  pub url : String
  pub grade : Grade

unfoldable pub accepts : Grade → HealthResult → Bool
unfolding telegram_working
accepts status_ok r = r.working
accepts telegram r = telegram_working r

abbrev pub probe_url : String
probe_url = "https://www.gstatic.com/generate_204"

abbrev pub quick_fallback_url : String
quick_fallback_url = "https://cp.cloudflare.com/generate_204"

abbrev pub telegram_probe_url : String
telegram_probe_url = "https://api.telegram.org/"

-- `has(u)` of `probeLegs`.
unfoldable pub covers : String → List ProbeLeg → Bool
covers u [] = false
covers u (l ∷ ls) = str_eq l.url u || covers u ls

with_fallback : String → List ProbeLeg
with_fallback primary =
    record { url = primary; grade = status_ok }
    ∷ (if str_eq quick_fallback_url primary
        then []
        else record { url = quick_fallback_url; grade = status_ok } ∷ [])

-- `enabled` is `telegramProbeEnabled()`, the reading of TELEGRAM_PROBE.
with_telegram : Bool → List ProbeLeg → List ProbeLeg
unfolding covers
with_telegram enabled legs =
    if enabled && not (covers telegram_probe_url legs)
    then legs ++ record { url = telegram_probe_url; grade = telegram } ∷ []
    else legs

-- `cmp.Or(testURL, probeURL)`
unfoldable pub primary_url : String → String
primary_url test_url = if str_eq test_url "" then probe_url else test_url

unfoldable pub probe_legs : Bool → String → List ProbeLeg
unfolding with_fallback with_telegram
probe_legs enabled test_url = with_telegram enabled (with_fallback (primary_url test_url))

-- One arrival on the channel of the race.
pub record Outcome : Type 0 where
  pub res : HealthResult
  pub leg : ProbeLeg

-- `accept`: the accepted result, with `Working` set.
unfoldable pub accept : Outcome → Option HealthResult
unfolding accepts
accept o = if accepts o.leg.grade o.res then some (record o.res { working = true }) else none

-- The receives after the first; `first` is what is returned when none is accepted.
race_rest : HealthResult → List Outcome → HealthResult
unfolding accept
race_rest first [] = first
race_rest first (o ∷ os) =
    let rest = race_rest first os in elim (accept o) [ some r ↦ r | none ↦ rest ]

-- `raceProbe` on the outcomes in the order of their arrival, one for each leg. With a single leg
-- the result is returned as it is, and with none the probe fails.
unfoldable pub race_probe : List Outcome → HealthResult
unfolding accept race_rest transport_failure
race_probe [] = transport_failure 0 ""
race_probe (o ∷ []) = o.res
race_probe (o ∷ p ∷ os) =
    let rest = race_rest o.res (p ∷ os) in elim (accept o) [ some r ↦ r | none ↦ rest ]
