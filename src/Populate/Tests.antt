-- ===== src/Populate/Tests.antt =====
-- An instance that looks for its first upstream.
use v2pro_dock.Probe.{classify_probe}
use v2pro_dock.Pool.{key}
use v2pro_dock.Base.{
  ℕ, ◌≡◌, refl, ◌≢◌, true, false, none, some, [], arith, nat_eq, if◌then◌else◌, nat_equal,
  string_equal,
}
use v2pro_dock.Base.Dict.{lookup}
use v2pro_dock.Base.Int.{negsuc}
use v2pro_dock.Ledger.{is_bad, new_ledger}
use v2pro_dock.Selector.{ProxySelector}
use v2pro_dock.Populate.{Trial, start_shared, try_configs}
use v2pro_dock.Populate.Claims.{Ended, try_configs-Ended}
use v2pro_dock.Populate.Poison.{any_condemned, poison_needs_proof, condemned}
use v2pro_dock.Populate.Retry.{AllStart, AllThrottled, IsClean, throttled_not_retried}
use v2pro_dock.Fixtures.{throttled, dead, serving_a, up}

abbrev waiting : ProxySelector
waiting = record serving_a { active_index = negsuc 0; xray = none }

-- The first candidate fails its probe, the second is throttled, the third works.
abbrev trials : ℕ → Trial
trials i =
    if nat_eq i 0
    then record { late = false; exited = false; world = record up { verify = dead } }
    else if nat_eq i 1
    then record { late = false; exited = false; world = record up { verify = throttled } }
    else record { late = false; exited = false; world = up }

try_configs_example :
    Ended []
      (record { selector = waiting; ledger = some new_ledger; skipped = 0 })
      (try_configs true [] trials (some new_ledger) waiting)
try_configs_example = try_configs-Ended true [] trials (some new_ledger) waiting

poison_needs_proof_example :
    is_bad (try_configs true [] trials (some new_ledger) waiting).1.ledger "b.example:443" ≡ false
unfolding is_bad lookup any_condemned key condemned classify_probe
poison_needs_proof_example =
    poison_needs_proof true [] trials (some new_ledger) waiting "b.example:443" refl refl

abbrev all_throttled : ℕ → Trial
all_throttled i = record { late = false; exited = false; world = record up { verify = throttled } }

throttles : AllThrottled all_throttled
unfolding classify_probe
throttles i = (refl, refl)

starts : AllStart all_throttled
starts i c = (refl, refl)

clean : IsClean (some new_ledger)
unfolding is_bad lookup
clean k = refl

throttled_not_retried_example :
    (start_shared [] all_throttled trials (some new_ledger) waiting
      ≡ try_configs true [] all_throttled (some new_ledger) waiting)
    × ((start_shared [] all_throttled trials (some new_ledger) waiting).0 ≢ none)
throttled_not_retried_example =
    throttled_not_retried [] all_throttled trials (some new_ledger) waiting (omega arith) throttles
      starts clean
