-- ===== src/Watchdog/Tests.antt =====
-- A sweep over three processes, and two instances that stay apart.
use v2pro_dock.Base.{String, ◌≡◌, refl, true, false, some, List, [], ◌∷◌, nat_equal, string_equal}
use v2pro_dock.Stdlib.Sample.{sample}
use v2pro_dock.Fixtures.{dead}
use v2pro_dock.Upkeep.Distinct.{IsDistinct}
use v2pro_dock.Upkeep.Tests.{strained, distinct, attempt}
use v2pro_dock.Watchdog.{member_pid, Sweep, prune_orphan_xray, Children, managed_pids}
use v2pro_dock.Watchdog.Prune.{prune_spares_children}
use v2pro_dock.Watchdog.Check.{Tick, health_check_all, watchdog_check}
use v2pro_dock.Watchdog.Rounds.{rounds-IsDistinct}

abbrev xray_line : List String
xray_line = "/x/xray" ∷ "run" ∷ "-c" ∷ "/x/config-1.json" ∷ []

abbrev children : List Children
children = record { current = 7; temps = 8 ∷ [] } ∷ []

abbrev sweep : Sweep
sweep = record {
  self = 1;
  pids = 1 ∷ 7 ∷ 8 ∷ 9 ∷ [];
  procs = λ p. some xray_line;
  live = 7 ∷ 8 ∷ [];
  procs_later = λ p. some xray_line;
  live_later = 7 ∷ 8 ∷ [];
}

-- The process 9 is an orphan.
orphan_dies : prune_orphan_xray sample "/x" sweep ≡ 9 ∷ []
unfolding prune_orphan_xray
orphan_dies = refl

prune_spares_children_example : member_pid 8 (prune_orphan_xray sample "/x" sweep) ≡ false
unfolding managed_pids
prune_spares_children_example =
    prune_spares_children sample "/x" sweep children children 8 refl refl refl

abbrev tick : Tick
tick = record { notes = []; now = 900; later = 901; result = dead; attempt = attempt }

rounds-IsDistinct_example :
    IsDistinct
      (watchdog_check
        (λ i. false)
        (λ i. attempt)
        (health_check_all (λ i. tick) true true strained)).instances
rounds-IsDistinct_example =
    rounds-IsDistinct (λ i. tick) true true (λ i. false) (λ i. attempt) strained (λ j x. refl)
      (λ j x. refl) distinct
