-- ===== src/Probe/Tests.antt =====
-- Concrete probe sets and races.
use v2pro_dock.Base.{◌≡◌, refl, [], ◌∷◌, nat_equal, string_equal}
use v2pro_dock.Probe.{classify_probe, race_probe, unproven, reject}
use v2pro_dock.Probe.Race.{IsGraded, race_probe-working, verdict_by_order, any_accepted}
use v2pro_dock.Fixtures.{good_outcome, throttled_outcome, dead_outcome}

throttled_IsGraded : IsGraded throttled_outcome
throttled_IsGraded h = cc h

race_probe-working_example :
    (race_probe (throttled_outcome ∷ good_outcome ∷ [])).working
    ≡ any_accepted (throttled_outcome ∷ good_outcome ∷ [])
race_probe-working_example = race_probe-working throttled_outcome good_outcome [] throttled_IsGraded

verdict_by_order_example :
    (classify_probe (race_probe (dead_outcome ∷ throttled_outcome ∷ [])) ≡ reject)
    × (classify_probe (race_probe (throttled_outcome ∷ dead_outcome ∷ [])) ≡ unproven)
verdict_by_order_example =
    verdict_by_order dead_outcome throttled_outcome refl refl refl refl refl refl
