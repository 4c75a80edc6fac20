-- ===== src/Breaker/Tests.antt =====
-- The breaker at concrete sources.
use v2pro_dock.Base.{◌≡◌, refl, true, false, [], ◌∷◌, All, string_equal}
use v2pro_dock.Base.Dict.{lookup}
use v2pro_dock.Breaker.{SrcBreaker, dead_cycles, after_dead}
use v2pro_dock.Breaker.Rest.{rests_after_threshold, never_rests_again}

abbrev fresh : SrcBreaker
fresh = record { fails = []; skip = [] }

rests_after_threshold_example :
    dead_cycles 9 fresh "http://dead"
    ≡ true ∷ true ∷ true ∷ false ∷ false ∷ false ∷ false ∷ false ∷ true ∷ []
unfolding lookup
rests_after_threshold_example = rests_after_threshold fresh "http://dead" refl refl

never_rests_again_example :
    All (λ a. a ≡ true) (dead_cycles 40 (after_dead 8 fresh "http://dead") "http://dead")
unfolding lookup
never_rests_again_example = never_rests_again fresh "http://dead" refl refl 40
