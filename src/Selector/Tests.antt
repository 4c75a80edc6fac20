-- ===== src/Selector/Tests.antt =====
-- An instance through a refresh, checks and scans.
use v2pro_dock.Base.{◌≤◌, ◌≡◌, refl, ◌↔◌, false, [], ◌∷◌, nat_equal, string_equal}
use v2pro_dock.Selector.{active_config, serving_clients}
use v2pro_dock.Selector.Health.{Check, check, checked, evidence, fails, gives_up_iff, strikes}
use v2pro_dock.Selector.Serving.{blind_since, scanned, serving_clients_lem}
use v2pro_dock.Fixtures.{conf_a, good, throttled, dead, serving_a, one_client, blind}

abbrev failing : Check
failing = record { notes = []; now = 5; later = 6; result = dead }

abbrev throttling : Check
throttling = record { notes = []; now = 5; later = 6; result = throttled }

abbrev passing : Check
passing = record { notes = []; now = 5; later = 6; result = good }

gives_up_example :
    ((check failing (checked serving_a (throttling ∷ failing ∷ failing ∷ []))).0 ≡ false) ↔ (
      (evidence serving_a failing ≡ fails)
      × (3 ≤ strikes serving_a (failing ∷ throttling ∷ failing ∷ failing ∷ [])))
gives_up_example =
    gives_up_iff serving_a failing (throttling ∷ failing ∷ failing ∷ []) conf_a
      (unfold active_config in refl)

-- Two blind scans, eleven minutes apart.
serving_clients_example :
    (serving_clients blind 661_000_000_000
      (scanned serving_a ((blind, 1_000_000_000) ∷ (one_client, 5) ∷ []))).0
    ≡ false
unfolding blind_since
serving_clients_example =
    serving_clients_lem serving_a ((blind, 1_000_000_000) ∷ (one_client, 5) ∷ []) blind
      661_000_000_000
