-- ===== src/Aggregate/Tests.antt =====
-- Two alive instances, the slower of which is the steadier.
use v2pro_dock.Base.{
  ℕ, ◌≤◌, ◌≡◌, refl, Bool, true, false, none, some, [], ◌∷◌, arith, nat_eq, if◌then◌else◌,
  nat_equal, string_equal, head?, All,
}
use v2pro_dock.Manager.{InstanceStatus, ProxyManager, ok, zero_status, alive}
use v2pro_dock.Aggregate.{Dialer, aggregate_candidates, pick_best_backend, serve_candidates}
use v2pro_dock.Aggregate.Insertion.{by_insertion, sort_by}
use v2pro_dock.Aggregate.Ladder.{pick-head-candidates}
use v2pro_dock.Aggregate.Budget.{Refuses, serve_candidates-reaches}
use v2pro_dock.Fixtures.{serving_a, serving_b}

abbrev slow_steady : InstanceStatus
slow_steady = record zero_status { index = 0; status = ok; lat_ms = 900; ok_streak = 5 }

abbrev fast_fresh : InstanceStatus
fast_fresh = record zero_status { index = 1; status = ok; lat_ms = 200; ok_streak = 0 }

abbrev two : ProxyManager
two = record {
  instances = serving_a ∷ serving_b ∷ [];
  statuses = slow_steady ∷ fast_fresh ∷ [];
  sub_urls = [];
  src_brk = record { fails = []; skip = [] };
  relay_alive = false;
  agg_relay = none;
}

pick-head_example : head? (aggregate_candidates by_insertion 3 false two) ≡ some 27_019
unfolding pick_best_backend sort_by alive
pick-head_example = pick-head-candidates by_insertion 3 false two 27_019 refl (omega arith)

-- Only the backend 27020 accepts, at once; the others take all the time that they are given.
abbrev answer : ℕ → ℕ → Bool × ℕ
answer port budget = if nat_eq port 27_020 then (true, 0) else (false, budget)

answer-in_time : (port budget : ℕ) → (answer port budget).1 ≤ budget
answer-in_time port budget = ground arith

abbrev dialer : Dialer
dialer = record { dial = answer; in_time = answer-in_time }

refusing : All (Refuses dialer) (27_019 ∷ 27_021 ∷ [])
refusing = (λ budget. refl, (λ budget. refl, tt))

serve_candidates-reaches_example :
    (serve_candidates dialer 100 (27_019 ∷ 27_021 ∷ 27_020 ∷ 27_023 ∷ [])).0 ≡ some 27_020
serve_candidates-reaches_example =
    serve_candidates-reaches dialer 100 (27_019 ∷ 27_021 ∷ []) 27_020 (27_023 ∷ []) refusing
      (omega arith) refl
