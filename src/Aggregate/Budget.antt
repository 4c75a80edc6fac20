-- ===== src/Aggregate/Budget.antt =====
-- How long one connection may walk the ladder, and whom it reaches.
use v2pro_dock.Base.{
  ℕ, ◌+◌, ◌-◌, ◌*◌, ◌≤◌, min, ◌≡◌, true, false, some, List, [], ◌∷◌, ◌++◌, arith, nat_equal,
  string_equal, length, All,
}
use v2pro_dock.Aggregate.{
  Dialer, walk, serve_candidates, agg_failover_budget, agg_candidate_dial_budget,
}

walk-in_time :
    (d : Dialer) (deadline now : ℕ) (cs : List ℕ)
    → now ≤ deadline
    → (walk d deadline now cs).1 ≤ deadline
unfolding walk
walk-in_time d deadline now [] h = h
walk-in_time d deadline now (c ∷ cs) h =
    let budget = min (deadline - now) agg_candidate_dial_budget in
    ground (arith, d.in_time c budget, walk-in_time d deadline (now + (d.dial c budget).1) cs)

-- Whatever the backends do, the walk of one connection ends within the failover budget.
pub serve_candidates-in_time :
    (d : Dialer) (now : ℕ) (cands : List ℕ)
    → (serve_candidates d now cands).1 ≤ now + agg_failover_budget
unfolding serve_candidates
serve_candidates-in_time d now cands =
    walk-in_time d (now + agg_failover_budget) now cands (omega arith)

-- The backend accepts within the budget of one candidate.
abbrev pub Accepts : Dialer → ℕ → Type 0
Accepts d c = (d.dial c agg_candidate_dial_budget).0 ≡ true

-- The backend refuses, whatever the budget.
abbrev pub Refuses : Dialer → ℕ → Type 0
Refuses d c = (budget : ℕ) → (d.dial c budget).0 ≡ false

walk-reaches :
    (d : Dialer) (deadline now : ℕ) (pre : List ℕ) (c : ℕ) (post : List ℕ)
    → All (Refuses d) pre
    → Accepts d c
    → now + (length pre + 1) * agg_candidate_dial_budget ≤ deadline
    → (walk d deadline now (pre ++ c ∷ post)).0 ≡ some c
unfolding walk
walk-reaches d deadline now [] c post r a h =
    let e : min (deadline - now) agg_candidate_dial_budget ≡ agg_candidate_dial_budget =
      omega arith in
    rw e (ground (arith, a))
walk-reaches d deadline now (b ∷ pre) c post r a h =
    let e : min (deadline - now) agg_candidate_dial_budget ≡ agg_candidate_dial_budget =
      omega arith in
    rw e (
      ground (
        arith,
        r.0 agg_candidate_dial_budget,
        d.in_time b agg_candidate_dial_budget,
        walk-reaches d deadline (now + (d.dial b agg_candidate_dial_budget).1) pre c post r.1 a,
      ))

-- Up to five backends that refuse or swallow a connection, each for as long as its budget lasts,
-- do not keep it from the next one on the ladder that accepts.
pub serve_candidates-reaches :
    (d : Dialer) (now : ℕ) (pre : List ℕ) (c : ℕ) (post : List ℕ)
    → All (Refuses d) pre
    → length pre ≤ 5
    → Accepts d c
    → (serve_candidates d now (pre ++ c ∷ post)).0 ≡ some c
unfolding serve_candidates
serve_candidates-reaches d now pre c post r n a =
    walk-reaches d (now + agg_failover_budget) now pre c post r a (omega arith)
