-- ===== src/Ledger/Exclusion.antt =====
-- Any number of workers over one ledger, interleaved at will.
use v2pro_dock.Base.{
  ℕ, String, ◌≡◌, true, Option, none, some, arith, eq_iff, nat_eq, if◌then◌else◌, nat_equal,
  string_equal,
}
use v2pro_dock.Base.Dict.{has, lookup-delete, lookup-insert}
use v2pro_dock.Ledger.{Ledger, new_ledger, try_claim, unclaim, mark_bad}

-- The ledger, and what each worker (by its number) holds.
pub record System : Type 0 where
  pub ledger : Ledger
  pub holds : ℕ → Option String

abbrev pub update : (ℕ → Option String) → ℕ → Option String → ℕ → Option String
update f w v u = if nat_eq w u then v else f u

-- One step of one worker: it claims a candidate if `tryClaim` lets it, gives up the candidate that
-- it holds, or marks a candidate bad.
pub data Step (s : System) : System → Type 0 where
  claims :
      (w : ℕ) (k : String) (l : Ledger)
      → s.holds w ≡ none
      → try_claim (some s.ledger) k ≡ (true, some l)
      → Step s (record { ledger = l; holds = update s.holds w (some k) })
  gives_up :
      (w : ℕ) (k : String) (l : Ledger)
      → s.holds w ≡ some k
      → unclaim (some s.ledger) k ≡ some l
      → Step s (record { ledger = l; holds = update s.holds w none })
  marks :
      (k : String) (l : Ledger)
      → mark_bad (some s.ledger) k ≡ some l
      → Step s (record { ledger = l; holds = s.holds })

pub data Reach : System → Type 0 where
  start : Reach (record { ledger = new_ledger; holds = λ w. none })
  next : {s t : System} → Reach s → Step s t → Reach t

pub record IsExclusive (s : System) : Type 0 where
  pub held : (w : ℕ) (k : String) → s.holds w ≡ some k → has k s.ledger.claimed ≡ true
  pub one_holder : (u w : ℕ) (k : String) → s.holds u ≡ some k → s.holds w ≡ some k → u ≡ w

claims-IsExclusive :
    (s : System) (w : ℕ) (k : String) (l : Ledger)
    → try_claim (some s.ledger) k ≡ (true, some l)
    → IsExclusive s
    → IsExclusive (record { ledger = l; holds = update s.holds w (some k) })
unfolding try_claim
claims-IsExclusive s w k l c v = record {
  held = λ u j h. ground (arith, lookup-insert k j tt s.ledger.claimed, v.held u j, eq_iff k j);
  one_holder = λ u x j hu hx. ground (arith, v.held u j, v.held x j, v.one_holder u x j);
}

gives_up-IsExclusive :
    (s : System) (w : ℕ) (k : String) (l : Ledger)
    → s.holds w ≡ some k
    → unclaim (some s.ledger) k ≡ some l
    → IsExclusive s
    → IsExclusive (record { ledger = l; holds = update s.holds w none })
unfolding unclaim
gives_up-IsExclusive s w k l h c v = record {
  held = λ u j hu.
      ground
        (arith, lookup-delete k j s.ledger.claimed, v.held u j, v.one_holder w u j, eq_iff k j);
  one_holder = λ u x j hu hx. ground (arith, v.one_holder u x j);
}

Step-IsExclusive : {s t : System} → Step s t → IsExclusive s → IsExclusive t
unfolding mark_bad
Step-IsExclusive {s} (claims w k l h c) v = claims-IsExclusive s w k l c v
Step-IsExclusive {s} (gives_up w k l h c) v = gives_up-IsExclusive s w k l h c v
Step-IsExclusive {s} (marks k l c) v = record {
  held = λ u j hu. ground (arith, v.held u j);
  one_holder = λ u x j hu hx. v.one_holder u x j hu hx;
}

-- In every state that the workers can reach, what a worker holds is claimed in the ledger, and no
-- two workers hold the same candidate.
pub Reach-IsExclusive : {s : System} → Reach s → IsExclusive s
Reach-IsExclusive start = record { held = λ w k h. cc; one_holder = λ u w k h. cc }
Reach-IsExclusive (next r st) = Step-IsExclusive st (Reach-IsExclusive r)
