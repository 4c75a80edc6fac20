-- ===== src/Probe/Race.antt =====
-- What the race returns, and how that hangs on the order of arrival.
use v2pro_dock.Base.{
  ◌≡◌, refl, ◌⊎◌, inl, inr, Bool, true, false, ◌||◌, List, [], ◌∷◌, arith, if◌then◌else◌,
  Bool-cases, nat_equal, string_equal,
}
use v2pro_dock.Probe.{
  HealthResult, Outcome, Grade, status_ok, telegram, accepts, race_rest, race_probe, classify_probe,
  adopt, unproven, reject,
}

-- Some leg of the race accepts its own result.
unfoldable pub any_accepted : List Outcome → Bool
any_accepted [] = false
any_accepted (o ∷ os) = accepts o.leg.grade o.res || any_accepted os

race_rest-working :
    (first : HealthResult) (os : List Outcome)
    → (race_rest first os).working ≡ (any_accepted os || first.working)
unfolding race_rest any_accepted
race_rest-working first [] = refl
race_rest-working first (o ∷ os) = ground (arith, race_rest-working first os)

race_rest-first :
    (first : HealthResult) (os : List Outcome)
    → any_accepted os ≡ false
    → race_rest first os ≡ first
unfolding race_rest any_accepted
race_rest-first first [] h = refl
race_rest-first first (o ∷ os) h = ground (arith, race_rest-first first os)

-- A leg's own working result is accepted by its rule.
abbrev pub IsGraded : Outcome → Type 0
IsGraded o = o.res.working ≡ true → accepts o.leg.grade o.res ≡ true

-- With two legs or more, and a first result that its own leg accepts if it works, a probe reports
-- a working tunnel exactly when some leg accepts its own result, in whatever order they arrive.
pub race_probe-working :
    (o p : Outcome) (os : List Outcome)
    → IsGraded o
    → (race_probe (o ∷ p ∷ os)).working ≡ any_accepted (o ∷ p ∷ os)
unfolding race_probe any_accepted
race_probe-working o p os h = ground (arith, race_rest-working o.res (p ∷ os), h)

-- When no leg is accepted, the result is that of the first arrival, untouched.
pub race_probe-none :
    (o p : Outcome) (os : List Outcome)
    → any_accepted (o ∷ p ∷ os) ≡ false
    → race_probe (o ∷ p ∷ os) ≡ o.res
unfolding race_probe any_accepted
race_probe-none o p os h = ground (arith, race_rest-first o.res (p ∷ os))

-- A target that throttles or forbids the probe never condemns the candidate if its answer is the
-- first of two or more, and is accepted by its own leg if it works: the verdict is then adoption,
-- when some leg is accepted, or stays open.
pub throttled_first :
    (o p : Outcome) (os : List Outcome)
    → (o.res.status ≡ 429) ⊎ (o.res.status ≡ 403)
    → IsGraded o
    → classify_probe (race_probe (o ∷ p ∷ os))
      ≡ (if any_accepted (o ∷ p ∷ os) then adopt else unproven)
unfolding classify_probe
throttled_first o p os h g = elim (Bool-cases (any_accepted (o ∷ p ∷ os))) [
  | inl e ↦ rw e (ground (arith, e, race_probe-working o p os g))
  | inr e ↦
      rw (e, race_probe-none o p os e)
        (ground (arith, e, h, race_probe-working o p os g, race_probe-none o p os e))
]

-- The verdict on two probes neither of which is accepted hangs on which of them arrives first: a
-- failed transport before a throttled answer rejects the candidate, and the other way round it
-- stays unproven.
pub verdict_by_order :
    (dead throttled : Outcome)
    → dead.res.failed ≡ true
    → dead.res.working ≡ false
    → dead.res.status ≡ 0
    → throttled.leg.grade ≡ status_ok
    → throttled.res.working ≡ false
    → throttled.res.status ≡ 429
    → (classify_probe (race_probe (dead ∷ throttled ∷ [])) ≡ reject)
      × (classify_probe (race_probe (throttled ∷ dead ∷ [])) ≡ unproven)
unfolding classify_probe race_probe
verdict_by_order d t hf hw hs tg tw ts = (elim-grade d.leg.grade refl, elim-grade' d.leg.grade refl)
  where
    elim-grade : (g : Grade) → d.leg.grade ≡ g → classify_probe (race_probe (d ∷ t ∷ [])) ≡ reject
    elim-grade status_ok e = ground arith
    elim-grade telegram e = ground arith

    elim-grade' :
        (g : Grade) → d.leg.grade ≡ g → classify_probe (race_probe (t ∷ d ∷ [])) ≡ unproven
    elim-grade' status_ok e = ground arith
    elim-grade' telegram e = ground arith
