-- ===== src/Populate/Poison.antt =====
-- Which candidates a search marks bad for all the instances.
use mathlib.Core.Path.{subst}
use v2pro_dock.Base.{
  ℕ, ◌+◌, String, ◌≡◌, sym, ap, ◌∙◌, inl, inr, Bool, true, false, not, ◌&&◌, ◌||◌, Option, some,
  List, [], ◌∷◌, arith, str_eq, if◌then◌else◌, Bool-cases, nat_equal, string_equal, get_elem?,
  is_some,
}
use v2pro_dock.Base.Dict.{Dict}
use v2pro_dock.Pool.{ProxyConfig, key}
use v2pro_dock.Ledger.{Ledger, is_bad, mark_bad, try_claim, unclaim}
use v2pro_dock.Ledger.Laws.{try_claim_lem, is_bad-mark_bad, is_bad-unclaim}
use v2pro_dock.Probe.{ProbeVerdict, reject, classify_probe}
use v2pro_dock.Selector.{ProxySelector}
use v2pro_dock.Switch.{start_xray, start_config}
use v2pro_dock.Populate.{
  Trial, Pass, Next, go_on, serving, out_of_time, graded, launched, carry_on, try_one, try_from,
  try_configs,
}
use v2pro_dock.Populate.Step.{Stepped, try_one-Stepped, next_pass}
use v2pro_dock.Populate.Claims.{StandsAt, StandsAt-tail, StandsAt-head}

abbrev is_reject : ProbeVerdict → Bool
is_reject reject = true
is_reject _ = false

-- The trial proves the candidate bad: its child does not start, or exits before it binds, or the
-- probe through it is rejected.
unfoldable pub condemned : ProxyConfig → Trial → Bool
condemned c t =
    if not (t.world.renders c && is_some (t.world.launch c))
    then true
    else if t.world.binds
    then is_reject (classify_probe t.world.verify)
    else t.exited

-- Some candidate of the key, from index `i` on, is proven bad by its trial.
unfoldable pub any_condemned : String → (ℕ → Trial) → ℕ → List ProxyConfig → Bool
any_condemned k trials i [] = false
any_condemned k trials i (c ∷ cs) =
    str_eq (key c) k && condemned c (trials i) || any_condemned k trials (i + 1) cs

-- What is bad after the body of the loop was bad before it, or the candidate is proven bad.
abbrev BadBy : ProxyConfig → Trial → Option Ledger → Next → Type 0
BadBy c t l n =
    (k : String)
    → is_bad (next_pass n).ledger k ≡ true
    → (str_eq (key c) k && condemned c t || is_bad l k) ≡ true

marked :
    (k j : String) (l : Option Ledger)
    → is_bad (unclaim (mark_bad l k) k) j ≡ (str_eq k j && is_some l || is_bad l j)
marked k j l = is_bad-unclaim k j (mark_bad l k) ∙ is_bad-mark_bad k j l

launched-BadBy :
    (respect_bad : Bool) (i : ℕ) (c : ProxyConfig) (t : Trial) (s : ProxySelector)
    (l : Option Ledger) (p : Pass)
    → ((j : String) → is_bad p.ledger j ≡ is_bad l j)
    → BadBy c t l (launched respect_bad i (key c) t (start_config t.world (some c) s).0 p)
unfolding launched graded start_config condemned next_pass
launched-BadBy respect_bad i c t s l p same k =
    ground (arith, same k, marked (key c) k p.ledger, is_bad-unclaim (key c) k p.ledger)

try_one-BadBy :
    (respect_bad : Bool) (exclude : Dict String ℕ) (i : ℕ) (c : ProxyConfig) (t : Trial) (p : Pass)
    → get_elem? p.selector.configs i ≡ some c
    → BadBy c t p.ledger (try_one respect_bad exclude i c t p)
unfolding try_one start_xray
try_one-BadBy respect_bad exclude i c t p at k =
    let claimed = (try_claim p.ledger (key c)).1 in
    let start = start_config t.world (some c) p.selector in
    let run =
      launched-BadBy respect_bad i c t p.selector p.ledger
        (record p { ledger = claimed; selector = start.1 })
        (λ j. (try_claim_lem (key c) j p.ledger).2) k in
    rw at (unfold next_pass in ground (arith, run))

step-poison :
    (respect_bad : Bool) (exclude : Dict String ℕ) (trials : ℕ → Trial) (i : ℕ) (c : ProxyConfig)
    (cs : List ProxyConfig) (p : Pass) (n : Next) (k : String)
    → StandsAt i (c ∷ cs) p.selector.configs
    → Stepped exclude c i p n
    → BadBy c (trials i) p.ledger n
    → ((q : Pass)
        → StandsAt (i + 1) cs q.selector.configs
        → is_bad (try_from respect_bad exclude trials (i + 1) cs q).1.ledger k ≡ true
        → (any_condemned k trials (i + 1) cs || is_bad q.ledger k) ≡ true)
    → is_bad (carry_on (try_from respect_bad exclude trials (i + 1) cs) n).1.ledger k ≡ true
    → (any_condemned k trials i (c ∷ cs) || is_bad p.ledger k) ≡ true
unfolding next_pass any_condemned
step-poison respect_bad exclude trials i c cs p (go_on q) k at (claims, same) b ih h =
    ground (arith, b k, ih q (subst (StandsAt (i + 1) cs) (sym same) (StandsAt-tail i c cs _ at)) h)
step-poison respect_bad exclude trials i c cs p (serving q) k at m b ih h = ground (arith, b k h)
step-poison respect_bad exclude trials i c cs p (out_of_time q) k at m b ih h =
    ground (arith, b k h)

try_from-poison :
    (respect_bad : Bool) (exclude : Dict String ℕ) (trials : ℕ → Trial) (i : ℕ)
    (cs : List ProxyConfig) (p : Pass) (k : String)
    → StandsAt i cs p.selector.configs
    → is_bad (try_from respect_bad exclude trials i cs p).1.ledger k ≡ true
    → (any_condemned k trials i cs || is_bad p.ledger k) ≡ true
unfolding try_from any_condemned
try_from-poison respect_bad exclude trials i [] p k at h = h
try_from-poison respect_bad exclude trials i (c ∷ cs) p k at h =
    step-poison respect_bad exclude trials i c cs p (try_one respect_bad exclude i c (trials i) p) k
      at (try_one-Stepped respect_bad exclude i c (trials i) p)
      (try_one-BadBy respect_bad exclude i c (trials i) p (StandsAt-head i c cs _ at))
      (λ q at'. try_from-poison respect_bad exclude trials (i + 1) cs q k at') h

-- A pass marks a key bad for the other instances only when a candidate of that key was proven bad:
-- its child did not start or exited before it bound its port, or the probe through it was
-- rejected. A child that is merely slow, and a target that throttles the probe, mark nothing.
pub poison_needs_proof :
    (respect_bad : Bool) (exclude : Dict String ℕ) (trials : ℕ → Trial) (l : Option Ledger)
    (s : ProxySelector) (k : String)
    → is_bad l k ≡ false
    → any_condemned k trials 0 s.configs ≡ false
    → is_bad (try_configs respect_bad exclude trials l s).1.ledger k ≡ false
unfolding try_configs
poison_needs_proof respect_bad exclude trials l s k clean innocent =
    elim (Bool-cases (is_bad (try_configs respect_bad exclude trials l s).1.ledger k)) [
      | inr e ↦ e
      | inl e ↦ absurd (
          ground (
            arith,
            clean,
            innocent,
            try_from-poison respect_bad exclude trials 0 s.configs
                (record { selector = s; ledger = l; skipped = 0 }) k
                (λ j. ap (get_elem? s.configs) (omega arith)) e,
          ))
    ]
