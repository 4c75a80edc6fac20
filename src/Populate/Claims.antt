-- ===== src/Populate/Claims.antt =====
-- What a search for an upstream claims, and what it gives back.
use mathlib.Core.Path.{subst}
use v2pro_dock.Base.{
  ℕ, suc, ◌+◌, String, ◌≡◌, refl, sym, ap, ◌∙◌, Bool, false, Option, none, some, List, [], ◌∷◌,
  arith, nat_equal, string_equal, get_elem?, is_some,
}
use v2pro_dock.Base.Dict.{Dict, has}
use v2pro_dock.Pool.{ProxyConfig, key}
use v2pro_dock.Ledger.{Ledger, is_claimed}
use v2pro_dock.Selector.{ProxySelector, active_config}
use v2pro_dock.Populate.{
  Trial, Pass, PopulateError, Next, go_on, serving, out_of_time, carry_on, try_one, try_from,
  try_configs,
}
use v2pro_dock.Populate.Step.{
  SameClaims, OneMoreClaim, Stepped, try_one-Stepped, next_pass, try_one-ledger,
}

-- How a pass ends, over the candidates from index `i` on.
abbrev pub Ended : Dict String ℕ → Pass → Option PopulateError × Pass → Type 0
Ended exclude p (none, q) =
    (c : ProxyConfig) × (active_config q.selector ≡ some c)
    × (OneMoreClaim (key c) p.ledger q.ledger)
    × (is_claimed p.ledger (key c) ≡ false)
    × (has (key c) exclude ≡ false)
Ended exclude p (some e, q) = SameClaims p.ledger q.ledger

Ended-trans :
    (exclude : Dict String ℕ) (p q : Pass) (r : Option PopulateError × Pass)
    → SameClaims p.ledger q.ledger
    → is_some q.ledger ≡ is_some p.ledger
    → Ended exclude q r
    → Ended exclude p r
Ended-trans exclude p q (none, t) h l (c, a, m, f, x) =
    (c, a, (λ j. ground (arith, m j, h j, l)), sym (h (key c)) ∙ f, x)
Ended-trans exclude p q (some e, t) h l m = λ j. m j ∙ h j

-- The candidates `cs` stand in the pool from index `i` on.
abbrev pub StandsAt : ℕ → List ProxyConfig → List ProxyConfig → Type 0
StandsAt i cs pool = (j : ℕ) → get_elem? pool (i + j) ≡ get_elem? cs j

pub StandsAt-tail :
    (i : ℕ) (c : ProxyConfig) (cs pool : List ProxyConfig)
    → StandsAt i (c ∷ cs) pool
    → StandsAt (i + 1) cs pool
StandsAt-tail i c cs pool h j = ap (get_elem? pool) (reorder j) ∙ h (suc j)
  where
    reorder : (j : ℕ) → i + 1 + j ≡ i + suc j
    reorder j = omega arith

pub StandsAt-head :
    (i : ℕ) (c : ProxyConfig) (cs pool : List ProxyConfig)
    → StandsAt i (c ∷ cs) pool
    → get_elem? pool i ≡ some c
StandsAt-head i c cs pool h = ap (get_elem? pool) (omega arith) ∙ h 0

step-Ended :
    (respect_bad : Bool) (exclude : Dict String ℕ) (trials : ℕ → Trial) (i : ℕ) (c : ProxyConfig)
    (cs : List ProxyConfig) (p : Pass) (n : Next)
    → StandsAt i (c ∷ cs) p.selector.configs
    → Stepped exclude c i p n
    → is_some (next_pass n).ledger ≡ is_some p.ledger
    → ((q : Pass)
        → StandsAt (i + 1) cs q.selector.configs
        → Ended exclude q (try_from respect_bad exclude trials (i + 1) cs q))
    → Ended exclude p (carry_on (try_from respect_bad exclude trials (i + 1) cs) n)
unfolding active_config next_pass
step-Ended respect_bad exclude trials i c cs p (go_on q) at (claims, same) l ih =
    Ended-trans exclude p q _ claims l
      (ih q (subst (StandsAt (i + 1) cs) (sym same) (StandsAt-tail i c cs _ at)))
step-Ended respect_bad exclude trials i c cs p (serving q) at (m, f, x, a, same) l ih =
    (c, rw (a, same) (StandsAt-head i c cs _ at), m, f, x)
step-Ended respect_bad exclude trials i c cs p (out_of_time q) at m l ih = m

try_from-Ended :
    (respect_bad : Bool) (exclude : Dict String ℕ) (trials : ℕ → Trial) (i : ℕ)
    (cs : List ProxyConfig) (p : Pass)
    → StandsAt i cs p.selector.configs
    → Ended exclude p (try_from respect_bad exclude trials i cs p)
unfolding try_from
try_from-Ended respect_bad exclude trials i [] p at = λ j. refl
try_from-Ended respect_bad exclude trials i (c ∷ cs) p at =
    step-Ended respect_bad exclude trials i c cs p (try_one respect_bad exclude i c (trials i) p) at
      (try_one-Stepped respect_bad exclude i c (trials i) p)
      (try_one-ledger respect_bad exclude i c (trials i) p)
      λ q at'. try_from-Ended respect_bad exclude trials (i + 1) cs q at'

-- A pass that finds an upstream serves a config that was not excluded and that nobody had claimed,
-- and the claim on its key is the only one that it adds. A pass that finds none leaves every claim
-- as it was.
pub try_configs-Ended :
    (respect_bad : Bool) (exclude : Dict String ℕ) (trials : ℕ → Trial) (l : Option Ledger)
    (s : ProxySelector)
    → Ended exclude
        (record { selector = s; ledger = l; skipped = 0 })
        (try_configs respect_bad exclude trials l s)
unfolding try_configs
try_configs-Ended respect_bad exclude trials l s =
    try_from-Ended respect_bad exclude trials 0 s.configs _
      (λ j. ap (get_elem? s.configs) (omega arith))
