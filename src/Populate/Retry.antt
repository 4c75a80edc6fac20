-- ===== src/Populate/Retry.antt =====
-- When `startShared` makes its second pass.
use mathlib.Core.Path.{subst}
use v2pro_dock.Base.{
  ℕ, ◌+◌, ◌<◌, String, ◌≡◌, refl, sym, ap, ◌∙◌, ◌≢◌, true, false, not, ◌&&◌, Option, none, some,
  List, [], ◌∷◌, arith, nat_eq, nat_equal, string_equal, if_cases, length, get_elem?, is_some,
}
use v2pro_dock.Base.Dict.{Dict, has}
use v2pro_dock.Base.Int.{pos}
use v2pro_dock.Pool.{ProxyConfig, key}
use v2pro_dock.Ledger.{Ledger, is_bad, try_claim}
use v2pro_dock.Ledger.Laws.{is_bad-unclaim, try_claim_lem}
use v2pro_dock.Probe.{unproven, classify_probe}
use v2pro_dock.Selector.{ProxySelector}
use v2pro_dock.Switch.{World, StartError, start_xray, start_config}
use v2pro_dock.Populate.Step.{Stepped, try_one-Stepped}
use v2pro_dock.Populate.Claims.{StandsAt, StandsAt-tail, StandsAt-head}
use v2pro_dock.Populate.{
  Trial, Pass, PopulateError, Next, go_on, serving, out_of_time, graded, launched, carry_on,
  try_one, try_from, try_configs, after_first, start_shared,
}

-- Every candidate comes up, and its probe is throttled or forbidden by the target.
abbrev pub AllThrottled : (ℕ → Trial) → Type 0
AllThrottled trials =
    (i : ℕ) → ((trials i).world.binds ≡ true) × (classify_probe (trials i).world.verify ≡ unproven)

-- Every child starts.
abbrev pub AllStart : (ℕ → Trial) → Type 0
AllStart trials =
    (i : ℕ) (c : ProxyConfig)
    → ((trials i).world.renders c ≡ true) × (is_some ((trials i).world.launch c) ≡ true)

-- Nobody has marked anything bad.
abbrev pub IsClean : Option Ledger → Type 0
IsClean l = (k : String) → is_bad l k ≡ false

-- The body of the loop skips nothing, and marks nothing bad.
abbrev SkipsNone : Pass → Next → Type 0
SkipsNone p (go_on q) = (q.skipped ≡ p.skipped) × IsClean q.ledger
SkipsNone p (serving q) = ⊥
SkipsNone p (out_of_time q) = q.skipped ≡ p.skipped

launched-SkipsNone :
    (i : ℕ) (k : String) (t : Trial) (e : Option StartError) (p q : Pass)
    → t.world.binds ≡ true
    → classify_probe t.world.verify ≡ unproven
    → e ≡ none
    → q.skipped ≡ p.skipped
    → IsClean q.ledger
    → SkipsNone p (launched true i k t e q)
unfolding launched graded
launched-SkipsNone i k t (some e) p q b v h s clean = cc h
launched-SkipsNone i k t none p q b v h s clean =
    rw (b, v) (s, λ j. is_bad-unclaim k j q.ledger ∙ clean j)

start_config-none :
    (w : World) (c : ProxyConfig) (s : ProxySelector)
    → w.renders c ≡ true
    → is_some (w.launch c) ≡ true
    → (start_config w (some c) s).0 ≡ none
unfolding start_config
start_config-none w c s r l = ground arith

try_one-SkipsNone :
    (exclude : Dict String ℕ) (i : ℕ) (c : ProxyConfig) (t : Trial) (p : Pass)
    → t.world.binds ≡ true
    → classify_probe t.world.verify ≡ unproven
    → (start_xray t.world (pos i) p.selector).0 ≡ none
    → IsClean p.ledger
    → SkipsNone p (try_one true exclude i c t p)
unfolding try_one
try_one-SkipsNone exclude i c t p b v h clean =
    let P = SkipsNone p in
    if_cases P t.late _ _ (λ _. refl)
      λ _.
        if_cases P (has (key c) exclude) _ _ (λ _. (refl, clean))
          λ _.
            if_cases P (true && is_bad p.ledger (key c)) _ _
              (λ bad. absurd (ground (arith, bad, clean (key c))))
              λ _.
                if_cases P (not (try_claim p.ledger (key c)).0) _ _ (λ _. (refl, clean))
                  λ _.
                    launched-SkipsNone i (key c) t _ p _ b v h refl
                      λ j. (try_claim_lem (key c) j p.ledger).2 ∙ clean j

-- A pass that skips nothing ends with an error.
abbrev EndsUnskipped : Option PopulateError × Pass → Type 0
EndsUnskipped (none, q) = ⊥
EndsUnskipped (some e, q) = q.skipped ≡ 0

step-Retry :
    (exclude : Dict String ℕ) (trials : ℕ → Trial) (i : ℕ) (c : ProxyConfig) (cs : List ProxyConfig)
    (p : Pass) (n : Next)
    → p.skipped ≡ 0
    → StandsAt i (c ∷ cs) p.selector.configs
    → Stepped exclude c i p n
    → SkipsNone p n
    → ((q : Pass)
        → StandsAt (i + 1) cs q.selector.configs
        → q.skipped ≡ 0
        → IsClean q.ledger
        → EndsUnskipped (try_from true exclude trials (i + 1) cs q))
    → EndsUnskipped (carry_on (try_from true exclude trials (i + 1) cs) n)
step-Retry exclude trials i c cs p (go_on q) z at (claims, same) (k, clean) ih =
    ih q (subst (StandsAt (i + 1) cs) (sym same) (StandsAt-tail i c cs _ at)) (k ∙ z) clean
step-Retry exclude trials i c cs p (serving q) z at m k ih = k
step-Retry exclude trials i c cs p (out_of_time q) z at m k ih = k ∙ z

try_from-Retry :
    (exclude : Dict String ℕ) (trials : ℕ → Trial) (i : ℕ) (cs : List ProxyConfig) (p : Pass)
    → AllThrottled trials
    → AllStart trials
    → StandsAt i cs p.selector.configs
    → p.skipped ≡ 0
    → IsClean p.ledger
    → EndsUnskipped (try_from true exclude trials i cs p)
unfolding try_from start_xray
try_from-Retry exclude trials i [] p a b at z clean = z
try_from-Retry exclude trials i (c ∷ cs) p a b at z clean =
    let w = (trials i).world in
    step-Retry exclude trials i c cs p (try_one true exclude i c (trials i) p) z at
      (try_one-Stepped true exclude i c (trials i) p)
      (try_one-SkipsNone exclude i c (trials i) p (a i).0 (a i).1
        (rw (StandsAt-head i c cs _ at) (start_config-none w c p.selector (b i c).0 (b i c).1))
        clean)
      λ q at' z' clean'. try_from-Retry exclude trials (i + 1) cs q a b at' z' clean'

after_first-unskipped :
    (again : Pass → Option PopulateError × Pass) (r : Option PopulateError × Pass)
    → EndsUnskipped r
    → (after_first again r ≡ r) × (r.0 ≢ none)
after_first-unskipped again (none, p) h = absurd h
after_first-unskipped again (some e, p) h = (rw h refl, λ f. cc f)

unretried :
    (exclude : Dict String ℕ) (first retry : ℕ → Trial) (l : Option Ledger) (s : ProxySelector)
    → 0 < length s.configs
    → EndsUnskipped (try_configs true exclude first l s)
    → (start_shared exclude first retry l s ≡ try_configs true exclude first l s)
      × ((start_shared exclude first retry l s).0 ≢ none)
unfolding start_shared
unretried exclude first retry l s n h =
    let e : (nat_eq (length s.configs) 0) ≡ false = ground arith in
    let kept =
      after_first-unskipped (λ p. try_configs false exclude retry p.ledger p.selector)
        (try_configs true exclude first l s) h in
    rw e (kept.0, λ f. kept.1 (ap (λ (r : Option PopulateError × Pass). r.0) (sym kept.0) ∙ f))

-- When every child comes up and every probe is throttled or forbidden by its target, a search over
-- a clean ledger fails after its first pass: no upstream is adopted, and the retry pass is not
-- made, for such candidates are not counted as skipped.
pub throttled_not_retried :
    (exclude : Dict String ℕ) (first retry : ℕ → Trial) (l : Option Ledger) (s : ProxySelector)
    → 0 < length s.configs
    → AllThrottled first
    → AllStart first
    → IsClean l
    → (start_shared exclude first retry l s ≡ try_configs true exclude first l s)
      × ((start_shared exclude first retry l s).0 ≢ none)
throttled_not_retried exclude first retry l s n a b clean = unretried exclude first retry l s n (
    unfold try_configs in
    try_from-Retry exclude first 0 s.configs (record { selector = s; ledger = l; skipped = 0 }) a b
      (λ j. ap (get_elem? s.configs) (omega arith)) refl clean)
