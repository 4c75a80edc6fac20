-- ===== src/Populate/Step.antt =====
-- What the body of the loop of `tryConfigs` does to the ledger and to the pool.
use v2pro_dock.Base.{
  ℕ, String, ◌≡◌, refl, ap, ◌∙◌, Bool, false, not, ◌&&◌, ◌||◌, Option, none, some, arith, str_eq,
  eq_iff, nat_equal, string_equal, if_cases, is_some,
}
use v2pro_dock.Base.Dict.{Dict, has}
use v2pro_dock.Base.Int.{pos}
use v2pro_dock.Pool.{ProxyConfig, key}
use v2pro_dock.Ledger.{Ledger, is_bad, mark_bad, try_claim, unclaim, is_claimed}
use v2pro_dock.Ledger.Laws.{
  is_claimed-mark_bad, is_claimed-unclaim, try_claim_lem, is_some-unclaim, is_some-mark_bad,
}
use v2pro_dock.Probe.{HealthResult, ProbeVerdict, adopt, unproven, reject, classify_probe}
use v2pro_dock.Switch.{StartError, stop_xray, start_xray}
use v2pro_dock.Switch.Restore.{start_xray-same}
use v2pro_dock.Populate.{Trial, Pass, Next, go_on, serving, out_of_time, graded, launched, try_one}

-- The claims of `m` are those of `l`.
abbrev pub SameClaims : Option Ledger → Option Ledger → Type 0
SameClaims l m = (j : String) → is_claimed m j ≡ is_claimed l j

-- The claims of `m` are those of `l`, and that of `k` if there is a ledger.
abbrev pub OneMoreClaim : String → Option Ledger → Option Ledger → Type 0
OneMoreClaim k l m = (j : String) → is_claimed m j ≡ (str_eq k j && is_some l || is_claimed l j)

-- How the body of the loop leaves the ledger and the instance.
abbrev pub Stepped : Dict String ℕ → ProxyConfig → ℕ → Pass → Next → Type 0
Stepped exclude c i p (go_on q) =
    SameClaims p.ledger q.ledger × (q.selector.configs ≡ p.selector.configs)
Stepped exclude c i p (serving q) =
    OneMoreClaim (key c) p.ledger q.ledger
    × (is_claimed p.ledger (key c) ≡ false)
    × (has (key c) exclude ≡ false)
    × (q.selector.active_index ≡ pos i)
    × (q.selector.configs ≡ p.selector.configs)
Stepped exclude c i p (out_of_time q) = SameClaims p.ledger q.ledger

unclaimed :
    (k : String) (l m : Option Ledger)
    → OneMoreClaim k l m
    → is_claimed l k ≡ false
    → SameClaims l (unclaim m k)
unclaimed k l m h free j =
    ground
      (arith, is_claimed-unclaim k j m, h j, eq_iff k j, λ (e : k ≡ j). ap (is_claimed l) e, free)

unclaimed_bad :
    (k : String) (l m : Option Ledger)
    → OneMoreClaim k l m
    → is_claimed l k ≡ false
    → SameClaims l (unclaim (mark_bad m k) k)
unclaimed_bad k l m h free =
    unclaimed k l (mark_bad m k) (λ j. is_claimed-mark_bad k j m ∙ h j) free

-- The state once the candidate is claimed and its child was started.
module _ (exclude : Dict String ℕ) (c : ProxyConfig) (i : ℕ) (p q : Pass)
    (claimed : OneMoreClaim (key c) p.ledger q.ledger) (free : is_claimed p.ledger (key c) ≡ false)
    (allowed : has (key c) exclude ≡ false) (same : q.selector.configs ≡ p.selector.configs) where
  graded-Stepped :
      (r : HealthResult) (clock : ℕ) (v : ProbeVerdict)
      → Stepped exclude c i p (graded i (key c) r clock v q)
  unfolding graded stop_xray
  graded-Stepped r clock adopt = (claimed, free, allowed, refl, same)
  graded-Stepped r clock unproven = (unclaimed (key c) p.ledger q.ledger claimed free, same)
  graded-Stepped r clock reject = (unclaimed_bad (key c) p.ledger q.ledger claimed free, same)

  launched-Stepped :
      (respect_bad : Bool) (t : Trial) (e : Option StartError)
      → Stepped exclude c i p (launched respect_bad i (key c) t e q)
  unfolding launched stop_xray
  launched-Stepped respect_bad t (some e) =
      (unclaimed_bad (key c) p.ledger q.ledger claimed free, same)
  launched-Stepped respect_bad t none =
      if_cases (Stepped exclude c i p) t.world.binds _ _
        (λ _. graded-Stepped t.world.verify t.world.clock (classify_probe t.world.verify))
        λ _.
          if_cases (Stepped exclude c i p) t.exited _ _
            (λ _. (unclaimed_bad (key c) p.ledger q.ledger claimed free, same))
            (λ _. (unclaimed (key c) p.ledger q.ledger claimed free, same))

pub try_one-Stepped :
    (respect_bad : Bool) (exclude : Dict String ℕ) (i : ℕ) (c : ProxyConfig) (t : Trial) (p : Pass)
    → Stepped exclude c i p (try_one respect_bad exclude i c t p)
unfolding try_one
try_one-Stepped respect_bad exclude i c t p =
    let P = Stepped exclude c i p in
    if_cases P t.late _ _ (λ _ j. refl)
      λ _.
        if_cases P (has (key c) exclude) _ _ (λ _. ((λ j. refl), refl))
          λ allowed.
            if_cases P (respect_bad && is_bad p.ledger (key c)) _ _ (λ _. ((λ j. refl), refl))
              λ _.
                if_cases P (not (try_claim p.ledger (key c)).0) _ _ (λ _. ((λ j. refl), refl))
                  λ won.
                    launched-Stepped exclude c i p
                      (record p {
                        ledger = (try_claim p.ledger (key c)).1;
                        selector = (start_xray t.world (pos i) p.selector).1;
                      })
                      (λ j. granted j) (ground (arith, won, try_claim_lem (key c) (key c) p.ledger))
                      allowed (start_xray-same t.world (pos i) p.selector).0.configs respect_bad t _
  where
    granted :
        (j : String)
        → is_claimed (try_claim p.ledger (key c)).1 j
          ≡ (str_eq (key c) j && is_some p.ledger || is_claimed p.ledger j)
    granted j = ground (arith, try_claim_lem (key c) j p.ledger)

-- The pass at the end of the body.
unfoldable pub next_pass : Next → Pass
next_pass (go_on q) = q
next_pass (serving q) = q
next_pass (out_of_time q) = q

graded-ledger :
    (i : ℕ) (k : String) (r : HealthResult) (clock : ℕ) (v : ProbeVerdict) (p : Pass)
    → is_some (next_pass (graded i k r clock v p)).ledger ≡ is_some p.ledger
unfolding graded next_pass
graded-ledger i k r clock adopt p = refl
graded-ledger i k r clock unproven p = is_some-unclaim k p.ledger
graded-ledger i k r clock reject p =
    is_some-unclaim k (mark_bad p.ledger k) ∙ is_some-mark_bad k p.ledger

launched-ledger :
    (respect_bad : Bool) (i : ℕ) (k : String) (t : Trial) (e : Option StartError) (p : Pass)
    → is_some (next_pass (launched respect_bad i k t e p)).ledger ≡ is_some p.ledger
unfolding launched next_pass
launched-ledger respect_bad i k t (some e) p =
    is_some-unclaim k (mark_bad p.ledger k) ∙ is_some-mark_bad k p.ledger
launched-ledger respect_bad i k t none p = ground (
  arith,
  graded-ledger i k t.world.verify t.world.clock (classify_probe t.world.verify) p,
  is_some-unclaim k (mark_bad p.ledger k),
  is_some-mark_bad k p.ledger,
  is_some-unclaim k p.ledger,
)

-- A ledger stays one, and no ledger stays none.
pub try_one-ledger :
    (respect_bad : Bool) (exclude : Dict String ℕ) (i : ℕ) (c : ProxyConfig) (t : Trial) (p : Pass)
    → is_some (next_pass (try_one respect_bad exclude i c t p)).ledger ≡ is_some p.ledger
unfolding try_one next_pass
try_one-ledger respect_bad exclude i c t p =
    let claimed = (try_claim p.ledger (key c)).1 in
    let start = start_xray t.world (pos i) p.selector in
    ground (
      arith,
      try_claim_lem (key c) (key c) p.ledger,
      launched-ledger respect_bad i (key c) t start.0
          (record p { ledger = claimed; selector = start.1 }),
    )
