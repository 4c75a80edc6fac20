-- ===== src/Upkeep/Distinct.antt =====
-- Which instances serve which upstreams after a health tick.
use v2pro_dock.Base.{
  ℕ, zero, suc, ◌+◌, String, ◌≡◌, refl, sym, ap, ◌∙◌, ◌≢◌, ◌⊎◌, inl, inr, Bool, true, false, Option,
  none, some, List, [], ◌∷◌, arith, nat_eq, nat_eq_iff, Bool-cases, nat_equal, string_equal,
  if_cases, get_elem?, set,
}
use v2pro_dock.Base.Dict.{Dict}
use mathlib.Core.Path.{subst}
use v2pro_dock.Pool.{ProxyConfig, key}
use v2pro_dock.Probe.{HealthResult}
use v2pro_dock.Egress.{EgressNotes}
use v2pro_dock.Selector.{ProxySelector, active_config, health_check, should_check}
use v2pro_dock.Selector.Health.{Check, SameInstance, active-same, check-SameInstance}
use v2pro_dock.Switch.{SwitchError}
use v2pro_dock.Switch.Keys.{KeyAllowed, switch-KeyAllowed}
use v2pro_dock.Manager.{ProxyManager, build_excluding, mark_down, mark_ok}
use v2pro_dock.Manager.Uniqueness.{build_excluding_lem}
use v2pro_dock.Upkeep.{Attempt, put, switch_instance, after_check, ticked, health_tick}
use v2pro_dock.Upkeep.Anchoring.{get_elem?-set}

-- Instances that serve the same key are the same instance.
abbrev pub IsDistinct : List ProxySelector → Type 0
IsDistinct insts =
    (p q : ℕ) (s t : ProxySelector) (c d : ProxyConfig)
    → get_elem? insts p ≡ some s
    → get_elem? insts q ≡ some t
    → active_config s ≡ some c
    → active_config t ≡ some d
    → key c ≡ key d
    → p ≡ q

get_elem?-set_ne :
    (ss : List ProxySelector) (i j : ℕ) (t : ProxySelector)
    → i ≢ j
    → get_elem? (set ss i t) j ≡ get_elem? ss j
get_elem?-set_ne [] i j t h = refl
get_elem?-set_ne (s ∷ ss) zero zero t h = absurd (h refl)
get_elem?-set_ne (s ∷ ss) zero (suc j) t h = refl
get_elem?-set_ne (s ∷ ss) (suc i) zero t h = refl
get_elem?-set_ne (s ∷ ss) (suc i) (suc j) t h = get_elem?-set_ne ss i j t (λ e. h (ap suc e))

same_or_not : (i j : ℕ) → (i ≡ j) ⊎ (i ≢ j)
same_or_not i j = elim (Bool-cases (nat_eq i j)) [
  | inl e ↦ inl ((nat_eq_iff i j).0 e)
  | inr e ↦ inr (λ h. ground (arith, h, e))
]

-- An instance that serves its own key or one that nobody else serves shares it with nobody.
moved_apart :
    (m : ProxyManager) (i q : ℕ) (s t u : ProxySelector) (c d : ProxyConfig)
    → IsDistinct m.instances
    → get_elem? m.instances i ≡ some s
    → KeyAllowed (build_excluding m i) s t
    → i ≢ q
    → active_config t ≡ some c
    → get_elem? m.instances q ≡ some u
    → active_config u ≡ some d
    → key c ≢ key d
moved_apart m i q s t u c d distinct at allowed ne hc g hd e = elim (allowed c hc) [
  | inl (o, own, k) ↦ ne (distinct i q s u o d at g own hd (k ∙ e))
  | inr free ↦
      let other : 0 + q ≢ i = λ h. ne (omega (arith, h)) in
      let taken = (build_excluding_lem m i (key c)).1 (q, (u, g, other, (d, hd, sym e))) in
      cc (taken, free)
]

pub set-IsDistinct :
    (m : ProxyManager) (i : ℕ) (s t : ProxySelector)
    → IsDistinct m.instances
    → get_elem? m.instances i ≡ some s
    → KeyAllowed (build_excluding m i) s t
    → IsDistinct (set m.instances i t)
set-IsDistinct m i s t distinct at allowed p q u v c d gp gq hc hd e = elim (same_or_not i p) [
  | inl ip ↦ elim (same_or_not i q) [
    | inl iq ↦ sym ip ∙ iq
    | inr nq ↦
        let tu : t ≡ u = cc (get_elem?-set m.instances i s t at, ip, gp) in
        absurd (
          moved_apart m i q s t v c d distinct at allowed nq (ap active_config tu ∙ hc)
            (sym (get_elem?-set_ne m.instances i q t nq) ∙ gq) hd e)
  ]
  | inr np ↦ elim (same_or_not i q) [
    | inl iq ↦
        let tv : t ≡ v = cc (get_elem?-set m.instances i s t at, iq, gq) in
        absurd (
          moved_apart m i p s t u d c distinct at allowed np (ap active_config tv ∙ hd)
            (sym (get_elem?-set_ne m.instances i p t np) ∙ gp) hc (sym e))
    | inr nq ↦
        distinct p q u v c d (sym (get_elem?-set_ne m.instances i p t np) ∙ gp)
          (sym (get_elem?-set_ne m.instances i q t nq) ∙ gq) hc hd e
  ]
]

KeyAllowed-SameInstance :
    (exclude : Dict String ℕ) (s t : ProxySelector) → SameInstance s t → KeyAllowed exclude s t
KeyAllowed-SameInstance exclude s t h d g = inl (d, sym (active-same s t h) ∙ g, refl)

ticked-instances :
    (i : ℕ) (r : Option SwitchError × ProxySelector) (m : ProxyManager)
    → (ticked i r m).instances ≡ set m.instances i r.1
unfolding ticked mark_ok mark_down
ticked-instances i (none, s) m = refl
ticked-instances i (some e, s) m = refl

-- The switch that a failed check leads to, from a manager that already holds the checked state.
switched-IsDistinct :
    (a : Attempt) (i : ℕ) (s t : ProxySelector) (m n : ProxyManager)
    → n.instances ≡ set m.instances i t
    → SameInstance s t
    → get_elem? m.instances i ≡ some s
    → IsDistinct m.instances
    → ((x : ProxySelector) → a.during x ≡ x)
    → IsDistinct (ticked i (switch_instance a (build_excluding n i) t) n).instances
unfolding switch_instance
switched-IsDistinct a i s t m n held same at distinct still =
    let before = subst IsDistinct (sym held) (
      set-IsDistinct m i s t distinct at
        (KeyAllowed-SameInstance (build_excluding m i) s t same)) in
    let at' = ap (λ is. get_elem? is i) held ∙ get_elem?-set m.instances i s t at in
    subst IsDistinct (sym (ticked-instances i (switch_instance a (build_excluding n i) t) n)) (
      set-IsDistinct n i t _ before at'
        (switch-KeyAllowed a.world a.later (build_excluding n i) a.probes a.during t (still t)))

after_check-IsDistinct :
    (a : Attempt) (i : ℕ) (s : ProxySelector) (m : ProxyManager) (r : Bool × ProxySelector)
    → SameInstance s r.1
    → get_elem? m.instances i ≡ some s
    → IsDistinct m.instances
    → ((x : ProxySelector) → a.during x ≡ x)
    → IsDistinct (after_check a i r m).instances
unfolding after_check mark_ok mark_down
after_check-IsDistinct a i s m (true, t) same at distinct still =
    set-IsDistinct m i s t distinct at (KeyAllowed-SameInstance (build_excluding m i) s t same)
after_check-IsDistinct a i s m (false, t) same at distinct still =
    switched-IsDistinct a i s t m (mark_down i "health check failed" (put i t m)) refl same at
      distinct still

-- A health tick of an instance keeps all instances apart: when no two instances served the same
-- key before, none do afterwards, whether the check holds, the instance is switched, or the
-- switch fails and restores; given that nothing else touches the instance meanwhile.
pub health_tick-IsDistinct :
    (notes : EgressNotes) (now later : ℕ) (result : HealthResult) (a : Attempt) (i : ℕ)
    (s : ProxySelector) (m : ProxyManager)
    → get_elem? m.instances i ≡ some s
    → IsDistinct m.instances
    → ((x : ProxySelector) → a.during x ≡ x)
    → IsDistinct (health_tick notes now later result a i s m).instances
unfolding health_tick
health_tick-IsDistinct notes now later result a i s m at distinct still =
    let c : Check = record { notes = notes; now = now; later = later; result = result } in
    if_cases (λ (n : ProxyManager). IsDistinct n.instances) (should_check now s) _ _
      (λ _.
        after_check-IsDistinct a i s m (health_check notes now later result s)
          (check-SameInstance c s) at distinct still)
      (λ _. distinct)
