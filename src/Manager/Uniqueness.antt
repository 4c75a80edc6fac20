-- ===== src/Manager/Uniqueness.antt =====
-- Whom `buildExcluding` names: the upstreams that the other instances serve.
use v2pro_dock.Base.{set, sym, ◌∙◌, ap}
use v2pro_dock.Base.{
  ℕ, zero, suc, ◌+◌, String, ◌≡◌, refl, sym, ap, ◌≢◌, ◌↔◌, ◌⊎◌, inl, inr, Bool, true, false, Option,
  none, some, List, [], ◌∷◌, arith, eq_iff, nat_eq, Bool-cases, ◌==◌, nat_equal, string_equal,
  get_elem?, is_some,
}
use v2pro_dock.Base.Dict.{Dict, lookup, insert, has, lookup-insert, lookup-insert_self}
use mathlib.Core.Path.{subst}
use v2pro_dock.Pool.{ProxyConfig, key}
use v2pro_dock.Selector.{ProxySelector, active_config}
use v2pro_dock.Manager.{ProxyManager, excluding_from, build_excluding}

-- The `n`th of the instances is not the `i`th of all, and serves the key.
abbrev pub Holds : List ProxySelector → ℕ → String → ℕ → ℕ → Type 0
Holds os j k i n =
    (o : ProxySelector) × (get_elem? os n ≡ some o)
    × (j + n ≢ i)
    × ((c : ProxyConfig) × (active_config o ≡ some c) × (key c ≡ k))

Holds-tail :
    (o : ProxySelector) (os : List ProxySelector) (j i n : ℕ) (k : String)
    → Holds os (j + 1) k i n
    → Holds (o ∷ os) j k i (suc n)
Holds-tail o os j i n k (p, g, h, c) = (p, g, λ e. h (omega (arith, e)), c)

Holds-rest :
    (o : ProxySelector) (os : List ProxySelector) (j i n : ℕ) (k : String)
    → Holds (o ∷ os) j k i (suc n)
    → Holds os (j + 1) k i n
Holds-rest o os j i n k (p, g, h, c) = (p, g, λ e. h (omega (arith, e)), c)

-- One round of the loop.
noted : Bool → Option ProxyConfig → ℕ → Dict String ℕ → Dict String ℕ
noted true c j used = used
noted false none j used = used
noted false (some c) j used = insert (key c) j used

excluding_from-noted :
    (i j : ℕ) (o : ProxySelector) (os : List ProxySelector) (used : Dict String ℕ)
    → excluding_from i j (o ∷ os) used
      ≡ excluding_from i (j + 1) os (noted (nat_eq j i) (active_config o) j used)
unfolding excluding_from noted
excluding_from-noted i j o os used = ground arith

noted_sound :
    (b : Bool) (oc : Option ProxyConfig) (j p : ℕ) (used : Dict String ℕ) (k : String)
    → lookup k (noted b oc j used) ≡ some p
    → (lookup k used ≡ some p)
      ⊎ ((b ≡ false) × (p ≡ j) × ((c : ProxyConfig) × (oc ≡ some c) × (key c ≡ k)))
unfolding noted
noted_sound true oc j p used k h = inl h
noted_sound false none j p used k h = inl h
noted_sound false (some c) j p used k h = elim (Bool-cases (key c == k)) [
  | inl e ↦ inr (
    refl,
    ground (arith, lookup-insert (key c) k j used, h, e),
    (c, refl, (eq_iff (key c) k).0 e),
  )
  | inr e ↦ inl (ground (arith, lookup-insert (key c) k j used, h, e))
]

noted-keeps :
    (b : Bool) (oc : Option ProxyConfig) (j : ℕ) (used : Dict String ℕ) (k : String)
    → has k used ≡ true
    → has k (noted b oc j used) ≡ true
unfolding noted
noted-keeps true oc j used k h = h
noted-keeps false none j used k h = h
noted-keeps false (some c) j used k h = ground (arith, lookup-insert (key c) k j used, h)

noted-has :
    (c : ProxyConfig) (j : ℕ) (used : Dict String ℕ) (k : String)
    → key c ≡ k
    → has k (noted false (some c) j used) ≡ true
unfolding noted
noted-has c j used k h = rw (sym h, lookup-insert_self) refl

excluding_from-keeps :
    (i j : ℕ) (os : List ProxySelector) (used : Dict String ℕ) (k : String)
    → has k used ≡ true
    → has k (excluding_from i j os used) ≡ true
excluding_from-keeps i j [] used k h = unfold excluding_from in h
excluding_from-keeps i j (o ∷ os) used k h =
    rw (excluding_from-noted i j o os used) (
      excluding_from-keeps i (j + 1) os _ k (noted-keeps (nat_eq j i) (active_config o) j used k h))

not_index : (j i : ℕ) → nat_eq j i ≡ false → j + 0 ≢ i
not_index j i h e = ground (arith, e, h)

excluding_from_sound :
    (i j p : ℕ) (os : List ProxySelector) (used : Dict String ℕ) (k : String)
    → lookup k (excluding_from i j os used) ≡ some p
    → (lookup k used ≡ some p) ⊎ ((n : ℕ) × (p ≡ j + n) × Holds os j k i n)
excluding_from_sound i j p [] used k h = unfold excluding_from in inl h
excluding_from_sound i j p (o ∷ os) used k h =
    elim (excluding_from_sound i (j + 1) p os _ k (rw (excluding_from-noted i j o os used) at h)) [
      | inr (n, e, holds) ↦ inr (suc n, omega (arith, e), Holds-tail o os j i n k holds)
      | inl l ↦ elim (noted_sound (nat_eq j i) (active_config o) j p used k l) [
        | inl before ↦ inl before
        | inr (ne, e, (c, a, kc)) ↦
            inr (zero, omega (arith, e), (o, refl, not_index j i ne, (c, a, kc)))
      ]
    ]

other_index : (j i : ℕ) → j + 0 ≢ i → nat_eq j i ≡ false
other_index j i h = ground (arith, h)

excluding_from-has :
    (i j n : ℕ) (os : List ProxySelector) (used : Dict String ℕ) (k : String)
    → Holds os j k i n
    → has k (excluding_from i j os used) ≡ true
excluding_from-has i j n [] used k (o, g, h, c) = cc g
excluding_from-has i j zero (o ∷ os) used k (p, g, h, (c, a, kc)) =
    let same : o ≡ p = cc g in
    rw (excluding_from-noted i j o os used, other_index j i h, ap active_config same, a)
      (excluding_from-keeps i (j + 1) os _ k (noted-has c j used k kc))
excluding_from-has i j (suc n) (o ∷ os) used k holds =
    rw (excluding_from-noted i j o os used)
      (excluding_from-has i (j + 1) n os _ k (Holds-rest o os j i n k holds))

pub listed_holder :
    (m : ProxyManager) (i : ℕ) (k : String) (p : ℕ)
    → lookup k (build_excluding m i) ≡ some p
    → Holds m.instances 0 k i p
unfolding build_excluding
listed_holder m i k p h = elim (excluding_from_sound i 0 p m.instances [] k h) [
  | inl l ↦ unfold lookup in cc l
  | inr (n, e, holds) ↦ subst (Holds m.instances 0 k i) (omega (arith, e)) holds
]

has-some : (o : Option ℕ) → is_some o ≡ true → (p : ℕ) × (o ≡ some p)
has-some none h = cc h
has-some (some p) h = (p, refl)

-- The keys that a switch of instance `i` must avoid are exactly those that some instance other
-- than `i` serves.
pub build_excluding_lem :
    (m : ProxyManager) (i : ℕ) (k : String)
    → (has k (build_excluding m i) ≡ true) ↔ ((p : ℕ) × Holds m.instances 0 k i p)
build_excluding_lem m i k = (
  λ h. let (p, e) = has-some (lookup k (build_excluding m i)) h in (p, listed_holder m i k p e),
  λ (p, holds). unfold build_excluding in excluding_from-has i 0 p m.instances [] k holds,
)

excluding_from-own :
    (i j : ℕ) (o : ProxySelector) (os : List ProxySelector) (used : Dict String ℕ)
    → j ≡ i
    → excluding_from i j (o ∷ os) used ≡ excluding_from i (j + 1) os used
unfolding excluding_from
excluding_from-own i j o os used h = ground arith

excluding_from-set :
    (i j n : ℕ) (os : List ProxySelector) (s : ProxySelector) (used : Dict String ℕ)
    → j + n ≡ i
    → excluding_from i j (set os n s) used ≡ excluding_from i j os used
excluding_from-set i j n [] s used h = refl
excluding_from-set i j zero (o ∷ os) s used h =
    excluding_from-own i j s os used (omega (arith, h))
    ∙ sym (excluding_from-own i j o os used (omega (arith, h)))
excluding_from-set i j (suc n) (o ∷ os) s used h =
    rw (excluding_from-noted i j o (set os n s) used, excluding_from-noted i j o os used)
      (excluding_from-set i (j + 1) n os s _ (omega (arith, h)))

-- What instance `i` itself serves has no part in what it must avoid.
pub build_excluding-own :
    (m n : ProxyManager) (i : ℕ) (s : ProxySelector)
    → n.instances ≡ set m.instances i s
    → build_excluding n i ≡ build_excluding m i
unfolding build_excluding
build_excluding-own m n i s h =
    ap (λ os. excluding_from i 0 os []) h ∙ excluding_from-set i 0 i m.instances s [] (omega arith)
