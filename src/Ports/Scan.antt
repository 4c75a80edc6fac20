-- ===== src/Ports/Scan.antt =====
-- What the scan for a stable port finds, and where two scans meet.
use v2pro_dock.Base.{
  ℕ, zero, suc, ◌+◌, ◌-◌, ◌≤◌, ◌<◌, max, ◌≡◌, refl, sym, ap, ◌∙◌, ◌≢◌, ◌⊎◌, inl, inr, Bool, true,
  false, some, arith, leb, Bool-cases, nat_equal, string_equal,
}
use v2pro_dock.Base.Dict.{Dict, lookup, lookup-insert, lookup-insert_self}
use mathlib.Core.Path.{subst}
use v2pro_dock.Ports.{
  max_port, is_taken, scan_from, scan_agg_port, pick_aggregate_ports, pick_relay_port, with_port,
}

-- No port from `a` on and below `b` is free.
abbrev pub AllTaken : ℕ → Dict ℕ Bool → (ℕ → Bool) → ℕ → ℕ → Type 0
AllTaken api used listens a b = (q : ℕ) → a ≤ q → q < b → is_taken api used listens q ≡ true

-- The first free port from `a` on and below `b`.
abbrev pub IsFirstFree : ℕ → Dict ℕ Bool → (ℕ → Bool) → ℕ → ℕ → ℕ → Type 0
IsFirstFree api used listens a b p =
    (a ≤ p) × (p < b) × (is_taken api used listens p ≡ false) × AllTaken api used listens a p

AllTaken-nil :
    (api : ℕ) (used : Dict ℕ Bool) (listens : ℕ → Bool) (a : ℕ) → AllTaken api used listens a a
AllTaken-nil api used listens a q h g = absurd (omega (arith, h, g))

AllTaken-cons :
    (api : ℕ) (used : Dict ℕ Bool) (listens : ℕ → Bool) (a b : ℕ)
    → is_taken api used listens a ≡ true
    → AllTaken api used listens (a + 1) b
    → AllTaken api used listens a b
AllTaken-cons api used listens a b t rest q h g = elim (le_cases a q h) [
  | inl e ↦ ap (is_taken api used listens) (sym e) ∙ t
  | inr l ↦ rest q l g
]
  where
    le_cases : (a q : ℕ) → a ≤ q → (a ≡ q) ⊎ (a + 1 ≤ q)
    le_cases a q h = ground (arith, h)

AllTaken-join :
    (api : ℕ) (used : Dict ℕ Bool) (listens : ℕ → Bool) (a m b : ℕ)
    → AllTaken api used listens a m
    → AllTaken api used listens m b
    → AllTaken api used listens a b
AllTaken-join api used listens a m b low high q h g = elim (split_at m q) [
  | inl l ↦ low q h l
  | inr l ↦ high q l g
]
  where
    split_at : (m q : ℕ) → (q < m) ⊎ (m ≤ q)
    split_at m q = ground arith

-- A scan from `a` that ends below `b` gives the first free port, or zero when there is none.
abbrev pub Ends : ℕ → Dict ℕ Bool → (ℕ → Bool) → ℕ → ℕ → ℕ → Type 0
Ends api used listens a b r =
    ((r ≡ 0) × AllTaken api used listens a b) ⊎ IsFirstFree api used listens a b r

Ends-cons :
    (api : ℕ) (used : Dict ℕ Bool) (listens : ℕ → Bool) (a b r : ℕ)
    → is_taken api used listens a ≡ true
    → Ends api used listens (a + 1) b r
    → Ends api used listens a b r
Ends-cons api used listens a b r t (inl (z, all)) =
    inl (z, AllTaken-cons api used listens a b t all)
Ends-cons api used listens a b r t (inr (l, g, f, all)) =
    inr (omega (arith, l), g, f, AllTaken-cons api used listens a r t all)

scan_from-skips :
    (api : ℕ) (used : Dict ℕ Bool) (listens : ℕ → Bool) (left p : ℕ)
    → is_taken api used listens p ≡ true
    → scan_from api used listens (suc left) p ≡ scan_from api used listens left (p + 1)
unfolding scan_from
scan_from-skips api used listens left p h = ground arith

scan_from-stops :
    (api : ℕ) (used : Dict ℕ Bool) (listens : ℕ → Bool) (left p : ℕ)
    → is_taken api used listens p ≡ false
    → scan_from api used listens (suc left) p ≡ p
unfolding scan_from
scan_from-stops api used listens left p h = ground arith

scan_from_lem :
    (api : ℕ) (used : Dict ℕ Bool) (listens : ℕ → Bool) (left p b : ℕ)
    → left ≡ b - p
    → Ends api used listens p b (scan_from api used listens left p)
scan_from_lem api used listens zero p b e =
    unfold scan_from in inl (refl, λ q h g. absurd (omega (arith, e, h, g)))
scan_from_lem api used listens (suc left) p b e = elim (Bool-cases (is_taken api used listens p)) [
  | inr h ↦
      rw (scan_from-stops api used listens left p h)
        (inr (omega arith, omega (arith, e), h, AllTaken-nil api used listens p))
  | inl h ↦ rw (scan_from-skips api used listens left p h) (
      Ends-cons api used listens p b _ h
        (scan_from_lem api used listens left (p + 1) b (omega (arith, e))))
]

-- A candidate that is not zero is scanned upward: the port picked is the first, from the
-- candidate or 1024 on and up to the greatest port, that is neither the API's nor used nor
-- answered on; zero is picked only when every port of that range is taken.
pub scan_agg_port_lem :
    (cand api : ℕ) (used : Dict ℕ Bool) (listens : ℕ → Bool)
    → 1 ≤ cand
    → Ends api used listens (max cand 1024) (max_port + 1) (scan_agg_port cand api used listens)
unfolding scan_agg_port
scan_agg_port_lem cand api used listens h =
    rw (not_zero cand h) (scan_from_lem api used listens _ (max cand 1024) (max_port + 1) refl)
  where
    not_zero : (n : ℕ) → 1 ≤ n → leb n 0 ≡ false
    not_zero n h = ground (arith, h)

Ends-under :
    (api : ℕ) (used : Dict ℕ Bool) (listens : ℕ → Bool) (a m b r : ℕ)
    → a ≤ m
    → AllTaken api used listens a m
    → Ends api used listens m b r
    → Ends api used listens a b r
Ends-under api used listens a m b r h low (inl (z, all)) =
    inl (z, AllTaken-join api used listens a m b low all)
Ends-under api used listens a m b r h low (inr (l, g, f, all)) =
    inr (omega (arith, h, l), g, f, AllTaken-join api used listens a m r low all)

Ends-unique :
    (api : ℕ) (used : Dict ℕ Bool) (listens : ℕ → Bool) (a b r s : ℕ)
    → Ends api used listens a b r
    → Ends api used listens a b s
    → r ≡ s
Ends-unique api used listens a b r s (inl (z, all)) (inl (y, more)) = z ∙ sym y
Ends-unique api used listens a b r s (inl (z, all)) (inr (l, g, f, more)) =
    absurd (cc (all s l g, f))
Ends-unique api used listens a b r s (inr (l, g, f, all)) (inl (y, more)) =
    absurd (cc (more r l g, f))
Ends-unique api used listens a b r s (inr (l, g, f, all)) (inr (k, c, d, more)) =
    ground (arith, l, k, f, d, all s k, more r l)

-- The two scans of `pickAggregatePorts` do not see each other: when the HTTP candidate is at least
-- 1024 and at most the SOCKS candidate, every port from the one up to the other is taken, and the
-- network gives both scans the same answers, both endpoints are given the same port, or neither
-- has one.
pub pick-same :
    (socks http api : ℕ) (used : Dict ℕ Bool) (listens : ℕ → Bool)
    → 1024 ≤ http
    → http ≤ socks
    → AllTaken api used listens http socks
    → (pick_aggregate_ports socks http api used listens listens).0
      ≡ (pick_aggregate_ports socks http api used listens listens).1
unfolding pick_aggregate_ports
pick-same socks http api used listens low le all =
    let s = scan_agg_port_lem socks api used listens (omega (arith, low, le)) in
    let h = scan_agg_port_lem http api used listens (omega (arith, low)) in
    let s' =
      subst (λ a. Ends api used listens a (max_port + 1) (scan_agg_port socks api used listens))
        (max_left socks (omega (arith, low, le))) s in
    let h' =
      subst (λ a. Ends api used listens a (max_port + 1) (scan_agg_port http api used listens))
        (max_left http low) h in
    Ends-unique api used listens http (max_port + 1) _ _
      (Ends-under api used listens http socks (max_port + 1) _ le all s') h'
  where
    max_left : (n : ℕ) → 1024 ≤ n → max n 1024 ≡ n
    max_left n h = omega (arith, h)

is_taken-api :
    (api : ℕ) (used : Dict ℕ Bool) (listens : ℕ → Bool) (p : ℕ)
    → p ≡ api
    → is_taken api used listens p ≡ true
unfolding is_taken
is_taken-api api used listens p h = ground arith

is_taken-used :
    (api : ℕ) (used : Dict ℕ Bool) (listens : ℕ → Bool) (p : ℕ)
    → lookup p used ≡ some true
    → is_taken api used listens p ≡ true
unfolding is_taken
is_taken-used api used listens p h = rw h (ground arith)

lookup-with_port : (p : ℕ) (used : Dict ℕ Bool) → 1 ≤ p → lookup p (with_port p used) ≡ some true
lookup-with_port p used h = ground (arith, lookup-insert_self p true used)

lookup-with_port_keeps :
    (p q : ℕ) (used : Dict ℕ Bool)
    → lookup p used ≡ some true
    → lookup p (with_port q used) ≡ some true
lookup-with_port_keeps p q used h = ground (arith, lookup-insert q p true used)

-- A free port is not one that was added.
free_apart :
    (socks http api p : ℕ) (used : Dict ℕ Bool) (listens : ℕ → Bool)
    → 1 ≤ p
    → is_taken api (with_port http (with_port socks used)) listens p ≡ false
    → (p ≢ socks) × (p ≢ http) × (p ≢ api)
free_apart socks http api p used listens h f = (
  λ e. cc (
    is_taken-used api _ listens p (
        lookup-with_port_keeps p http (with_port socks used)
          (subst (λ q. lookup p (with_port q used) ≡ some true) e (lookup-with_port p used h))),
    f,
  ),
  λ e. cc (
    is_taken-used api _ listens p (
        subst (λ q. lookup p (with_port q (with_port socks used)) ≡ some true) e
          (lookup-with_port p (with_port socks used) h)),
    f,
  ),
  λ e. cc (is_taken-api api _ listens p e, f),
)

zero_or_more : (n : ℕ) → (n ≡ 0) ⊎ (1 ≤ n)
zero_or_more n = ground arith

scan_agg_port-zero :
    (cand api : ℕ) (used : Dict ℕ Bool) (listens : ℕ → Bool)
    → cand ≡ 0
    → scan_agg_port cand api used listens ≡ 0
unfolding scan_agg_port
scan_agg_port-zero cand api used listens h = ground arith

-- The relay's endpoint, when there is one, is no port of the other two, nor the API's, and is in
-- range.
pub pick_relay_port-apart :
    (relay socks http api : ℕ) (used : Dict ℕ Bool) (listens : ℕ → Bool)
    → let p = pick_relay_port relay socks http api used listens in
      (p ≡ 0) ⊎ ((p ≢ socks) × (p ≢ http) × (p ≢ api) × (1024 ≤ p) × (p ≤ max_port))
pick_relay_port-apart relay socks http api used listens = elim (zero_or_more relay) [
  | inl e ↦ inl (
      unfold pick_relay_port in
      scan_agg_port-zero relay api (with_port http (with_port socks used)) listens e)
  | inr h ↦
      unfold pick_relay_port in
      elim (scan_agg_port_lem relay api (with_port http (with_port socks used)) listens h) [
        | inl (z, all) ↦ inl z
        | inr (l, g, f, all) ↦
            let (a, b, c) = free_apart socks http api _ used listens (omega (arith, l)) f in
            inr (a, b, c, omega (arith, l), omega (arith, g))
      ]
]
