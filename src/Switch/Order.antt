-- ===== src/Switch/Order.antt =====
-- The order in which a switch tries the pool.
use native.Mathlib.Nat.{mod-eq_of_lt, mod-eq-sub-mod, mod-lt}
use v2pro_dock.Base.{
  ℕ, zero, suc, ◌+◌, ◌-◌, ◌%◌, ◌≤◌, ◌<◌, ◌≡◌, refl, ap, inl, inr, true, false, not, ◌&&◌, List, [],
  ◌∷◌, arith, ltb, leb, nat_eq, if◌then◌else◌, ltb→lt, nat_eq_iff, Bool-cases, nat_equal,
  string_equal,
}
use v2pro_dock.Base.Int.{ℤ, pos, negsuc}
use v2pro_dock.Switch.{is_index, order_start, order_from, switch_order}

-- How often an index is tried.
unfoldable pub tries : ℕ → List ℕ → ℕ
tries i [] = 0
tries i (j ∷ js) = if nat_eq j i then tries i js + 1 else tries i js

-- The round in which index `i` comes up.
abbrev round_of : ℕ → ℕ → ℕ → ℕ
round_of n start i = if leb start i then i - start else i + n - start

wrap : (a n : ℕ) → a < n + n → a % n ≡ (if ltb a n then a else a - n)
wrap a n h = elim (Bool-cases (ltb a n)) [
  | inl e ↦ rw e (mod-eq_of_lt (ground arith))
  | inr e ↦ rw (e, mod-eq-sub-mod (leb_n e)) (mod-eq_of_lt (omega (arith, leb_n e)))
]
  where
    leb_n : ltb a n ≡ false → n ≤ a
    leb_n e = ground arith

same-is_index : (i j : ℕ) (old : ℤ) → nat_eq j i ≡ true → is_index j old ≡ is_index i old
same-is_index i j old h = ap (λ x. is_index x old) ((nat_eq_iff j i).0 h)

tries-order_from :
    (n start : ℕ) (old : ℤ) (k left i : ℕ)
    → start < n
    → k + left ≡ n
    → i < n
    → tries i (order_from n start old k left)
      ≡ (if is_index i old then 0 else if leb k (round_of n start i) then 1 else 0)
unfolding tries order_from
tries-order_from n start old k zero i hs hk hi = ground arith
tries-order_from n start old k (suc left) i hs hk hi = ground (
  arith,
  wrap (start + k) n (omega arith),
  tries-order_from n start old (k + 1) left i hs (omega arith) hi,
  same-is_index i ((start + k) % n) old,
)

tries-order_from_out :
    (n start : ℕ) (old : ℤ) (k left i : ℕ)
    → 0 < n
    → n ≤ i
    → tries i (order_from n start old k left) ≡ 0
unfolding tries order_from
tries-order_from_out n start old k zero i hn hi = refl
tries-order_from_out n start old k (suc left) i hn hi =
    ground (arith, mod-lt (start + k) hn, tries-order_from_out n start old (k + 1) left i hn hi)

order_start-lt : (n : ℕ) (s : ℤ) → 0 < n → order_start n s < n
order_start-lt n (pos s) h = mod-lt s h
order_start-lt n (negsuc s) h = h

-- A switch over a pool of `n` configs tries every index but the active one exactly once, and none
-- outside the pool, wherever it starts and also when nothing is active.
pub switch_order_lem :
    (n : ℕ) (start_idx old : ℤ) (i : ℕ)
    → tries i (switch_order n start_idx old) ≡ (if ltb i n && not (is_index i old) then 1 else 0)
unfolding switch_order tries
switch_order_lem zero start_idx old i = ground arith
switch_order_lem (suc m) start_idx old i = elim (Bool-cases (ltb i (suc m))) [
  | inl e ↦ ground (
    arith,
    tries-order_from (suc m) (order_start (suc m) start_idx) old 0 (suc m) i
        (order_start-lt (suc m) start_idx (omega arith)) (omega arith) (ltb→lt i (suc m) e),
  )
  | inr e ↦ ground (
    arith,
    tries-order_from_out (suc m) (order_start (suc m) start_idx) old 0 (suc m) i (omega arith)
        (ground arith),
  )
]
