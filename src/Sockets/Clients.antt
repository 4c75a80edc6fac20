-- ===== src/Sockets/Clients.antt =====
-- The count of `foreignEstablished` of v2proxy/selector.go is that of the connections.
use v2pro_dock.Base.{
  ℕ, suc, ◌+◌, String, ◌≡◌, refl, sym, ap, ◌∙◌, ◌⊎◌, str_eq, nat_eq, inl, inr, Bool, true, false,
  not, ◌&&◌, ◌||◌, List, [], ◌∷◌, arith, if◌then◌else◌, ◌==◌, ==_refl, Eq, nat_equal, string_equal,
  length,
}
use v2pro_dock.Base.Dict.{Dict, lookup, insert, lookup-insert}
use mathlib.Core.Path.{subst}
use v2pro_dock.Sockets.{
  key_same, key_same_iff, TextTools, Row, Key, Tally, connection, key_equal, marked, owned_from,
  touches, count_row, count_rows, foreign_established,
}

-- Some entry passes the test.
abbrev pub any {ℓ} : {A : Type ℓ} → (A → Bool) → List A → Bool
any f [] = false
any f (x ∷ xs) = f x || any f xs

abbrev pub is_among {ℓ} : {K : Type ℓ} ⦃e : Eq K⦄ → K → List K → Bool
is_among k = any (λ j. j == k)

abbrev pub NoRepeats {ℓ} : {K : Type ℓ} ⦃e : Eq K⦄ → List K → Type 0
NoRepeats [] = Unit
NoRepeats (k ∷ ks) = (is_among k ks ≡ false) × NoRepeats ks

-- An established row of the connection that touches the port.
unfoldable pub row_of : TextTools → ℕ → Key → Row → Bool
row_of g port k r =
    (str_eq r.state "01" && (nat_eq r.local.port port || nat_eq r.remote.port port))
    && (connection g r == k)

-- A row of the connection whose socket is the process's own.
unfoldable pub own_row_of : TextTools → Dict String Bool → Key → Row → Bool
own_row_of g own k r = marked r.inode own && (connection g r == k)

-- A client: some row of the connection is established and touches the port, and none is owned.
unfoldable pub is_client : TextTools → List Row → Dict String Bool → ℕ → Key → Bool
is_client g rows own port k = any (row_of g port k) rows && not (any (own_row_of g own k) rows)

-- The list names each client once, and nothing else.
abbrev pub AreClients : TextTools → List Row → Dict String Bool → ℕ → List Key → Type 0
AreClients g rows own port ks =
    NoRepeats ks × ((k : Key) → is_among k ks ≡ is_client g rows own port k)

marked-insert :
    (k j : Key) (m : Dict Key Bool) → marked k (insert j true m) ≡ ((j == k) || marked k m)
unfolding insert
marked-insert k j m = ground (arith, lookup-insert j k true m)

-- A key of an entry that is added on a condition.
mark_bool :
    (b q a : Bool) (m n : Dict Key Bool) (k : Key)
    → marked k m ≡ (q || marked k n)
    → (a || marked k (if b then m else n)) ≡ (((b && q) || a) || marked k n)
mark_bool true q a m n k h = rw h (swap q a (marked k n))
  where
    swap : (x y z : Bool) → (y || (x || z)) ≡ ((x || y) || z)
    swap x y z = ground arith
mark_bool false q a m n k h = refl

owned_from-marks :
    (g : TextTools) (own : Dict String Bool) (rows : List Row) (m : Dict Key Bool) (k : Key)
    → marked k (owned_from g own rows m) ≡ (any (own_row_of g own k) rows || marked k m)
unfolding owned_from own_row_of
owned_from-marks g own [] m k = refl
owned_from-marks g own (r ∷ rows) m k =
    owned_from-marks g own rows _ k
    ∙ mark_bool (marked r.inode own) _ (any (own_row_of g own k) rows)
        (insert (connection g r) true m) m k (marked-insert k (connection g r) m)

-- What a run of the loop adds: the connections that are new and not owned.
Added : TextTools → ℕ → Dict Key Bool → List Row → Tally → List Key → Type 0
Added g port owned rows t ks =
    (((count_rows g port owned rows t).n ≡ t.n + length ks) × NoRepeats ks)
    × ((k : Key)
        → is_among k ks ≡ (any (row_of g port k) rows && not (marked k owned || marked k t.seen)))

count_row-cases :
    (g : TextTools) (port : ℕ) (owned : Dict Key Bool) (r : Row) (t : Tally)
    → ((count_row g port owned r t ≡ t)
        × (touches port r ≡ true
            → (marked (connection g r) owned || marked (connection g r) t.seen) ≡ true))
      ⊎ ((count_row g port owned r t
            ≡ record { n = t.n + 1; seen = insert (connection g r) true t.seen })
          × ((touches port r ≡ true)
              × ((marked (connection g r) owned || marked (connection g r) t.seen) ≡ false)))
unfolding count_row
count_row-cases g port owned r t = ground arith

-- The truth tables of a row that is skipped, and of one that is counted.
skip_bool : (x a r b : Bool) → (r ≡ true → b ≡ true) → x ≡ (a && not b) → x ≡ ((r || a) && not b)
skip_bool x a r b h e = ground arith

count_bool :
    (x a q o s : Bool)
    → (q ≡ true → (o || s) ≡ false)
    → x ≡ (a && not (o || (q || s)))
    → (q || x) ≡ ((q || a) && not (o || s))
count_bool x a q o s h e = ground arith

blocked_bool : (x a o q s : Bool) → q ≡ true → x ≡ (a && not (o || (q || s))) → x ≡ false
blocked_bool x a o q s h e = ground arith

row_of-inv :
    (g : TextTools) (port : ℕ) (k : Key) (r : Row)
    → row_of g port k r ≡ true
    → (touches port r ≡ true) × (connection g r ≡ k)
unfolding row_of touches
row_of-inv g port k r h = (
  (and_left (touches port r) _ h),
  (key_same_iff (connection g r) k).0 (and_right (touches port r) _ h),
)
  where
    and_left : (x y : Bool) → (x && y) ≡ true → x ≡ true
    and_left x y p = ground arith

    and_right : (x y : Bool) → (x && y) ≡ true → y ≡ true
    and_right x y p = ground arith

skipped-Added :
    (g : TextTools) (port : ℕ) (owned : Dict Key Bool) (r : Row) (rows : List Row) (t : Tally)
    (ks : List Key)
    → (touches port r ≡ true
        → (marked (connection g r) owned || marked (connection g r) t.seen) ≡ true)
    → count_row g port owned r t ≡ t
    → Added g port owned rows t ks
    → Added g port owned (r ∷ rows) t ks
unfolding Added count_rows row_of
skipped-Added g port owned r rows t ks skip e added = (
  (ap (λ u. (count_rows g port owned rows u).n) e ∙ added.0.0, added.0.1),
  λ k.
      skip_bool _ _ (row_of g port k r) _
        (λ h.
          let i = row_of-inv g port k r h in
          subst (λ j. (marked j owned || marked j t.seen) ≡ true) i.1 (skip i.0))
        (added.1 k),
)

counted-Added :
    (g : TextTools) (port : ℕ) (owned : Dict Key Bool) (r : Row) (rows : List Row) (t : Tally)
    (ks : List Key)
    → touches port r ≡ true
    → (marked (connection g r) owned || marked (connection g r) t.seen) ≡ false
    → count_row g port owned r t
      ≡ record { n = t.n + 1; seen = insert (connection g r) true t.seen }
    → Added g port owned rows
        (record { n = t.n + 1; seen = insert (connection g r) true t.seen })
        ks
    → Added g port owned (r ∷ rows) t (connection g r ∷ ks)
unfolding Added count_rows row_of touches
counted-Added g port owned r rows t ks touch fresh e added = (
  (
    ap (λ u. (count_rows g port owned rows u).n) e ∙ counted added.0.0,
    (blocked_bool _ _ _ _ (marked k0 t.seen) (==_refl k0) (among k0), added.0.1),
  ),
  λ k.
      subst
        (λ b. (key_same k0 k || is_among k ks) ≡ (
          ((b && key_same k0 k) || any (row_of g port k) rows)
          && not (marked k owned || marked k t.seen)))
        (sym touch)
        (count_bool (is_among k ks) _ (key_same k0 k) (marked k owned) (marked k t.seen)
          (λ q.
            subst (λ j. (marked j owned || marked j t.seen) ≡ false) ((key_same_iff k0 k).0 q)
              fresh)
          (among k)),
)
  where
    k0 : Key
    k0 = connection g r

    counted : {n : ℕ} → n ≡ (t.n + 1) + length ks → n ≡ t.n + suc (length ks)
    counted h = omega arith

    among :
        (k : Key)
        → is_among k ks ≡ (
            any (row_of g port k) rows
            && not (marked k owned || (key_same (connection g r) k || marked k t.seen)))
    among k =
        added.1 k
        ∙ ap (λ b. any (row_of g port k) rows && not (marked k owned || b))
            (marked-insert k (connection g r) t.seen)

count_rows-Added :
    (g : TextTools) (port : ℕ) (owned : Dict Key Bool) (rows : List Row) (t : Tally)
    → (ks : List Key) × Added g port owned rows t ks
unfolding Added count_rows
count_rows-Added g port owned [] t = ([], ((omega arith, tt), λ k. refl))
count_rows-Added g port owned (r ∷ rows) t =
    let (ks, added) = count_rows-Added g port owned rows (count_row g port owned r t) in
    elim (count_row-cases g port owned r t) [
      | inl (e, skip) ↦ (
        ks,
        skipped-Added g port owned r rows t ks skip e
            (subst (λ u. Added g port owned rows u ks) e added),
      )
      | inr (e, (touch, fresh)) ↦ (
        connection g r ∷ ks,
        counted-Added g port owned r rows t ks touch fresh e
            (subst (λ u. Added g port owned rows u ks) e added),
      )
    ]

without_false : (b : Bool) → ((b || false) || false) ≡ b
without_false b = ground arith

-- The count is the length of a list of the clients.
pub foreign_established-counts :
    (g : TextTools) (rows : List Row) (own : Dict String Bool) (port : ℕ)
    → (ks : List Key) × (AreClients g rows own port ks
        × (foreign_established g rows own port ≡ length ks))
unfolding foreign_established is_client Added lookup
foreign_established-counts g rows own port =
    let (ks, ((n, distinct), among)) =
      count_rows-Added g port (owned_from g own rows []) rows (record { n = 0; seen = [] }) in
    (
      ks,
      (
        (distinct, λ k. among k ∙ ap (λ b. any (row_of g port k) rows && not b) (owned_only k)),
        from_zero n,
      ),
    )
  where
    owned_only :
        (k : Key)
        → (marked k (owned_from g own rows []) || marked k []) ≡ any (own_row_of g own k) rows
    owned_only k =
        ap (λ b. b || false) (owned_from-marks g own rows [] k)
        ∙ without_false (any (own_row_of g own k) rows)

    from_zero : {n m : ℕ} → n ≡ 0 + m → n ≡ m
    from_zero h = omega arith
