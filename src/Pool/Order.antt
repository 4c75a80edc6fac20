-- ===== src/Pool/Order.antt =====
-- The pool in preference order: falling rank, and the subscription's order inside a tier.
use v2pro_dock.Base.{
  ℕ, ◌≤◌, String, ◌≡◌, refl, ◌∙◌, inl, inr, List, [], ◌∷◌, arith, ltb, nat_eq, if◌then◌else◌,
  Bool-cases, nat_equal, string_equal, All, All-map,
}
use v2pro_dock.Pool.{ProxyConfig, insert_ranked, sort_ranked, ranked, order_by_dpi_rank}

-- The configs of one tier, in order.
unfoldable pub of_rank : ℕ → List ProxyConfig → List ProxyConfig
of_rank r [] = []
of_rank r (c ∷ cs) = if nat_eq c.rank r then c ∷ of_rank r cs else of_rank r cs

-- Each rank is at least every later one.
abbrev pub AtMost : ℕ → List ProxyConfig → Type 0
AtMost r = All λ c. c.rank ≤ r

abbrev pub IsRanked : List ProxyConfig → Type 0
IsRanked [] = Unit {0}
IsRanked (c ∷ cs) = AtMost c.rank cs × IsRanked cs

of_rank-insert :
    (r : ℕ) (c : ProxyConfig) (cs : List ProxyConfig)
    → of_rank r (insert_ranked c cs) ≡ of_rank r (c ∷ cs)
unfolding of_rank insert_ranked
of_rank-insert r c [] = refl
of_rank-insert r c (d ∷ ds) = ground (arith, of_rank-insert r c ds)

of_rank-cons :
    (r : ℕ) (c : ProxyConfig) (xs ys : List ProxyConfig)
    → of_rank r xs ≡ of_rank r ys
    → of_rank r (c ∷ xs) ≡ of_rank r (c ∷ ys)
unfolding of_rank
of_rank-cons r c xs ys h = ground arith

of_rank-sort : (r : ℕ) (cs : List ProxyConfig) → of_rank r (sort_ranked cs) ≡ of_rank r cs
unfolding sort_ranked
of_rank-sort r [] = refl
of_rank-sort r (c ∷ cs) =
    of_rank-insert r c (sort_ranked cs) ∙ of_rank-cons r c (sort_ranked cs) cs (of_rank-sort r cs)

AtMost-insert :
    (r : ℕ) (c : ProxyConfig) (cs : List ProxyConfig)
    → c.rank ≤ r
    → AtMost r cs
    → AtMost r (insert_ranked c cs)
unfolding insert_ranked
AtMost-insert r c [] h a = (h, tt)
AtMost-insert r c (d ∷ ds) h a = ground (arith, AtMost-insert r c ds h a.1)

AtMost-mono : (q r : ℕ) (cs : List ProxyConfig) → q ≤ r → AtMost q cs → AtMost r cs
AtMost-mono q r cs h = All-map (λ c. c.rank ≤ q) (λ c. c.rank ≤ r) cs (λ c k. omega arith)

insert-IsRanked :
    (c : ProxyConfig) (cs : List ProxyConfig) → IsRanked cs → IsRanked (insert_ranked c cs)
unfolding insert_ranked
insert-IsRanked c [] h = (tt, tt)
insert-IsRanked c (d ∷ ds) h = elim (Bool-cases (ltb c.rank d.rank)) [
  | inl e ↦ rw e (AtMost-insert d.rank c ds (ground arith) h.0, insert-IsRanked c ds h.1)
  | inr e ↦ rw e ((ground arith, AtMost-mono d.rank c.rank ds (ground arith) h.0), h)
]

sort-IsRanked : (cs : List ProxyConfig) → IsRanked (sort_ranked cs)
unfolding sort_ranked
sort-IsRanked [] = tt
sort-IsRanked (c ∷ cs) = insert-IsRanked c (sort_ranked cs) (sort-IsRanked cs)

-- The ordered pool has falling ranks, and each tier holds the configs of that rank in the order of
-- the subscription, none lost and none added.
pub order_by_dpi_rank_lem :
    (dpi_rank : String → ℕ) (cs : List ProxyConfig)
    → IsRanked (order_by_dpi_rank dpi_rank cs)
      × ((r : ℕ) → of_rank r (order_by_dpi_rank dpi_rank cs) ≡ of_rank r (ranked dpi_rank cs))
unfolding order_by_dpi_rank
order_by_dpi_rank_lem dpi_rank cs =
    (sort-IsRanked (ranked dpi_rank cs), λ r. of_rank-sort r (ranked dpi_rank cs))
