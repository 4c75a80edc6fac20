-- ===== src/Pool/Kept.antt =====
-- What `orderByDPIRank` of v2proxy/subscription.go keeps: each config's properties, and distinct keys.
use v2pro_dock.Base.{
  ℕ, String, ◌≡◌, refl, ap, ◌∙◌, ◌↔◌, ◌⊎◌, inl, inr, Bool, true, not, ◌&&◌, none, List, [], ◌∷◌,
  arith, str_eq, eq_iff, ltb, nat_equal, string_equal, if_cases, All,
}
use v2pro_dock.Pool.{
  ProxyConfig, key, find_key, KeysDistinct, insert_ranked, sort_ranked, ranked, order_by_dpi_rank,
}

All-insert_ranked :
    (P : ProxyConfig → Type 0) (c : ProxyConfig) (cs : List ProxyConfig)
    → P c
    → All P cs
    → All P (insert_ranked c cs)
unfolding insert_ranked
All-insert_ranked P c [] h a = (h, tt)
All-insert_ranked P c (d ∷ ds) h a =
    if_cases (All P) (ltb c.rank d.rank) _ _ (λ _. (a.0, All-insert_ranked P c ds h a.1))
      (λ _. (h, a))

All-sort_ranked :
    (P : ProxyConfig → Type 0) (cs : List ProxyConfig) → All P cs → All P (sort_ranked cs)
unfolding sort_ranked
All-sort_ranked P [] a = tt
All-sort_ranked P (c ∷ cs) a = All-insert_ranked P c (sort_ranked cs) a.0 (All-sort_ranked P cs a.1)

All-ranked :
    (P Q : ProxyConfig → Type 0) (f : String → ℕ) (cs : List ProxyConfig)
    → ((c : ProxyConfig) → P c → Q (record c { rank = f c.raw }))
    → All P cs
    → All Q (ranked f cs)
unfolding ranked
All-ranked P Q f [] h a = tt
All-ranked P Q f (c ∷ cs) h a = (h c a.0, All-ranked P Q f cs h a.1)

-- A property that the rank of the link gives holds of the whole ordered pool.
pub All-order_by_dpi_rank :
    (P Q : ProxyConfig → Type 0) (f : String → ℕ) (cs : List ProxyConfig)
    → ((c : ProxyConfig) → P c → Q (record c { rank = f c.raw }))
    → All P cs
    → All Q (order_by_dpi_rank f cs)
unfolding order_by_dpi_rank
All-order_by_dpi_rank P Q f cs h a = All-sort_ranked Q (ranked f cs) (All-ranked P Q f cs h a)

-- The config is one of the list.
abbrev pub Among : ProxyConfig → List ProxyConfig → Type 0
Among d [] = ⊥
Among d (c ∷ cs) = (c ≡ d) ⊎ Among d cs

Among-insert_ranked :
    (d c : ProxyConfig) (cs : List ProxyConfig) → Among d (c ∷ cs) → Among d (insert_ranked c cs)
unfolding insert_ranked
Among-insert_ranked d c [] m = m
Among-insert_ranked d c (b ∷ bs) m =
    if_cases (Among d) (ltb c.rank b.rank) _ _
      (λ _. elim m [
        | inl e ↦ inr (Among-insert_ranked d c bs (inl e))
        | inr (inl e) ↦ inl e
        | inr (inr n) ↦ inr (Among-insert_ranked d c bs (inr n))
      ])
      (λ _. m)

Among-sort_ranked :
    (d : ProxyConfig) (cs : List ProxyConfig) → Among d cs → Among d (sort_ranked cs)
unfolding sort_ranked
Among-sort_ranked d [] m = elim m [ ]
Among-sort_ranked d (c ∷ cs) (inl e) = Among-insert_ranked d c (sort_ranked cs) (inl e)
Among-sort_ranked d (c ∷ cs) (inr m) =
    Among-insert_ranked d c (sort_ranked cs) (inr (Among-sort_ranked d cs m))

Among-ranked :
    (f : String → ℕ) (d : ProxyConfig) (cs : List ProxyConfig)
    → Among d cs
    → Among (record d { rank = f d.raw }) (ranked f cs)
unfolding ranked
Among-ranked f d [] m = elim m [ ]
Among-ranked f d (c ∷ cs) (inl e) = inl (ap (λ (x : ProxyConfig). record x { rank = f x.raw }) e)
Among-ranked f d (c ∷ cs) (inr m) = inr (Among-ranked f d cs m)

-- No config is lost by the order.
pub Among-order_by_dpi_rank :
    (f : String → ℕ) (d : ProxyConfig) (cs : List ProxyConfig)
    → Among d cs
    → Among (record d { rank = f d.raw }) (order_by_dpi_rank f cs)
unfolding order_by_dpi_rank
Among-order_by_dpi_rank f d cs m =
    Among-sort_ranked (record d { rank = f d.raw }) (ranked f cs) (Among-ranked f d cs m)

-- Has no config of the list the key?
absent : String → List ProxyConfig → Bool
absent k [] = true
absent k (c ∷ cs) = not (str_eq (key c) k) && absent k cs

absent-insert_ranked :
    (k : String) (c : ProxyConfig) (cs : List ProxyConfig)
    → absent k (insert_ranked c cs) ≡ absent k (c ∷ cs)
unfolding insert_ranked absent
absent-insert_ranked k c [] = refl
absent-insert_ranked k c (d ∷ ds) = ground (arith, absent-insert_ranked k c ds)

absent-sort_ranked : (k : String) (cs : List ProxyConfig) → absent k (sort_ranked cs) ≡ absent k cs
unfolding sort_ranked absent
absent-sort_ranked k [] = refl
absent-sort_ranked k (c ∷ cs) =
    absent-insert_ranked k c (sort_ranked cs)
    ∙ ap (λ b. not (str_eq (key c) k) && b) (absent-sort_ranked k cs)

absent-ranked :
    (f : String → ℕ) (k : String) (cs : List ProxyConfig) → absent k (ranked f cs) ≡ absent k cs
unfolding ranked absent key
absent-ranked f k [] = refl
absent-ranked f k (c ∷ cs) = ap (λ b. not (str_eq (key c) k) && b) (absent-ranked f k cs)

absent_iff : (k : String) (cs : List ProxyConfig) → (absent k cs ≡ true) ↔ (find_key k cs ≡ none)
unfolding absent find_key
absent_iff k [] = ground arith
absent_iff k (c ∷ cs) = ground (arith, absent_iff k cs)

-- No two keys are the same.
distinct : List ProxyConfig → Bool
unfolding absent
distinct [] = true
distinct (c ∷ cs) = absent (key c) cs && distinct cs

distinct→ : (cs : List ProxyConfig) → distinct cs ≡ true → KeysDistinct cs
unfolding distinct
distinct→ [] h = tt
distinct→ (c ∷ cs) h = ((absent_iff (key c) cs).0 (ground arith), distinct→ cs (ground arith))

→distinct : (cs : List ProxyConfig) → KeysDistinct cs → distinct cs ≡ true
unfolding distinct
→distinct [] h = refl
→distinct (c ∷ cs) h = ground (arith, (absent_iff (key c) cs).1 h.0, →distinct cs h.1)

distinct-insert_ranked :
    (c : ProxyConfig) (cs : List ProxyConfig)
    → distinct (insert_ranked c cs) ≡ (absent (key c) cs && distinct cs)
unfolding insert_ranked distinct absent
distinct-insert_ranked c [] = refl
distinct-insert_ranked c (d ∷ ds) = ground (
  arith,
  distinct-insert_ranked c ds,
  absent-insert_ranked (key d) c ds,
  eq_iff (key c) (key d),
  eq_iff (key d) (key c),
)

distinct-sort_ranked : (cs : List ProxyConfig) → distinct (sort_ranked cs) ≡ distinct cs
unfolding sort_ranked distinct
distinct-sort_ranked [] = refl
distinct-sort_ranked (c ∷ cs) = ground (
  arith,
  distinct-insert_ranked c (sort_ranked cs),
  absent-sort_ranked (key c) cs,
  distinct-sort_ranked cs,
)

distinct-ranked : (f : String → ℕ) (cs : List ProxyConfig) → distinct (ranked f cs) ≡ distinct cs
unfolding ranked distinct key
distinct-ranked f [] = refl
distinct-ranked f (c ∷ cs) = ground (arith, absent-ranked f (key c) cs, distinct-ranked f cs)

-- Ordering a pool of distinct keys keeps them distinct.
pub order_by_dpi_rank-KeysDistinct :
    (f : String → ℕ) (cs : List ProxyConfig)
    → KeysDistinct cs
    → KeysDistinct (order_by_dpi_rank f cs)
unfolding order_by_dpi_rank
order_by_dpi_rank-KeysDistinct f cs h =
    distinct→ (sort_ranked (ranked f cs))
      (distinct-sort_ranked (ranked f cs) ∙ distinct-ranked f cs ∙ →distinct cs h)
