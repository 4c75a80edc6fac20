-- ===== src/Aggregate/Insertion.antt =====
-- A sort that keeps the promise of `slices.SortFunc` by `LatMs`.
use mathlib.Core.List.{Perm}
use mathlib.Core.List.Perm
use v2pro_dock.Base.{
  ℕ, ◌≤◌, inl, inr, List, [], ◌∷◌, arith, ltb, if◌then◌else◌, Bool-cases, nat_equal, string_equal,
  if_cases, All, All-map,
}
use v2pro_dock.Manager.{InstanceStatus}
use v2pro_dock.Aggregate.{IsFastestFirst, LatencySort}

insert_by : InstanceStatus → List InstanceStatus → List InstanceStatus
insert_by s [] = s ∷ []
insert_by s (t ∷ ts) =
    let rest = insert_by s ts in if ltb t.lat_ms s.lat_ms then t ∷ rest else s ∷ t ∷ ts

unfoldable pub sort_by : List InstanceStatus → List InstanceStatus
unfolding insert_by
sort_by [] = []
sort_by (s ∷ ss) = insert_by s (sort_by ss)

-- No entry is faster than the bound.
abbrev SlowerThan : ℕ → List InstanceStatus → Type 0
SlowerThan n = All λ t. n ≤ t.lat_ms

SlowerThan-mono : (m n : ℕ) (ss : List InstanceStatus) → m ≤ n → SlowerThan n ss → SlowerThan m ss
SlowerThan-mono m n ss h =
    All-map (λ t. n ≤ t.lat_ms) (λ t. m ≤ t.lat_ms) ss (λ t k. omega (arith, h, k))

SlowerThan-insert :
    (n : ℕ) (s : InstanceStatus) (ss : List InstanceStatus)
    → n ≤ s.lat_ms
    → SlowerThan n ss
    → SlowerThan n (insert_by s ss)
unfolding insert_by
SlowerThan-insert n s [] h a = (h, tt)
SlowerThan-insert n s (t ∷ ts) h a = ground (arith, SlowerThan-insert n s ts h a.1)

insert-IsFastestFirst :
    (s : InstanceStatus) (ss : List InstanceStatus)
    → IsFastestFirst ss
    → IsFastestFirst (insert_by s ss)
unfolding insert_by
insert-IsFastestFirst s [] h = (tt, tt)
insert-IsFastestFirst s (t ∷ ts) h = elim (Bool-cases (ltb t.lat_ms s.lat_ms)) [
  | inl e ↦
      rw e (SlowerThan-insert t.lat_ms s ts (ground arith) h.0, insert-IsFastestFirst s ts h.1)
  | inr e ↦ rw e ((ground arith, SlowerThan-mono s.lat_ms t.lat_ms ts (ground arith) h.0), h)
]

pub sort-IsFastestFirst : (ss : List InstanceStatus) → IsFastestFirst (sort_by ss)
unfolding sort_by
sort-IsFastestFirst [] = tt
sort-IsFastestFirst (s ∷ ss) = insert-IsFastestFirst s (sort_by ss) (sort-IsFastestFirst ss)

insert-Perm : (s : InstanceStatus) (ss : List InstanceStatus) → Perm (insert_by s ss) (s ∷ ss)
unfolding insert_by
insert-Perm s [] = Perm.refl (s ∷ [])
insert-Perm s (t ∷ ts) =
    if_cases (λ xs. Perm xs (s ∷ t ∷ ts)) (ltb t.lat_ms s.lat_ms) _ _
      (λ _. Perm.trans (Perm.cons t (insert-Perm s ts)) (Perm.swap s t ts))
      (λ _. Perm.refl (s ∷ t ∷ ts))

pub sort-Perm : (ss : List InstanceStatus) → Perm (sort_by ss) ss
unfolding sort_by
sort-Perm [] = Perm.refl []
sort-Perm (s ∷ ss) = Perm.trans (insert-Perm s (sort_by ss)) (Perm.cons s (sort-Perm ss))

abbrev pub by_insertion : LatencySort
by_insertion = record { sort = sort_by; sorts = sort-IsFastestFirst; permutes = sort-Perm }
