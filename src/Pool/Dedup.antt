-- ===== src/Pool/Dedup.antt =====
-- What `dedupConfigs` keeps.
use v2pro_dock.Base.{
  String, ◌≡◌, refl, ◌∙◌, inl, inr, Bool, true, none, List, [], ◌∷◌, arith, eq_iff, if◌then◌else◌,
  Bool-cases, nat_equal, string_equal,
}
use v2pro_dock.Base.Dict.{Dict, lookup, insert, lookup-insert, lookup-insert_self, lookup-nil}
use v2pro_dock.Pool.{ProxyConfig, key, or_false, dedup_from, dedup_configs, find_key, KeysDistinct}

find_key-dedup_from :
    (k : String) (seen : Dict String Bool) (cs : List ProxyConfig)
    → find_key k (dedup_from seen cs) ≡ (if or_false (lookup k seen) then none else find_key k cs)
unfolding find_key dedup_from
find_key-dedup_from k seen [] = ground arith
find_key-dedup_from k seen (c ∷ cs) = ground (
  arith,
  eq_iff (key c) k,
  find_key-dedup_from k seen cs,
  find_key-dedup_from k (insert (key c) true seen) cs,
  lookup-insert (key c) k true seen,
)

dedup_from-KeysDistinct :
    (seen : Dict String Bool) (cs : List ProxyConfig) → KeysDistinct (dedup_from seen cs)
unfolding dedup_from
dedup_from-KeysDistinct seen [] = tt
dedup_from-KeysDistinct seen (c ∷ cs) = elim (Bool-cases (or_false (lookup (key c) seen))) [
  | inl e ↦ rw e (dedup_from-KeysDistinct seen cs)
  | inr e ↦ rw e (
    rw find_key-dedup_from (rw lookup-insert_self refl),
    dedup_from-KeysDistinct (insert (key c) true seen) cs,
  )
]

-- The result holds for each key exactly the first config that the input holds for it, and no key
-- twice.
pub dedup_configs_lem :
    (cs : List ProxyConfig)
    → ((k : String) → find_key k (dedup_configs cs) ≡ find_key k cs)
      × KeysDistinct (dedup_configs cs)
unfolding dedup_configs
dedup_configs_lem cs =
    ((λ k. find_key-dedup_from k [] cs ∙ (rw lookup-nil)), dedup_from-KeysDistinct [] cs)
