-- ===== src/UrlCheck/Bounds.antt =====
-- How many entries the cache holds, and which of them it drops.
use v2pro_dock.Base.{
  ℕ, zero, suc, ◌≤◌, ◌<◌, String, ◌≡◌, refl, sym, inl, inr, true, false, [], ◌∷◌, arith, ltb, leb,
  ltb→lt, Bool-cases, ==_refl, nat_equal, string_equal, length, All,
}
use v2pro_dock.Base.Dict.{Dict, lookup, insert, delete, has}
use mathlib.Core.Path.{subst}
use v2pro_dock.UrlCheck.{
  UrlCheckResult, CacheEntry, UrlCheckCache, oldest, evict_one, evict, finish, check_cache_entries,
}

length-delete : (k : String) (m : Dict String CacheEntry) → length (delete k m) ≤ length m
unfolding delete
length-delete k [] = omega arith
length-delete k ((j, e) ∷ m) = ground (arith, length-delete k m)

length-delete-has :
    (k : String) (m : Dict String CacheEntry) → has k m ≡ true → length (delete k m) < length m
unfolding delete lookup
length-delete-has k [] h = cc h
length-delete-has k ((j, e) ∷ m) h = ground (arith, length-delete k m, length-delete-has k m)

has-cons :
    (k j : String) (e : CacheEntry) (m : Dict String CacheEntry)
    → has k m ≡ true
    → has k ((j, e) ∷ m) ≡ true
unfolding lookup
has-cons k j e m h = ground (arith, h)

has-cons_self :
    (k : String) (e : CacheEntry) (m : Dict String CacheEntry) → has k ((k, e) ∷ m) ≡ true
unfolding lookup
has-cons_self k e m = ground (arith, ==_refl k)

has-under :
    (k i j : String) (d e : CacheEntry) (m : Dict String CacheEntry)
    → has k ((i, d) ∷ m) ≡ true
    → has k ((i, d) ∷ (j, e) ∷ m) ≡ true
unfolding lookup
has-under k i j d e m h = ground (arith, h)

oldest-older :
    (k j : String) (e f : CacheEntry) (m : Dict String CacheEntry)
    → ltb f.at e.at ≡ true
    → oldest (k, e) ((j, f) ∷ m) ≡ oldest (j, f) m
unfolding oldest
oldest-older k j e f m h = rw h refl

oldest-not_older :
    (k j : String) (e f : CacheEntry) (m : Dict String CacheEntry)
    → ltb f.at e.at ≡ false
    → oldest (k, e) ((j, f) ∷ m) ≡ oldest (k, e) m
unfolding oldest
oldest-not_older k j e f m h = rw h refl

-- The oldest entry is one of those given.
has-oldest :
    (k : String) (e : CacheEntry) (m : Dict String CacheEntry)
    → has (oldest (k, e) m).0 ((k, e) ∷ m) ≡ true
has-oldest k e [] = unfold oldest in has-cons_self k e []
has-oldest k e ((j, f) ∷ m) = elim (Bool-cases (ltb f.at e.at)) [
  | inl h ↦
      subst (λ x. has x.0 ((k, e) ∷ (j, f) ∷ m) ≡ true) (sym (oldest-older k j e f m h))
        (has-cons (oldest (j, f) m).0 k e ((j, f) ∷ m) (has-oldest j f m))
  | inr h ↦
      subst (λ x. has x.0 ((k, e) ∷ (j, f) ∷ m) ≡ true) (sym (oldest-not_older k j e f m h))
        (has-under (oldest (k, e) m).0 k j e f m (has-oldest k e m))
]

length-evict_one :
    (b : String × CacheEntry) (m : Dict String CacheEntry)
    → length (evict_one (b ∷ m)) < length (b ∷ m)
unfolding evict_one
length-evict_one (k, e) m = length-delete-has (oldest (k, e) m).0 ((k, e) ∷ m) (has-oldest k e m)

not_le : (a b : ℕ) → leb b a ≡ false → a < b
not_le a b h = ground (arith, h)

length-evict :
    (fuel : ℕ) (m : Dict String CacheEntry)
    → length m ≤ fuel
    → length (evict fuel m) < check_cache_entries
unfolding evict
length-evict zero [] h = omega arith
length-evict zero (e ∷ m) h = absurd (omega arith)
length-evict (suc fuel) [] h = ground arith
length-evict (suc fuel) (e ∷ m) h =
    let one = length-evict_one e m in
    let ih = length-evict fuel (evict_one (e ∷ m)) (omega arith) in
    elim (Bool-cases (leb check_cache_entries (length (e ∷ m)))) [
      | inl g ↦ rw g ih
      | inr g ↦ rw g (not_le (length (e ∷ m)) check_cache_entries g)
    ]

-- Whatever the cache held, after a flight that succeeds it has at most 128 entries; a flight that
-- fails adds none.
pub finish-bounded :
    (k : String) (f : ℕ) (res : UrlCheckResult) (now : ℕ) (c : UrlCheckCache)
    → (length (finish k f res false now c).entries ≤ check_cache_entries)
      × ((finish k f res true now c).entries ≡ c.entries)
unfolding finish insert
finish-bounded k f res now c =
    let m = evict (length c.entries) c.entries in
    (
      omega (arith, length-evict (length c.entries) c.entries (omega arith), length-delete k m),
      refl,
    )

not_lt : (a b : ℕ) → ltb a b ≡ false → b ≤ a
not_lt a b h = ground (arith, h)

-- The entry that a round of the eviction picks is at least as old as every other.
pub oldest_lem :
    (k : String) (e : CacheEntry) (m : Dict String CacheEntry)
    → All (λ o. (oldest (k, e) m).1.at ≤ o.1.at) ((k, e) ∷ m)
oldest_lem k e [] = unfold oldest in (omega arith, tt)
oldest_lem k e ((j, f) ∷ m) = elim (Bool-cases (ltb f.at e.at)) [
  | inl h ↦
      subst (λ x. All (λ o. x.1.at ≤ o.1.at) ((k, e) ∷ (j, f) ∷ m)) (sym (oldest-older k j e f m h))
        (omega (arith, (oldest_lem j f m).0, ltb→lt f.at e.at h), oldest_lem j f m)
  | inr h ↦
      subst (λ x. All (λ o. x.1.at ≤ o.1.at) ((k, e) ∷ (j, f) ∷ m))
        (sym (oldest-not_older k j e f m h))
        (let (x, xs) = oldest_lem k e m in
          let y : (oldest (k, e) m).1.at ≤ f.at = omega (arith, x, not_lt f.at e.at h) in
          (x, (y, xs)))
]
