-- ===== src/UrlCheck.antt =====
-- v2proxy/urlcheck.go: the cache that answers repeated requests and joins concurrent ones, and the
-- course of `CheckURL`. Times are nanoseconds, and each clock reading is an argument.
pub mod Cache
pub mod Bounds
pub mod Flights
pub mod Tests
use v2pro_dock.Base.{
  ℕ, zero, suc, ◌+◌, ◌-◌, ◌*◌, String, Bool, true, false, Option, none, some, List, [], ◌∷◌, ltb,
  leb, if◌then◌else◌, nat_equal, string_equal, length,
}
use v2pro_dock.Base.Dict.{Dict, lookup, insert, delete}
use v2pro_dock.Base.Int.{ℤ, pos, negsuc}
use v2pro_dock.Egress.{second}

abbrev pub check_max_depth : ℕ
check_max_depth = 32

abbrev pub check_cache_ttl : ℕ
check_cache_ttl = 60 * second

abbrev pub check_cache_entries : ℕ
check_cache_entries = 128

pub record CheckedProxy : Type 0 where
  pub name : String
  pub endpoint : String
  pub instance_index : Option ℕ
  pub latency_ms : ℕ
  pub from_pool : Bool

pub record UrlCheckResult : Type 0 where
  pub result_key : String
  pub probed_url : String
  pub alive : List CheckedProxy
  pub pool : List CheckedProxy
  pub depth : ℕ
  pub checked : ℕ
  pub failed : ℕ
  pub cached : Bool
  pub truncated : Bool

pub record CacheEntry : Type 0 where
  pub at : ℕ
  pub res : UrlCheckResult

-- A flight in progress, by its number; `inflight` maps a probe URL to it. `finished` has what the
-- flights that are done have left for those that joined them: a result and whether there was an
-- error.
pub record UrlCheckCache : Type 0 where
  pub entries : Dict String CacheEntry
  pub inflight : Dict String ℕ
  pub finished : Dict ℕ (UrlCheckResult × Bool)
  pub next_flight : ℕ

abbrev pub new_cache : UrlCheckCache
new_cache = record { entries = []; inflight = []; finished = []; next_flight = 0 }

-- `get`
unfoldable pub get : String → ℕ → UrlCheckCache → Option UrlCheckResult
get k now c = elim (lookup k c.entries) [
  | none ↦ none
  | some e ↦
      if ltb check_cache_ttl (now - e.at) then none else some (record e.res { cached = true })
]

-- `begin`: the flight, and whether the caller leads it.
unfoldable pub begin : String → UrlCheckCache → ℕ × Bool × UrlCheckCache
begin k c = elim (lookup k c.inflight) [
  | some f ↦ (f, false, c)
  | none ↦ (
    c.next_flight,
    true,
    record c { inflight = insert k c.next_flight c.inflight; next_flight = c.next_flight + 1 },
  )
]

-- The entry with the oldest time, the first of equals.
unfoldable pub oldest : (String × CacheEntry) → Dict String CacheEntry → String × CacheEntry
oldest best [] = best
oldest (k, e) ((j, f) ∷ m) = oldest (if ltb f.at e.at then (j, f) else (k, e)) m

-- One round of the eviction.
unfoldable pub evict_one : Dict String CacheEntry → Dict String CacheEntry
unfolding oldest
evict_one [] = []
evict_one (e ∷ m) = delete (oldest e m).0 (e ∷ m)

-- `for len(c.entries) >= checkCacheEntries`, with the number of entries as fuel.
unfoldable pub evict : ℕ → Dict String CacheEntry → Dict String CacheEntry
unfolding evict_one
evict zero m = m
evict (suc fuel) m =
    let rest = evict fuel (evict_one m) in if leb check_cache_entries (length m) then rest else m

-- `finish`
unfoldable pub finish : String → ℕ → UrlCheckResult → Bool → ℕ → UrlCheckCache → UrlCheckCache
unfolding evict
finish k f res failed now c = record c {
  entries =
      if failed
      then c.entries
      else insert k (record { at = now; res = res }) (evict (length c.entries) c.entries);
  inflight = delete k c.inflight;
  finished = insert f (res, failed) c.finished;
}

unfoldable pub clamp_depth : ℤ → ℕ
clamp_depth (pos depth) = if ltb check_max_depth depth then check_max_depth else depth
clamp_depth (negsuc _) = 0

-- How `CheckURL` goes on for a target: with an answer from the cache, by waiting for a flight, or
-- by leading one.
pub data Course : Type 0 where
  answer : UrlCheckResult → Course
  join : ℕ → Course
  lead : ℕ → ℕ → Course

-- The leader of a flight or the one that joins it, after the cache had no answer.
abbrev pub course_of : ℕ → ℕ × Bool × UrlCheckCache → Course × UrlCheckCache
course_of d (f, true, c) = (lead f d, c)
course_of d (f, false, c) = (join f, c)

unfoldable pub check_url : String → ℤ → ℕ → UrlCheckCache → Course × UrlCheckCache
unfolding get begin clamp_depth
check_url k depth now c = elim (get k now c) [
  | none ↦ course_of (clamp_depth depth) (begin k c)
  | some r ↦
      if leb (clamp_depth depth) r.depth
      then (answer r, c)
      else course_of (clamp_depth depth) (begin k c)
]

-- What one that joined a flight returns when the flight is done.
unfoldable pub joined : ℕ → UrlCheckCache → Option (UrlCheckResult × Bool)
joined f c = elim (lookup f c.finished) [
  | none ↦ none
  | some (r, failed) ↦ some (record r { cached = true }, failed)
]
