-- ===== src/UrlCheck/Cache.antt =====
-- What the cache answers.
use v2pro_dock.Base.{
  ℕ, ◌-◌, ◌≤◌, String, ◌≡◌, ◌≢◌, Bool, true, false, none, some, arith, leb, if◌then◌else◌,
  nat_equal, string_equal, length,
}
use v2pro_dock.Base.Dict.{lookup, lookup-insert_self}
use v2pro_dock.Base.Int.{ℤ}
use v2pro_dock.UrlCheck.{
  UrlCheckResult, CacheEntry, UrlCheckCache, get, begin, finish, clamp_depth, check_url, course_of,
  answer, check_cache_ttl, evict,
}

get-stored :
    (k : String) (now : ℕ) (c : UrlCheckCache) (e : CacheEntry)
    → lookup k c.entries ≡ some e
    → get k now c
      ≡ (if leb (now - e.at) check_cache_ttl then some (record e.res { cached = true }) else none)
unfolding get
get-stored k now c e h = ground arith

-- A result is answered, marked as cached, to every request that comes within the time to live of
-- its flight's end, and to none after it.
pub get-finish :
    (k : String) (f : ℕ) (res : UrlCheckResult) (at now : ℕ) (c : UrlCheckCache)
    → get k now (finish k f res false at c)
      ≡ (if leb (now - at) check_cache_ttl then some (record res { cached = true }) else none)
get-finish k f res at now c =
    let e : CacheEntry = record { at = at; res = res } in
    get-stored k now (finish k f res false at c) e
      (unfold finish in lookup-insert_self k e (evict (length c.entries) c.entries))

course_of-answer :
    (d : ℕ) (b : ℕ × Bool × UrlCheckCache) (r : UrlCheckResult) → (course_of d b).0 ≢ answer r
course_of-answer d (f, true, c) r h = cc h
course_of-answer d (f, false, c) r h = cc h

-- An answer from the cache is at least as deep as the request, up to the cap on the depth.
pub answer_depth :
    (k : String) (depth : ℤ) (now : ℕ) (c : UrlCheckCache) (r : UrlCheckResult)
    → (check_url k depth now c).0 ≡ answer r
    → (clamp_depth depth ≤ r.depth) × (r.cached ≡ true)
unfolding check_url get
answer_depth k depth now c r h =
    ground (arith, course_of-answer (clamp_depth depth) (begin k c) r, h)
