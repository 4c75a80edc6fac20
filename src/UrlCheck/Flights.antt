-- ===== src/UrlCheck/Flights.antt =====
-- Who probes and who waits when requests for one URL overlap.
use v2pro_dock.Base.{
  ℕ, ◌<◌, String, ◌≡◌, refl, ap, ◌∙◌, ◌≢◌, Bool, true, false, none, some, List, [], ◌∷◌, arith,
  nat_equal, string_equal, All,
}
use v2pro_dock.Base.Dict.{
  lookup, lookup-insert_self, lookup-insert_ne, lookup-delete_self, lookup-delete_ne,
}
use v2pro_dock.Base.Int.{ℤ}
use v2pro_dock.UrlCheck.{
  UrlCheckResult, UrlCheckCache, get, begin, finish, clamp_depth, check_url, join, lead, joined,
}

-- What other requests do to the cache.
pub data Op : Type 0 where
  begins : String → Op
  finishes : String → ℕ → UrlCheckResult → Bool → ℕ → Op

abbrev pub url_of : Op → String
url_of (begins k) = k
url_of (finishes k f res failed now) = k

unfoldable pub perform : Op → UrlCheckCache → UrlCheckCache
perform (begins k) c = (begin k c).2
perform (finishes k f res failed now) c = finish k f res failed now c

unfoldable pub perform_all : List Op → UrlCheckCache → UrlCheckCache
unfolding perform
perform_all [] c = c
perform_all (op ∷ ops) c = perform_all ops (perform op c)

perform-inflight :
    (op : Op) (k : String) (c : UrlCheckCache)
    → url_of op ≢ k
    → lookup k (perform op c).inflight ≡ lookup k c.inflight
unfolding perform begin finish
perform-inflight (begins j) k c h = ground (arith, lookup-insert_ne j k c.next_flight c.inflight h)
perform-inflight (finishes j f res failed now) k c h = lookup-delete_ne j k c.inflight h

perform_all-inflight :
    (ops : List Op) (k : String) (c : UrlCheckCache)
    → All (λ op. url_of op ≢ k) ops
    → lookup k (perform_all ops c).inflight ≡ lookup k c.inflight
unfolding perform_all
perform_all-inflight [] k c h = refl
perform_all-inflight (op ∷ ops) k c h =
    perform_all-inflight ops k (perform op c) h.1 ∙ perform-inflight op k c h.0

begin-inflight :
    (k : String) (c : UrlCheckCache) → lookup k (begin k c).2.inflight ≡ some (begin k c).0
unfolding begin
begin-inflight k c = ground (arith, lookup-insert_self k c.next_flight c.inflight)

begin-joins :
    (k : String) (c : UrlCheckCache) (f : ℕ)
    → lookup k c.inflight ≡ some f
    → begin k c ≡ (f, false, c)
unfolding begin
begin-joins k c f h = ground arith

begin-leads : (k : String) (c : UrlCheckCache) → lookup k c.inflight ≡ none → (begin k c).1 ≡ true
unfolding begin
begin-leads k c h = ground arith

-- From the moment one request leads or joins a flight for a URL, every further request for it
-- joins that same flight, whatever the requests for other URLs do; and once the flight is
-- finished, with or without an error, the next request leads.
pub one_leader :
    (k : String) (c : UrlCheckCache) (ops : List Op) (res : UrlCheckResult) (failed : Bool)
    (now : ℕ)
    → All (λ op. url_of op ≢ k) ops
    → let d = perform_all ops (begin k c).2 in
      (begin k d ≡ ((begin k c).0, false, d))
      × ((begin k (finish k (begin k c).0 res failed now d)).1 ≡ true)
one_leader k c ops res failed now h =
    let d = perform_all ops (begin k c).2 in
    (
      begin-joins k d (begin k c).0
          (perform_all-inflight ops k (begin k c).2 h ∙ begin-inflight k c),
      begin-leads k _ (unfold finish in lookup-delete_self k d.inflight),
    )

begin-next :
    (k : String) (c : UrlCheckCache)
    → lookup k c.inflight ≡ none
    → ((begin k c).0 ≡ c.next_flight) × ((begin k c).2.entries ≡ c.entries)
unfolding begin
begin-next k c h = ground arith

joined-stored :
    (f : ℕ) (res : UrlCheckResult) (c : UrlCheckCache)
    → lookup f c.finished ≡ some (res, false)
    → joined f c ≡ some (record res { cached = true }, false)
unfolding joined
joined-stored f res c h = ground arith

joined-finish :
    (k : String) (f : ℕ) (res : UrlCheckResult) (now : ℕ) (c : UrlCheckCache)
    → joined f (finish k f res false now c) ≡ some (record res { cached = true }, false)
unfolding finish
joined-finish k f res now c = joined-stored f res _ (lookup-insert_self f (res, false) c.finished)

check_url-leads :
    (k : String) (depth : ℤ) (now : ℕ) (c : UrlCheckCache)
    → lookup k c.entries ≡ none
    → lookup k c.inflight ≡ none
    → check_url k depth now c ≡ (lead c.next_flight (clamp_depth depth), (begin k c).2)
unfolding check_url get begin
check_url-leads k depth now c he hi = ground arith

check_url-joins :
    (k : String) (depth : ℤ) (now : ℕ) (c : UrlCheckCache) (f : ℕ)
    → lookup k c.entries ≡ none
    → lookup k c.inflight ≡ some f
    → check_url k depth now c ≡ (join f, c)
unfolding check_url get begin
check_url-joins k depth now c f he hi = ground arith

-- When a URL has neither an entry nor a flight, a request for it leads, and a deeper one that
-- comes before the flight is done joins it: it gets the result of the leader, which has the depth
-- that the leader asked for, so the answer is shallower than the request, and marked as cached.
pub joins_shallow :
    (k : String) (shallow deep : ℤ) (now later done : ℕ) (c : UrlCheckCache) (res : UrlCheckResult)
    → lookup k c.entries ≡ none
    → lookup k c.inflight ≡ none
    → res.depth ≡ clamp_depth shallow
    → clamp_depth shallow < clamp_depth deep
    → let c1 = (check_url k shallow now c).1 in
      ((check_url k shallow now c).0 ≡ lead c.next_flight (clamp_depth shallow))
      × ((check_url k deep later c1).0 ≡ join c.next_flight)
      × ((r : UrlCheckResult) × (joined c.next_flight (finish k c.next_flight res false done c1)
            ≡ some (r, false))
          × (r.depth < clamp_depth deep)
          × (r.cached ≡ true))
joins_shallow k shallow deep now later done c res he hi hr hd =
    let led = check_url-leads k shallow now c he hi in
    let (number, entries) = begin-next k c hi in
    let d = (begin k c).2 in
    let joins =
      check_url-joins k deep later d c.next_flight (ap (lookup k) entries ∙ he)
        (begin-inflight k c ∙ ap some number) in
    let deepless : res.depth < clamp_depth deep = omega (arith, hr, hd) in
    rw led (
      refl,
      ap (λ x. x.0) joins,
      (record res { cached = true }, joined-finish k c.next_flight res done d, deepless, refl),
    )
