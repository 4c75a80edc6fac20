-- ===== src/UrlCheck/Tests.antt =====
-- A cache through two requests.
use v2pro_dock.Base.{
  ◌≤◌, ◌<◌, String, ◌≡◌, refl, ◌≢◌, true, false, some, [], ◌∷◌, arith, eq_iff, nat_equal,
  string_equal, length,
}
use v2pro_dock.Base.Dict.{lookup}
use v2pro_dock.Base.Int.{pos}
use v2pro_dock.UrlCheck.{
  UrlCheckCache, UrlCheckResult, begin, check_url, check_cache_entries, clamp_depth, finish, join,
  joined, lead, new_cache,
}
use v2pro_dock.UrlCheck.Bounds.{finish-bounded}
use v2pro_dock.UrlCheck.Flights.{begins, joins_shallow, one_leader, perform_all}

abbrev shallow_result : UrlCheckResult
shallow_result = record {
  result_key = "x";
  probed_url = "https://x/";
  alive = [];
  pool = [];
  depth = 2;
  checked = 4;
  failed = 4;
  cached = false;
  truncated = false;
}

finish-bounded_example :
    (length (finish "https://x/" 0 shallow_result false 50 new_cache).entries ≤ check_cache_entries)
    × ((finish "https://x/" 0 shallow_result true 50 new_cache).entries ≡ [])
finish-bounded_example = finish-bounded "https://x/" 0 shallow_result 50 new_cache

abbrev warm : UrlCheckCache
warm = record new_cache { entries = ("https://x/", record { at = 50; res = shallow_result }) ∷ [] }

other : ◌≢◌ {A = String} "https://y/" "https://x/"
other h = ground (arith, (eq_iff "https://y/" "https://x/").1 h)

one_leader_example :
    (begin "https://x/" (perform_all (begins "https://y/" ∷ []) (begin "https://x/" new_cache).2)
      ≡ (0, false, perform_all (begins "https://y/" ∷ []) (begin "https://x/" new_cache).2))
    × ((begin "https://x/" (
          finish "https://x/" 0 shallow_result true 9
            (perform_all (begins "https://y/" ∷ []) (begin "https://x/" new_cache).2))).1
        ≡ true)
unfolding begin lookup
one_leader_example =
    one_leader "https://x/" new_cache (begins "https://y/" ∷ []) shallow_result true 9 (other, tt)

joins_shallow_example :
    let c1 = (check_url "https://x/" (pos 2) 5 new_cache).1 in
    ((check_url "https://x/" (pos 2) 5 new_cache).0 ≡ lead 0 2)
    × ((check_url "https://x/" (pos 9) 6 c1).0 ≡ join 0)
    × ((r : UrlCheckResult) × (joined 0 (finish "https://x/" 0 shallow_result false 7 c1)
          ≡ some (r, false))
        × (r.depth < 9)
        × (r.cached ≡ true))
unfolding lookup clamp_depth
joins_shallow_example =
    joins_shallow "https://x/" (pos 2) (pos 9) 5 6 7 new_cache shallow_result refl refl refl
      (omega arith)
