-- ===== src/UrlProbe/Tally.antt =====
-- What a round of probing counts, and which upstreams it may name.
use v2pro_dock.Base.{
  ℕ, zero, suc, ◌+◌, ◌≤◌, min, String, ◌≡◌, refl, sym, ap, ◌∙◌, ◌≢◌, Bool, true, false, ◌&&◌, List,
  [], ◌∷◌, arith, ltb, nat_equal, string_equal, if_cases, length, take, is_some, All, length-append,
}
use mathlib.Core.Path.{subst}
use v2pro_dock.Pool.{ProxyConfig, key, find_key}
use v2pro_dock.Probe.{HealthResult}
use v2pro_dock.Selector.{ProxySelector, active_config, key_or_empty}
use v2pro_dock.UrlCheck.{CheckedProxy, UrlCheckResult}
use v2pro_dock.UrlProbe.{
  serving_instances, tally, tally_one, without_key, pool_candidates, pool_working,
  probe_pool_for_url, widened, run_url_check, by_instance, empty_result,
}

-- The candidates and the served key of the instance that the pool is taken from.
abbrev pub first_candidates : ℕ → List ProxySelector → List ProxyConfig
first_candidates depth [] = []
first_candidates depth (s ∷ ss) = pool_candidates depth s

abbrev pub first_served : List ProxySelector → String
first_served [] = ""
first_served (s ∷ ss) = key_or_empty (active_config s)

tally_one_lem :
    (i : ℕ) (c : ProxyConfig) (r : HealthResult) (res : UrlCheckResult)
    → ((tally_one i c r res).checked ≡ res.checked + 1)
      × ((tally_one i c r res).failed + length (tally_one i c r res).alive
          ≡ res.failed + length res.alive + 1)
      × ((tally_one i c r res).pool ≡ res.pool)
tally_one_lem i c r res =
    if_cases
      (λ (t : UrlCheckResult).
        (t.checked ≡ res.checked + 1)
        × (t.failed + length t.alive ≡ res.failed + length res.alive + 1)
        × (t.pool ≡ res.pool))
      r.working _ _
      (λ _. (refl, omega (arith, length-append res.alive (by_instance i c r ∷ [])), refl))
      (λ _. (refl, omega arith, refl))

tally_lem :
    (done : List ((ℕ × ProxyConfig) × HealthResult)) (res : UrlCheckResult)
    → ((tally done res).checked ≡ res.checked + length done)
      × ((tally done res).failed + length (tally done res).alive
          ≡ res.failed + length res.alive + length done)
      × ((tally done res).pool ≡ res.pool)
unfolding tally
tally_lem [] res = (omega arith, omega arith, refl)
tally_lem (((i, c), r) ∷ done) res =
    let (a, b, p) = tally_lem done (tally_one i c r res) in
    let (x, y, q) = tally_one_lem i c r res in (omega (arith, a, x), omega (arith, b, y), p ∙ q)

length-pool_working :
    (done : List (ProxyConfig × HealthResult)) → length (pool_working done) ≤ length done
unfolding pool_working
length-pool_working [] = omega arith
length-pool_working ((c, r) ∷ done) = ground (arith, length-pool_working done)

length-without_key : (k : String) (cs : List ProxyConfig) → length (without_key k cs) ≤ length cs
unfolding without_key
length-without_key k [] = omega arith
length-without_key k (c ∷ cs) = ground (arith, length-without_key k cs)

length-take : (n : ℕ) (cs : List ProxyConfig) → length (take n cs) ≤ n
length-take zero cs = omega arith
length-take (suc n) [] = omega arith
length-take (suc n) (c ∷ cs) = omega (arith, length-take n cs)

length-first_candidates :
    (depth : ℕ) (insts : List ProxySelector) → length (first_candidates depth insts) ≤ depth
unfolding pool_candidates
length-first_candidates depth [] = omega arith
length-first_candidates depth (s ∷ ss) = omega (
  arith,
  length-without_key (key_or_empty (active_config s)) (take depth s.configs),
  length-take depth s.configs,
)

-- The pool's part: it names no more than it probed, and probed no more than was attempted.
probe_pool_lem :
    (workers depth : ℕ) (insts : List ProxySelector) (done : List (ProxyConfig × HealthResult))
    → let p = probe_pool_for_url workers depth insts done in
      (length p.0 ≤ p.1) × (p.1 ≤ length done)
unfolding probe_pool_for_url
probe_pool_lem workers depth [] done = (omega arith, omega arith)
probe_pool_lem workers depth (s ∷ ss) done = ground (arith, length-pool_working done)

-- What the counters say of the lists.
abbrev Accounted : ℕ → UrlCheckResult → Type 0
Accounted most res =
    (res.checked ≡ res.failed + length res.alive + length res.pool) × (res.checked ≤ most)

tally-Accounted :
    (n : ℕ) (k url : String) (depth : ℕ) (done : List ((ℕ × ProxyConfig) × HealthResult))
    → length done ≤ n
    → Accounted n (tally done (empty_result k url depth))
      × ((tally done (empty_result k url depth)).pool ≡ [])
tally-Accounted n k url depth done h =
    let (a, b, p) = tally_lem done (empty_result k url depth) in
    let no_pool : length (tally done (empty_result k url depth)).pool ≡ 0 = ap length p in
    ((omega (arith, a, b, no_pool), omega (arith, a, h)), p)

widened-Accounted :
    (n most : ℕ) (p : List CheckedProxy × ℕ × Bool) (res : UrlCheckResult)
    → res.pool ≡ []
    → Accounted n res
    → length p.0 ≤ p.1
    → n + p.1 ≤ most
    → Accounted most (widened p res)
widened-Accounted n most (working, probed, truncated) res e (a, b) h g =
    let none_before : length res.pool ≡ 0 = ap length e in
    (omega (arith, a, none_before, h), omega (arith, b, g))

-- A round in which every serving instance answers at most once, and at most the candidates of the
-- pool are attempted: everything that was checked either failed or is listed as reaching the URL,
-- and no more is checked than there are serving instances and depth was asked for.
pub run_url_check-accounts :
    (workers : ℕ) (k url : String) (depth : ℕ) (in_budget : Bool)
    (done : List ((ℕ × ProxyConfig) × HealthResult)) (pool_done : List (ProxyConfig × HealthResult))
    (insts : List ProxySelector)
    → length done ≤ length (serving_instances insts)
    → length pool_done ≤ length (first_candidates depth insts)
    → let res = (run_url_check workers k url depth in_budget done pool_done insts).1 in
      (res.checked ≡ res.failed + length res.alive + length res.pool)
      × (res.checked ≤ length (serving_instances insts) + depth)
unfolding run_url_check
run_url_check-accounts workers k url depth in_budget done pool_done insts h g =
    let n = length (serving_instances insts) in
    let ((a, b), p) = tally-Accounted n k url depth done h in
    let (few, most) = probe_pool_lem workers depth insts pool_done in
    let cap = length-first_candidates depth insts in
    if_cases (Accounted (n + depth)) (ltb 0 depth && in_budget) _ _
      (λ _.
        widened-Accounted n (n + depth) (probe_pool_for_url workers depth insts pool_done)
          (tally done (empty_result k url depth)) p (a, b) few (omega (arith, most, g, cap)))
      (λ _. (a, omega (arith, b)))

-- Every entry is of an upstream other than the one with the key `k`.
abbrev pub NamesOthers : String → List CheckedProxy → Type 0
NamesOthers k = All λ p. p.endpoint ≢ k

found-without_key :
    (k : String) (cs : List ProxyConfig) → is_some (find_key k (without_key k cs)) ≡ false
unfolding find_key without_key
found-without_key k [] = refl
found-without_key k (c ∷ cs) = ground (arith, found-without_key k cs)

-- A key among the candidates is not the served one.
other_key :
    (depth : ℕ) (insts : List ProxySelector) (j : String)
    → is_some (find_key j (first_candidates depth insts)) ≡ true
    → j ≢ first_served insts
unfolding find_key pool_candidates
other_key depth [] j h e = cc h
other_key depth (s ∷ ss) j h e =
    let cs = take depth s.configs in
    let k = key_or_empty (active_config s) in
    let gone = found-without_key k cs in
    cc (subst (λ x. is_some (find_key x (without_key k cs)) ≡ true) e h, gone)

NamesOthers-pool_working :
    (depth : ℕ) (insts : List ProxySelector) (done : List (ProxyConfig × HealthResult))
    → All (λ d. is_some (find_key (key d.0) (first_candidates depth insts)) ≡ true) done
    → NamesOthers (first_served insts) (pool_working done)
unfolding pool_working
NamesOthers-pool_working depth insts [] h = tt
NamesOthers-pool_working depth insts ((c, r) ∷ done) h =
    if_cases (NamesOthers (first_served insts)) r.working _ _
      (λ _. (other_key depth insts (key c) h.0, NamesOthers-pool_working depth insts done h.1))
      (λ _. NamesOthers-pool_working depth insts done h.1)

NamesOthers-probe_pool :
    (workers depth : ℕ) (insts : List ProxySelector) (done : List (ProxyConfig × HealthResult))
    → NamesOthers (first_served insts) (pool_working done)
    → NamesOthers (first_served insts) (probe_pool_for_url workers depth insts done).0
unfolding probe_pool_for_url
NamesOthers-probe_pool workers depth [] done h = tt
NamesOthers-probe_pool workers depth (s ∷ ss) done h =
    if_cases (λ (p : List CheckedProxy × ℕ × Bool). NamesOthers (first_served (s ∷ ss)) p.0)
      (ltb (min workers (length (pool_candidates depth s))) 1) _ _ (λ _. tt) (λ _. h)

-- When only candidates are attempted, the pool's part of the answer never names the upstream that
-- the instance serves whose pool is sampled.
pub run_url_check-others :
    (workers : ℕ) (k url : String) (depth : ℕ) (in_budget : Bool)
    (done : List ((ℕ × ProxyConfig) × HealthResult)) (pool_done : List (ProxyConfig × HealthResult))
    (insts : List ProxySelector)
    → All (λ d. is_some (find_key (key d.0) (first_candidates depth insts)) ≡ true) pool_done
    → NamesOthers
        (first_served insts)
        (run_url_check workers k url depth in_budget done pool_done insts).1.pool
unfolding run_url_check
run_url_check-others workers k url depth in_budget done pool_done insts h =
    let (_, _, p) = tally_lem done (empty_result k url depth) in
    if_cases (λ (res : UrlCheckResult). NamesOthers (first_served insts) res.pool)
      (ltb 0 depth && in_budget) _ _
      (λ _.
        NamesOthers-probe_pool workers depth insts pool_done
          (NamesOthers-pool_working depth insts pool_done h))
      (λ _. subst (NamesOthers (first_served insts)) (sym p) tt)
