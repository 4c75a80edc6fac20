-- ===== src/UrlProbe/Tests.antt =====
-- A round over two instances, one of which fails, and two of the pool's candidates.
use v2pro_dock.Base.{
  ℕ, ◌+◌, ◌≤◌, ◌≡◌, refl, true, List, [], ◌∷◌, arith, nat_equal, string_equal, length, is_some, All,
}
use v2pro_dock.Pool.{ProxyConfig, find_key, key}
use v2pro_dock.Probe.{HealthResult}
use v2pro_dock.Selector.{ProxySelector}
use v2pro_dock.UrlProbe.{run_url_check, serving_instances, pool_candidates}
use v2pro_dock.UrlProbe.Tally.{first_candidates, run_url_check-accounts}
use v2pro_dock.Fixtures.{conf_a, conf_b, conf_c, good, dead, serving_a, serving_b}

abbrev both : List ProxySelector
both = serving_a ∷ serving_b ∷ []

abbrev answers : List ((ℕ × ProxyConfig) × HealthResult)
answers = ((1, conf_b), dead) ∷ ((0, conf_a), good) ∷ []

abbrev pool_answers : List (ProxyConfig × HealthResult)
pool_answers = (conf_c, good) ∷ (conf_b, dead) ∷ []

run_url_check-accounts_example :
    let res = (run_url_check 3 "x" "https://x/" 3 true answers pool_answers both).1 in
    (res.checked ≡ res.failed + length res.alive + length res.pool) × (res.checked ≤ 2 + 3)
unfolding serving_instances pool_candidates key
run_url_check-accounts_example =
    run_url_check-accounts 3 "x" "https://x/" 3 true answers pool_answers both (omega arith)
      (omega arith)

attempted :
    All
      (λ (d : ProxyConfig × HealthResult).
        is_some (find_key (key d.0) (first_candidates 3 both)) ≡ true)
      pool_answers
unfolding find_key pool_candidates key
attempted = (refl, (refl, tt))
