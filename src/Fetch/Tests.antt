-- ===== src/Fetch/Tests.antt =====
-- Fetches of one and of two sources, under the sample library.
use v2pro_dock.Base.{
  ℕ, zero, suc, String, ◌≡◌, refl, List, [], ◌∷◌, str_eq, if◌then◌else◌, nat_equal, string_equal,
}
use v2pro_dock.Base.Dict.{lookup}
use v2pro_dock.Stdlib.Sample.{sample}
use v2pro_dock.Fixtures.{conf_a}
use v2pro_dock.Pool.{ProxyConfig, ranked}
use v2pro_dock.Link.Tests.{vless_config}
use v2pro_dock.Fetch.{
  Reply, unreachable, answered, Fetched, configs, fetch_failed, no_attempt, fetch_one_url,
  fetch_subscription, fetch_candidates, subscription_candidates, body,
}
use v2pro_dock.Fetch.Merge.{fetch_merged_report, clean_urls}
use v2pro_dock.Fetch.Attempts.{IsFirst, fetch_one_url-IsFirst}
use v2pro_dock.Fetch.Pool.{IsPoolOf, fetch_subscription-IsFetched}
use v2pro_dock.Fetch.Reports.{IsReport, fetch_merged_report_lem}

abbrev second_try : ℕ → Reply
second_try zero = unreachable
second_try (suc n) = answered 200 "vless://a"

fetch_one_url-IsFirst_example : IsFirst sample second_try 0 2 "vless://a"
unfolding fetch_one_url
fetch_one_url-IsFirst_example = fetch_one_url-IsFirst sample second_try "vless://a" refl

fetched : List ProxyConfig
fetched = record vless_config { rank = 20 } ∷ []

fetch_subscription-IsFetched_example :
    (text : String) × (fetch_candidates sample
        (λ u. second_try)
        (subscription_candidates sample "sub")
        no_attempt
      ≡ body text)
    × IsPoolOf sample [] text fetched
unfolding fetch_subscription fetched ranked lookup
fetch_subscription-IsFetched_example =
    fetch_subscription-IsFetched sample [] (λ u. second_try) "sub" fetched refl

abbrev one_works : String → Fetched
one_works u = if str_eq u "a" then configs (conf_a ∷ []) else fetch_failed no_attempt

fetch_merged_report_example :
    IsReport one_works
      ("a" ∷ "b" ∷ [])
      (fetch_merged_report sample one_works (λ us. us) ("a" ∷ "" ∷ "b" ∷ []))
unfolding clean_urls
fetch_merged_report_example =
    fetch_merged_report_lem sample one_works (λ us. us) ("a" ∷ "" ∷ "b" ∷ []) "a" "b" [] refl
      (λ u. refl)
