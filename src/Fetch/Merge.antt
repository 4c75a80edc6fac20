-- ===== src/Fetch/Merge.antt =====
-- `FetchAnySubscription`, `fetchMergedReport` and `fetchPoolWithRetry` of v2proxy/subscription.go
-- and v2proxy/manager.go. `fetch` is `FetchSubscription` of a URL; the order in which the parallel
-- fetches report is a function of the URLs.
use v2pro_dock.Base.{
  ℕ, zero, suc, ◌+◌, String, Bool, true, Option, none, some, List, [], ◌∷◌, ◌++◌, str_eq,
  if◌then◌else◌, nat_equal, string_equal,
}
use v2pro_dock.Base.Dict.{Dict, insert}
use v2pro_dock.Stdlib.{Stdlib}
use v2pro_dock.Pool.{ProxyConfig, order_by_dpi_rank, dedup_configs}
use v2pro_dock.Fetch.{Fetched, configs, fetch_failed}
use v2pro_dock.Rank.{dpi_rank}

-- The URLs, trimmed, without the empty ones.
unfoldable pub clean_urls : Stdlib → List String → List String
clean_urls g [] = []
clean_urls g (u ∷ us) =
    let rest = clean_urls g us in if str_eq (g.trim_space u) "" then rest else g.trim_space u ∷ rest

-- What `FetchAnySubscription` returns: the configs with their source, or how many sources failed.
pub data AnyFetched : Type 0 where
  found : List ProxyConfig → String → AnyFetched
  none_configured : AnyFetched
  all_failed : ℕ → AnyFetched

unfoldable pub fetch_any_from : (String → Fetched) → List String → ℕ → AnyFetched
fetch_any_from fetch [] zero = none_configured
fetch_any_from fetch [] (suc errs) = all_failed (suc errs)
fetch_any_from fetch (u ∷ us) errs = elim (fetch u) [
  | configs (c ∷ cs) ↦ found (c ∷ cs) u
  | _ ↦ fetch_any_from fetch us (suc errs)
]

-- `FetchAnySubscription`
unfoldable pub fetch_any_subscription : Stdlib → (String → Fetched) → List String → AnyFetched
unfolding fetch_any_from clean_urls
fetch_any_subscription g fetch urls = fetch_any_from fetch (clean_urls g urls) 0

-- `merged` and `failed`
pub record Report : Type 0 where
  pub merged : List ProxyConfig
  pub failures : Dict String Bool

abbrev pub no_report : Report
no_report = record { merged = []; failures = [] }

-- One goroutine: what it adds under the lock.
unfoldable pub report_one : Report → String → Fetched → Report
report_one r u (configs []) = record r { failures = insert u true r.failures }
report_one r u (configs (c ∷ cs)) = record r { merged = r.merged ++ c ∷ cs }
report_one r u (fetch_failed e) = record r { failures = insert u true r.failures }

-- The goroutines, in the order in which they report.
unfoldable pub report_all : (String → Fetched) → List String → Report → Report
unfolding report_one
report_all fetch [] r = r
report_all fetch (u ∷ us) r = report_all fetch us (report_one r u (fetch u))

-- After `wg.Wait()`
unfoldable pub merged_report : Stdlib → Report → Report
unfolding order_by_dpi_rank dedup_configs dpi_rank
merged_report g r = record r { merged = order_by_dpi_rank (dpi_rank g) (dedup_configs r.merged) }

-- The report of cleaned URLs; a single source is neither deduplicated nor ranked again.
unfoldable pub report_of :
    Stdlib → (String → Fetched) → (List String → List String) → List String → Report
unfolding report_one report_all merged_report
report_of g fetch order [] = no_report
report_of g fetch order (u ∷ []) = report_one no_report u (fetch u)
report_of g fetch order (u ∷ v ∷ us) =
    merged_report g (report_all fetch (order (u ∷ v ∷ us)) no_report)

-- `fetchMergedReport`
unfoldable pub fetch_merged_report :
    Stdlib → (String → Fetched) → (List String → List String) → List String → Report
unfolding clean_urls report_of
fetch_merged_report g fetch order urls = report_of g fetch order (clean_urls g urls)

abbrev pub fetch_pool_attempts : ℕ
fetch_pool_attempts = 2

-- The loop of `fetchPoolWithRetry`: `fetch` and `order` of each attempt.
unfoldable pub fetch_pool_from :
    Stdlib
    → (ℕ → String → Fetched)
    → (ℕ → List String → List String)
    → List String
    → ℕ
    → ℕ
    → Option (List ProxyConfig)
unfolding fetch_merged_report
fetch_pool_from g fetch order urls zero i = none
fetch_pool_from g fetch order urls (suc left) i =
    elim (fetch_merged_report g (fetch i) (order i) urls).merged [
      | c ∷ cs ↦ some (c ∷ cs)
      | [] ↦ fetch_pool_from g fetch order urls left (i + 1)
    ]

-- `fetchPoolWithRetry`: none is its error.
unfoldable pub fetch_pool_with_retry :
    Stdlib
    → (ℕ → String → Fetched)
    → (ℕ → List String → List String)
    → List String
    → Option (List ProxyConfig)
unfolding fetch_pool_from clean_urls
fetch_pool_with_retry g fetch order urls = elim (clean_urls g urls) [
  | [] ↦ none
  | u ∷ us ↦ fetch_pool_from g fetch order (u ∷ us) fetch_pool_attempts 0
]
