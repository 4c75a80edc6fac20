-- ===== src/Fetch/Reports.antt =====
-- What the report of several sources says: `fetchMergedReport` of v2proxy/subscription.go.
use v2pro_dock.Base.{
  String, ◌≡◌, sym, ap, ◌∙◌, inl, inr, Bool, true, false, ◌&&◌, ◌||◌, List, [], ◌∷◌, arith, str_eq,
  eq_iff, Bool-cases, nat_equal, string_equal, is_some,
}
use v2pro_dock.Base.Dict.{has, lookup-insert, lookup-nil}
use mathlib.Core.Path.{subst}
use v2pro_dock.Stdlib.{Stdlib}
use v2pro_dock.Pool.{KeysDistinct, dedup_configs}
use v2pro_dock.Pool.Order.{IsRanked, order_by_dpi_rank_lem}
use v2pro_dock.Pool.Dedup.{dedup_configs_lem}
use v2pro_dock.Pool.Kept.{order_by_dpi_rank-KeysDistinct}
use v2pro_dock.Rank.{dpi_rank}
use v2pro_dock.Fetch.{Fetched, configs, fetch_failed}
use v2pro_dock.Fetch.Merge.{
  Report, no_report, report_one, report_all, merged_report, report_of, fetch_merged_report,
  clean_urls,
}

-- Which sources gave nothing.
abbrev pub gave_nothing : Fetched → Bool
gave_nothing (configs (c ∷ cs)) = false
gave_nothing _ = true

abbrev pub asked : String → List String → Bool
asked u [] = false
asked u (v ∷ vs) = str_eq v u || asked u vs

report_one-failures :
    (r : Report) (v u : String) (f : Fetched)
    → has u (report_one r v f).failures ≡ (has u r.failures || (str_eq v u && gave_nothing f))
unfolding report_one
report_one-failures r v u (configs []) = ground (arith, lookup-insert v u true r.failures)
report_one-failures r v u (configs (c ∷ cs)) = ground arith
report_one-failures r v u (fetch_failed e) = ground (arith, lookup-insert v u true r.failures)

report_all-failures :
    (fetch : String → Fetched) (us : List String) (r : Report) (u : String)
    → has u (report_all fetch us r).failures
      ≡ (has u r.failures || (asked u us && gave_nothing (fetch u)))
unfolding report_all
report_all-failures fetch [] r u = ground arith
report_all-failures fetch (v ∷ vs) r u =
    report_all-failures fetch vs (report_one r v (fetch v)) u ∙ (elim (Bool-cases (str_eq v u)) [
      | inl e ↦ rw ((eq_iff v u).0 e) (
          ap (λ b. b || (asked u vs && gave_nothing (fetch u)))
            (report_one-failures r u u (fetch u))
          ∙ ground arith)
      | inr e ↦
          ap (λ b. b || (asked u vs && gave_nothing (fetch u)))
            (report_one-failures r v u (fetch v))
          ∙ ground arith
    ])

-- After all sources of `order` have reported.
merged_report-after :
    (g : Stdlib) (fetch : String → Fetched) (order : List String)
    → ((u : String)
        → has u (merged_report g (report_all fetch order no_report)).failures
          ≡ (asked u order && gave_nothing (fetch u)))
      × KeysDistinct (merged_report g (report_all fetch order no_report)).merged
      × IsRanked (merged_report g (report_all fetch order no_report)).merged
unfolding merged_report
merged_report-after g fetch order = (
  λ u.
      report_all-failures fetch order no_report u
      ∙ ap (λ o. is_some o || (asked u order && gave_nothing (fetch u))) (lookup-nil u),
  order_by_dpi_rank-KeysDistinct (dpi_rank g)
      (dedup_configs (report_all fetch order no_report).merged)
      (dedup_configs_lem (report_all fetch order no_report).merged).1,
  (order_by_dpi_rank_lem (dpi_rank g) (dedup_configs (report_all fetch order no_report).merged)).0,
)

-- What a report says of the sources that were asked.
abbrev pub IsReport : (String → Fetched) → List String → Report → Type 0
IsReport fetch urls r =
    ((u : String) → has u r.failures ≡ (asked u urls && gave_nothing (fetch u)))
    × KeysDistinct r.merged
    × IsRanked r.merged

-- With two or more sources, in whatever order their parallel fetches report: a source is in the
-- report of failures exactly if it was asked and gave an error or no config, and no key stands twice
-- in the merged pool, which is in the order of falling rank. Assumed: the order has just the sources.
pub fetch_merged_report_lem :
    (g : Stdlib) (fetch : String → Fetched) (order : List String → List String) (urls : List String)
    (v w : String) (us : List String)
    → clean_urls g urls ≡ v ∷ w ∷ us
    → ((u : String) → asked u (order (v ∷ w ∷ us)) ≡ asked u (v ∷ w ∷ us))
    → IsReport fetch (v ∷ w ∷ us) (fetch_merged_report g fetch order urls)
unfolding fetch_merged_report report_of
fetch_merged_report_lem g fetch order urls v w us e same =
    let after = merged_report-after g fetch (order (v ∷ w ∷ us)) in
    subst (λ x. IsReport fetch (v ∷ w ∷ us) (report_of g fetch order x)) (sym e)
      (λ u. after.0 u ∙ ap (λ b. b && gave_nothing (fetch u)) (same u), after.1, after.2)
