-- ===== src/Pool.antt =====
-- `ProxyConfig` of v2proxy/subscription.go, `dedupConfigs` of v2proxy/manager.go and
-- `orderByDPIRank` of v2proxy/subscription.go.
pub mod Dedup
pub mod Order
pub mod Kept
pub mod Tests
use v2pro_dock.Base.{
  ℕ, String, ◌≡◌, Bool, true, false, Option, none, some, List, [], ◌∷◌, str_eq, ltb, if◌then◌else◌,
  nat_equal, string_equal,
}
use v2pro_dock.Base.Dict.{Dict, lookup, insert}

-- `XrayCfg`, the outbound as JSON, is handed on unread.
pub record ProxyConfig : Type 0 where
  pub name : String
  pub raw : String
  pub endpoint : String
  pub xray_cfg : String
  pub rank : ℕ

-- `Key`
unfoldable pub key : ProxyConfig → String
key c = if str_eq c.endpoint "" then c.raw else c.endpoint

-- A key that was never written reads as false.
abbrev pub or_false : Option Bool → Bool
or_false none = false
or_false (some b) = b

dedup_from : Dict String Bool → List ProxyConfig → List ProxyConfig
dedup_from seen [] = []
dedup_from seen (c ∷ cs) =
    let fresh = c ∷ dedup_from (insert (key c) true seen) cs in
    let rest = dedup_from seen cs in if or_false (lookup (key c) seen) then rest else fresh

unfoldable pub dedup_configs : List ProxyConfig → List ProxyConfig
unfolding dedup_from
dedup_configs cs = dedup_from [] cs

-- The first config with a key, as the code's loops over a pool find it.
unfoldable pub find_key : String → List ProxyConfig → Option ProxyConfig
find_key k [] = none
find_key k (c ∷ cs) = let rest = find_key k cs in if str_eq (key c) k then some c else rest

-- No two configs have one key.
abbrev pub KeysDistinct : List ProxyConfig → Type 0
KeysDistinct [] = Unit {0}
KeysDistinct (c ∷ cs) = (find_key (key c) cs ≡ none) × KeysDistinct cs

-- `slices.SortStableFunc` by falling rank: the result of a stable sort is determined by its order.
insert_ranked : ProxyConfig → List ProxyConfig → List ProxyConfig
insert_ranked c [] = c ∷ []
insert_ranked c (d ∷ ds) = if ltb c.rank d.rank then d ∷ insert_ranked c ds else c ∷ d ∷ ds

sort_ranked : List ProxyConfig → List ProxyConfig
unfolding insert_ranked
sort_ranked [] = []
sort_ranked (c ∷ cs) = insert_ranked c (sort_ranked cs)

-- `configs[i].rank = dpiRank(configs[i].Raw)` for each `i`
unfoldable pub ranked : (String → ℕ) → List ProxyConfig → List ProxyConfig
ranked dpi_rank [] = []
ranked dpi_rank (c ∷ cs) = record c { rank = dpi_rank c.raw } ∷ ranked dpi_rank cs

unfoldable pub order_by_dpi_rank : (String → ℕ) → List ProxyConfig → List ProxyConfig
unfolding sort_ranked
order_by_dpi_rank dpi_rank cs = sort_ranked (ranked dpi_rank cs)
