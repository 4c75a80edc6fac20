-- ===== src/Fetch/Pool.antt =====
-- What a fetched pool holds: `FetchSubscription` of v2proxy/subscription.go.
use v2pro_dock.Base.{
  ℕ, zero, suc, none, some, get_elem?, All-map, String, ◌≡◌, refl, sym, ◌⊎◌, inl, inr, false, List,
  [], ◌∷◌, str_eq, nat_equal, string_equal, if_cases, All,
}
use v2pro_dock.Base.Dict.{Dict}
use mathlib.Core.Path.{subst}
use v2pro_dock.Stdlib.{Stdlib}
use v2pro_dock.Pool.{ProxyConfig}
use v2pro_dock.Pool.Order.{IsRanked, order_by_dpi_rank_lem}
use v2pro_dock.Pool.Kept.{Among, Among-order_by_dpi_rank, All-order_by_dpi_rank}
use v2pro_dock.CleanIp.{rewrite_clean_ip}
use v2pro_dock.Link.{Parsed, ok, refused}
use v2pro_dock.Link.Parse.{parse_to_xray_config}
use v2pro_dock.Link.Accepted.{IsBuilt, parse-IsBuilt}
use v2pro_dock.Rank.{dpi_rank}
use v2pro_dock.Fetch.{
  configs, fetch_failed, parse_lines, lines_of, fetch_subscription, parsed_body, fetch_candidates,
  subscription_candidates, Body, body, failed, no_attempt, Reply,
}

-- The config that a line of the list gave, by a parse that accepted it: its outbound dials its
-- endpoint.
pub record IsOfLine (g : Stdlib) (clean : Dict String String) (lines : List String)
    (c : ProxyConfig) : Type 0 where
  pub place : ℕ
  pub line : String
  pub among : get_elem? lines place ≡ some line
  pub accepted : parse_to_xray_config g clean (g.trim_space line) ≡ ok c
  pub built : IsBuilt g (rewrite_clean_ip g (g.trim_space line) clean) c

-- The same, with the rank of the link.
pub record IsFetched (g : Stdlib) (clean : Dict String String) (lines : List String)
    (c : ProxyConfig) : Type 0 where
  pub parsed : ProxyConfig
  pub of_line : IsOfLine g clean lines parsed
  pub with_rank : c ≡ record parsed { rank = dpi_rank g parsed.raw }

rank-IsFetched :
    (g : Stdlib) (clean : Dict String String) (lines : List String) (c : ProxyConfig)
    → IsOfLine g clean lines c
    → IsFetched g clean lines (record c { rank = dpi_rank g c.raw })
rank-IsFetched g clean lines c h = record { parsed = c; of_line = h; with_rank = refl }

later_line :
    (g : Stdlib) (clean : Dict String String) (l : String) (ls : List String) (c : ProxyConfig)
    → IsOfLine g clean ls c
    → IsOfLine g clean (l ∷ ls) c
later_line g clean l ls c h = record {
  place = suc h.place;
  line = h.line;
  among = h.among;
  accepted = h.accepted;
  built = h.built;
}

Parsed-cases :
    (p : Parsed)
    → ((c : ProxyConfig) × (p ≡ ok c))
      ⊎ ((cs : List ProxyConfig)
          → ◌≡◌ {A = List ProxyConfig} (elim p [ ok c ↦ c ∷ cs | refused e ↦ cs ]) cs)
Parsed-cases (ok c) = inl (c, refl)
Parsed-cases (refused e) = inr (λ cs. refl)

parse_lines-IsOfLine :
    (g : Stdlib) (clean : Dict String String) (ls : List String)
    → All (IsOfLine g clean ls) (parse_lines g clean ls)
unfolding parse_lines
parse_lines-IsOfLine g clean [] = tt
parse_lines-IsOfLine g clean (l ∷ ls) =
    let rest =
      All-map (IsOfLine g clean ls) (IsOfLine g clean (l ∷ ls)) (parse_lines g clean ls)
        (later_line g clean l ls) (parse_lines-IsOfLine g clean ls) in
    if_cases (All (IsOfLine g clean (l ∷ ls))) (str_eq (g.trim_space l) "") _ _ (λ _. rest)
      (λ _. elim (Parsed-cases (parse_to_xray_config g clean (g.trim_space l))) [
        | inl (c, e) ↦ rw e (
          record {
            place = 0;
            line = l;
            among = refl;
            accepted = e;
            built = parse-IsBuilt g clean (g.trim_space l) c e;
          },
          rest,
        )
        | inr same ↦ rw (same (parse_lines g clean ls)) rest
      ])

-- A line that is not blank and is accepted gives one of the configs.
parse_lines-keeps :
    (g : Stdlib) (clean : Dict String String) (ls : List String) (i : ℕ) (line : String)
    (c : ProxyConfig)
    → get_elem? ls i ≡ some line
    → str_eq (g.trim_space line) "" ≡ false
    → parse_to_xray_config g clean (g.trim_space line) ≡ ok c
    → Among c (parse_lines g clean ls)
unfolding parse_lines
parse_lines-keeps g clean [] i line c at full e = elim (impossible at) [ ]
  where
    impossible : none ≡ some line → ⊥
    impossible k = cc
parse_lines-keeps g clean (l ∷ ls) zero line c at full e =
    first_line (subst (λ x. str_eq (g.trim_space x) "" ≡ false) (sym (some_inj at)) full)
      (subst (λ x. parse_to_xray_config g clean (g.trim_space x) ≡ ok c) (sym (some_inj at)) e)
  where
    some_inj : some l ≡ some line → l ≡ line
    some_inj k = cc

    first_line :
        str_eq (g.trim_space l) "" ≡ false
        → parse_to_xray_config g clean (g.trim_space l) ≡ ok c
        → Among c (parse_lines g clean (l ∷ ls))
    first_line f q =
        if_cases (Among c) (str_eq (g.trim_space l) "") _ _ (λ blank. absurd cc)
          (λ _. rw q (inl refl))
parse_lines-keeps g clean (l ∷ ls) (suc i) line c at full e =
    let rest = parse_lines-keeps g clean ls i line c at full e in
    if_cases (Among c) (str_eq (g.trim_space l) "") _ _ (λ _. rest)
      (λ _. elim (Parsed-cases (parse_to_xray_config g clean (g.trim_space l))) [
        | inl (d, q) ↦ rw q (inr rest)
        | inr same ↦ rw (same (parse_lines g clean ls)) rest
      ])

-- The pool is made of the text: each config is a line's, each accepted line has its config, and the
-- ranks fall.
pub record IsPoolOf (g : Stdlib) (clean : Dict String String) (text : String)
    (cs : List ProxyConfig) : Type 0 where
  pub sound : All (IsFetched g clean (lines_of g text)) cs
  pub complete :
      (i : ℕ) (line : String) (c : ProxyConfig)
      → get_elem? (lines_of g text) i ≡ some line
      → str_eq (g.trim_space line) "" ≡ false
      → parse_to_xray_config g clean (g.trim_space line) ≡ ok c
      → Among (record c { rank = dpi_rank g c.raw }) cs
  pub falling : IsRanked cs

parsed_body-IsPoolOf :
    (g : Stdlib) (clean : Dict String String) (b : Body) (cs : List ProxyConfig)
    → parsed_body g clean b ≡ configs cs
    → (text : String) × (b ≡ body text) × IsPoolOf g clean text cs
unfolding parsed_body
parsed_body-IsPoolOf g clean (failed e) cs h = elim (impossible h) [ ]
  where
    impossible : fetch_failed e ≡ configs cs → ⊥
    impossible k = cc
parsed_body-IsPoolOf g clean (body text) cs h = (
  text,
  refl,
  subst (IsPoolOf g clean text) (configs_inj h) (record {
    sound =
        All-order_by_dpi_rank (IsOfLine g clean (lines_of g text))
          (IsFetched g clean (lines_of g text)) (dpi_rank g) (parse_lines g clean (lines_of g text))
          (rank-IsFetched g clean (lines_of g text))
          (parse_lines-IsOfLine g clean (lines_of g text));
    complete = λ i line c at full e.
        Among-order_by_dpi_rank (dpi_rank g) c (parse_lines g clean (lines_of g text))
          (parse_lines-keeps g clean (lines_of g text) i line c at full e);
    falling = (order_by_dpi_rank_lem (dpi_rank g) (parse_lines g clean (lines_of g text))).0;
  }),
)
  where
    configs_inj : {a b : List ProxyConfig} → configs a ≡ configs b → a ≡ b
    configs_inj k = cc

-- A subscription that is fetched has a body, the one that its candidates gave, and its configs are
-- those of the lines of that body: each is what the parser accepted of one of the lines, with the
-- rank of its link, and its outbound dials its endpoint; each line that is not blank and that the
-- parser accepts has its config among them; and they stand in the order of falling rank.
pub fetch_subscription-IsFetched :
    (g : Stdlib) (clean : Dict String String) (net : String → ℕ → Reply) (url : String)
    (cs : List ProxyConfig)
    → fetch_subscription g clean net url ≡ configs cs
    → (text : String) × (fetch_candidates g net (subscription_candidates g url) no_attempt
        ≡ body text)
      × IsPoolOf g clean text cs
unfolding fetch_subscription
fetch_subscription-IsFetched g clean net url =
    parsed_body-IsPoolOf g clean (fetch_candidates g net (subscription_candidates g url) no_attempt)
