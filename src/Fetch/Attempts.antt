-- ===== src/Fetch/Attempts.antt =====
-- What a fetch of v2proxy/subscription.go accepts, and at which URLs it tries.
use v2pro_dock.Base.{
  ℕ, zero, suc, ◌+◌, ◌≤◌, ◌<◌, String, ◌≡◌, refl, sym, ap, ◌∙◌, ◌≢◌, ◌⊎◌, inl, inr, false, ◌||◌,
  some, List, [], ◌∷◌, ◌++◌, arith, str_eq, eq_iff, ltb, leb, nat_eq, nat_eq_iff, Bool-cases,
  nat_equal, string_equal, if_cases, maybe_cases, head?,
}
use v2pro_dock.Stdlib.{Stdlib, Url, len}
use v2pro_dock.Fetch.{
  Reply, no_request, unreachable, unreadable, answered, FetchError, no_attempt, Body, body, failed,
  or_next, judge, fetch_from, fetch_one_url, fetch_max_body, subscription_candidates, add_hosts,
  rehosted, is_loopback, loopback_fallback_hosts, mem,
}

-- A reply that is accepted.
pub record IsAccepted (g : Stdlib) (r : Reply) (text : String) : Type 0 where
  pub status : ℕ
  pub reply : r ≡ answered status text
  pub success : (200 ≤ status) × (status < 300)
  pub small : len text ≤ fetch_max_body
  pub filled : g.trim_space text ≢ ""

failed_is_no_body : {A : Type 0} {e : FetchError} {t : String} → failed e ≡ body t → A
failed_is_no_body {e = e} {t = t} h = elim (impossible h) [ ]
  where
    impossible : failed e ≡ body t → ⊥
    impossible k = cc

-- What the checks on an answer say of the text they let through.
answered-IsAccepted :
    (g : Stdlib) (status : ℕ) (t text : String)
    → judge g (answered status t) ≡ body text
    → IsAccepted g (answered status t) text
unfolding judge
answered-IsAccepted g status t text =
    if_cases (IfBody text) (ltb fetch_max_body (len t)) _ _ (λ _ h. failed_is_no_body h)
      (λ small.
        if_cases (IfBody text) (ltb status 200 || leb 300 status) _ _ (λ _ h. failed_is_no_body h)
          (λ success.
            if_cases (IfBody text) (str_eq (g.trim_space t) "") _ _ (λ _ h. failed_is_no_body h)
              (λ filled h. record {
                status = status;
                reply = ap (answered status) (body_inj h);
                success = (ground arith, ground arith);
                small = rw (← body_inj h) (ground arith);
                filled = rw (← body_inj h) (ground (arith, eq_iff (g.trim_space t) ""));
              })))
  where
    IfBody : String → Body → Type 0
    IfBody x b = b ≡ body x → IsAccepted g (answered status t) x

    body_inj : {a b : String} → body a ≡ body b → a ≡ b
    body_inj k = cc

judge-IsAccepted :
    (g : Stdlib) (r : Reply) (text : String) → judge g r ≡ body text → IsAccepted g r text
unfolding judge
judge-IsAccepted g (answered status t) text h = answered-IsAccepted g status t text h
judge-IsAccepted g no_request text h = failed_is_no_body h
judge-IsAccepted g unreachable text h = failed_is_no_body h
judge-IsAccepted g unreadable text h = failed_is_no_body h

-- An attempt within the range whose reply is accepted, and none before it is.
pub record IsFirst (g : Stdlib) (net : ℕ → Reply) (lo hi : ℕ) (text : String) : Type 0 where
  pub attempt : ℕ
  pub from : lo ≤ attempt
  pub below : attempt < hi
  pub accepted : IsAccepted g (net attempt) text
  pub earlier : (j : ℕ) → lo ≤ j → j < attempt → (e : FetchError) × (judge g (net j) ≡ failed e)

Body-cases : (b : Body) → ((e : FetchError) × (b ≡ failed e)) ⊎ ((t : String) × (b ≡ body t))
Body-cases (body t) = inr (t, refl)
Body-cases (failed e) = inl (e, refl)

fetch_from-IsFirst :
    (g : Stdlib) (net : ℕ → Reply) (left i : ℕ) (last : FetchError) (text : String)
    → fetch_from g net left i last ≡ body text
    → IsFirst g net i (i + left) text
unfolding fetch_from
fetch_from-IsFirst g net zero i last text h = failed_is_no_body h
fetch_from-IsFirst g net (suc left) i last text h = elim (Body-cases (judge g (net i))) [
  | inr (t, e) ↦ record {
    attempt = i;
    from = omega arith;
    below = omega arith;
    accepted = judge-IsAccepted g (net i) text (e ∙ sym (taken t e) ∙ h);
    earlier = λ j lo hi. absurd (no_room j lo hi);
  }
  | inl (e, k) ↦ later e k (fetch_from-IsFirst g net left (i + 1) e text (sym (passed e k) ∙ h))
]
  where
    no_room : (j : ℕ) → i ≤ j → j < i → ⊥
    no_room j lo hi = omega arith

    taken : (t : String) → judge g (net i) ≡ body t → fetch_from g net (suc left) i last ≡ body t
    taken t e = ap (λ b. or_next b (fetch_from g net left (i + 1))) e

    passed :
        (e : FetchError)
        → judge g (net i) ≡ failed e
        → fetch_from g net (suc left) i last ≡ fetch_from g net left (i + 1) e
    passed e k = ap (λ b. or_next b (fetch_from g net left (i + 1))) k

    later :
        (e : FetchError)
        → judge g (net i) ≡ failed e
        → IsFirst g net (i + 1) (i + 1 + left) text
        → IsFirst g net i (i + suc left) text
    later e k f = record {
      attempt = f.attempt;
      from = omega (arith, f.from);
      below = omega (arith, f.below);
      accepted = f.accepted;
      earlier = λ j lo hi. elim (Bool-cases (nat_eq j i)) [
        | inl q ↦ (e, ap (λ n. judge g (net n)) ((nat_eq_iff j i).0 q) ∙ k)
        | inr q ↦ f.earlier j (ground arith) hi
      ];
    }

-- A fetch that succeeds returns the body of the first of its two attempts that is accepted: its
-- status is between 200 and 299, it has at most 10 MiB and is not blank, and what was before it was
-- refused.
pub fetch_one_url-IsFirst :
    (g : Stdlib) (net : ℕ → Reply) (text : String)
    → fetch_one_url g net ≡ body text
    → IsFirst g net 0 2 text
unfolding fetch_one_url
fetch_one_url-IsFirst g net text h = fetch_from-IsFirst g net 2 0 no_attempt text h

-- An attempt that is accepted is enough: if any of the two is, the fetch returns a body.
pub fetch_one_url_returns :
    (g : Stdlib) (net : ℕ → Reply) (text : String) (i : ℕ)
    → i < 2
    → judge g (net i) ≡ body text
    → (t : String) × (fetch_one_url g net ≡ body t)
unfolding fetch_one_url fetch_from
fetch_one_url_returns g net text i h k = elim (Body-cases (judge g (net 0))) [
  | inr (t, e) ↦ (t, ap (λ b. or_next b (fetch_from g net 1 1)) e)
  | inl (e, q) ↦ (
    text,
    ap (λ b. or_next b (fetch_from g net 1 1)) q
        ∙ ap (λ b. or_next b (fetch_from g net 0 2))
            (ap (λ n. judge g (net n)) (sym (second_one e q)) ∙ k),
  )
]
  where
    clash : (e : FetchError) → failed e ≡ body text → ⊥
    clash e q = cc

    second_one : (e : FetchError) → judge g (net 0) ≡ failed e → i ≡ 1
    second_one e q = elim (Bool-cases (nat_eq i 0)) [
      | inl z ↦
          absurd (clash e (sym q ∙ ap (λ n. judge g (net n)) (sym ((nat_eq_iff i 0).0 z)) ∙ k))
      | inr z ↦ ground arith
    ]

add_hosts-head :
    (g : Stdlib) (u : Url) (hs : List String) (raw : String) (out : List String)
    → head? (add_hosts g u hs (raw ∷ out)) ≡ some raw
unfolding add_hosts
add_hosts-head g u [] raw out = refl
add_hosts-head g u (h ∷ hs) raw out =
    if_cases (λ next. head? (add_hosts g u hs next) ≡ some raw) (mem (rehosted g u h) (raw ∷ out)) _
      _ (λ _. add_hosts-head g u hs raw out)
      (λ _. add_hosts-head g u hs raw (out ++ (rehosted g u h ∷ [])))

-- The URLs that are tried start with the given one, and there is no other unless its host is the
-- loopback's, whatever the URL.
pub subscription_candidates_lem :
    (g : Stdlib) (raw : String)
    → (head? (subscription_candidates g raw) ≡ some raw)
      × ((u : Url)
          → g.parse_url raw ≡ some u
          → is_loopback (g.to_lower u.hostname) ≡ false
          → subscription_candidates g raw ≡ raw ∷ [])
unfolding subscription_candidates
subscription_candidates_lem g raw = (
  maybe_cases (λ out. head? out ≡ some raw) (g.parse_url raw) (raw ∷ []) _ refl
      (λ u.
        if_cases (λ out. head? out ≡ some raw) (is_loopback (g.to_lower u.hostname)) _ _
          (λ _. add_hosts-head g u loopback_fallback_hosts raw []) (λ _. refl)),
  λ u p l. rw p (rw l refl),
)
