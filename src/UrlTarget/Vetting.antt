-- ===== src/UrlTarget/Vetting.antt =====
-- What a vetted target guarantees: `normalizeCheckTarget` of v2proxy/urlcheck.go.
use v2pro_dock.Base.{
  String, ◌≡◌, refl, ◌≢◌, ◌⊎◌, inl, inr, true, false, not, ◌||◌, Option, none, some, arith, str_eq,
  eq_iff, ltb, Bool-cases, Option-cases, nat_equal, string_equal, if_cases,
}
use mathlib.Core.Path.{subst}
use v2pro_dock.Stdlib.{Stdlib, Url, contains, has_suffix, len}
use v2pro_dock.UrlTarget.{
  Ip, is_non_public_ip, Denial, validate_check_host, CheckTarget, Vetted, vetted, denied,
  with_scheme, judged_host, probe_url_of, vet_url, normalize_check_target, registrable_domain,
  bad_scheme, has_credentials, no_host, empty, too_long, check_max_url_len,
}

-- A target that comes from the URL `u`.
pub record IsSafe (g : Stdlib) (parse_ip : String → Option Ip) (u : Url) (t : CheckTarget)
    : Type 0 where
  pub scheme : (g.to_lower u.scheme ≡ "http") ⊎ (g.to_lower u.scheme ≡ "https")
  pub no_user : u.has_user ≡ false
  pub has_host : judged_host g u ≢ ""
  pub public : (ip : Ip) → parse_ip (judged_host g u) ≡ some ip → is_non_public_ip ip ≡ false
  pub dotted : parse_ip (judged_host g u) ≡ none → contains (judged_host g u) "." ≡ true
  pub outward :
      parse_ip (judged_host g u) ≡ none
      → (has_suffix (judged_host g u) ".local" || has_suffix (judged_host g u) ".internal") ≡ false
  pub fetched : t.probe_url ≡ probe_url_of g u

validated_public :
    (parse_ip : String → Option Ip) (h : String) (ip : Ip)
    → validate_check_host parse_ip h ≡ none
    → parse_ip h ≡ some ip
    → is_non_public_ip ip ≡ false
unfolding validate_check_host
validated_public parse_ip h ip v e = ground arith

validated_name :
    (parse_ip : String → Option Ip) (h : String)
    → validate_check_host parse_ip h ≡ none
    → parse_ip h ≡ none
    → (contains h "." ≡ true) × ((has_suffix h ".local" || has_suffix h ".internal") ≡ false)
unfolding validate_check_host
validated_name parse_ip h v e = ground arith

IfVetted : Stdlib → (String → Option Ip) → Url → Vetted → Type 0
IfVetted g parse_ip u r = (t : CheckTarget) → r ≡ vetted t → IsSafe g parse_ip u t

denied-IfVetted :
    (g : Stdlib) (parse_ip : String → Option Ip) (u : Url) (d : Denial)
    → IfVetted g parse_ip u (denied d)
unfolding IfVetted
denied-IfVetted g parse_ip u d t h = elim (impossible h) [ ]
  where
    impossible : denied d ≡ vetted t → ⊥
    impossible k = cc

one_scheme :
    (s : String) → not (str_eq s "http" || str_eq s "https") ≡ false → (s ≡ "http") ⊎ (s ≡ "https")
one_scheme s h = elim (Bool-cases (str_eq s "http")) [
  | inl e ↦ inl ((eq_iff s "http").0 e)
  | inr e ↦ inr (ground (arith, eq_iff s "https"))
]

-- The last guard, and the target.
judged : Stdlib → (String → Option Ip) → (String → Option String) → Url → Option Denial → Vetted
judged g parse_ip etld1 u (some d) = denied d
judged g parse_ip etld1 u none = vetted (record {
  key = registrable_domain etld1 (judged_host g u);
  probe_url = probe_url_of g u;
  host = u.host;
})

judged-IfVetted :
    (g : Stdlib) (parse_ip : String → Option Ip) (etld1 : String → Option String) (u : Url)
    → not (str_eq (g.to_lower u.scheme) "http" || str_eq (g.to_lower u.scheme) "https") ≡ false
    → u.has_user ≡ false
    → str_eq (judged_host g u) "" ≡ false
    → IfVetted g parse_ip u
        (judged g parse_ip etld1 u (validate_check_host parse_ip (judged_host g u)))
unfolding judged IfVetted
judged-IfVetted g parse_ip etld1 u scheme user host =
    elim (Option-cases (validate_check_host parse_ip (judged_host g u))) [
      | inr (d, e) ↦ rw e (denied-IfVetted g parse_ip u d)
      | inl e ↦ rw e (λ t k. subst (IsSafe g parse_ip u) (vetted_inj k) (record {
        scheme = one_scheme (g.to_lower u.scheme) scheme;
        no_user = user;
        has_host = ground (arith, eq_iff (judged_host g u) "");
        public = λ ip q. validated_public parse_ip (judged_host g u) ip e q;
        dotted = λ q. (validated_name parse_ip (judged_host g u) e q).0;
        outward = λ q. (validated_name parse_ip (judged_host g u) e q).1;
        fetched = refl;
      }))
    ]
  where
    vetted_inj : {a b : CheckTarget} → vetted a ≡ vetted b → a ≡ b
    vetted_inj k = cc

vet_url-IfVetted :
    (g : Stdlib) (parse_ip : String → Option Ip) (etld1 : String → Option String) (u : Url)
    → IfVetted g parse_ip u (vet_url g parse_ip etld1 u)
unfolding vet_url judged
vet_url-IfVetted g parse_ip etld1 u =
    if_cases (IfVetted g parse_ip u) _ _ _ (λ _. denied-IfVetted g parse_ip u bad_scheme)
      (λ scheme.
        if_cases (IfVetted g parse_ip u) u.has_user _ _
          (λ _. denied-IfVetted g parse_ip u has_credentials)
          (λ user.
            if_cases (IfVetted g parse_ip u) (str_eq u.host "") _ _
              (λ _. denied-IfVetted g parse_ip u no_host)
              (λ _.
                if_cases (IfVetted g parse_ip u) (str_eq (judged_host g u) "") _ _
                  (λ _. denied-IfVetted g parse_ip u no_host)
                  (λ host. judged-IfVetted g parse_ip etld1 u scheme user host))))

-- What is fetched for a target that is vetted: a URL of scheme http or https without credentials,
-- whose host, without case and final dot, is not empty; if the host is an IP address, it is not one
-- of the refused ones, and if it is a name, it has a dot and is not of the suffixes local and
-- internal.
pub normalize_check_target-IsSafe :
    (g : Stdlib) (parse_ip : String → Option Ip) (etld1 : String → Option String) (raw : String)
    (u : Url) (t : CheckTarget)
    → g.parse_url (with_scheme (g.trim_space raw)) ≡ some u
    → normalize_check_target g parse_ip etld1 raw ≡ vetted t
    → IsSafe g parse_ip u t
unfolding normalize_check_target IfVetted
normalize_check_target-IsSafe g parse_ip etld1 raw u t p =
    if_cases (IfVetted g parse_ip u) (str_eq (g.trim_space raw) "") _ _
      (λ _. denied-IfVetted g parse_ip u empty)
      (λ _.
        if_cases (IfVetted g parse_ip u) (ltb check_max_url_len (len (g.trim_space raw))) _ _
          (λ _. denied-IfVetted g parse_ip u too_long)
          (λ _. rw p (vet_url-IfVetted g parse_ip etld1 u)))
      t
