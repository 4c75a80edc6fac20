-- ===== src/Rank/Tiers.antt =====
-- Which ranks each scheme can have.
use v2pro_dock.Base.{
  ℕ, String, ◌≡◌, refl, Bool, true, false, ◌||◌, List, [], ◌∷◌, arith, str_eq, eq_iff, nat_eq,
  if◌then◌else◌, nat_equal, string_equal, maybe, maybe_cases, Option-cases, inl, inr,
}
use v2pro_dock.Stdlib.{Stdlib, Values, cut, std}
use v2pro_dock.Rank.{
  dpi_rank, scheme_rank, query_rank, query_of, path_unescape, vmess_rank, net_tls_rank, is_ss2022,
}

-- The ranks that a scheme, in lower case, may have; a Shadowsocks link has the one of its cipher,
-- which is of the 2022 edition or not.
abbrev pub tiers : String → Bool → List ℕ
tiers s is_2022 =
    if str_eq s "trojan"
    then 100 ∷ 80 ∷ []
    else if str_eq s "vless"
    then 100 ∷ 40 ∷ 20 ∷ []
    else if str_eq s "vmess"
    then 100 ∷ 60 ∷ 40 ∷ 20 ∷ []
    else if str_eq s "ss" || str_eq s "shadowsocks"
    then (if is_2022 then 10 ∷ [] else 0 ∷ [])
    else 0 ∷ []

-- Those of a line: without "://" there is no scheme.
unfoldable pub line_tiers : Stdlib → String → List ℕ
line_tiers g raw = maybe (cut raw "://") (0 ∷ []) (λ p. tiers (g.to_lower p.0) (is_ss2022 g p.1))

abbrev pub in_tiers : ℕ → List ℕ → Bool
in_tiers n [] = false
in_tiers n (m ∷ ms) = nat_eq n m || in_tiers n ms

query_rank-trojan :
    (g : Stdlib) (s : String) (q : Values)
    → g.equal_fold s "trojan" ≡ true
    → in_tiers (query_rank g s q) (100 ∷ 80 ∷ []) ≡ true
unfolding query_rank
query_rank-trojan g s q h = ground arith

query_rank-vless :
    (g : Stdlib) (s : String) (q : Values)
    → g.equal_fold s "trojan" ≡ false
    → in_tiers (query_rank g s q) (100 ∷ 40 ∷ 20 ∷ []) ≡ true
unfolding query_rank
query_rank-vless g s q h = ground arith

net_tls_rank-tiers :
    (g : Stdlib) (n t : String) → in_tiers (net_tls_rank g n t) (100 ∷ 60 ∷ 40 ∷ 20 ∷ []) ≡ true
unfolding net_tls_rank
net_tls_rank-tiers g n t = ground arith

abbrev IsVmess : ℕ → Type 0
IsVmess r = in_tiers r (100 ∷ 60 ∷ 40 ∷ 20 ∷ []) ≡ true

vmess_rank-tiers : (g : Stdlib) (b : String) → IsVmess (vmess_rank g b)
unfolding vmess_rank
vmess_rank-tiers g b =
    maybe_cases IsVmess (g.decode64 std (path_unescape g b)) 20 _ refl (λ t.
      maybe_cases IsVmess (g.unmarshal_net_tls t) 20 _ refl (λ p. net_tls_rank-tiers g p.0 p.1))

scheme_rank-tiers :
    (g : Stdlib) (s rest : String)
    → g.equal_fold s "trojan" ≡ str_eq (g.to_lower s) "trojan"
    → in_tiers (scheme_rank g s rest) (tiers (g.to_lower s) (is_ss2022 g rest)) ≡ true
unfolding scheme_rank
scheme_rank-tiers g s rest h = ground (
  arith,
  query_rank-trojan g s (query_of g rest),
  query_rank-vless g s (query_of g rest),
  vmess_rank-tiers g rest,
  h,
  eq_iff (g.to_lower s) "trojan",
  eq_iff (g.to_lower s) "vless",
  eq_iff (g.to_lower s) "vmess",
  eq_iff (g.to_lower s) "ss",
)

-- A line's rank is one of the ranks of its scheme, whatever its payload, decodable or not: 80 or 100
-- for trojan; 20, 40 or 100 for vless; 20, 40, 60 or 100 for vmess; for Shadowsocks 10 if
-- `is_ss2022` finds a cipher of the 2022 edition and else 0; and 0 for any other scheme and for a line without one. So no
-- unknown shape outranks a known one. Assumed: a scheme equals "trojan" under folding exactly if it
-- does in lower case.
pub dpi_rank-tier :
    (g : Stdlib) (raw : String)
    → ((s : String) → g.equal_fold s "trojan" ≡ str_eq (g.to_lower s) "trojan")
    → in_tiers (dpi_rank g raw) (line_tiers g raw) ≡ true
unfolding dpi_rank line_tiers
dpi_rank-tier g raw h = elim (Option-cases (cut raw "://")) [
  | inl e ↦ rw e refl
  | inr ((scheme, rest), e) ↦ rw e (scheme_rank-tiers g scheme rest (h scheme))
]
