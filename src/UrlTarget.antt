-- ===== src/UrlTarget.antt =====
-- v2proxy/urlcheck.go: which URLs may be probed. The public suffix list and `net.ParseIP` are
-- arguments; an address is its bytes, and one that is IPv4 in any of its forms is `v4`, as `To4` has
-- it.
pub mod Address
pub mod Vetting
pub mod Tests
use v2pro_dock.Base.{
  ℕ, String, Bool, true, false, not, ◌&&◌, ◌||◌, Option, none, some, List, [], ◌∷◌, str_eq, ltb,
  leb, nat_eq, if◌then◌else◌, nat_equal, string_equal, maybe, get_elem?,
}
use v2pro_dock.Stdlib.{Stdlib, Url, append, len, contains, has_suffix, trim_suffix, trim_prefix}

pub data Ip : Type 0 where
  v4 : ℕ → ℕ → ℕ → ℕ → Ip
  v6 : List ℕ → Ip

abbrev pub within : ℕ → ℕ → ℕ → Bool
within lo hi n = leb lo n && leb n hi

-- The methods of `net.IP` that the first case asks, for IPv4.
unfoldable pub is_special_v4 : ℕ → ℕ → ℕ → ℕ → Bool
is_special_v4 a b c d =
    -- IsLoopback
    nat_eq a 127
    -- IsUnspecified
    || (nat_eq a 0 && nat_eq b 0 && nat_eq c 0 && nat_eq d 0)
    -- IsMulticast, of which IsLinkLocalMulticast is a part
    || within 224 239 a
    -- IsPrivate
    || nat_eq a 10
    || (nat_eq a 172 && within 16 31 b)
    || (nat_eq a 192 && nat_eq b 168)
    -- IsLinkLocalUnicast
    || (nat_eq a 169 && nat_eq b 254)

unfoldable pub is_non_public_v4 : ℕ → ℕ → ℕ → ℕ → Bool
unfolding is_special_v4
is_non_public_v4 a b c d =
    is_special_v4 a b c d
    || (nat_eq a 100 && leb 64 b && leb b 127)
    || (nat_eq a 198 && (nat_eq b 18 || nat_eq b 19))
    || (nat_eq a 192 && nat_eq b 0 && nat_eq c 0 && nat_eq d 192)
    || leb 240 a

all_zero : List ℕ → Bool
all_zero [] = true
all_zero (b ∷ bs) = nat_eq b 0 && all_zero bs

-- `::1`
last_one : List ℕ → Bool
unfolding all_zero
last_one [] = false
last_one (b ∷ []) = nat_eq b 1
last_one (b ∷ bs) = nat_eq b 0 && last_one bs

-- The byte at a position
abbrev pub byte_at : ℕ → List ℕ → ℕ
byte_at i bs = maybe (get_elem? bs i) 0 (λ b. b)

unfoldable pub is_non_public_v6 : List ℕ → Bool
unfolding all_zero last_one
is_non_public_v6 bs =
    -- IsLoopback and IsUnspecified
    last_one bs
    || all_zero bs
    -- IsMulticast, of which the other multicasts are parts
    || nat_eq (byte_at 0 bs) 255
    -- IsPrivate, and the code's own test of fc00::/7
    || within 252 253 (byte_at 0 bs)
    -- IsLinkLocalUnicast: fe80::/10
    || (nat_eq (byte_at 0 bs) 254 && within 128 191 (byte_at 1 bs))
    -- 2001:db8::/32
    || (nat_eq (byte_at 0 bs) 32
        && nat_eq (byte_at 1 bs) 1
        && nat_eq (byte_at 2 bs) 13
        && nat_eq (byte_at 3 bs) 184)

-- `isNonPublicIP`
unfoldable pub is_non_public_ip : Ip → Bool
unfolding is_non_public_v4 is_non_public_v6
is_non_public_ip (v4 a b c d) = is_non_public_v4 a b c d
is_non_public_ip (v6 bs) = is_non_public_v6 bs

-- Why a target is refused.
pub data Denial : Type 0 where
  empty too_long bad_url bad_scheme has_credentials no_host : Denial
  non_public loopback private_suffix reserved single_label : Denial

-- `validateCheckHost`: none is nil.
unfoldable pub validate_check_host : (String → Option Ip) → String → Option Denial
unfolding is_non_public_ip has_suffix
validate_check_host parse_ip host = elim (parse_ip host) [
  | some ip ↦ if is_non_public_ip ip then some non_public else none
  | none ↦
      if str_eq host "localhost" || has_suffix host ".localhost"
      then some loopback
      else if has_suffix host ".local" || has_suffix host ".internal"
      then some private_suffix
      else if has_suffix host ".home.arpa"
      then some reserved
      else if not (contains host ".")
      then some single_label
      else none
]

-- `registrableDomain`; `etld1` gives none on an error.
unfoldable pub registrable_domain : (String → Option String) → String → String
unfolding trim_prefix
registrable_domain etld1 host =
    maybe (etld1 host) (trim_prefix host "www.")
      (λ d. if str_eq d "" then trim_prefix host "www." else d)

pub record CheckTarget : Type 0 where
  pub key : String
  pub probe_url : String
  pub host : String

pub data Vetted : Type 0 where
  vetted : CheckTarget → Vetted
  denied : Denial → Vetted

abbrev pub check_max_url_len : ℕ
check_max_url_len = 2_048

-- `s = "https://" + s` for a bare host
unfoldable pub with_scheme : String → String
with_scheme s = if contains s "://" then s else append "https://" s

-- The host whose address or name is judged: in lower case, without a final dot.
unfoldable pub judged_host : Stdlib → Url → String
unfolding trim_suffix
judged_host g u = trim_suffix (g.to_lower u.hostname) "."

-- The URL that is fetched: scheme, host, path and query of the given one.
unfoldable pub probe_url_of : Stdlib → Url → String
probe_url_of g u = g.url_string (record u {
  scheme = g.to_lower u.scheme;
  path = if str_eq u.path "" then "/" else u.path;
  fragment = "";
})

-- The guards on a parsed URL, in their order.
unfoldable pub vet_url : Stdlib → (String → Option Ip) → (String → Option String) → Url → Vetted
unfolding judged_host probe_url_of validate_check_host registrable_domain
vet_url g parse_ip etld1 u =
    if not (str_eq (g.to_lower u.scheme) "http" || str_eq (g.to_lower u.scheme) "https")
    then denied bad_scheme
    else if u.has_user
    then denied has_credentials
    else if str_eq u.host ""
    then denied no_host
    else if str_eq (judged_host g u) ""
    then denied no_host
    else (elim (validate_check_host parse_ip (judged_host g u)) [
      | some d ↦ denied d
      | none ↦ vetted (record {
        key = registrable_domain etld1 (judged_host g u);
        probe_url = probe_url_of g u;
        host = u.host;
      })
    ])

-- `normalizeCheckTarget`
unfoldable pub normalize_check_target :
    Stdlib → (String → Option Ip) → (String → Option String) → String → Vetted
unfolding vet_url with_scheme
normalize_check_target g parse_ip etld1 raw =
    let s = g.trim_space raw in
    if str_eq s ""
    then denied empty
    else if ltb check_max_url_len (len s)
    then denied too_long
    else maybe (g.parse_url (with_scheme s)) (denied bad_url) (vet_url g parse_ip etld1)
