-- ===== src/Link.antt =====
-- The share links of v2proxy/subscription.go: what the parsers have in common. Each protocol has a
-- child, and `Parse` is `parseToXrayConfig`.
pub mod Vless
pub mod Vmess
pub mod Trojan
pub mod Shadowsocks
pub mod Parse
pub mod Dialled
pub mod Accepted
pub mod Refused
pub mod Tests
use v2pro_dock.Base.{
  String, ◌||◌, Option, none, some, [], ◌∷◌, str_eq, if◌then◌else◌, nat_equal, string_equal,
}
use v2pro_dock.Base.Int.{ℤ}
use v2pro_dock.Json.{Json, str, texts, object, Fields, fields, put}
use v2pro_dock.Stdlib.{Stdlib, Values, query, append}
use v2pro_dock.Pool.{ProxyConfig}

-- Why a link is refused.
pub data LinkError : Type 0 where
  bad_url bad_base64 bad_json hysteria : LinkError
  unsupported unsupported_cipher : String → LinkError

pub data Parsed : Type 0 where
  ok : ProxyConfig → Parsed
  refused : LinkError → Parsed

-- `endpointKey`
unfoldable pub endpoint_key : Stdlib → String → ℤ → String
endpoint_key g server port = append (g.to_lower (g.trim_space server)) (append ":" (g.itoa port))

-- `toInt`
unfoldable pub to_int : Stdlib → String → ℤ → ℤ
to_int g s def =
    if str_eq (g.trim_space s) "" || str_eq (g.trim_space s) "<nil>"
    then def
    else (elim (g.atoi (g.trim_space s)) [ none ↦ def | some v ↦ v ])

-- `cmp.Or(a, b)`, and `if s == "" { s = b }`
abbrev pub or_text : String → String → String
or_text a b = if str_eq a "" then b else a

-- `if s != "" { m[k] = v }`
abbrev pub put_unless_empty : String → String → Json → Fields → Fields
put_unless_empty s k v fs = if str_eq s "" then fs else put k v fs

-- `buildTLS`
unfoldable pub build_tls : Stdlib → Values → String → Fields
unfolding query put
build_tls g q transport =
    let base =
      put_unless_empty (query q "fp") "fingerprint" (str (query q "fp"))
        (fields (("serverName", str (query q "sni")) ∷ [])) in
    if str_eq transport "ws"
    then base
    else put_unless_empty (query q "alpn") "alpn" (texts (g.split (query q "alpn") ",")) base

-- The outbound of every protocol has these four fields.
abbrev pub outbound : String → Json → Fields → Json
outbound protocol settings stream = object (
    ("protocol", str protocol)
    ∷ ("settings", settings)
    ∷ ("streamSettings", Json.obj stream)
    ∷ ("tag", str "proxy")
    ∷ [])

-- The last statements of each parser; the rank is set later.
unfoldable pub config : Stdlib → String → String → String → ℤ → Json → ProxyConfig
unfolding endpoint_key
config g name raw server port out = record {
  name = name;
  raw = raw;
  endpoint = endpoint_key g server port;
  xray_cfg = g.marshal out;
  rank = 0;
}

-- `parseHy2`
unfoldable pub parse_hy2 : Parsed
parse_hy2 = refused hysteria

-- `v, err := …; if err != nil { return nil, err }`
abbrev pub require {ℓ} : {A : Type ℓ} → Option A → LinkError → (A → Parsed) → Parsed
require none e f = refused e
require (some a) e f = f a

pub require_cases {ℓ κ} :
    {A : Type ℓ} (P : Parsed → Type κ) (o : Option A) (e : LinkError) (f : A → Parsed)
    → P (refused e)
    → ((a : A) → P (f a))
    → P (require o e f)
require_cases P none e f n s = n
require_cases P (some a) e f n s = s a
