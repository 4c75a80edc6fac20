-- ===== src/Link/Refused.antt =====
-- Which links `parseToXrayConfig` of v2proxy/subscription.go refuses, with which error, and which
-- it accepts.
use v2pro_dock.Base.{
  String, ◌≡◌, refl, sym, ap, ◌∙◌, inl, inr, Bool, true, false, not, ◌||◌, Option, none, some, List,
  [], ◌∷◌, arith, str_eq, if◌then◌else◌, Bool-cases, Option-cases, nat_equal, string_equal, maybe,
}
use v2pro_dock.Base.Dict.{Dict}
use mathlib.Core.Path.{subst}
use v2pro_dock.Pool.{ProxyConfig}
use v2pro_dock.Stdlib.{Stdlib, Url, starts_with, std, cut}
use v2pro_dock.CleanIp.{vmess_payload, rewrite_clean_ip}
use v2pro_dock.Link.{
  Parsed, ok, refused, LinkError, bad_url, bad_base64, bad_json, hysteria, unsupported,
  unsupported_cipher, require, parse_hy2,
}
use v2pro_dock.Link.Vless.{parse_vless}
use v2pro_dock.Link.Trojan.{parse_trojan}
use v2pro_dock.Link.Vmess.{parse_vmess}
use v2pro_dock.Link.Shadowsocks.{parse_ss, supported_ss, ss_credentials, ss_decoded}
use v2pro_dock.Link.Parse.{parse_scheme, parse_rewritten, parse_to_xray_config, link_name}

-- The ciphers that xray has for Shadowsocks.
abbrev pub ciphers : List String
ciphers =
    "2022-blake3-aes-128-gcm" ∷ "2022-blake3-aes-256-gcm" ∷ "2022-blake3-chacha20-poly1305"
    ∷ "aes-128-gcm" ∷ "aes-256-gcm" ∷ "chacha20-ietf-poly1305" ∷ "chacha20-poly1305"
    ∷ "xchacha20-ietf-poly1305" ∷ []

abbrev pub is_cipher : String → List String → Bool
is_cipher m [] = false
is_cipher m (c ∷ cs) = str_eq m c || is_cipher m cs

supported_ss-is_cipher : (m : String) → supported_ss m ≡ is_cipher m ciphers
unfolding supported_ss
supported_ss-is_cipher m = ground arith

-- What is wrong with the method of a Shadowsocks link; a blank one stands for the default.
abbrev pub method_error : String → Option LinkError
method_error m = if str_eq m "" || is_cipher m ciphers then none else some (unsupported_cipher m)

-- What is wrong with the user part of a Shadowsocks link: nothing, unless it is padded standard
-- base64 of a text with a colon, whose part before the first colon is the method.
abbrev pub user_error : Stdlib → String → Option LinkError
user_error g user =
    maybe (g.decode64 std user) none (λ t. maybe (cut t ":") none (λ p. method_error p.0))

-- What is wrong with the payload of a vmess link.
unfoldable pub payload_error : Stdlib → String → Option LinkError
unfolding vmess_payload
payload_error g raw =
    maybe (vmess_payload g raw) (some bad_base64)
      (λ t. maybe (g.unmarshal t) (some bad_json) (λ m. none))

-- What is wrong with a link of the URL `u`, by its scheme in lower case.
abbrev pub scheme_error : Stdlib → String → String → String → Option LinkError
scheme_error g raw user s =
    if str_eq s "vless"
    then none
    else if str_eq s "vmess"
    then payload_error g raw
    else if str_eq s "trojan"
    then none
    else if str_eq s "ss"
    then user_error g user
    else if str_eq s "hysteria2" || str_eq s "hy2"
    then some hysteria
    else some (unsupported s)

-- What is wrong with a link: its payload if it is a vmess link, else its URL.
unfoldable pub link_error : Stdlib → String → Option LinkError
unfolding payload_error
link_error g raw =
    if starts_with raw "vmess://"
    then payload_error g raw
    else maybe (g.parse_url raw) (some bad_url)
        (λ u. scheme_error g raw u.username (g.to_lower u.scheme))

-- The error is what the parser refuses the link with; without one it accepts the link.
abbrev pub Judged : Option LinkError → Parsed → Type 0
Judged none p = (c : ProxyConfig) × (p ≡ ok c)
Judged (some e) p = p ≡ refused e

require-Judged {ℓ} :
    {A : Type ℓ} (o : Option A) (d : LinkError) (k : A → Option LinkError) (f : A → Parsed)
    → ((a : A) → Judged (k a) (f a))
    → Judged (maybe o (some d) k) (require o d f)
require-Judged none d k f h = refl
require-Judged (some a) d k f h = h a

parse_vmess-Judged :
    (g : Stdlib) (raw name : String) → Judged (payload_error g raw) (parse_vmess g raw name)
unfolding parse_vmess payload_error
parse_vmess-Judged g raw name =
    require-Judged (vmess_payload g raw) bad_base64 _ _
      (λ t. require-Judged (g.unmarshal t) bad_json (λ m. none) _ (λ m. (_, refl)))

-- The method of a Shadowsocks link is the decoded one, and the default where that is blank.
decoded_error :
    (g : Stdlib) (user : String) → user_error g user ≡ method_error (ss_decoded g user).0
unfolding ss_decoded supported_ss
decoded_error g user = elim (Option-cases (g.decode64 std user)) [
  | inl e ↦ rw (e, ss_decoded) refl
  | inr (t, e) ↦ elim (Option-cases (cut t ":")) [
    | inl q ↦ rw (e, ss_decoded, q) refl
    | inr (p, q) ↦ rw (e, ss_decoded, q) refl
  ]
]

abbrev cipher_error : String → Option LinkError
cipher_error m = if supported_ss m then none else some (unsupported_cipher m)

default_error :
    (user : String) (p : String × String)
    → method_error p.0
      ≡ cipher_error (if str_eq p.0 "" then ("chacha20-ietf-poly1305", user) else p).0
unfolding supported_ss
default_error user p = elim (Bool-cases (str_eq p.0 "")) [
  | inl e ↦ rw e refl
  | inr e ↦ rw e (
      ap (λ b. if b then none else some (unsupported_cipher p.0))
        (sym (supported_ss-is_cipher p.0)))
]

guard-Judged :
    (b : Bool) (e : LinkError) (c : ProxyConfig)
    → Judged (if b then none else some e) (if not b then refused e else ok c)
guard-Judged true e c = (c, refl)
guard-Judged false e c = refl

parse_ss-Judged :
    (g : Stdlib) (u : Url) (raw name : String)
    → Judged (user_error g u.username) (parse_ss g u raw name)
unfolding parse_ss ss_credentials
parse_ss-Judged g u raw name =
    subst (λ x. Judged x (parse_ss g u raw name))
      (sym (decoded_error g u.username ∙ default_error u.username (ss_decoded g u.username)))
      (guard-Judged (supported_ss (ss_credentials g u.username).0) _ _)

-- The choice of the scheme, for any verdicts on its parsers.
choice-Judged :
    (a b c d h : Bool) (ea eb ec ed : Option LinkError) (pa pb pc pd : Parsed) (eh en : LinkError)
    → Judged ea pa
    → Judged eb pb
    → Judged ec pc
    → Judged ed pd
    → Judged
        (if a
          then ea
          else if b
          then eb
          else if c
          then ec
          else if d
          then ed
          else if h
          then some eh
          else some en)
        (if a
          then pa
          else if b
          then pb
          else if c
          then pc
          else if d
          then pd
          else if h
          then refused eh
          else refused en)
choice-Judged true b c d h ea eb ec ed pa pb pc pd eh en ja jb jc jd = ja
choice-Judged false true c d h ea eb ec ed pa pb pc pd eh en ja jb jc jd = jb
choice-Judged false false true d h ea eb ec ed pa pb pc pd eh en ja jb jc jd = jc
choice-Judged false false false true h ea eb ec ed pa pb pc pd eh en ja jb jc jd = jd
choice-Judged false false false false true ea eb ec ed pa pb pc pd eh en ja jb jc jd = refl
choice-Judged false false false false false ea eb ec ed pa pb pc pd eh en ja jb jc jd = refl

parse_vless-accepts :
    (g : Stdlib) (u : Url) (raw name : String) → Judged none (parse_vless g u raw name)
unfolding parse_vless
parse_vless-accepts g u raw name = (_, refl)

parse_trojan-accepts :
    (g : Stdlib) (u : Url) (raw name : String) → Judged none (parse_trojan g u raw name)
unfolding parse_trojan
parse_trojan-accepts g u raw name = (_, refl)

parse_scheme-Judged :
    (g : Stdlib) (u : Url) (raw name : String)
    → Judged (scheme_error g raw u.username (g.to_lower u.scheme)) (parse_scheme g u raw name)
unfolding parse_scheme parse_hy2
parse_scheme-Judged g u raw name =
    choice-Judged (str_eq s "vless") (str_eq s "vmess") (str_eq s "trojan") (str_eq s "ss")
      (str_eq s "hysteria2" || str_eq s "hy2") none (payload_error g raw) none
      (user_error g u.username) (parse_vless g u raw name) (parse_vmess g raw name)
      (parse_trojan g u raw name) (parse_ss g u raw name) hysteria (unsupported s)
      (parse_vless-accepts g u raw name) (parse_vmess-Judged g raw name)
      (parse_trojan-accepts g u raw name) (parse_ss-Judged g u raw name)
  where
    s : String
    s = g.to_lower u.scheme

if-Judged :
    (b : Bool) (d e : Option LinkError) (p q : Parsed)
    → Judged d p
    → Judged e q
    → Judged (if b then d else e) (if b then p else q)
if-Judged true d e p q h k = h
if-Judged false d e p q h k = k

rewritten-Judged : (g : Stdlib) (raw : String) → Judged (link_error g raw) (parse_rewritten g raw)
unfolding parse_rewritten link_error
rewritten-Judged g raw =
    if-Judged (starts_with raw "vmess://") (payload_error g raw) _ (parse_vmess g raw "") _
      (parse_vmess-Judged g raw "")
      (require-Judged (g.parse_url raw) bad_url _ _
        (λ u. parse_scheme-Judged g u raw (link_name g u)))

-- A link with something wrong is refused, with that error, and a link with nothing wrong is
-- accepted. Wrong are: a vmess payload that is not base64 or not JSON; a URL that does not parse;
-- hysteria; a scheme that is not served; and a Shadowsocks user part that is padded standard base64
-- of a method and a password where the method is not blank and outside xray's ciphers. Nothing is wrong with
-- any other user part: the cipher of one in plain text or in unpadded base64 is not looked at.
pub parse_refuses :
    (g : Stdlib) (clean : Dict String String) (raw : String)
    → Judged (link_error g (rewrite_clean_ip g raw clean)) (parse_to_xray_config g clean raw)
unfolding parse_to_xray_config
parse_refuses g clean raw = rewritten-Judged g (rewrite_clean_ip g raw clean)
