-- ===== src/Link/Accepted.antt =====
-- What `parseToXrayConfig` of v2proxy/subscription.go guarantees of a link it accepts, and which
-- links it refuses.
use v2pro_dock.Base.{String, ◌≡◌, refl, not, ◌||◌, str_eq, nat_equal, string_equal, if_cases}
use v2pro_dock.Base.Dict.{Dict}
use v2pro_dock.Base.Int.{ℤ}
use mathlib.Core.Path.{subst}
use v2pro_dock.Json.{Json}
use v2pro_dock.Stdlib.{Stdlib, Url, starts_with}
use v2pro_dock.Pool.{ProxyConfig}
use v2pro_dock.CleanIp.{rewrite_clean_ip, vmess_payload}
use v2pro_dock.Link.{
  Parsed, ok, refused, bad_url, bad_base64, bad_json, endpoint_key, config, require_cases,
}
use v2pro_dock.Link.Vless.{parse_vless}
use v2pro_dock.Link.Vmess.{parse_vmess}
use v2pro_dock.Link.Trojan.{parse_trojan}
use v2pro_dock.Link.Shadowsocks.{parse_ss, supported_ss, ss_credentials}
use v2pro_dock.Link.Parse.{parse_scheme, parse_rewritten, parse_to_xray_config, link_name}
use v2pro_dock.Link.Dialled.{Dials}
use v2pro_dock.Link.Dialled.Trojan.{ss_outbound-Dials, trojan_outbound-Dials}
use v2pro_dock.Link.Dialled.Vless.{vless_outbound-Dials}
use v2pro_dock.Link.Dialled.Vmess.{vmess_outbound-Dials}

-- The configuration is an outbound, printed, and its endpoint is the key of what it dials.
pub record IsBuilt (g : Stdlib) (raw : String) (c : ProxyConfig) : Type 0 where
  pub out : Json
  pub server : String
  pub port : ℤ
  pub printed : c.xray_cfg ≡ g.marshal out
  pub identity : c.endpoint ≡ endpoint_key g server port
  pub link : c.raw ≡ raw
  pub dials : Dials out server port

-- If the link is accepted.
abbrev BuiltIfOk : Stdlib → String → Parsed → Type 0
BuiltIfOk g raw (ok c) = IsBuilt g raw c
BuiltIfOk g raw (refused e) = Unit

config-IsBuilt :
    (g : Stdlib) (name raw server : String) (port : ℤ) (o : Json)
    → Dials o server port
    → IsBuilt g raw (config g name raw server port o)
unfolding config endpoint_key
config-IsBuilt g name raw server port o d = record {
  out = o;
  server = server;
  port = port;
  printed = refl;
  identity = refl;
  link = refl;
  dials = d;
}

parse_vmess-IsBuilt : (g : Stdlib) (raw name : String) → BuiltIfOk g raw (parse_vmess g raw name)
unfolding parse_vmess
parse_vmess-IsBuilt g raw name =
    require_cases (BuiltIfOk g raw) (vmess_payload g raw) bad_base64 _ tt (λ t.
      require_cases (BuiltIfOk g raw) (g.unmarshal t) bad_json _ tt
        (λ m. config-IsBuilt g _ raw _ _ _ (vmess_outbound-Dials g m)))

parse_ss-IsBuilt :
    (g : Stdlib) (u : Url) (raw name : String) → BuiltIfOk g raw (parse_ss g u raw name)
unfolding parse_ss
parse_ss-IsBuilt g u raw name =
    if_cases (BuiltIfOk g raw) (not (supported_ss (ss_credentials g u.username).0)) _ _ (λ _. tt)
      (λ _. config-IsBuilt g _ raw _ _ _ (ss_outbound-Dials g u))

parse_vless-IsBuilt :
    (g : Stdlib) (u : Url) (raw name : String) → BuiltIfOk g raw (parse_vless g u raw name)
unfolding parse_vless
parse_vless-IsBuilt g u raw name = config-IsBuilt g _ raw _ _ _ (vless_outbound-Dials g u)

parse_trojan-IsBuilt :
    (g : Stdlib) (u : Url) (raw name : String) → BuiltIfOk g raw (parse_trojan g u raw name)
unfolding parse_trojan
parse_trojan-IsBuilt g u raw name = config-IsBuilt g _ raw _ _ _ (trojan_outbound-Dials g u)

parse_scheme-IsBuilt :
    (g : Stdlib) (u : Url) (raw name : String) → BuiltIfOk g raw (parse_scheme g u raw name)
unfolding parse_scheme
parse_scheme-IsBuilt g u raw name =
    if_cases (BuiltIfOk g raw) (str_eq (g.to_lower u.scheme) "vless") _ _
      (λ _. parse_vless-IsBuilt g u raw name)
      (λ _.
        if_cases (BuiltIfOk g raw) (str_eq (g.to_lower u.scheme) "vmess") _ _
          (λ _. parse_vmess-IsBuilt g raw name)
          (λ _.
            if_cases (BuiltIfOk g raw) (str_eq (g.to_lower u.scheme) "trojan") _ _
              (λ _. parse_trojan-IsBuilt g u raw name)
              (λ _.
                if_cases (BuiltIfOk g raw) (str_eq (g.to_lower u.scheme) "ss") _ _
                  (λ _. parse_ss-IsBuilt g u raw name)
                  (λ _.
                    if_cases (BuiltIfOk g raw)
                      (str_eq (g.to_lower u.scheme) "hysteria2"
                        || str_eq (g.to_lower u.scheme) "hy2")
                      _ _ (λ _. tt) (λ _. tt)))))

parse_rewritten-IsBuilt : (g : Stdlib) (raw : String) → BuiltIfOk g raw (parse_rewritten g raw)
unfolding parse_rewritten
parse_rewritten-IsBuilt g raw =
    if_cases (BuiltIfOk g raw) (starts_with raw "vmess://") _ _ (λ _. parse_vmess-IsBuilt g raw "")
      (λ _.
        require_cases (BuiltIfOk g raw) (g.parse_url raw) bad_url _ tt
          (λ u. parse_scheme-IsBuilt g u raw (link_name g u)))

-- A link that is accepted becomes an outbound, as JSON text, and the configuration's endpoint is
-- the key of the very server and port that this outbound dials, whatever the protocol; the outbound
-- has the tag "proxy", and over WebSocket it carries no ALPN. The link that is kept is the one with
-- the clean address.
pub parse-IsBuilt :
    (g : Stdlib) (clean : Dict String String) (raw : String) (c : ProxyConfig)
    → parse_to_xray_config g clean raw ≡ ok c
    → IsBuilt g (rewrite_clean_ip g raw clean) c
unfolding parse_to_xray_config
parse-IsBuilt g clean raw c h =
    subst (BuiltIfOk g (rewrite_clean_ip g raw clean)) h
      (parse_rewritten-IsBuilt g (rewrite_clean_ip g raw clean))
