-- ===== src/Render/Relay.antt =====
-- The relay's settings and its outbound: `relayConfig` of v2proxy/env.go and `relayOutbound` of
-- v2proxy/selector.go.
use v2pro_dock.Base.{
  ℕ, String, Bool, true, false, ◌||◌, Option, none, some, [], ◌∷◌, str_eq, ltb, if◌then◌else◌,
  nat_equal, string_equal, maybe,
}
use v2pro_dock.Base.Int.{pos, negsuc}
use v2pro_dock.Json.{bool, str, num, array, object, obj, Fields, fields, put}
use v2pro_dock.Stdlib.{Stdlib, Url}
use v2pro_dock.Render.{RelayCfg, relay_out_tag}

-- The port of the URL, if it is a port, else the scheme's.
unfoldable pub relay_port_of : Stdlib → String → ℕ → Option ℕ
relay_port_of g p def = if str_eq p "" then some def else (elim (g.atoi p) [
  | none ↦ none
  | some (negsuc _) ↦ none
  | some (pos n) ↦ if ltb n 1 || ltb 65_535 n then none else some n
])

-- A URL with a host; `secure` is whether its scheme is https.
unfoldable pub relay_of : Stdlib → Url → Bool → Option RelayCfg
unfolding relay_port_of
relay_of g u secure =
    maybe (relay_port_of g (g.trim_space u.port) (if secure then 443 else 80)) none (λ port.
      some (record {
        host = u.hostname;
        port = port;
        user = u.username;
        pass = u.password;
        tls = secure;
      }))

unfoldable pub relay_of_url : Stdlib → Url → Option RelayCfg
unfolding relay_of
relay_of_url g u =
    if str_eq u.hostname ""
    then none
    else if str_eq (g.to_lower u.scheme) "http"
    then relay_of g u false
    else if str_eq (g.to_lower u.scheme) "https"
    then relay_of g u true
    else none

-- `relayConfig`: none is off.
unfoldable pub relay_config : Stdlib → String → Option RelayCfg
unfolding relay_of_url
relay_config g v =
    if str_eq (g.trim_space v) ""
    then none
    else maybe (g.parse_url (g.trim_space v)) none (relay_of_url g)

unfoldable pub relay_server : RelayCfg → Fields
unfolding put
relay_server rc =
    let server = fields (("address", str rc.host) ∷ ("port", num (pos rc.port)) ∷ []) in
    if str_eq rc.user ""
    then server
    else put "users" (array (object (("user", str rc.user) ∷ ("pass", str rc.pass) ∷ []) ∷ []))
        server

-- `relayOutbound`
unfoldable pub relay_outbound : RelayCfg → String → Fields
unfolding relay_server put
relay_outbound rc tag =
    let out = fields (
      ("protocol", str "http")
      ∷ ("tag", str relay_out_tag)
      ∷ ("settings", object (("servers", array (obj (relay_server rc) ∷ [])) ∷ []))
      ∷ ("proxySettings", object (("tag", str tag) ∷ ("transportLayer", bool true) ∷ []))
      ∷ []) in
    if rc.tls
    then put "streamSettings"
        (object (
          ("network", str "tcp")
          ∷ ("security", str "tls")
          ∷ ("tlsSettings", object (("serverName", str rc.host) ∷ []))
          ∷ []))
        out
    else out
