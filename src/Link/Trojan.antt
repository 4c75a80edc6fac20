-- ===== src/Link/Trojan.antt =====
-- `parseTrojan` of v2proxy/subscription.go.
use v2pro_dock.Base.{String, [], ◌∷◌, str_eq, if◌then◌else◌, nat_equal, string_equal}
use v2pro_dock.Base.Int.{pos}
use v2pro_dock.Json.{Json, str, num, texts, array, object, obj, Fields, fields, put}
use v2pro_dock.Stdlib.{Stdlib, Url, Values, query}
use v2pro_dock.Link.{Parsed, ok, to_int, or_text, outbound, config}

-- No ALPN over WebSocket.
unfoldable pub trojan_tls : Values → String → Fields
unfolding query put
trojan_tls q transport =
    let base =
      fields (("serverName", str (query q "sni")) ∷ ("fingerprint", str (query q "fp")) ∷ []) in
    if str_eq transport "ws" then base else put "alpn" (texts ("h2" ∷ "http/1.1" ∷ [])) base

unfoldable pub trojan_framing : Values → String → Fields → Fields
unfolding query put
trojan_framing q transport stream =
    if str_eq transport "ws"
    then put "wsSettings"
        (object (("path", str (query q "path")) ∷ ("host", str (query q "host")) ∷ [])) stream
    else if str_eq transport "grpc"
    then put "grpcSettings" (object (("serviceName", str (query q "serviceName")) ∷ [])) stream
    else stream

abbrev pub trojan_transport : Values → String
unfolding query
trojan_transport q = or_text (query q "type") "tcp"

-- The stream before its framing's settings
abbrev pub trojan_base : Values → Fields
unfolding trojan_tls
trojan_base q = fields (
    ("network", str (trojan_transport q))
    ∷ ("security", str "tls")
    ∷ ("tlsSettings", obj (trojan_tls q (trojan_transport q)))
    ∷ [])

unfoldable pub trojan_stream : Values → Fields
unfolding trojan_tls trojan_framing
trojan_stream q = trojan_framing q (trojan_transport q) (trojan_base q)

-- The password stands with the server, not with a user.
unfoldable pub trojan_outbound : Stdlib → Url → Json
unfolding trojan_stream to_int
trojan_outbound g u =
    outbound "trojan"
      (object (
        (
          "servers",
          array (
              object (
                ("address", str u.hostname)
                ∷ ("port", num (to_int g u.port (pos 443)))
                ∷ ("password", str u.username)
                ∷ [])
              ∷ []),
        )
        ∷ []))
      (trojan_stream u.values)

-- `parseTrojan`
unfoldable pub parse_trojan : Stdlib → Url → String → String → Parsed
unfolding config trojan_outbound to_int
parse_trojan g u raw name = ok (
    config g (or_text name u.hostname) raw u.hostname (to_int g u.port (pos 443))
      (trojan_outbound g u))
