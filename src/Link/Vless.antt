-- ===== src/Link/Vless.antt =====
-- `parseVless` of v2proxy/subscription.go.
use v2pro_dock.Base.{String, true, ◌||◌, [], ◌∷◌, str_eq, if◌then◌else◌, nat_equal, string_equal}
use v2pro_dock.Base.Int.{ℤ, pos}
use v2pro_dock.Json.{Json, bool, str, num, texts, array, object, obj, Fields, fields, put}
use v2pro_dock.Stdlib.{Stdlib, Url, Values, query, append}
use v2pro_dock.Link.{Parsed, ok, to_int, or_text, put_unless_empty, build_tls, outbound, config}

unfoldable pub vless_transport : Values → String
unfolding query
vless_transport q = or_text (query q "type") (or_text (query q "headerType") "tcp")

-- `path`, which is "/" by default
abbrev path_of : Values → String
unfolding query
path_of q = or_text (query q "path") "/"

ws_settings : Values → Fields
unfolding put query
ws_settings q =
    put_unless_empty (query q "host") "headers" (object (("Host", str (query q "host")) ∷ []))
      (fields (("path", str (path_of q)) ∷ []))

grpc_settings : Values → Fields
unfolding put query
grpc_settings q =
    let name =
      fields (("serviceName", str (or_text (query q "serviceName") (query q "path"))) ∷ []) in
    if str_eq (query q "mode") "multi" then put "multiMode" (bool true) name else name

http_settings : Stdlib → Values → Fields
unfolding put query
http_settings g q =
    put_unless_empty (query q "host") "host" (texts (g.split (query q "host") ","))
      (fields (("path", str (path_of q)) ∷ []))

upgrade_settings : Values → Fields
unfolding put query
upgrade_settings q =
    put_unless_empty (query q "host") "host" (str (query q "host"))
      (fields (("path", str (path_of q)) ∷ []))

-- The first `switch`: the settings of the transport.
unfoldable pub vless_framing : Stdlib → Values → String → Fields → Fields
unfolding put ws_settings grpc_settings http_settings upgrade_settings
vless_framing g q transport stream =
    if str_eq transport "ws"
    then put "wsSettings" (obj (ws_settings q)) stream
    else if str_eq transport "grpc"
    then put "grpcSettings" (obj (grpc_settings q)) stream
    else if str_eq transport "http" || str_eq transport "h2"
    then put "httpSettings" (obj (http_settings g q)) (put "network" (str "http") stream)
    else if str_eq transport "splithttp" || str_eq transport "httpupgrade"
    then put (append transport "Settings") (obj (upgrade_settings q)) stream
    else stream

abbrev pub reality_settings : Values → Json
unfolding query
reality_settings q = object (
    ("serverName", str (query q "sni"))
    ∷ ("fingerprint", str (query q "fp"))
    ∷ ("publicKey", str (query q "pbk"))
    ∷ ("shortId", str (query q "sid"))
    ∷ ("spiderX", str (query q "spx"))
    ∷ [])

unfoldable pub with_reality : Values → Fields → Fields
unfolding query put
with_reality q stream =
    put_unless_empty (query q "flow") "flow" (str (query q "flow"))
      (put "realitySettings" (reality_settings q) stream)

-- The second `switch`: the settings of the security, whatever the transport.
unfoldable pub vless_security : Stdlib → Values → String → Fields → Fields
unfolding put query build_tls with_reality
vless_security g q transport stream =
    if str_eq (query q "security") "reality"
    then with_reality q stream
    else if str_eq (query q "security") "tls"
    then put "tlsSettings" (obj (build_tls g q transport)) stream
    else stream

-- The stream before the settings of its transport
unfoldable pub vless_base : Values → Fields
unfolding query vless_transport
vless_base q =
    fields (("network", str (vless_transport q)) ∷ ("security", str (query q "security")) ∷ [])

unfoldable pub vless_stream : Stdlib → Values → Fields
unfolding vless_security vless_framing vless_transport vless_base query
vless_stream g q =
    vless_security g q (vless_transport q) (vless_framing g q (vless_transport q) (vless_base q))

vless_settings : String → ℤ → String → String → Json
vless_settings server port uuid flow = object (
    (
      "vnext",
      array (
          object (
            ("address", str server)
            ∷ ("port", num port)
            ∷ (
              "users",
              array (
                  object (("id", str uuid) ∷ ("encryption", str "none") ∷ ("flow", str flow) ∷ [])
                  ∷ []),
            )
            ∷ [])
          ∷ []),
    )
    ∷ [])

unfoldable pub vless_outbound : Stdlib → Url → Json
unfolding vless_settings vless_stream to_int query
vless_outbound g u =
    outbound "vless"
      (vless_settings u.hostname (to_int g u.port (pos 443)) u.username (query u.values "flow"))
      (vless_stream g u.values)

-- `parseVless`
unfoldable pub parse_vless : Stdlib → Url → String → String → Parsed
unfolding config vless_outbound to_int
parse_vless g u raw name =
    ok (config g name raw u.hostname (to_int g u.port (pos 443)) (vless_outbound g u))
