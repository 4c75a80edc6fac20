-- ===== src/Link/Vmess.antt =====
-- `parseVmess` of v2proxy/subscription.go.
use v2pro_dock.Base.{String, ◌||◌, [], ◌∷◌, str_eq, if◌then◌else◌, nat_equal, string_equal}
use v2pro_dock.Base.Int.{ℤ, pos}
use v2pro_dock.Json.{
  Json, str, num, texts, array, object, obj, Fields, end, fields, get, put, as_text,
}
use v2pro_dock.Stdlib.{Stdlib, sprint_any}
use v2pro_dock.CleanIp.{vmess_payload}
use v2pro_dock.Link.{
  Parsed, ok, require, bad_base64, bad_json, to_int, or_text, put_unless_empty, outbound, config,
}

-- `s, _ := m[k].(string)`
abbrev pub text_at : String → Fields → String
unfolding get
text_at k m = as_text (get k m)

vmess_ws : Fields → Fields
unfolding get put
vmess_ws m =
    put_unless_empty (text_at "host" m) "headers" (object (("Host", str (text_at "host" m)) ∷ []))
      (put_unless_empty (text_at "path" m) "path" (str (text_at "path" m)) end)

vmess_grpc : Fields → Fields
unfolding get put
vmess_grpc m = put_unless_empty (text_at "path" m) "serviceName" (str (text_at "path" m)) end

unfoldable pub vmess_http : Stdlib → Fields → Fields
unfolding get put
vmess_http g m =
    put_unless_empty (text_at "host" m) "host" (texts (g.split (text_at "host" m) ","))
      (put_unless_empty (text_at "path" m) "path" (str (text_at "path" m)) end)

unfoldable pub vmess_tls : Fields → Fields
unfolding get put
vmess_tls m =
    put_unless_empty (text_at "fp" m) "fingerprint" (str (text_at "fp" m))
      (put_unless_empty (text_at "sni" m) "serverName" (str (text_at "sni" m)) end)

unfoldable pub vmess_framing : Stdlib → Fields → String → Fields → Fields
unfolding put vmess_ws vmess_grpc vmess_http
vmess_framing g m net stream =
    if str_eq net "ws"
    then put "wsSettings" (obj (vmess_ws m)) stream
    else if str_eq net "grpc"
    then put "grpcSettings" (obj (vmess_grpc m)) stream
    else if str_eq net "http" || str_eq net "h2"
    then put "httpSettings" (obj (vmess_http g m)) (put "network" (str "http") stream)
    else stream

abbrev pub vmess_net : Fields → String
unfolding get
vmess_net m = or_text (text_at "net" m) "tcp"

-- The stream before the settings of its transport
abbrev pub vmess_base : Fields → Fields
unfolding get
vmess_base m = fields (("network", str (vmess_net m)) ∷ ("security", str (text_at "tls" m)) ∷ [])

unfoldable pub vmess_stream : Stdlib → Fields → Fields
unfolding put get vmess_framing vmess_tls
vmess_stream g m =
    let framed = vmess_framing g m (vmess_net m) (vmess_base m) in
    if str_eq (text_at "tls" m) "tls" then put "tlsSettings" (obj (vmess_tls m)) framed else framed

unfoldable pub vmess_port : Stdlib → Fields → ℤ
unfolding get to_int sprint_any
vmess_port g m = to_int g (sprint_any g (get "port" m)) (pos 443)

vmess_settings : Stdlib → Fields → Json
unfolding get to_int sprint_any vmess_port
vmess_settings g m = object (
    (
      "vnext",
      array (
          object (
            ("address", str (text_at "add" m))
            ∷ ("port", num (vmess_port g m))
            ∷ (
              "users",
              array (
                  object (
                    ("id", str (text_at "id" m))
                    ∷ ("alterId", num (to_int g (sprint_any g (get "aid" m)) (pos 0)))
                    ∷ ("security", str (or_text (text_at "scy" m) "auto"))
                    ∷ [])
                  ∷ []),
            )
            ∷ [])
          ∷ []),
    )
    ∷ [])

unfoldable pub vmess_outbound : Stdlib → Fields → Json
unfolding vmess_settings vmess_stream
vmess_outbound g m = outbound "vmess" (vmess_settings g m) (vmess_stream g m)

-- The name: the caller's, else the link's remark, else the server.
abbrev pub vmess_name : String → Fields → String
unfolding get
vmess_name name m = or_text name (or_text (text_at "ps" m) (text_at "add" m))

-- `parseVmess`
unfoldable pub parse_vmess : Stdlib → String → String → Parsed
unfolding vmess_payload vmess_outbound vmess_port config get
parse_vmess g raw name = require (vmess_payload g raw) bad_base64 (λ data_text.
    require (g.unmarshal data_text) bad_json (λ m.
      ok
        (config g (vmess_name name m) raw (text_at "add" m) (vmess_port g m) (vmess_outbound g m))))
