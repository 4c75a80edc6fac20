-- ===== src/Render/Tests.antt =====
-- A relay, and the file of one upstream, under the sample library.
use v2pro_dock.Base.{
  ◌≡◌, ◌≢◌, ◌↔◌, arith, eq_iff, refl, true, false, some, [], ◌∷◌, nat_equal, string_equal,
}
use v2pro_dock.Base.Int.{pos}
use v2pro_dock.Json.{str, num, obj, object, array, Fields, fields}
use v2pro_dock.Pool.{ProxyConfig}
use v2pro_dock.Stdlib.{Stdlib}
use v2pro_dock.Stdlib.Sample.{sample, sample_url}
use v2pro_dock.Link.{endpoint_key}
use v2pro_dock.Link.Dialled.{dial_target, network_of, alpn_of}
use v2pro_dock.Link.Accepted.{IsBuilt}
use v2pro_dock.Render.{RelayCfg}
use v2pro_dock.Render.Relay.{relay_config}
use v2pro_dock.Render.Config.{Setup, render_xray_config}
use v2pro_dock.Render.Valid.{IsRelayOf, relay_config-IsRelayOf}
use v2pro_dock.Render.Dialled.{DialsEndpoint, render-DialsEndpoint}

abbrev relay : RelayCfg
relay = record { host = "a.example"; port = 443; user = "u"; pass = ""; tls = true }

abbrev with_relay : Setup
with_relay = record {
  debug = false;
  relay_url = "https://a.example";
  fragment = "1";
  xray_dir = "/x";
  relay_port = 28_000;
}

abbrev upstream_fields : Fields
upstream_fields = fields (
    (
      "settings",
      object (
          (
            "servers",
            array (object (("address", str "a.example") ∷ ("port", num (pos 443)) ∷ []) ∷ []),
          )
          ∷ []),
    )
    ∷ ("streamSettings", object (("security", str "tls") ∷ []))
    ∷ ("tag", str "proxy")
    ∷ [])

abbrev config_a : ProxyConfig
config_a = record {
  name = "a";
  raw = "vless://a";
  endpoint = "a.example:443";
  xray_cfg = "json";
  rank = 0;
}

-- The sample library, reading its JSON text as the upstream.
abbrev reading : Stdlib
reading = record sample { unmarshal = λ s. some upstream_fields }

built_a : IsBuilt reading "vless://a" config_a
unfolding endpoint_key dial_target network_of alpn_of
built_a = record {
  out = obj upstream_fields;
  server = "a.example";
  port = pos 443;
  printed = refl;
  identity = refl;
  link = refl;
  dials = record { target = refl; tag = refl; alpn = λ h. refl };
}

relay_config-IsRelayOf_example :
    (relay_config sample "https://a.example" ≡ some relay)
    ↔ IsRelayOf sample (sample_url "https" []) relay
relay_config-IsRelayOf_example =
    relay_config-IsRelayOf sample "https://a.example" (sample_url "https" []) relay not_blank refl
  where
    not_blank : sample.trim_space "https://a.example" ≢ ""
    not_blank = ground (arith, eq_iff "https://a.example" "")

relay_accepted : relay_config sample "https://a.example" ≡ some relay
unfolding relay_config
relay_accepted = refl

render_example : DialsEndpoint reading "json" "a.example:443"
unfolding render_xray_config built_a
render_example =
    render-DialsEndpoint reading "vless://a" config_a built_a upstream_fields with_relay (λ p. true)
      1_080 0 "/x/config-1080.json" "json" refl refl refl
