-- ===== src/Render/Config.antt =====
-- `renderXrayConfig` of v2proxy/selector.go.
use v2pro_dock.Base.{
  ℕ, String, Bool, true, not, ◌&&◌, Option, none, List, [], ◌∷◌, ◌++◌, ltb, if◌then◌else◌,
  nat_equal, string_equal, maybe,
}
use v2pro_dock.Base.Int.{pos}
use v2pro_dock.Json.{Json, bool, str, num, obj, Fields, texts, array, object, get, put, as_text}
use v2pro_dock.Stdlib.{Stdlib, append}
use v2pro_dock.Render.{
  RelayCfg, relay_inbound_tag, relay_out_tag, upstream_out_tag, fragment_out_tag, fragment_enabled,
  upstream_uses_tls, has_custom_dial_chain, chain_fragment, is_filled,
}
use v2pro_dock.Render.Relay.{relay_outbound, relay_config}

-- What the rendering reads beside the configuration: the environment and the instance.
pub record Setup : Type 0 where
  pub debug : Bool
  pub relay_url : String
  pub fragment : String
  pub xray_dir : String
  pub relay_port : ℕ

-- `rc, ok := relayConfig(); ok && s.relayPort > 0`
unfoldable pub armed : Stdlib → Setup → Option RelayCfg
unfolding relay_config
armed g e = if ltb 0 e.relay_port then relay_config g e.relay_url else none

abbrev pub socks_inbound : String → ℕ → Json
socks_inbound tag port = object (
    ("tag", str tag)
    ∷ ("port", num (pos port))
    ∷ ("listen", str "0.0.0.0")
    ∷ ("protocol", str "socks")
    ∷ ("settings", object (("auth", str "noauth") ∷ ("udp", bool true) ∷ []))
    ∷ [])

unfoldable pub inbounds : Setup → Option RelayCfg → ℕ → List Json
inbounds e relay socks_port =
    socks_inbound "socks-in" socks_port
    ∷ maybe relay [] (λ rc. socks_inbound relay_inbound_tag e.relay_port ∷ [])

-- The upstream with a tag that the relay's outbound can name.
unfoldable pub tagged : Stdlib → Option RelayCfg → Fields → Fields
unfolding get put
tagged g relay out = maybe relay out (λ rc.
    if is_filled g (as_text (get "tag" out)) then out else put "tag" (str upstream_out_tag) out)

-- `fragmentEnabled() && upstreamUsesTLS(outbound) && !hasCustomDialChain(outbound)`
unfoldable pub fragments : Stdlib → Setup → Fields → Bool
unfolding fragment_enabled upstream_uses_tls has_custom_dial_chain
fragments g e out =
    fragment_enabled g e.fragment && upstream_uses_tls g out && not (has_custom_dial_chain g out)

-- The outbound that stands first: the slice holds the very map that `chainFragment` writes.
unfoldable pub upstream : Stdlib → Setup → Option RelayCfg → Fields → Fields
unfolding tagged fragments chain_fragment
upstream g e relay out =
    if fragments g e (tagged g relay out)
    then chain_fragment (tagged g relay out)
    else tagged g relay out

fragment_outbound : Json
fragment_outbound = object (
    ("protocol", str "freedom")
    ∷ ("tag", str fragment_out_tag)
    ∷ (
      "settings",
      object (
          (
            "fragment",
            object (
                ("packets", str "tlshello")
                ∷ ("length", str "100-200")
                ∷ ("interval", str "10-20")
                ∷ []),
          )
          ∷ []),
    )
    ∷ [])

unfoldable pub outbounds : Stdlib → Setup → Option RelayCfg → Fields → List Json
unfolding upstream fragment_outbound relay_outbound get
outbounds g e relay out =
    obj (upstream g e relay out)
      ∷ maybe relay []
          (λ rc. obj (relay_outbound rc (as_text (get "tag" (tagged g relay out)))) ∷ [])
    ++ (if fragments g e (tagged g relay out) then fragment_outbound ∷ [] else [])
    ++ object (("protocol", str "freedom") ∷ ("tag", str "direct") ∷ [])
      ∷ object (("protocol", str "blackhole") ∷ ("tag", str "blocked") ∷ [])
      ∷ []

unfoldable pub rules : Option RelayCfg → List Json
rules relay =
    object (
      ("type", str "field")
      ∷ ("outboundTag", str "blocked")
      ∷ ("protocol", texts ("bittorrent" ∷ []))
      ∷ [])
    ∷ maybe relay [] (λ rc.
      object (
        ("type", str "field")
        ∷ ("inboundTag", texts (relay_inbound_tag ∷ []))
        ∷ ("outboundTag", str relay_out_tag)
        ∷ [])
      ∷ [])

-- The whole configuration, as the map is when it is printed, for a relay that is armed or not.
unfoldable pub full_config_of : Stdlib → Setup → Option RelayCfg → ℕ → Fields → Json
unfolding inbounds outbounds rules
full_config_of g e relay socks_port out = object (
    ("log", object (("loglevel", str (if e.debug then "warning" else "none")) ∷ []))
    ∷ ("dns", object (("servers", texts ("https://1.1.1.1/dns-query" ∷ "localhost" ∷ [])) ∷ []))
    ∷ ("inbounds", array (inbounds e relay socks_port))
    ∷ ("outbounds", array (outbounds g e relay out))
    ∷ ("routing", object (("domainStrategy", str "AsIs") ∷ ("rules", array (rules relay)) ∷ []))
    ∷ [])

unfoldable pub full_config : Stdlib → Setup → ℕ → Fields → Json
unfolding full_config_of armed
full_config g e socks_port out = full_config_of g e (armed g e) socks_port out

pub data Rendered : Type 0 where
  written : String → String → Rendered
  bad_config unwritable : Rendered

unfoldable pub config_name : Stdlib → ℕ → ℕ → String
config_name g socks_port seq =
    if ltb 0 seq
    then append "config-rot-"
        (append (g.itoa (pos socks_port)) (append "-" (append (g.itoa (pos seq)) ".json")))
    else append "config-" (append (g.itoa (pos socks_port)) ".json")

-- `renderXrayConfig`: the path and what is written there. `can_write` is the file system's answer;
-- the outbound of a configuration is never JSON's null, which `Unmarshal` makes a nil map.
unfoldable pub render_xray_config : Stdlib → Setup → (String → Bool) → String → ℕ → ℕ → Rendered
unfolding full_config config_name
render_xray_config g e can_write xray_cfg socks_port seq =
    maybe (g.unmarshal xray_cfg) bad_config (λ out.
      let path = g.join_path e.xray_dir (config_name g socks_port seq) in
      if can_write path
      then written path (g.marshal (full_config g e socks_port out))
      else unwritable)
