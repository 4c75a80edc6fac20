-- ===== src/Render.antt =====
-- The file an xray child is started with: `renderXrayConfig`, `relayOutbound` and `chainFragment` of
-- v2proxy/selector.go, and the settings of v2proxy/env.go that steer them. The environment and the
-- instance's ports are arguments.
pub mod Relay
pub mod Fragment
pub mod Config
pub mod Laws
pub mod Routed
pub mod Dialled
pub mod Valid
pub mod Tests
use v2pro_dock.Base.{
  ℕ, String, Bool, false, not, ◌||◌, Option, str_eq, nat_equal, string_equal, maybe,
}
use v2pro_dock.Json.{Json, str, obj, Fields, end, get, put, as_text, as_object}
use v2pro_dock.Stdlib.{Stdlib}

-- `relayCfg`
pub record RelayCfg : Type 0 where
  pub host : String
  pub port : ℕ
  pub user : String
  pub pass : String
  pub tls : Bool

abbrev pub relay_inbound_tag : String
relay_inbound_tag = "socks-relay-in"

abbrev pub relay_out_tag : String
relay_out_tag = "relay-out"

abbrev pub upstream_out_tag : String
upstream_out_tag = "proxy"

abbrev pub fragment_out_tag : String
fragment_out_tag = "frag-out"

-- `fragmentEnabled` of the variable's text
unfoldable pub fragment_enabled : Stdlib → String → Bool
fragment_enabled g v =
    let t = g.to_lower (g.trim_space v) in
    str_eq t "1" || str_eq t "true" || str_eq t "on" || str_eq t "yes"

-- `ss["security"]` of `outbound["streamSettings"]`
unfoldable pub upstream_uses_tls : Stdlib → Fields → Bool
unfolding get
upstream_uses_tls g out = maybe (as_object (get "streamSettings" out)) false (λ ss.
    let sec = g.to_lower (g.trim_space (as_text (get "security" ss))) in
    str_eq sec "tls" || str_eq sec "reality")

-- A text that is not blank
abbrev pub is_filled : Stdlib → String → Bool
is_filled g s = not (str_eq (g.trim_space s) "")

-- `hasCustomDialChain`
unfoldable pub has_custom_dial_chain : Stdlib → Fields → Bool
unfolding get
has_custom_dial_chain g out =
    maybe (as_object (get "streamSettings" out)) false (λ ss.
      maybe (as_object (get "sockopt" ss)) false
        (λ so. is_filled g (as_text (get "dialerProxy" so))))
    || maybe (as_object (get "proxySettings" out)) false
        (λ ps. is_filled g (as_text (get "tag" ps)))

-- An object, or a new one in its place
abbrev pub or_empty : Option Json → Fields
or_empty v = maybe (as_object v) end (λ fs. fs)

-- `chainFragment`
unfoldable pub chain_fragment : Fields → Fields
unfolding get put
chain_fragment out =
    let ss = or_empty (get "streamSettings" out) in
    let so = or_empty (get "sockopt" ss) in
    put "streamSettings"
      (obj (put "sockopt" (obj (put "dialerProxy" (str fragment_out_tag) so)) ss)) out
