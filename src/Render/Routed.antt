-- ===== src/Render/Routed.antt =====
-- Where xray sends a connection under a configuration that `renderXrayConfig` of
-- v2proxy/selector.go renders with a relay.
use v2pro_dock.Base.{
  ℕ, zero, suc, String, ◌≡◌, Bool, true, false, ◌&&◌, ◌||◌, Option, none, some, [], ◌∷◌, str_eq,
  if◌then◌else◌, nat_equal, string_equal,
}
use v2pro_dock.Base.Int.{pos}
use v2pro_dock.Json.{
  Json, bool, str, arr, obj, nil, item, Items, items, object, Fields, get, member, as_text,
}
use v2pro_dock.Stdlib.{Stdlib}
use v2pro_dock.Link.Dialled.{target_in}
use v2pro_dock.Render.{RelayCfg, is_filled, relay_inbound_tag, relay_out_tag}
use v2pro_dock.Render.Relay.{relay_server}
use v2pro_dock.Render.Config.{Setup, socks_inbound}

-- A connection: the tag of the inbound that took it, and the protocol that is sniffed.
pub record Conn : Type 0 where
  pub inbound : String
  pub protocol : String

abbrev pub has_text : String → Items → Bool
has_text s nil = false
has_text s (item (str t) vs) = str_eq s t || has_text s vs
has_text s (item _ vs) = has_text s vs

-- A condition that a rule does not have is met.
abbrev pub admits : String → Option Json → Bool
admits s none = true
admits s (some (arr vs)) = has_text s vs
admits s (some _) = false

abbrev pub rule_matches : Conn → Json → Bool
rule_matches c r =
    admits c.inbound (member "inboundTag" (some r))
    && admits c.protocol (member "protocol" (some r))

-- The outbound of the first rule that matches.
abbrev pub route_by : Conn → Items → Option String
route_by c nil = none
route_by c (item r rs) =
    let rest = route_by c rs in
    if rule_matches c r then some (as_text (member "outboundTag" (some r))) else rest

-- The tag of the outbound that a connection takes; without one it takes the first outbound.
unfoldable pub route : Conn → Json → Option String
unfolding member
route c cfg = elim (member "rules" (member "routing" (some cfg))) [
  | some (arr rs) ↦ route_by c rs
  | _ ↦ none
]

-- `v[i]` of a value that should be a slice
abbrev pub nth_item : ℕ → Items → Option Json
nth_item i nil = none
nth_item zero (item v vs) = some v
nth_item (suc i) (item v vs) = nth_item i vs

abbrev pub at_item : ℕ → Option Json → Option Json
at_item i (some (arr vs)) = nth_item i vs
at_item i _ = none

unfoldable pub outbound_at : ℕ → Json → Option Json
unfolding member
outbound_at i cfg = at_item i (member "outbounds" (some cfg))

-- What a configuration does with a relay.
pub record IsRelayed (g : Stdlib) (e : Setup) (rc : RelayCfg) (p : ℕ) (cfg : Json) : Type 0 where
  -- Two SOCKS ports: the direct one and the relay's.
  pub ports :
      member "inbounds" (some cfg)
      ≡ some (
          arr (
            items (socks_inbound "socks-in" p ∷ socks_inbound relay_inbound_tag e.relay_port ∷ [])))
  -- What comes in by the relay's port goes to the relay's outbound, by another port to the first one,
  -- and BitTorrent, by whatever port, to the outbound that blocks.
  pub relays :
      (protocol : String)
      → str_eq protocol "bittorrent" ≡ false
      → route (record { inbound = relay_inbound_tag; protocol = protocol }) cfg ≡ some relay_out_tag
  pub direct :
      (inbound protocol : String)
      → str_eq inbound relay_inbound_tag ≡ false
      → str_eq protocol "bittorrent" ≡ false
      → route (record { inbound = inbound; protocol = protocol }) cfg ≡ none
  pub blocks :
      (inbound : String)
      → route (record { inbound = inbound; protocol = "bittorrent" }) cfg ≡ some "blocked"
  -- The second outbound is the relay's: an HTTP proxy of the relay's address, with TLS as the relay
  -- has it, which itself dials through the outbound of the first one's tag, which is not blank.
  pub tag : member "tag" (outbound_at 1 cfg) ≡ some (str relay_out_tag)
  pub protocol : member "protocol" (outbound_at 1 cfg) ≡ some (str "http")
  pub server : target_in (member "settings" (outbound_at 1 cfg)) ≡ some (rc.host, pos rc.port)
  pub security :
      member "security" (member "streamSettings" (outbound_at 1 cfg))
      ≡ (if rc.tls then some (str "tls") else none)
  pub through :
      member "tag" (member "proxySettings" (outbound_at 1 cfg))
      ≡ some (str (as_text (member "tag" (outbound_at 0 cfg))))
  pub filled : is_filled g (as_text (member "tag" (outbound_at 0 cfg))) ≡ true

-- What the relay's outbound is, for the tag that it dials through.
record IsRelayOut (rc : RelayCfg) (t : String) (o : Fields) : Type 0 where
  tag : get "tag" o ≡ some (str relay_out_tag)
  protocol : get "protocol" o ≡ some (str "http")
  settings :
      get "settings" o ≡ some (object (("servers", arr (item (obj (relay_server rc)) nil)) ∷ []))
  through :
      get "proxySettings" o ≡ some (object (("tag", str t) ∷ ("transportLayer", bool true) ∷ []))
  security :
      member "security" (get "streamSettings" o) ≡ (if rc.tls then some (str "tls") else none)
