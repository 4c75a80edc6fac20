-- ===== src/Link/Dialled.antt =====
-- What is shown of an outbound: where it dials, its tag, and its ALPN. Each protocol has a child.
pub mod Trojan
pub mod Vless
pub mod Vmess
use v2pro_dock.Base.{String, ◌≡◌, ◌∙◌, false, Option, none, some, str_eq, nat_equal, string_equal}
use v2pro_dock.Base.Int.{ℤ}
use v2pro_dock.Json.{Json, num, str, Fields, get, put, as_text, member, first}
use v2pro_dock.Json.Laws.{get-put_ne, get-if}
use v2pro_dock.Link.{put_unless_empty}

-- The server in an outbound's settings: the first of its `vnext`, or of its `servers`.
unfoldable pub peer : Option Json → Option Json
unfolding member first
peer settings = elim (first (member "vnext" settings)) [
  | none ↦ first (member "servers" settings)
  | some p ↦ some p
]

unfoldable pub target_in : Option Json → Option (String × ℤ)
unfolding peer member
target_in settings = elim (member "port" (peer settings)) [
  | some (num p) ↦ some (as_text (member "address" (peer settings)), p)
  | _ ↦ none
]

-- The address and the port that xray dials.
unfoldable pub dial_target : Json → Option (String × ℤ)
unfolding target_in member
dial_target o = target_in (member "settings" (some o))

abbrev stream_member : String → Json → Option Json
unfolding member
stream_member k o = member k (member "streamSettings" (some o))

unfoldable pub network_of : Json → String
unfolding member
network_of o = as_text (stream_member "network" o)

unfoldable pub alpn_of : Json → Option Json
unfolding member
alpn_of o = member "alpn" (stream_member "tlsSettings" o)

-- The outbound dials the server and the port, has the tag of a proxy, and no ALPN over WebSocket.
pub record Dials (o : Json) (server : String) (port : ℤ) : Type 0 where
  pub target : dial_target o ≡ some (server, port)
  pub tag : member "tag" (some o) ≡ some (str "proxy")
  pub alpn : network_of o ≡ "ws" → alpn_of o ≡ none

-- An optional entry leaves the other keys alone.
pub put_unless_empty-get :
    (s k j : String) (v : Json) (fs : Fields) (r : Option Json)
    → str_eq k j ≡ false
    → get j fs ≡ r
    → get j (put_unless_empty s k v fs) ≡ r
put_unless_empty-get s k j v fs r h e =
    get-if j r (str_eq s "") fs (put k v fs) e (get-put_ne k j v fs h ∙ e)
