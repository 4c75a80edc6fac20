-- ===== src/Bridge.antt =====
-- v2proxy/httpproxy.go: the HTTP bridge. Its connection slots, and which handlers hold one; the
-- relays and the plain requests have children. `connSem` holds a token for each free slot.
pub mod Slots
pub mod Relay
pub mod Budget
pub mod Plain
pub mod Tests
use v2pro_dock.Base.{
  ℕ, zero, suc, ◌+◌, ◌-◌, ◌≤◌, String, ◌≡◌, Bool, true, false, Option, none, some, List, [], ◌∷◌,
  str_eq, ltb, if◌then◌else◌, nat_equal, string_equal, get_elem?, set,
}
use v2pro_dock.Base.Int.{ℤ, pos, negsuc}

abbrev pub default_max_conns : ℕ
default_max_conns = 128

abbrev pub max_conns_cap : ℕ
max_conns_cap = 4_096

-- `getMaxConns` of the variable's text
unfoldable pub get_max_conns : (String → Option ℤ) → String → ℕ
get_max_conns atoi v = if str_eq v "" then default_max_conns else (elim (atoi v) [
  | none ↦ default_max_conns
  | some (negsuc _) ↦ default_max_conns
  | some (pos n) ↦
      if ltb 0 n then (if ltb max_conns_cap n then max_conns_cap else n) else default_max_conns
])

-- The goroutine that relays a tunnel
pub data Relays : Type 0 where
  not_started running finished : Relays

-- One run of `handleConnect` that has its slot: whether its `releaseOnce` is done, whether the
-- handler still runs, and its relays.
pub record Tunnel : Type 0 where
  pub released : Bool
  pub handling : Bool
  pub relays : Relays

-- `plain` counts the runs of `handlePlainHTTP` that have a slot.
pub record Bridge : Type 0 where
  pub free : ℕ
  pub tunnels : List Tunnel
  pub plain : ℕ

-- `initConnSem`
abbrev pub new_bridge : ℕ → Bridge
new_bridge slots = record { free = slots; tunnels = []; plain = 0 }

-- `case <-connSem` of `handleConnect`; without a free slot the request waits or gets 503.
unfoldable pub begin_connect : Bridge → Option Bridge
begin_connect b = elim b.free [
  | zero ↦ none
  | suc n ↦ some (record b {
    free = n;
    tunnels = record { released = false; handling = true; relays = not_started } ∷ b.tunnels;
  })
]

-- `releaseSlot` of the tunnel `t`, which becomes `u` for the rest: the token goes back once.
unfoldable pub release_slot : Bridge → ℕ → Tunnel → Tunnel → Bridge
release_slot b i t u = record b {
  free = if t.released then b.free else suc b.free;
  tunnels = set b.tunnels i (record u { released = true });
}

-- The handler's last statement starts the relays.
unfoldable pub splice : Bridge → ℕ → Tunnel → Bridge
splice b i t = record b { tunnels = set b.tunnels i (record t { relays = running }) }

-- The handler returns, after an error or after it has started the relays: `defer releaseSlot()`.
unfoldable pub handler_returns : Bridge → ℕ → Tunnel → Bridge
unfolding release_slot
handler_returns b i t = release_slot b i t (record t { handling = false })

-- Both directions have ended: the other `defer releaseSlot()`.
unfoldable pub relays_end : Bridge → ℕ → Tunnel → Bridge
unfolding release_slot
relays_end b i t = release_slot b i t (record t { relays = finished })

unfoldable pub begin_plain : Bridge → Option Bridge
begin_plain b = elim b.free [
  | zero ↦ none
  | suc n ↦ some (record b { free = n; plain = b.plain + 1 })
]

-- `defer func() { connSem <- struct{}{} }()`
unfoldable pub end_plain : Bridge → Bridge
end_plain b = record b { free = b.free + 1; plain = b.plain - 1 }

-- One step of any of the goroutines.
pub data Moves (b : Bridge) : Bridge → Type 0 where
  connects : {c : Bridge} → begin_connect b ≡ some c → Moves b c
  splices :
      (i : ℕ) (t : Tunnel)
      → get_elem? b.tunnels i ≡ some t
      → t.handling ≡ true
      → t.relays ≡ not_started
      → Moves b (splice b i t)
  returns :
      (i : ℕ) (t : Tunnel)
      → get_elem? b.tunnels i ≡ some t
      → t.handling ≡ true
      → Moves b (handler_returns b i t)
  ends :
      (i : ℕ) (t : Tunnel)
      → get_elem? b.tunnels i ≡ some t
      → t.relays ≡ running
      → Moves b (relays_end b i t)
  begins_plain : {c : Bridge} → begin_plain b ≡ some c → Moves b c
  ends_plain : 1 ≤ b.plain → Moves b (end_plain b)

-- The states a bridge of `slots` slots comes to.
pub data Comes (slots : ℕ) : Bridge → Type 0 where
  fresh : Comes slots (new_bridge slots)
  after : {b c : Bridge} → Comes slots b → Moves b c → Comes slots c
