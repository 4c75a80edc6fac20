-- ===== src/Bridge/Tests.antt =====
-- A bridge of two slots, and hops within the budget.
use v2pro_dock.Base.{
  ◌+◌, ◌≡◌, refl, ◌⊎◌, true, false, some, [], ◌∷◌, arith, nat_equal, string_equal,
}
use v2pro_dock.Bridge.{
  Bridge, not_started, new_bridge, begin_connect, Comes, fresh, after, connects,
}
use v2pro_dock.Bridge.Slots.{held, live, Comes-balanced, tunnels_unbounded}
use v2pro_dock.Bridge.Relay.{Hop, Chunk, more, eof, write_failed, relay_with_idle}
use v2pro_dock.Bridge.Budget.{Outcome, relay_by_silence, relay_with_idle-by_silence}
use v2pro_dock.Bridge.Plain.{
  Exchange, connected, handle_plain_http, handle_plain_http_lem, HasFailed, IsAnswered,
}

abbrev one_tunnel : Bridge
one_tunnel = record {
  free = 1;
  tunnels = record { released = false; handling = true; relays = not_started } ∷ [];
  plain = 0;
}

Comes-balanced_example : 1 + held one_tunnel.tunnels + 0 ≡ 2
unfolding begin_connect
Comes-balanced_example = Comes-balanced {slots = 2} {b = one_tunnel} (after fresh (connects refl))

tunnels_unbounded_example : (b : Bridge) × Comes 2 b × (live b.tunnels ≡ 100) × (b.free ≡ 2)
tunnels_unbounded_example = tunnels_unbounded 2 100 (omega arith)

-- A read that the twin's arm carries over the budget, and a write.
abbrev hop_more : Hop
hop_more = record {
  read = record { arms = 4 ∷ []; last = 3 };
  bytes = 10;
  write = record { arms = []; last = 2 };
  write_fails = false;
  read_end = more;
}

-- A read and a write that take longer than the budget together.
abbrev hop_late : Hop
hop_late = record {
  read = record { arms = []; last = 3 };
  bytes = 7;
  write = record { arms = []; last = 3 };
  write_fails = false;
  read_end = eof;
}

severed : relay_by_silence 5 (hop_more ∷ hop_more ∷ hop_late ∷ []) ≡ (20, write_failed)
unfolding relay_by_silence
severed = refl

relay_with_idle-by_silence_example :
    Outcome
      (relay_with_idle 5 100 (hop_more ∷ hop_more ∷ hop_late ∷ []))
      (relay_by_silence 5 (hop_more ∷ hop_more ∷ hop_late ∷ []))
relay_with_idle-by_silence_example =
    relay_with_idle-by_silence 5 100 (hop_more ∷ hop_more ∷ hop_late ∷ [])

abbrev chunk_eof : Chunk
chunk_eof = record {
  gap = 5;
  bytes = 7;
  taken = 7;
  write_time = 1;
  write_fails = false;
  read_end = eof;
}

abbrev exchange : Exchange
exchange = record {
  dial = connected;
  request_written = true;
  head = some 200;
  head_at = 50;
  body = chunk_eof ∷ [];
}

handle_plain_http_example :
    ((handle_plain_http (new_bridge 2) 8_080 exchange []).1 ≡ new_bridge 2)
    × (HasFailed [] (handle_plain_http (new_bridge 2) 8_080 exchange []).0
        ⊎ IsAnswered 8_080 exchange [] (handle_plain_http (new_bridge 2) 8_080 exchange []).0)
handle_plain_http_example = handle_plain_http_lem (new_bridge 2) 8_080 exchange []
