-- ===== src/Bridge/Relay.antt =====
-- The loops of v2proxy/httpproxy.go that copy bytes under an idle budget: `relayWithIdle` and
-- `copyBodyIdle`. Times are nanoseconds; a deadline is the time set by `SetDeadline`.
use v2pro_dock.Base.{
  ℕ, ◌+◌, Bool, ◌&&◌, Option, maybe, none, some, List, [], ◌∷◌, ltb, if◌then◌else◌, nat_equal,
  string_equal,
}

-- What `Read` reported with its bytes.
pub data ReadEnd : Type 0 where
  more eof broken : ReadEnd

-- A call that blocks under the deadline of both ends of a tunnel. Each arm by the twin relay, which
-- copies the other way, moves this deadline: the times from the start to the twin's first arm, from
-- there to its next, and from the last one to the return of the call.
pub record Call : Type 0 where
  pub arms : List ℕ
  pub last : ℕ

-- One round of `relayWithIdle`: the call of `Read`, how many bytes it read, the call of `Write`,
-- which is made if there are some, whether `Write` fails for another reason than the deadline, and
-- what `Read` reported.
pub record Hop : Type 0 where
  pub read : Call
  pub bytes : ℕ
  pub write : Call
  pub write_fails : Bool
  pub read_end : ReadEnd

pub data Ending : Type 0 where
  timed_out write_failed closed reset : Ending

-- What a relay did: the bytes of the hops it wrote whole, the times of `onFlow`, and why it ended.
pub record Relayed : Type 0 where
  pub moved : ℕ
  pub flows : List ℕ
  pub ending : Ending

abbrev pub ended : Ending → Relayed
ended e = record { moved = 0; flows = []; ending = e }

abbrev pub hop_then : ℕ → ℕ → Relayed → Relayed
hop_then bytes now r = record {
  moved = bytes + r.moved;
  flows = if ltb 0 bytes then now ∷ r.flows else r.flows;
  ending = r.ending;
}

-- A call under a deadline, from the time `now` on: the time of its return and the deadline then, or
-- none if the deadline passes first.
unfoldable pub call_until : ℕ → ℕ → ℕ → List ℕ → ℕ → Option (ℕ × ℕ)
call_until idle now deadline [] last =
    if ltb deadline (now + last) then none else some (now + last, deadline)
call_until idle now deadline (a ∷ later) last =
    let rest = call_until idle (now + a) (now + a + idle) later last in
    if ltb deadline (now + a) then none else rest

-- The return of `Write`, at the time of the return of `Read` if there is nothing to write.
unfoldable pub written_by : ℕ → Hop → ℕ → ℕ → Option ℕ
unfolding call_until
written_by idle h now deadline =
    if ltb 0 h.bytes
    then maybe (call_until idle now deadline h.write.arms h.write.last) none
        (λ r. if h.write_fails then none else some r.0)
    else some now

-- What follows a hop that is written: its end, or the rest, which starts when the hop was written.
unfoldable pub hop_end : ReadEnd → Relayed → Relayed
hop_end more rest = rest
hop_end eof rest = ended closed
hop_end broken rest = ended reset

-- The loop of `relayWithIdle` at the time `now`, with the deadline of the last `arm()` of the two
-- relays, which both set it on both ends. Without a further hop neither relay moves any more, and
-- the deadline passes.
unfoldable pub relay_loop : ℕ → ℕ → ℕ → List Hop → Relayed
unfolding call_until written_by hop_end
relay_loop idle now deadline [] = ended timed_out
relay_loop idle now deadline (h ∷ hs) =
    maybe (call_until idle now deadline h.read.arms h.read.last) (ended timed_out) (λ r.
      maybe (written_by idle h r.0 r.1)
        (record { moved = 0; flows = r.0 ∷ []; ending = write_failed })
        (λ t. hop_then h.bytes r.0 (hop_end h.read_end (relay_loop idle t (t + idle) hs))))

-- `relayWithIdle`, which arms both ends first.
unfoldable pub relay_with_idle : ℕ → ℕ → List Hop → Relayed
unfolding relay_loop
relay_with_idle idle now hs = relay_loop idle now (now + idle) hs

-- The total and the error of `copyBodyIdle`; none is nil.
pub record Copied : Type 0 where
  pub total : ℕ
  pub error : Option Ending

-- One round of `copyBodyIdle`: how long `Read` took, how many bytes it read, how many of them
-- `Write` takes and in what time, whether it fails, and what `Read` reported.
pub record Chunk : Type 0 where
  pub gap : ℕ
  pub bytes : ℕ
  pub taken : ℕ
  pub write_time : ℕ
  pub write_fails : Bool
  pub read_end : ReadEnd

-- `copyBodyIdle`: the deadline, of the upstream's end, is armed again only after a chunk with bytes
-- was written.
unfoldable pub copy_body_idle : ℕ → ℕ → ℕ → List Chunk → Copied
copy_body_idle idle now deadline [] = record { total = 0; error = some timed_out }
copy_body_idle idle now deadline (h ∷ hs) =
    let later = if ltb 0 h.bytes then now + h.gap + h.write_time else now + h.gap in
    let rest = copy_body_idle idle later (if ltb 0 h.bytes then later + idle else deadline) hs in
    let moved = if ltb 0 h.bytes then h.taken else 0 in
    if ltb deadline (now + h.gap)
    then record { total = 0; error = some timed_out }
    else if ltb 0 h.bytes && h.write_fails
    then record { total = moved; error = some write_failed }
    else (elim h.read_end [
      | eof ↦ record { total = moved; error = none }
      | broken ↦ record { total = moved; error = some reset }
      | more ↦ record { total = moved + rest.total; error = rest.error }
    ])
