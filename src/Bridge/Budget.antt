-- ===== src/Bridge/Budget.antt =====
-- What the idle budget of v2proxy/httpproxy.go severs, and what it does not.
use v2pro_dock.Base.{
  ℕ, ◌+◌, ◌≤◌, ◌<◌, ◌≡◌, refl, ap, ◌⊎◌, inl, inr, Bool, true, false, not, ◌&&◌, ◌||◌, Option, none,
  some, List, [], ◌∷◌, arith, ltb, leb, if◌then◌else◌, Bool-cases, nat_equal, string_equal,
}
use v2pro_dock.Bridge.Relay.{
  ReadEnd, more, eof, broken, Hop, Chunk, Ending, timed_out, write_failed, closed, reset,
  call_until, written_by, hop_end, hop_then, relay_loop, relay_with_idle, copy_body_idle, Relayed,
}

-- How long a tunnel is quiet before each arm by the twin within a call, and before the call's
-- return, if it was quiet for `since` before the call.
abbrev pub silences : ℕ → List ℕ → ℕ → List ℕ
silences since [] last = (since + last) ∷ []
silences since (a ∷ later) last = (since + a) ∷ silences 0 later last

-- How long it is quiet when the call returns.
abbrev pub quiet_after : ℕ → List ℕ → ℕ → ℕ
quiet_after since [] last = since + last
quiet_after since (a ∷ later) last = quiet_after 0 later last

-- No silence is longer than the budget.
abbrev pub all_within : ℕ → List ℕ → Bool
all_within idle [] = true
all_within idle (x ∷ xs) = leb x idle && all_within idle xs

-- The relay without a clock and without deadlines: only how long the tunnel is quiet counts.
abbrev pub reads_in : ℕ → Hop → Bool
reads_in idle h = all_within idle (silences 0 h.read.arms h.read.last)

abbrev pub writes_in : ℕ → Hop → Bool
writes_in idle h =
    all_within idle (silences (quiet_after 0 h.read.arms h.read.last) h.write.arms h.write.last)

unfoldable pub relay_by_silence : ℕ → List Hop → ℕ × Ending
relay_by_silence idle [] = (0, timed_out)
relay_by_silence idle (h ∷ hs) =
    let rest = relay_by_silence idle hs in
    if not (reads_in idle h)
    then (0, timed_out)
    else if ltb 0 h.bytes && (h.write_fails || not (writes_in idle h))
    then (0, write_failed)
    else (elim h.read_end [
      | more ↦ (h.bytes + rest.0, rest.1)
      | eof ↦ (h.bytes, closed)
      | broken ↦ (h.bytes, reset)
    ])

-- What a call does, by its silences: the deadline is that of the last arm, `since` ago.
abbrev CallBy : ℕ → ℕ → List ℕ → ℕ → Option (ℕ × ℕ) → Type 0
CallBy idle since arms last r =
    ((all_within idle (silences since arms last) ≡ false) × (r ≡ none))
    ⊎ ((t : ℕ) × (d : ℕ) × (all_within idle (silences since arms last) ≡ true)
        × (r ≡ some (t, d))
        × (d + quiet_after since arms last ≡ t + idle))

call_until-CallBy :
    (idle since now deadline : ℕ) (arms : List ℕ) (last : ℕ)
    → deadline + since ≡ now + idle
    → CallBy idle since arms last (call_until idle now deadline arms last)
unfolding call_until
call_until-CallBy idle since now deadline [] last h =
    elim (Bool-cases (ltb deadline (now + last))) [
      | inl e ↦ rw e (inl (ground arith, refl))
      | inr e ↦ rw e (inr (now + last, deadline, ground arith, refl, omega arith))
    ]
call_until-CallBy idle since now deadline (a ∷ later) last h =
    elim (Bool-cases (ltb deadline (now + a))) [
      | inl e ↦ rw e (inl (ground arith, refl))
      | inr e ↦
          rw e
            (elim (call_until-CallBy idle 0 (now + a) (now + a + idle) later last (omega arith)) [
              | inl (x, n) ↦ inl (ground (arith, x), n)
              | inr (t, d, x, n, q) ↦ inr (t, d, ground (arith, x), n, q)
            ])
    ]

-- What a write does, by its silences.
written_by-cases :
    (idle since now deadline : ℕ) (h : Hop)
    → deadline + since ≡ now + idle
    → (((ltb 0 h.bytes
            && (h.write_fails || not (all_within idle (silences since h.write.arms h.write.last))))
          ≡ true)
        × (written_by idle h now deadline ≡ none))
      ⊎ ((t : ℕ) × ((ltb 0 h.bytes
              && (h.write_fails
                  || not (all_within idle (silences since h.write.arms h.write.last))))
            ≡ false)
          × (written_by idle h now deadline ≡ some t))
unfolding written_by
written_by-cases idle since now deadline h e = elim (Bool-cases (ltb 0 h.bytes)) [
  | inr b ↦ rw b (inr (now, refl, refl))
  | inl b ↦ rw b (elim (call_until-CallBy idle since now deadline h.write.arms h.write.last e) [
    | inl (x, n) ↦ rw (x, n) (inl (or_true h.write_fails, refl))
    | inr (t, d, x, n, q) ↦ rw (x, n) (by_failure h.write_fails t)
  ])
]
  where
    or_true : (f : Bool) → (f || true) ≡ true
    or_true f = ground arith

    by_failure :
        (f : Bool) (t : ℕ)
        → (((f || false) ≡ true) × (◌≡◌ {A = Option ℕ} (if f then none else some t) none))
          ⊎ ((u : ℕ) × ((f || false) ≡ false)
              × (◌≡◌ {A = Option ℕ} (if f then none else some t) (some u)))
    by_failure true t = inl (refl, refl)
    by_failure false t = inr (t, refl, refl)

-- What a relay moves and why it ends.
abbrev pub Outcome : Relayed → ℕ × Ending → Type 0
Outcome r s = (r.moved ≡ s.0) × (r.ending ≡ s.1)

-- A hop that is written, and what follows it.
hop_end-Outcome :
    (e : ReadEnd) (bytes now : ℕ) (r : Relayed) (s : ℕ × Ending)
    → Outcome r s
    → Outcome
        (hop_then bytes now (hop_end e r))
        (elim e [ more ↦ (bytes + s.0, s.1) | eof ↦ (bytes, closed) | broken ↦ (bytes, reset) ])
unfolding hop_end
hop_end-Outcome more bytes now r s h = (ap (λ n. bytes + n) h.0, h.1)
hop_end-Outcome eof bytes now r s h = (omega arith, refl)
hop_end-Outcome broken bytes now r s h = (omega arith, refl)

relay_loop-by_silence :
    (idle now : ℕ) (hs : List Hop)
    → Outcome (relay_loop idle now (now + idle) hs) (relay_by_silence idle hs)
unfolding relay_loop relay_by_silence
relay_loop-by_silence idle now [] = (refl, refl)
relay_loop-by_silence idle now (h ∷ hs) =
    elim (call_until-CallBy idle 0 now (now + idle) h.read.arms h.read.last (omega arith)) [
      | inl (x, n) ↦ rw (x, n) (refl, refl)
      | inr (t, d, x, n, q) ↦
          rw (x, n)
            (elim (written_by-cases idle (quiet_after 0 h.read.arms h.read.last) t d h q) [
              | inl (y, m) ↦ rw (y, m) (refl, refl)
              | inr (u, y, m) ↦
                  rw (y, m)
                    (hop_end-Outcome h.read_end h.bytes t (relay_loop idle u (u + idle) hs)
                      (relay_by_silence idle hs) (relay_loop-by_silence idle u hs))
            ])
    ]

-- However long a transfer takes in all, whenever it starts, and however long its reads and writes
-- block: what a relay moves and why it ends is that of the relay without a clock, in which a call
-- fails by the budget exactly if the tunnel was quiet for longer than the budget, that is if neither
-- this relay nor its twin armed the deadline for so long. A read and the write after it share one
-- deadline, so their times add up unless the twin arms between.
pub relay_with_idle-by_silence :
    (idle now : ℕ) (hs : List Hop)
    → Outcome (relay_with_idle idle now hs) (relay_by_silence idle hs)
unfolding relay_with_idle
relay_with_idle-by_silence = relay_loop-by_silence

abbrev pub total_bytes : List Chunk → ℕ
total_bytes [] = 0
total_bytes (h ∷ hs) = h.bytes + total_bytes hs

-- A body whose every chunk has bytes, comes within the budget and is written whole, and whose last
-- chunk reports the end of the stream.
pub data IsSteady (idle : ℕ) : List Chunk → Type 0 where
  final :
      {h : Chunk}
      → h.gap ≤ idle
      → 0 < h.bytes
      → h.taken ≡ h.bytes
      → h.write_fails ≡ false
      → h.read_end ≡ eof
      → IsSteady idle (h ∷ [])
  chunk :
      {h : Chunk} {hs : List Chunk}
      → h.gap ≤ idle
      → 0 < h.bytes
      → h.taken ≡ h.bytes
      → h.write_fails ≡ false
      → h.read_end ≡ more
      → IsSteady idle hs
      → IsSteady idle (h ∷ hs)

-- A steady body arrives whole and without an error, whatever its length and its total time.
pub copy_body_idle-whole :
    (idle now : ℕ) (hs : List Chunk)
    → IsSteady idle hs
    → (copy_body_idle idle now (now + idle) hs).total ≡ total_bytes hs
      × ((copy_body_idle idle now (now + idle) hs).error ≡ none)
unfolding copy_body_idle
copy_body_idle-whole idle now [] s = elim s [ ]
copy_body_idle-whole idle now (h ∷ []) (final g b t w e) = ground arith
copy_body_idle-whole idle now (h ∷ hs) (chunk g b t w e s) =
    ground (arith, copy_body_idle-whole idle (now + h.gap + h.write_time) hs s)
