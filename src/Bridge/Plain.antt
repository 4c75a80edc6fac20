-- ===== src/Bridge/Plain.antt =====
-- `handlePlainHTTP` of v2proxy/httpproxy.go: one request that is not a tunnel. What the network does
-- in this run is an argument.
use v2pro_dock.Base.{
  ℕ, ◌+◌, ◌≤◌, String, ◌≡◌, refl, ◌⊎◌, inl, inr, Bool, true, false, not, Option, none, some, List,
  arith, str_eq, if◌then◌else◌, Option-cases, nat_equal, string_equal, maybe,
}
use v2pro_dock.Stdlib.{append, contains}
use v2pro_dock.Egress.{EgressNotes, note_egress}
use v2pro_dock.Bridge.{Bridge, begin_plain, end_plain}
use v2pro_dock.Bridge.Relay.{Chunk, Copied, copy_body_idle}

-- The answer of `dialSocksTimeout`
pub data Dial : Type 0 where
  connected dial_timeout dial_failed : Dial

-- `dialErrorCode`
unfoldable pub dial_error_code : Dial → ℕ
dial_error_code dial_timeout = 504
dial_error_code _ = 502

-- The address that is dialled: the URL's host or the header's, with port 80 if it has none.
unfoldable pub plain_target : String → String → String
plain_target url_host header_host =
    let host = if str_eq url_host "" then header_host else url_host in
    if contains host ":" then host else append host ":80"

abbrev pub relay_idle_deadline : ℕ
relay_idle_deadline = 300_000_000_000

-- One run: the dial, whether the request is written, the response's status if its head arrives, at
-- which time, and the body's chunks.
pub record Exchange : Type 0 where
  pub dial : Dial
  pub request_written : Bool
  pub head : Option ℕ
  pub head_at : ℕ
  pub body : List Chunk

-- The status the client gets, the notes after, and what was copied of the body.
pub record Answer : Type 0 where
  pub status : ℕ
  pub notes : EgressNotes
  pub copied : Option Copied

abbrev pub failed_with : ℕ → EgressNotes → Answer
failed_with status notes = record { status = status; notes = notes; copied = none }

-- The handler after it has its slot.
unfoldable pub plain_exchange : ℕ → Exchange → EgressNotes → Answer
unfolding dial_error_code note_egress copy_body_idle
plain_exchange port x notes = elim x.dial [
  | dial_timeout ↦ failed_with (dial_error_code dial_timeout) notes
  | dial_failed ↦ failed_with (dial_error_code dial_failed) notes
  | connected ↦ if not x.request_written then failed_with 502 notes else (elim x.head [
    | none ↦ failed_with 502 notes
    | some status ↦ record {
      status = status;
      notes = note_egress port x.head_at notes;
      copied =
          some
            (copy_body_idle relay_idle_deadline x.head_at (x.head_at + relay_idle_deadline) x.body);
    }
  ])
]

-- `handlePlainHTTP` as a whole: without a slot 503, and the slot goes back on every path.
unfoldable pub handle_plain_http : Bridge → ℕ → Exchange → EgressNotes → Answer × Bridge
unfolding plain_exchange begin_plain end_plain
handle_plain_http b port x notes =
    maybe (begin_plain b) (failed_with 503 notes, b)
      (λ c. (plain_exchange port x notes, end_plain c))

-- A request that failed: nothing of a body, no new note, and a status of 502 to 504.
pub record HasFailed (notes : EgressNotes) (a : Answer) : Type 0 where
  pub nothing : a.copied ≡ none
  pub no_note : a.notes ≡ notes
  pub at_least : 502 ≤ a.status
  pub at_most : a.status ≤ 504

-- A request that was answered: the head's status, and a note of the port at its time.
pub record IsAnswered (port : ℕ) (x : Exchange) (notes : EgressNotes) (a : Answer) : Type 0 where
  pub head : x.head ≡ some a.status
  pub noted : a.notes ≡ note_egress port x.head_at notes

failed_with-HasFailed :
    (s : ℕ) (notes : EgressNotes) → 502 ≤ s → s ≤ 504 → HasFailed notes (failed_with s notes)
failed_with-HasFailed s notes lo hi = record {
  nothing = refl;
  no_note = refl;
  at_least = lo;
  at_most = hi;
}

plain_exchange_cases :
    (port : ℕ) (x : Exchange) (notes : EgressNotes)
    → HasFailed notes (plain_exchange port x notes)
      ⊎ IsAnswered port x notes (plain_exchange port x notes)
unfolding plain_exchange
plain_exchange_cases port x notes = elim x.dial as (λ d. Outcome (record x { dial = d })) [
  | dial_timeout ↦ inl (failed_with-HasFailed 504 notes (omega arith) (omega arith))
  | dial_failed ↦ inl (failed_with-HasFailed 502 notes (omega arith) (omega arith))
  | connected ↦
      elim x.request_written
        as (λ w. Outcome (record x { dial = connected; request_written = w })) [
          | false ↦ inl (failed_with-HasFailed 502 notes (omega arith) (omega arith))
          | true ↦
              elim x.head
                as (λ r.
                  Outcome (record x { dial = connected; request_written = true; head = r })) [
                    | none ↦ inl (failed_with-HasFailed 502 notes (omega arith) (omega arith))
                    | some status ↦ inr (record { head = refl; noted = refl })
                  ]
        ]
]
  where
    Outcome : Exchange → Type 0
    Outcome y =
        HasFailed notes (plain_exchange port y notes)
        ⊎ IsAnswered port y notes (plain_exchange port y notes)

slot_returns : (b c : Bridge) → begin_plain b ≡ some c → end_plain c ≡ b
unfolding begin_plain end_plain
slot_returns b c h = ground arith

-- A plain request leaves every slot as it was. Either it failed, and then no byte of a body is
-- copied, no port is noted and the status is 502, 503 or 504; or the head of a response arrived
-- through the tunnel, and then the client gets its status and the port is noted.
pub handle_plain_http_lem :
    (b : Bridge) (port : ℕ) (x : Exchange) (notes : EgressNotes)
    → ((handle_plain_http b port x notes).1 ≡ b)
      × (HasFailed notes (handle_plain_http b port x notes).0
          ⊎ IsAnswered port x notes (handle_plain_http b port x notes).0)
unfolding handle_plain_http
handle_plain_http_lem b port x notes = elim (Option-cases (begin_plain b)) [
  | inl e ↦ rw e (refl, inl (failed_with-HasFailed 503 notes (omega arith) (omega arith)))
  | inr (c, e) ↦ rw e (slot_returns b c e, plain_exchange_cases port x notes)
]
