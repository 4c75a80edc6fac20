-- ===== src/Egress.antt =====
-- `egressNotes` of v2proxy/httpproxy.go: when bytes last flowed through a port. Times are
-- nanoseconds, and a clock reading is an argument.
pub mod Laws
pub mod Tests
use v2pro_dock.Base.{
  ℕ, ◌+◌, ◌*◌, Bool, false, ◌||◌, Option, none, some, List, [], ◌∷◌, ltb, leb, if◌then◌else◌,
  nat_equal, string_equal,
}
use v2pro_dock.Base.Dict.{Dict, lookup, insert}

abbrev pub second : ℕ
second = 1_000_000_000

abbrev pub egress_grace : ℕ
egress_grace = 90 * second

abbrev pub EgressNotes : Type 0
EgressNotes = Dict ℕ ℕ

-- `noteEgress`: port 0 is dropped.
unfoldable pub note_egress : ℕ → ℕ → EgressNotes → EgressNotes
note_egress port now notes = if leb port 0 then notes else insert port now notes

-- `t.After(now.Add(-grace))`, for a port that has a note
fresh_note : Option ℕ → ℕ → ℕ → Bool
fresh_note none grace now = false
fresh_note (some t) grace now = ltb now (t + grace)

unfoldable pub egress_active : List ℕ → ℕ → ℕ → EgressNotes → Bool
unfolding fresh_note
egress_active [] grace now notes = false
egress_active (p ∷ ps) grace now notes =
    fresh_note (lookup p notes) grace now || egress_active ps grace now notes
