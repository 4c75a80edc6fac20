-- ===== src/Egress/Laws.antt =====
-- What a note of a flow proves, and for how long.
use v2pro_dock.Base.{
  ℕ, ◌+◌, ◌<◌, ◌≡◌, refl, ◌⊎◌, Bool, true, false, not, ◌&&◌, ◌||◌, List, [], ◌∷◌, arith, ltb, leb,
  nat_eq, if◌then◌else◌, nat_equal, string_equal,
}
use v2pro_dock.Base.Dict.{lookup, lookup-insert}
use v2pro_dock.Egress.{EgressNotes, note_egress, egress_active, fresh_note}

-- Is the port among the given ones?
unfoldable pub among : ℕ → List ℕ → Bool
among p [] = false
among p (q ∷ qs) = nat_eq q p || among p qs

fresh-note_egress :
    (port q at grace now : ℕ) (notes : EgressNotes)
    → fresh_note (lookup q (note_egress port at notes)) grace now ≡ (
        if nat_eq port q && not (leb port 0)
        then ltb now (at + grace)
        else fresh_note (lookup q notes) grace now)
unfolding note_egress fresh_note
fresh-note_egress port q at grace now notes = ground (arith, lookup-insert port q at notes)

-- A flow noted on a real port among those of an instance makes it active until the grace has
-- passed, whatever was noted before.
pub egress_active-note :
    (port at grace now : ℕ) (ps : List ℕ) (notes : EgressNotes)
    → 0 < port
    → among port ps ≡ true
    → now < at + grace
    → egress_active ps grace now (note_egress port at notes) ≡ true
unfolding egress_active among
egress_active-note port at grace now [] notes hp hm hn = cc hm
egress_active-note port at grace now (q ∷ qs) notes hp hm hn = ground (
  arith,
  fresh-note_egress port q at grace now notes,
  egress_active-note port at grace now qs notes hp,
)

-- A flow on another port, or on port 0, changes nothing of what an instance has proved.
pub egress_active-other :
    (port at grace now : ℕ) (ps : List ℕ) (notes : EgressNotes)
    → (port ≡ 0) ⊎ (among port ps ≡ false)
    → egress_active ps grace now (note_egress port at notes) ≡ egress_active ps grace now notes
unfolding egress_active among
egress_active-other port at grace now [] notes h = refl
egress_active-other port at grace now (q ∷ qs) notes h = ground (
  arith,
  h,
  fresh-note_egress port q at grace now notes,
  egress_active-other port at grace now qs notes,
)
