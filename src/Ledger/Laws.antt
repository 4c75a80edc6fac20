-- ===== src/Ledger/Laws.antt =====
-- What each operation does to the questions that can be asked of the ledger.
use v2pro_dock.Base.{
  String, ◌≡◌, refl, true, false, not, ◌&&◌, ◌||◌, Option, none, some, arith, str_eq, eq_iff,
  if◌then◌else◌, nat_equal, string_equal, is_some,
}
use v2pro_dock.Base.Dict.{lookup-delete, lookup-insert}
use v2pro_dock.Ledger.{Ledger, is_bad, mark_bad, try_claim, unclaim, is_claimed}

pub is_claimed-mark_bad :
    (k j : String) (l : Option Ledger) → is_claimed (mark_bad l k) j ≡ is_claimed l j
unfolding is_claimed mark_bad
is_claimed-mark_bad k j none = refl
is_claimed-mark_bad k j (some l) = refl

pub is_claimed-unclaim :
    (k j : String) (l : Option Ledger)
    → is_claimed (unclaim l k) j ≡ (if str_eq k j then false else is_claimed l j)
unfolding is_claimed unclaim
is_claimed-unclaim k j none = ground arith
is_claimed-unclaim k j (some l) = ground (arith, lookup-delete k j l.claimed)

-- A claim that is refused changes nothing; one that is granted was free, and holds from then on
-- if there is a ledger at all.
pub try_claim_lem :
    (k j : String) (l : Option Ledger)
    → ((try_claim l k).0 ≡ not (is_claimed l k))
      × (is_claimed (try_claim l k).1 j
          ≡ (if str_eq k j && is_some l then true else is_claimed l j))
      × (is_bad (try_claim l k).1 j ≡ is_bad l j)
      × (is_some (try_claim l k).1 ≡ is_some l)
unfolding is_claimed is_bad try_claim
try_claim_lem k j none = ground arith
try_claim_lem k j (some l) = ground (arith, lookup-insert k j tt l.claimed, eq_iff k j)

pub is_bad-mark_bad :
    (k j : String) (l : Option Ledger)
    → is_bad (mark_bad l k) j ≡ (str_eq k j && is_some l || is_bad l j)
unfolding is_bad mark_bad
is_bad-mark_bad k j none = ground arith
is_bad-mark_bad k j (some l) = ground (arith, lookup-insert k j tt l.bad)

pub is_bad-unclaim : (k j : String) (l : Option Ledger) → is_bad (unclaim l k) j ≡ is_bad l j
unfolding is_bad unclaim
is_bad-unclaim k j none = refl
is_bad-unclaim k j (some l) = refl

pub is_some-unclaim : (k : String) (l : Option Ledger) → is_some (unclaim l k) ≡ is_some l
unfolding unclaim
is_some-unclaim k none = refl
is_some-unclaim k (some l) = refl

pub is_some-mark_bad : (k : String) (l : Option Ledger) → is_some (mark_bad l k) ≡ is_some l
unfolding mark_bad
is_some-mark_bad k none = refl
is_some-mark_bad k (some l) = refl
