-- ===== src/Ledger.antt =====
-- `probeShared` of v2proxy/selector.go: what the instances that probe at the same time share. Each
-- method runs under the mutex, so it is one step.
pub mod Laws
pub mod Exclusion
pub mod Tests
use v2pro_dock.Base.{
  String, Bool, true, false, Option, none, some, [], if◌then◌else◌, nat_equal, string_equal,
}
use v2pro_dock.Base.Dict.{Dict, insert, delete, has}

pub record Ledger : Type 0 where
  pub bad : Dict String (Unit {0})
  pub claimed : Dict String (Unit {0})

abbrev pub new_ledger : Ledger
new_ledger = record { bad = []; claimed = [] }

-- The receiver may be nil, as it is for `StartWithBest`.
unfoldable pub is_bad : Option Ledger → String → Bool
is_bad none k = false
is_bad (some l) k = has k l.bad

unfoldable pub mark_bad : Option Ledger → String → Option Ledger
mark_bad none k = none
mark_bad (some l) k = some (record l { bad = insert k tt l.bad })

unfoldable pub try_claim : Option Ledger → String → Bool × Option Ledger
try_claim none k = (true, none)
try_claim (some l) k =
    if has k l.claimed
    then (false, some l)
    else (true, some (record l { claimed = insert k tt l.claimed }))

unfoldable pub unclaim : Option Ledger → String → Option Ledger
unclaim none k = none
unclaim (some l) k = some (record l { claimed = delete k l.claimed })

-- Is the key claimed?
unfoldable pub is_claimed : Option Ledger → String → Bool
is_claimed none k = false
is_claimed (some l) k = has k l.claimed
