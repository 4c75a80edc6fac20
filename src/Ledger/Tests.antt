-- ===== src/Ledger/Tests.antt =====
-- Two workers: the second gets a candidate after the first gave it up.
use v2pro_dock.Base.Dict.{lookup, insert}
use v2pro_dock.Base.{refl, none, some, [], ◌∷◌, nat_equal, string_equal}
use v2pro_dock.Ledger.{Ledger, new_ledger, try_claim, unclaim}
use v2pro_dock.Ledger.Exclusion.{
  System, Reach, IsExclusive, start, next, claims, gives_up, update, Reach-IsExclusive,
}

abbrev one_claimed : Ledger
one_claimed = record new_ledger { claimed = ("a.example:443", tt) ∷ [] }

abbrev handed_over : System
handed_over = record {
  ledger = one_claimed;
  holds =
      update (update (update (λ w. none) 1 (some "a.example:443")) 1 none) 2 (some "a.example:443");
}

reached : Reach handed_over
unfolding try_claim unclaim lookup insert
reached =
    next
      (next (next start (claims 1 "a.example:443" one_claimed refl refl))
        (gives_up 1 "a.example:443" new_ledger refl refl))
      (claims 2 "a.example:443" one_claimed refl refl)

Reach-IsExclusive_example : IsExclusive handed_over
Reach-IsExclusive_example = Reach-IsExclusive reached
