-- ===== src/Switch/Tests.antt =====
-- A switch from the first of three upstreams, the second of which another instance serves.
use v2pro_dock.Pool.{key}
use v2pro_dock.Base.{ℕ, String, refl, some, [], ◌∷◌, nat_equal, string_equal}
use v2pro_dock.Base.Dict.{Dict, lookup}
use v2pro_dock.Base.Int.{pos}
use v2pro_dock.Selector.{index_of}
use v2pro_dock.Switch.{key_at, swap, switch_to_next_excluding}
use v2pro_dock.Switch.Outcome.{Proven, switch_avoids_excluded}
use v2pro_dock.Switch.Swap.{Swapped, swap-Swapped}
use v2pro_dock.Fixtures.{good, serving_a, up}

abbrev taken_b : Dict String ℕ
taken_b = ("b.example:443", 1) ∷ []

swap_example : Swapped up up "a.example:443" (key_at serving_a.configs (pos 2)) serving_a (
    swap up up
      (record { pool = serving_a.configs; cands = 2 ∷ []; old_key = "a.example:443" })
      (some (2, 300_000_000))
      serving_a)
swap_example =
    swap-Swapped up up
      (record { pool = serving_a.configs; cands = 2 ∷ []; old_key = "a.example:443" }) 2 300_000_000
      serving_a

switch_avoids_excluded_example :
    Proven up taken_b serving_a.configs
      (switch_to_next_excluding up up taken_b ((0, good) ∷ []) (λ s. s) serving_a)
unfolding switch_to_next_excluding lookup key index_of
switch_avoids_excluded_example =
    switch_avoids_excluded up up taken_b ((0, good) ∷ []) (λ s. s) serving_a refl
