-- ===== src/Bridge/Slots.antt =====
-- What the slots of the bridge bound.
use v2pro_dock.Base.{
  ℕ, zero, suc, ◌+◌, ◌≤◌, String, ◌≡◌, refl, true, false, Option, some, List, [], ◌∷◌, arith,
  if◌then◌else◌, nat_equal, string_equal, get_elem?, set,
}
use v2pro_dock.Base.Int.{ℤ}
use v2pro_dock.Bridge.{
  Bridge, Tunnel, running, finished, begin_connect, release_slot, splice, handler_returns,
  relays_end, begin_plain, end_plain, Moves, connects, splices, returns, ends, begins_plain,
  ends_plain, Comes, fresh, after, get_max_conns,
}

-- The tunnels that still hold their slot.
unfoldable pub held : List Tunnel → ℕ
held [] = 0
held (t ∷ ts) = (if t.released then 0 else 1) + held ts

-- The tunnels whose relays run.
unfoldable pub live : List Tunnel → ℕ
live [] = 0
live (t ∷ ts) = (elim t.relays [ running ↦ 1 | _ ↦ 0 ]) + live ts

held-set :
    (ts : List Tunnel) (i : ℕ) (t u : Tunnel)
    → get_elem? ts i ≡ some t
    → held (set ts i u) + (if t.released then 0 else 1) ≡ held ts + (if u.released then 0 else 1)
unfolding held
held-set [] i t u h = ground arith
held-set (x ∷ ts) zero t u h = ground arith
held-set (x ∷ ts) (suc i) t u h = omega (arith, held-set ts i t u h)

-- Every slot is free, or held by a tunnel or by a plain request.
IsBalanced : ℕ → Bridge → Type 0
IsBalanced slots b = b.free + held b.tunnels + b.plain ≡ slots

release_slot-IsBalanced :
    (slots : ℕ) (b : Bridge) (i : ℕ) (t u : Tunnel)
    → get_elem? b.tunnels i ≡ some t
    → IsBalanced slots b
    → IsBalanced slots (release_slot b i t u)
unfolding release_slot IsBalanced
release_slot-IsBalanced slots b i t u h v =
    ground (arith, held-set b.tunnels i t (record u { released = true }) h)

splice-IsBalanced :
    (slots : ℕ) (b : Bridge) (i : ℕ) (t : Tunnel)
    → get_elem? b.tunnels i ≡ some t
    → IsBalanced slots b
    → IsBalanced slots (splice b i t)
unfolding splice IsBalanced
splice-IsBalanced slots b i t h v =
    omega (arith, held-set b.tunnels i t (record t { relays = running }) h)

begin_connect-IsBalanced :
    (slots : ℕ) (b c : Bridge) → begin_connect b ≡ some c → IsBalanced slots b → IsBalanced slots c
unfolding begin_connect IsBalanced held
begin_connect-IsBalanced slots b c h v = ground arith

begin_plain-IsBalanced :
    (slots : ℕ) (b c : Bridge) → begin_plain b ≡ some c → IsBalanced slots b → IsBalanced slots c
unfolding begin_plain IsBalanced
begin_plain-IsBalanced slots b c h v = ground arith

Moves-IsBalanced : (slots : ℕ) {b c : Bridge} → Moves b c → IsBalanced slots b → IsBalanced slots c
unfolding handler_returns relays_end end_plain IsBalanced
Moves-IsBalanced slots {b} {c} (connects h) v = begin_connect-IsBalanced slots b c h v
Moves-IsBalanced slots {b} (splices i t h _ _) v = splice-IsBalanced slots b i t h v
Moves-IsBalanced slots {b} (returns i t h _) v =
    release_slot-IsBalanced slots b i t (record t { handling = false }) h v
Moves-IsBalanced slots {b} (ends i t h _) v =
    release_slot-IsBalanced slots b i t (record t { relays = finished }) h v
Moves-IsBalanced slots {b} {c} (begins_plain h) v = begin_plain-IsBalanced slots b c h v
Moves-IsBalanced slots {b} (ends_plain h) v = omega arith

-- In every state a bridge comes to, whatever the order in which handlers and relays end, the free
-- slots, the tunnels that have not given theirs back and the plain requests add up to the capacity:
-- no slot is lost, and none is given back twice.
pub Comes-balanced :
    {slots : ℕ} {b : Bridge} → Comes slots b → b.free + held b.tunnels + b.plain ≡ slots
unfolding held IsBalanced
Comes-balanced fresh = omega arith
Comes-balanced {slots} (after r m) = Moves-IsBalanced slots m (Comes-balanced r)

-- The state with `n` tunnels whose handlers have returned.
abbrev spliced : ℕ → List Tunnel
spliced zero = []
spliced (suc n) = record { released = true; handling = false; relays = running } ∷ spliced n

abbrev idle_with : ℕ → ℕ → Bridge
idle_with slots n = record { free = slots; tunnels = spliced n; plain = 0 }

-- One more tunnel, while every slot is free.
one_more :
    (slots n : ℕ)
    → Comes (suc slots) (idle_with (suc slots) n)
    → Comes (suc slots) (idle_with (suc slots) (suc n))
unfolding begin_connect splice handler_returns
one_more slots n r =
    after (after (after r (connects refl)) (splices 0 _ refl refl refl)) (returns 0 _ refl refl)

spliced-live : (n : ℕ) → live (spliced n) ≡ n
unfolding live
spliced-live zero = refl
spliced-live (suc n) = omega (arith, spliced-live n)

reaches : (slots n : ℕ) → Comes (suc slots) (idle_with (suc slots) n)
reaches slots zero = fresh
reaches slots (suc n) = one_more slots n (reaches slots n)

-- The slots do not bound the tunnels: with any capacity of at least 1, a bridge comes to a state in
-- which as many relays run as one likes and every slot is free.
pub tunnels_unbounded :
    (slots n : ℕ)
    → 1 ≤ slots
    → (b : Bridge) × Comes slots b × (live b.tunnels ≡ n) × (b.free ≡ slots)
tunnels_unbounded zero n h = elim (no_slot h) [ ]
  where
    no_slot : 1 ≤ 0 → ⊥
    no_slot k = omega arith
tunnels_unbounded (suc slots) n h = (idle_with (suc slots) n, reaches slots n, spliced-live n, refl)

-- The number of slots is between 1 and 4096 whatever the variable says.
pub get_max_conns-bounds :
    (atoi : String → Option ℤ) (v : String)
    → (1 ≤ get_max_conns atoi v) × (get_max_conns atoi v ≤ 4_096)
unfolding get_max_conns
get_max_conns-bounds atoi v = ground arith
