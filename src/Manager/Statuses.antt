-- ===== src/Manager/Statuses.antt =====
-- How the marks of `markOK` and `markDown` count.
use v2pro_dock.Base.{
  ℕ, zero, suc, ◌+◌, String, ◌≡◌, refl, ap, ◌≢◌, Bool, true, false, Option, none, some, List, [],
  ◌∷◌, arith, nat_equal, string_equal, length, get_elem?,
}
use v2pro_dock.Selector.{ProxySelector}
use v2pro_dock.Manager.{
  InstanceStatus, ProxyManager, zero_status, is_ok, status_of, update_status, mark_down, mark_ok,
  alive, alive_count, stability, marked_ok, marked_down,
}

abbrev pub one_if : Bool → ℕ
one_if true = 1
one_if false = 0

-- A write inside the range changes the count by what it changes at its index.
length-alive-update :
    (f : InstanceStatus → InstanceStatus) (b : Bool) (i : ℕ) (ss : List InstanceStatus)
    (s : InstanceStatus)
    → get_elem? ss i ≡ some s
    → is_ok (f s) ≡ b
    → length (alive (update_status f i ss)) + one_if (is_ok s) ≡ length (alive ss) + one_if b
unfolding alive update_status
length-alive-update f b i [] s h e = cc h
length-alive-update f b zero (r ∷ ss) s h e = let q : r ≡ s = cc h in rw q (ground arith)
length-alive-update f b (suc i) (r ∷ ss) s h e = ground (arith, length-alive-update f b i ss s h e)

get_elem?-update_ne :
    (f : InstanceStatus → InstanceStatus) (i j : ℕ) (ss : List InstanceStatus)
    → i ≢ j
    → get_elem? (update_status f i ss) j ≡ get_elem? ss j
unfolding update_status
get_elem?-update_ne f i j [] h = refl
get_elem?-update_ne f zero zero (s ∷ ss) h = absurd (h refl)
get_elem?-update_ne f zero (suc j) (s ∷ ss) h = refl
get_elem?-update_ne f (suc i) zero (s ∷ ss) h = refl
get_elem?-update_ne f (suc i) (suc j) (s ∷ ss) h = get_elem?-update_ne f i j ss (λ e. h (ap suc e))

is_ok-marked_ok :
    (inst : Option ProxySelector) (name : String) (lat : ℕ) (s : InstanceStatus)
    → is_ok (marked_ok inst name lat s) ≡ true
unfolding marked_ok stability
is_ok-marked_ok none name lat s = refl
is_ok-marked_ok (some inst) name lat s = refl

is_ok-marked_down : (msg : String) (s : InstanceStatus) → is_ok (marked_down msg s) ≡ false
unfolding marked_down
is_ok-marked_down msg s = refl

-- Marking an instance that has a status: "down" takes it from the live ones if it was one, "ok"
-- adds it if it was not, and neither changes the status of another instance.
pub marks_count :
    (m : ProxyManager) (i j : ℕ) (s : InstanceStatus) (msg name : String) (lat : ℕ)
    → get_elem? m.statuses i ≡ some s
    → i ≢ j
    → (alive_count (mark_down i msg m) + one_if (is_ok s) ≡ alive_count m)
      × (alive_count (mark_ok i name lat m) + one_if (is_ok s) ≡ alive_count m + 1)
      × (status_of (mark_down i msg m) j ≡ status_of m j)
      × (status_of (mark_ok i name lat m) j ≡ status_of m j)
unfolding mark_down mark_ok alive_count status_of
marks_count m i j s msg name lat h ne =
    let good = marked_ok (get_elem? m.instances i) name lat in
    let inst = get_elem? m.instances i in
    let a =
      length-alive-update (marked_down msg) false i m.statuses s h (is_ok-marked_down msg s) in
    let b = length-alive-update good true i m.statuses s h (is_ok-marked_ok inst name lat s) in
    (
      omega (arith, a),
      b,
      ap or_zero (get_elem?-update_ne (marked_down msg) i j m.statuses ne),
      ap or_zero (get_elem?-update_ne good i j m.statuses ne),
    )
  where
    or_zero : Option InstanceStatus → InstanceStatus
    or_zero s = elim s [ none ↦ zero_status | some r ↦ r ]
