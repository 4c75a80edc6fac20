-- ===== src/Aggregate/Ladder.antt =====
-- The order in which the backends are tried.
use mathlib.Core.List.{Perm, perm_middle}
use mathlib.Core.List.Perm
use v2pro_dock.Base.{
  ℕ, ◌<◌, ◌≡◌, refl, ap, ◌∙◌, ◌≢◌, inl, inr, Bool, true, false, ◌&&◌, Option, none, some, List, [],
  ◌∷◌, ◌++◌, arith, ltb, leb, if◌then◌else◌, Bool-cases, Option-cases, nat_equal, string_equal,
  if_cases, length, head?,
}
use v2pro_dock.Selector.{ProxySelector}
use v2pro_dock.Manager.{InstanceStatus, ProxyManager}
use v2pro_dock.Aggregate.{
  LatencySort, get_alive_statuses, first_qualified, backend_port, pick_best, port_of,
  pick_best_backend, qualified, unqualified, ordered_alive, ports_for_order, aggregate_candidates,
}

first_qualified-head :
    (n : ℕ) (best : InstanceStatus) (ss : List InstanceStatus)
    → first_qualified n best ss ≡ elim (head? (qualified n ss)) [ none ↦ best | some s ↦ s ]
unfolding first_qualified qualified
first_qualified-head n best [] = refl
first_qualified-head n best (s ∷ ss) = ground (arith, first_qualified-head n best ss)

head-append : (xs ys : List InstanceStatus) → 0 < length xs → head? (xs ++ ys) ≡ head? xs
head-append [] ys h = elim h [ ]
head-append (x ∷ xs) ys h = refl

head-nil : (xs : List InstanceStatus) → ltb 0 (length xs) ≡ false → head? xs ≡ none
head-nil [] h = refl
head-nil (x ∷ xs) h = absurd (ground arith)

-- The pick, and the head of the order, in one form.
abbrev preferred : ℕ → InstanceStatus → List InstanceStatus → InstanceStatus
preferred n s ss =
    if ltb 0 n then elim (head? (qualified n (s ∷ ss))) [ none ↦ s | some t ↦ t ] else s

head-ordered_alive :
    (n : ℕ) (s : InstanceStatus) (ss : List InstanceStatus)
    → head? (ordered_alive n (s ∷ ss)) ≡ some (preferred n s ss)
unfolding ordered_alive
head-ordered_alive n s ss =
    let q = qualified n (s ∷ ss) in
    ground (
      arith,
      head-append q (unqualified n (s ∷ ss)),
      head-nil q,
      Option-cases (head? q),
      head-some q,
    )
  where
    head-some : (xs : List InstanceStatus) → ltb 0 (length xs) ≡ true → head? xs ≢ none
    head-some [] h e = absurd (ground arith)
    head-some (x ∷ xs) h e = cc e

-- The head of the ladder is the pick.
pick-eq-head : (n : ℕ) (ss : List InstanceStatus) → pick_best n ss ≡ head? (ordered_alive n ss)
unfolding pick_best
pick-eq-head n [] = unfold ordered_alive qualified unqualified in ground arith
pick-eq-head n (s ∷ ss) = rw (head-ordered_alive n s ss, first_qualified-head n s (s ∷ ss)) refl

ports_for_order-cons :
    (http : Bool) (insts : List ProxySelector) (x : InstanceStatus) (xs : List InstanceStatus)
    (port : ℕ)
    → port_of http insts x ≡ some port
    → 0 < port
    → head? (ports_for_order (backend_port http) insts (x ∷ xs)) ≡ some port
unfolding ports_for_order
ports_for_order-cons http insts x xs port e p = ground arith

head-ports_for_order :
    (http : Bool) (insts : List ProxySelector) (ss : List InstanceStatus)
    (o : Option InstanceStatus) (port : ℕ)
    → o ≡ head? ss
    → elim o [ none ↦ none | some s ↦ port_of http insts s ] ≡ some port
    → 0 < port
    → head? (ports_for_order (backend_port http) insts ss) ≡ some port
head-ports_for_order http insts ss none port h e p = cc e
head-ports_for_order http insts [] (some s) port h e p = cc h
head-ports_for_order http insts (x ∷ xs) (some s) port h e p =
    let same : x ≡ s = cc h in
    ports_for_order-cons http insts x xs port (ap (port_of http insts) same ∙ e) p

-- Failover does not change which node a healthy pool lands on: when `pickBestBackend` names a
-- backend with a port, that backend is the first on the ladder, whatever AGG_MIN_STREAK is.
pub pick-head-candidates :
    (by : LatencySort) (min_streak : ℕ) (http_side : Bool) (m : ProxyManager) (port : ℕ)
    → pick_best_backend by min_streak http_side m ≡ some port
    → 0 < port
    → head? (aggregate_candidates by min_streak http_side m) ≡ some port
unfolding pick_best_backend aggregate_candidates
pick-head-candidates by n http m port h p =
    head-ports_for_order http m.instances (ordered_alive n (get_alive_statuses by m))
      (pick_best n (get_alive_statuses by m)) port (pick-eq-head n (get_alive_statuses by m)) h p

-- What a list holds and how often is not changed by splitting it into the tiers.
tiers-perm : (n : ℕ) (ss : List InstanceStatus) → Perm (qualified n ss ++ unqualified n ss) ss
unfolding qualified unqualified
tiers-perm n [] = Perm.refl []
tiers-perm n (s ∷ ss) = elim (Bool-cases (leb n s.ok_streak)) [
  | inl e ↦ rw e (Perm.cons s (tiers-perm n ss))
  | inr e ↦
      rw e (
        Perm.trans (perm_middle (qualified n ss) (unqualified n ss))
          (Perm.cons s (tiers-perm n ss)))
]

-- No alive instance is lost from the order, and none is in it twice.
pub ordered_alive-perm : (n : ℕ) (ss : List InstanceStatus) → Perm (ordered_alive n ss) ss
unfolding ordered_alive
ordered_alive-perm n ss =
    if_cases (λ xs. Perm xs ss) (ltb 0 n && ltb 0 (length (qualified n ss))) _ _
      (λ _. tiers-perm n ss) (λ _. Perm.refl ss)
