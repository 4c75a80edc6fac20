-- ===== src/Breaker/Rest.antt =====
-- How long a dead source rests, and what one source's outcome does to the others.
use v2pro_dock.Base.{
  ℕ, zero, suc, ◌+◌, String, ◌≡◌, ◌≢◌, refl, ap, Bool, true, false, Option, none, some, List, [],
  ◌∷◌, All, arith, leb, if◌then◌else◌, string_equal,
}
use v2pro_dock.Base.Dict.{
  lookup, lookup-insert_self, lookup-insert_ne, lookup-delete_self, lookup-delete_ne,
}
use v2pro_dock.Breaker.{SrcBreaker, allow_at, allow, cycle, dead_cycles, after_dead, or_zero}

-- What the breaker holds about one source.
abbrev View : Type 0
View = Option ℕ × Option ℕ

abbrev view : SrcBreaker → String → View
view b url = (lookup url b.fails, lookup url b.skip)

-- The same refresh on the view alone.
rested : Option ℕ → ℕ → Option ℕ
rested none n = if leb 3 n then some 5 else none
rested (some k) n = some k

dead_view : View → Bool × View
unfolding rested
dead_view (f, none) = (true, (some (or_zero f + 1), rested none (or_zero f + 1)))
dead_view (f, some zero) = (true, (some (or_zero f + 1), some 0))
dead_view (f, some (suc k)) = (false, (f, some k))

cycle-view :
    (b : SrcBreaker) (url : String) (f s : Option ℕ)
    → lookup url b.fails ≡ f
    → lookup url b.skip ≡ s
    → ((cycle b url false).0 ≡ (dead_view (f, s)).0)
      × (view (cycle b url false).1 url ≡ (dead_view (f, s)).1)
unfolding cycle dead_view
cycle-view b url f none hf hs =
    ground (arith, lookup-insert_self url (or_zero f + 1) b.fails, lookup-insert_self url 5 b.skip)
cycle-view b url f (some zero) hf hs =
    ground (arith, lookup-insert_self url (or_zero f + 1) b.fails)
cycle-view b url f (some (suc k)) hf hs = ground (arith, lookup-insert_self url k b.skip)

view_cycles : ℕ → View → List Bool
view_cycles zero v = []
view_cycles (suc n) v = (dead_view v).0 ∷ view_cycles n (dead_view v).1

view_after : ℕ → View → View
view_after zero v = v
view_after (suc n) v = view_after n (dead_view v).1

dead_cycles-view :
    (n : ℕ) (b : SrcBreaker) (url : String) (v : View)
    → view b url ≡ v
    → (dead_cycles n b url ≡ view_cycles n v) × (view (after_dead n b url) url ≡ view_after n v)
unfolding dead_cycles after_dead view_cycles view_after
dead_cycles-view zero b url v h = (refl, h)
dead_cycles-view (suc n) b url (f, s) h =
    let step = cycle-view b url f s (ap (λ (w : View). w.0) h) (ap (λ (w : View). w.1) h) in
    let (answers, final) = dead_cycles-view n (cycle b url false).1 url _ step.1 in
    (cc (step.0, answers), final)

-- A source that nothing is known of is fetched three times, and when all three fetches fail it
-- rests for five refreshes and is then fetched again.
pub rests_after_threshold :
    (b : SrcBreaker) (url : String)
    → lookup url b.fails ≡ none
    → lookup url b.skip ≡ none
    → dead_cycles 9 b url ≡ true ∷ true ∷ true ∷ false ∷ false ∷ false ∷ false ∷ false ∷ true ∷ []
unfolding view_cycles dead_view
rests_after_threshold b url hf hs = (dead_cycles-view 9 b url (none, none) (λ i. (hf i, hs i))).0

always_allowed :
    (n : ℕ) (b : SrcBreaker) (url : String)
    → lookup url b.skip ≡ some 0
    → All (λ a. a ≡ true) (dead_cycles n b url)
unfolding dead_cycles dead_view
always_allowed zero b url h = tt
always_allowed (suc n) b url h =
    let step = cycle-view b url (lookup url b.fails) (some 0) refl h in
    (step.0, always_allowed n (cycle b url false).1 url (ap (λ (w : View). w.1) step.1))

-- After its first rest a source that keeps failing is fetched on every refresh: it never rests
-- again, since the entry of its spent rest stays in the map.
pub never_rests_again :
    (b : SrcBreaker) (url : String)
    → lookup url b.fails ≡ none
    → lookup url b.skip ≡ none
    → (n : ℕ) → All (λ a. a ≡ true) (dead_cycles n (after_dead 8 b url) url)
unfolding view_after dead_view
never_rests_again b url hf hs n =
    always_allowed n (after_dead 8 b url) url
      (ap (λ (w : View). w.1) (dead_cycles-view 8 b url (none, none) (λ i. (hf i, hs i))).1)

-- A success of an allowed source clears what the breaker held against it: the source is again
-- fetched three times before it rests for five refreshes.
pub success_resets :
    (b : SrcBreaker) (url : String)
    → (cycle b url true).0 ≡ true
    → dead_cycles 9 (cycle b url true).1 url
      ≡ true ∷ true ∷ true ∷ false ∷ false ∷ false ∷ false ∷ false ∷ true ∷ []
success_resets b url h =
    rests_after_threshold (cycle b url true).1 url
      (unfold cycle in ground (arith, h, lookup-delete_self url (allow b url).1.fails))
      (unfold cycle in ground (arith, h, lookup-delete_self url (allow b url).1.skip))

allow_at-ne :
    (o : Option ℕ) (b : SrcBreaker) (url other : String)
    → url ≢ other
    → (lookup other (allow_at o b url).1.fails ≡ lookup other b.fails)
      × (lookup other (allow_at o b url).1.skip ≡ lookup other b.skip)
allow_at-ne none b url other h = (refl, refl)
allow_at-ne (some zero) b url other h = (refl, refl)
allow_at-ne (some (suc left)) b url other h = (refl, lookup-insert_ne url other left b.skip h)

-- A refresh of one source changes nothing that is held about another.
pub cycle-ne :
    (b : SrcBreaker) (url other : String) (ok : Bool)
    → url ≢ other
    → (lookup other (cycle b url ok).1.fails ≡ lookup other b.fails)
      × (lookup other (cycle b url ok).1.skip ≡ lookup other b.skip)
unfolding cycle
cycle-ne b url other true h =
    let k = allow_at-ne (lookup url b.skip) b url other h in
    let b' = (allow b url).1 in
    ground (arith, k, lookup-delete_ne url other b'.fails h, lookup-delete_ne url other b'.skip h)
cycle-ne b url other false h =
    let k = allow_at-ne (lookup url b.skip) b url other h in
    let b' = (allow b url).1 in
    ground (
      arith,
      k,
      lookup-insert_ne url other (or_zero (lookup url b'.fails) + 1) b'.fails h,
      lookup-insert_ne url other 5 b'.skip h,
    )
