-- ===== src/Switch/Outcome.antt =====
-- What a switch serves when it succeeds.
use v2pro_dock.Base.{zero, suc, get_elem?}
use v2pro_dock.Base.{
  ℕ, String, ◌≡◌, refl, ap, ◌∙◌, Bool, true, false, ◌||◌, Option, none, some, List, [], ◌∷◌, arith,
  nat_eq, if◌then◌else◌, nat_eq_iff, nat_equal, string_equal, length, get_elem?,
}
use v2pro_dock.Base.Dict.{Dict, has}
use v2pro_dock.Base.Int.{pos}
use v2pro_dock.Pool.{ProxyConfig, key}
use v2pro_dock.Probe.{HealthResult}
use v2pro_dock.Selector.{ProxySelector, active_config}
use v2pro_dock.Switch.{
  World, SwitchError, swap, is_excluded, key_at, next_index, not_excluded, candidates, plan_switch,
  search_candidates, switch_to_next_excluding, no_configs, no_working_config, switch_order,
}
use v2pro_dock.Switch.Swap.{Swapped, swap-Swapped}

-- Is the index among the candidates?
unfoldable pub is_candidate : ℕ → List ℕ → Bool
is_candidate i [] = false
is_candidate i (j ∷ js) = nat_eq j i || is_candidate i js

same-is_excluded :
    (exclude : Dict String ℕ) (cs : List ProxyConfig) (i j : ℕ)
    → nat_eq i j ≡ true
    → is_excluded exclude cs i ≡ is_excluded exclude cs j
same-is_excluded exclude cs i j h = ap (is_excluded exclude cs) ((nat_eq_iff i j).0 h)

is_candidate-not_excluded :
    (exclude : Dict String ℕ) (cs : List ProxyConfig) (is : List ℕ) (i : ℕ)
    → is_candidate i (not_excluded exclude cs is) ≡ true
    → is_excluded exclude cs i ≡ false
unfolding is_candidate not_excluded
is_candidate-not_excluded exclude cs [] i h = cc h
is_candidate-not_excluded exclude cs (j ∷ js) i h =
    let rest = is_candidate-not_excluded exclude cs js i in
    ground (arith, rest, λ (e : nat_eq j i ≡ true). same-is_excluded exclude cs j i e)

is_candidate-get :
    (cands : List ℕ) (p i : ℕ) → get_elem? cands p ≡ some i → is_candidate i cands ≡ true
unfolding is_candidate
is_candidate-get [] p i h = cc h
is_candidate-get (j ∷ js) zero i h = ground (arith, h)
is_candidate-get (j ∷ js) (suc p) i h = ground (arith, is_candidate-get js p i h)

pub search-among :
    (cands : List ℕ) (done : List (ℕ × HealthResult)) (i lat : ℕ)
    → search_candidates cands done ≡ some (i, lat)
    → is_candidate i cands ≡ true
unfolding search_candidates
search-among cands [] i lat h = cc h
search-among cands ((p, r) ∷ done) i lat h =
    ground (arith, is_candidate-get cands p i, search-among cands done i lat)

pub not_excluded_key :
    (exclude : Dict String ℕ) (s : ProxySelector) (i : ℕ)
    → is_candidate i (candidates exclude s) ≡ true
    → has (key_at s.configs (pos i)) exclude ≡ false
unfolding candidates
not_excluded_key exclude s i h = ground (
  arith,
  is_candidate-not_excluded exclude s.configs
      (switch_order (length s.configs) (next_index s.active_index (length s.configs))
        s.active_index)
      i h,
)

-- Success: a config that was not excluded is served, proven through the serving port.
abbrev pub Proven :
    World → Dict String ℕ → List ProxyConfig → Option SwitchError × ProxySelector → Type 0
Proven w exclude pool (r, t) =
    ((c : ProxyConfig) × (active_config t ≡ some c) × (has (key c) exclude ≡ false))
    × (w.binds ≡ true)
    × (w.verify.working ≡ true)
    × (t.fail_count ≡ 0)
    × (t.configs ≡ pool)

Swapped-Proven :
    (w later : World) (exclude : Dict String ℕ) (old_key k : String) (s : ProxySelector)
    (r : Option SwitchError × ProxySelector)
    → Swapped w later old_key k s r
    → has k exclude ≡ false
    → r.0 ≡ none
    → Proven w exclude s.configs r
Swapped-Proven w later exclude old_key k s (none, t) (same, (c, a, e), b, v, f) x h =
    ((c, a, ap (λ j. has j exclude) e ∙ x), b, v, f, same.configs)
Swapped-Proven w later exclude old_key k s (some _, t) m x h = cc h

guards_passed {ℓ} :
    {A : Type ℓ} (a b : Bool) (d e : SwitchError) (s t : A) (r : Option SwitchError × A)
    → (if a then (some d, s) else if b then (some e, t) else r).0 ≡ none
    → (if a then (some d, s) else if b then (some e, t) else r) ≡ r
guards_passed true b d e s t r h = cc h
guards_passed false true d e s t r h = cc h
guards_passed false false d e s t r h = refl

swap-Proven :
    (w later : World) (exclude : Dict String ℕ) (done : List (ℕ × HealthResult))
    (s t : ProxySelector) (found : Option (ℕ × ℕ))
    → search_candidates (candidates exclude s) done ≡ found
    → (swap w later (plan_switch exclude s) found t).0 ≡ none
    → Proven w exclude t.configs (swap w later (plan_switch exclude s) found t)
unfolding swap
swap-Proven w later exclude done s t none e h = cc h
swap-Proven w later exclude done s t (some (i, lat)) e h =
    Swapped-Proven w later exclude _ _ t _ (swap-Swapped w later (plan_switch exclude s) i lat t)
      (unfold plan_switch in
        not_excluded_key exclude s i (search-among (candidates exclude s) done i lat e))
      h

-- A switch that succeeds serves a config whose key was not excluded, proven through the serving port, with no failure counted, whatever
-- happened to the instance while the search ran; its pool is the one of the moment of the swap.
pub switch_avoids_excluded :
    (w later : World) (exclude : Dict String ℕ) (done : List (ℕ × HealthResult))
    (during : ProxySelector → ProxySelector) (s : ProxySelector)
    → (switch_to_next_excluding w later exclude done during s).0 ≡ none
    → Proven w exclude (during s).configs (switch_to_next_excluding w later exclude done during s)
unfolding switch_to_next_excluding
switch_avoids_excluded w later exclude done during s h =
    let found =
      swap w later (plan_switch exclude s) (search_candidates (candidates exclude s) done)
        (during s) in
    let e =
      guards_passed (nat_eq (length s.configs) 0) (nat_eq (length (plan_switch exclude s).cands) 0)
        no_configs no_working_config s s found h in
    rw e (
      swap-Proven w later exclude done s (during s) (search_candidates (candidates exclude s) done)
        refl (rw e at h))
