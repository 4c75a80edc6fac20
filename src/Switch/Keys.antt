-- ===== src/Switch/Keys.antt =====
-- Whose key an instance serves after a switch, on every branch of it.
use v2pro_dock.Base.{
  ℕ, String, ◌≡◌, refl, sym, ap, ◌∙◌, ◌⊎◌, inl, inr, false, Option, none, some, List, str_eq,
  nat_eq, nat_equal, string_equal, if_cases, length,
}
use v2pro_dock.Base.Dict.{Dict, has}
use v2pro_dock.Base.Int.{pos}
use mathlib.Core.Path.{subst}
use v2pro_dock.Pool.{ProxyConfig, key}
use v2pro_dock.Probe.{HealthResult}
use v2pro_dock.Selector.{ProxySelector, active_config, at_index}
use v2pro_dock.Switch.{
  World, SwitchError, candidates, key_at, plan_switch, search_candidates, swap,
  switch_to_next_excluding,
}
use v2pro_dock.Switch.Outcome.{not_excluded_key, search-among}
use v2pro_dock.Switch.Swap.{Fallback, Swapped, Swapped-Fallback, swap-Swapped}

-- The key is that of the upstream which the instance serves.
abbrev pub OwnKey : ProxySelector → String → Type 0
OwnKey s k = (c : ProxyConfig) × (active_config s ≡ some c) × (key c ≡ k)

-- What a switch may leave served: the own key, or one that is not excluded.
abbrev pub KeyAllowed : Dict String ℕ → ProxySelector → ProxySelector → Type 0
KeyAllowed exclude s t =
    (d : ProxyConfig) → active_config t ≡ some d → OwnKey s (key d) ⊎ (has (key d) exclude ≡ false)

KeyAllowed-same : (exclude : Dict String ℕ) (s : ProxySelector) → KeyAllowed exclude s s
KeyAllowed-same exclude s d h = inl (d, h, refl)

key_at-some :
    (o : Option ProxyConfig)
    → str_eq (elim o [ none ↦ "" | some c ↦ key c ]) "" ≡ false
    → (c : ProxyConfig) × (o ≡ some c) × (key c ≡ elim o [ none ↦ "" | some c ↦ key c ])
key_at-some none h = cc h
key_at-some (some c) h = (c, refl, refl)

same_active :
    (s t : ProxySelector)
    → t.configs ≡ s.configs
    → t.active_index ≡ s.active_index
    → active_config t ≡ active_config s
unfolding active_config
same_active s t h g = rw (h, g) refl

Fallback-KeyAllowed :
    (exclude : Dict String ℕ) (s t : ProxySelector)
    → Fallback (key_at s.configs s.active_index) s t
    → KeyAllowed exclude s t
Fallback-KeyAllowed exclude s t (same, inl e) d h =
    inl (d, sym (same_active s t same.configs e) ∙ h, refl)
Fallback-KeyAllowed exclude s t (same, inr (c, a, e, ne)) d h =
    let (o, at, own) = key_at-some (at_index s.configs s.active_index) ne in
    let q : c ≡ d = cc (a, h) in inl (o, unfold active_config in at, own ∙ sym e ∙ ap key q)

Swapped-KeyAllowed :
    (w later : World) (exclude : Dict String ℕ) (k : String) (s : ProxySelector)
    (r : Option SwitchError × ProxySelector)
    → Swapped w later (key_at s.configs s.active_index) k s r
    → has k exclude ≡ false
    → KeyAllowed exclude s r.1
Swapped-KeyAllowed w later exclude k s (none, t) (same, (c, a, e), b, v, f) x =
    λ d h. let q : c ≡ d = cc (a, h) in inr (ap (λ j. has j exclude) (ap key (sym q) ∙ e) ∙ x)
Swapped-KeyAllowed w later exclude k s (some e, t) m x =
    Fallback-KeyAllowed exclude s t
      (Swapped-Fallback w later (key_at s.configs s.active_index) k s e t m)

swap-KeyAllowed :
    (w later : World) (exclude : Dict String ℕ) (done : List (ℕ × HealthResult)) (s : ProxySelector)
    (found : Option (ℕ × ℕ))
    → search_candidates (candidates exclude s) done ≡ found
    → KeyAllowed exclude s (swap w later (plan_switch exclude s) found s).1
swap-KeyAllowed w later exclude done s none e = unfold swap in KeyAllowed-same exclude s
swap-KeyAllowed w later exclude done s (some (i, lat)) e =
    Swapped-KeyAllowed w later exclude (key_at s.configs (pos i)) s
      (swap w later (plan_switch exclude s) (some (i, lat)) s)
      (unfold plan_switch in swap-Swapped w later (plan_switch exclude s) i lat s)
      (not_excluded_key exclude s i (search-among (candidates exclude s) done i lat e))

-- Whether a switch succeeds or fails, an instance that nothing else touched meanwhile serves its
-- own key or one that was not excluded.
pub switch-KeyAllowed :
    (w later : World) (exclude : Dict String ℕ) (done : List (ℕ × HealthResult))
    (during : ProxySelector → ProxySelector) (s : ProxySelector)
    → during s ≡ s
    → KeyAllowed exclude s (switch_to_next_excluding w later exclude done during s).1
unfolding switch_to_next_excluding
switch-KeyAllowed w later exclude done during s h =
    let P = λ (r : Option SwitchError × ProxySelector). KeyAllowed exclude s r.1 in
    if_cases P (nat_eq (length s.configs) 0) _ _ (λ _. KeyAllowed-same exclude s)
      (λ _.
        if_cases P (nat_eq (length (plan_switch exclude s).cands) 0) _ _
          (λ _. KeyAllowed-same exclude s)
          (λ _.
            subst
              (λ t. P (
                swap w later (plan_switch exclude s) (search_candidates (candidates exclude s) done)
                  t))
              (sym h)
              (swap-KeyAllowed w later exclude done s
                (search_candidates (candidates exclude s) done) refl)))
