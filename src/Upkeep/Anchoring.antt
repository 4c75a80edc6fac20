-- ===== src/Upkeep/Anchoring.antt =====
-- What an instance is left with when its pool was replaced.
use v2pro_dock.Base.{
  ℕ, zero, suc, ◌+◌, ◌*◌, ◌<◌, String, ◌≡◌, refl, ◌≢◌, ◌⊎◌, inl, inr, Bool, true, false, not, ◌||◌,
  Option, none, some, List, [], ◌∷◌, arith, str_eq, eq_iff, leb, if◌then◌else◌, ==_refl, nat_equal,
  string_equal, get_elem?, set, is_some,
}
use v2pro_dock.Base.Dict.{Dict, has}
use mathlib.Core.Path.{subst}
use v2pro_dock.Base.Int.{ℤ, pos, negsuc}
use v2pro_dock.Pool.{ProxyConfig, key, find_key}
use v2pro_dock.Egress.{EgressNotes}
use v2pro_dock.Selector.{
  ProxySelector, Scan, active_config, at_index, serving_traffic, serving_clients, retain_active,
}
use v2pro_dock.Selector.Anchor.{index_of-find}
use v2pro_dock.Manager.{ProxyManager, build_excluding}
use v2pro_dock.Upkeep.{
  Attempt, Rotation, put, pick_faster, idle_rotation, anchored, vanished, reconcile_active,
  rotate_max_candidates,
}

-- What a rotation may choose: a config of the pool that is neither the active one nor another
-- instance's, that its probe found working, and faster than the active one by more than 30%.
abbrev pub IsDecisive :
    Rotation → Dict String ℕ → String → ℕ → List ProxyConfig → ProxyConfig → Type 0
IsDecisive r used active lat cs c =
    (is_some (find_key (key c) cs) ≡ true)
    × (key c ≢ active)
    × (has (key c) used ≡ false)
    × ((r.probe c).working ≡ true)
    × ((r.probe c).latency * 10 < lat * 7)

found_later :
    (c : ProxyConfig) (k : String) (cs : List ProxyConfig)
    → is_some (find_key k cs) ≡ true
    → is_some (find_key k (c ∷ cs)) ≡ true
unfolding find_key
found_later c k cs h = ground (arith, h)

found_here : (c : ProxyConfig) (cs : List ProxyConfig) → is_some (find_key (key c) (c ∷ cs)) ≡ true
unfolding find_key
found_here c cs = ground (arith, ==_refl (key c))

choice_cases {ℓ} :
    {P : Type ℓ} (over skip lost : Bool) (passed probed : Option ProxyConfig) (d c : ProxyConfig)
    → (if over then none else if skip then passed else if lost then probed else some d) ≡ some c
    → (passed ≡ some c → P)
    → (probed ≡ some c → P)
    → (over ≡ false → skip ≡ false → lost ≡ false → d ≡ c → P)
    → P
choice_cases true skip lost passed probed d c h f g k = absurd (cc h)
choice_cases false true lost passed probed d c h f g k = f h
choice_cases false false true passed probed d c h f g k = g h
choice_cases false false false passed probed d c h f g k = k refl refl refl (cc h)

IsDecisive-later :
    (r : Rotation) (used : Dict String ℕ) (active : String) (lat : ℕ) (d : ProxyConfig)
    (cs : List ProxyConfig) (c : ProxyConfig)
    → IsDecisive r used active lat cs c
    → IsDecisive r used active lat (d ∷ cs) c
IsDecisive-later r used active lat d cs c (f, n, u, w, l) = (found_later d (key c) cs f, n, u, w, l)

not_active :
    (k active : String) (b : Bool) → str_eq k active || b ≡ false → (k ≢ active) × (b ≡ false)
not_active k active b h = (λ e. ground (arith, h, (eq_iff k active).1 e), ground (arith, h))

not_lost : (b : Bool) (x y : ℕ) → not b || leb x y ≡ false → (b ≡ true) × (y < x)
not_lost true x y h = (refl, ground (arith, h))
not_lost false x y h = cc h

budget_left :
    (tried : ℕ) (b : Bool)
    → leb rotate_max_candidates tried || b ≡ false
    → tried < rotate_max_candidates
budget_left tried b h = ground (arith, h)

IsDecisive-here :
    (r : Rotation) (used : Dict String ℕ) (active : String) (lat : ℕ) (d : ProxyConfig)
    (cs : List ProxyConfig)
    → str_eq (key d) active || has (key d) used ≡ false
    → not (r.probe d).working || leb (lat * 7) ((r.probe d).latency * 10) ≡ false
    → IsDecisive r used active lat (d ∷ cs) d
IsDecisive-here r used active lat d cs skip lost =
    let (n, u) = not_active (key d) active (has (key d) used) skip in
    let (w, l) = not_lost (r.probe d).working (lat * 7) ((r.probe d).latency * 10) lost in
    (found_here d cs, n, u, w, l)

-- A rotation only ever chooses a decisive winner, and only after fewer probes than the limit.
pub pick_faster_lem :
    (r : Rotation) (used : Dict String ℕ) (active : String) (lat tried i : ℕ)
    (cs : List ProxyConfig) (c : ProxyConfig)
    → pick_faster r used active lat tried i cs ≡ some c
    → IsDecisive r used active lat cs c × (tried < rotate_max_candidates)
unfolding pick_faster
pick_faster_lem r used active lat tried i [] c h = cc h
pick_faster_lem r used active lat tried i (d ∷ cs) c h =
    choice_cases (leb rotate_max_candidates tried || r.expired i)
      (str_eq (key d) active || has (key d) used)
      (not (r.probe d).working || leb (lat * 7) ((r.probe d).latency * 10)) _ _ d c h
      (λ e.
        let (x, l) = pick_faster_lem r used active lat tried (i + 1) cs c e in
        (IsDecisive-later r used active lat d cs c x, l))
      (λ e.
        let (x, l) = pick_faster_lem r used active lat (tried + 1) (i + 1) cs c e in
        (IsDecisive-later r used active lat d cs c x, omega (arith, l)))
      (λ over skip lost same. (
        subst (IsDecisive r used active lat (d ∷ cs)) same
            (IsDecisive-here r used active lat d cs skip lost),
        budget_left tried (r.expired i) over,
      ))

found-get :
    (cs : List ProxyConfig) (n : ℕ) (c : ProxyConfig)
    → get_elem? cs n ≡ some c
    → is_some (find_key (key c) cs) ≡ true
found-get [] n c h = cc h
found-get (d ∷ cs) zero c h =
    let e : d ≡ c = cc h in
    subst (λ x. is_some (find_key (key x) (d ∷ cs)) ≡ true) e (found_here d cs)
found-get (d ∷ cs) (suc n) c h = found_later d (key c) cs (found-get cs n c h)

found-at_index :
    (cs : List ProxyConfig) (i : ℤ) (c : ProxyConfig)
    → at_index cs i ≡ some c
    → is_some (find_key (key c) cs) ≡ true
found-at_index cs (pos n) c h = found-get cs n c h
found-at_index cs (negsuc n) c h = cc h

-- The instance behind the index serves as `s` did: the same child, pool and config.
abbrev pub KeptAs : ProxySelector → Option ProxySelector → Type 0
KeptAs s o =
    (t : ProxySelector) × (o ≡ some t)
    × (t.xray ≡ s.xray)
    × (t.configs ≡ s.configs)
    × (t.active_index ≡ s.active_index)

pub get_elem?-set :
    (ss : List ProxySelector) (i : ℕ) (s t : ProxySelector)
    → get_elem? ss i ≡ some s
    → get_elem? (set ss i t) i ≡ some t
get_elem?-set [] i s t h = cc h
get_elem?-set (r ∷ ss) zero s t h = refl
get_elem?-set (r ∷ ss) (suc i) s t h = get_elem?-set ss i s t h

serving_clients-same :
    (scan : Scan) (now : ℕ) (s : ProxySelector)
    → ((serving_clients scan now s).1.xray ≡ s.xray)
      × ((serving_clients scan now s).1.configs ≡ s.configs)
      × ((serving_clients scan now s).1.active_index ≡ s.active_index)
unfolding serving_clients
serving_clients-same scan now s = ground arith

reconcile-anchored :
    (notes : EgressNotes) (scan : Scan) (r : Rotation) (a : Attempt) (now i : ℕ)
    (prev : Option ProxyConfig) (s : ProxySelector) (m : ProxyManager) (c : ProxyConfig)
    → active_config s ≡ some c
    → is_some (find_key (key c) s.configs) ≡ true
    → reconcile_active notes scan r a now i prev s m ≡ anchored notes scan r a now i c s m
unfolding reconcile_active
reconcile-anchored notes scan r a now i prev s m c h f = ground (arith, h, f)

idle_rotation-serving :
    (r : Rotation) (a : Attempt) (now i : ℕ) (c : ProxyConfig) (p : Bool × ProxySelector)
    (m : ProxyManager)
    → p.0 ≡ true
    → idle_rotation r a now i c p m ≡ put i p.1 m
unfolding idle_rotation
idle_rotation-serving r a now i c (true, s) m h = refl
idle_rotation-serving r a now i c (false, s) m h = cc h

anchored-serving :
    (notes : EgressNotes) (scan : Scan) (r : Rotation) (a : Attempt) (now i : ℕ) (s : ProxySelector)
    (m : ProxyManager) (c : ProxyConfig)
    → (serving_traffic notes now s ≡ true) ⊎ ((serving_clients scan now s).0 ≡ true)
    → (anchored notes scan r a now i c s m ≡ m)
      ⊎ (anchored notes scan r a now i c s m ≡ put i (serving_clients scan now s).1 m)
unfolding anchored
anchored-serving notes scan r a now i s m c h =
    ground (arith, h, idle_rotation-serving r a now i c (serving_clients scan now s) m)

-- An instance that serves, by the bytes it moved or by the sockets that are open to it, is not
-- rotated by a refresh whose pool still has its upstream: no status changes, and it keeps its
-- child, its pool and what it serves.
pub serving_untouched :
    (notes : EgressNotes) (scan : Scan) (r : Rotation) (a : Attempt) (now i : ℕ)
    (prev : Option ProxyConfig) (s : ProxySelector) (m : ProxyManager) (c : ProxyConfig)
    → get_elem? m.instances i ≡ some s
    → active_config s ≡ some c
    → (serving_traffic notes now s ≡ true) ⊎ ((serving_clients scan now s).0 ≡ true)
    → let m' = reconcile_active notes scan r a now i prev s m in
      (m'.statuses ≡ m.statuses) × KeptAs s (get_elem? m'.instances i)
serving_untouched notes scan r a now i prev s m c g h serves =
    let found = found-at_index s.configs s.active_index c (unfold active_config in h) in
    let t = (serving_clients scan now s).1 in
    rw (reconcile-anchored notes scan r a now i prev s m c h found)
      (elim (anchored-serving notes scan r a now i s m c serves) [
        | inl e ↦ rw e (refl, (s, g, refl, refl, refl))
        | inr e ↦
            let (x, p, j) = serving_clients-same scan now s in
            rw e (refl, (t, get_elem?-set m.instances i s t g, x, p, j))
      ])

reconcile-retained :
    (notes : EgressNotes) (scan : Scan) (r : Rotation) (a : Attempt) (now i : ℕ) (p : ProxyConfig)
    (s : ProxySelector) (m : ProxyManager)
    → active_config s ≡ none
    → s.fail_count ≡ 0
    → has (key p) (build_excluding m i) ≡ false
    → reconcile_active notes scan r a now i (some p) s m ≡ put i (retain_active p s) m
unfolding reconcile_active vanished
reconcile-retained notes scan r a now i p s m h f e = ground (arith, h, f, e)

retained_key :
    (p : ProxyConfig) (s : ProxySelector)
    → ((c : ProxyConfig) × (active_config (retain_active p s) ≡ some c) × (key c ≡ key p))
      × ((retain_active p s).xray ≡ s.xray)
unfolding retain_active active_config
retained_key p s = elim (index_of-find (key p) s.configs) [
  | inl (f, n) ↦ rw n ((p, refl, refl), refl)
  | inr (j, c, f, n, g, h) ↦ rw n ((c, g, h), refl)
]

-- An upstream that a refresh drops from the pool while its instance has no failure counted, and
-- that no other instance serves, goes on being served: no status changes, the child is the same,
-- and the active config has the upstream's key again.
pub vanished_retained :
    (notes : EgressNotes) (scan : Scan) (r : Rotation) (a : Attempt) (now i : ℕ) (p : ProxyConfig)
    (s : ProxySelector) (m : ProxyManager)
    → get_elem? m.instances i ≡ some s
    → active_config s ≡ none
    → s.fail_count ≡ 0
    → has (key p) (build_excluding m i) ≡ false
    → let m' = reconcile_active notes scan r a now i (some p) s m in
      (m'.statuses ≡ m.statuses)
      × ((t : ProxySelector) × (c : ProxyConfig) × (get_elem? m'.instances i ≡ some t)
          × (t.xray ≡ s.xray)
          × (active_config t ≡ some c)
          × (key c ≡ key p))
vanished_retained notes scan r a now i p s m g h f e =
    let ((c, k, same), x) = retained_key p s in
    let t = retain_active p s in
    rw (reconcile-retained notes scan r a now i p s m h f e)
      (refl, (t, c, get_elem?-set m.instances i s t g, x, k, same))
