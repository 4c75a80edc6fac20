-- ===== src/Upkeep/Recovery.antt =====
-- What a recovery reaches, and how many rounds it makes.
use v2pro_dock.Base.{
  ℕ, String, ◌≡◌, refl, false, Option, none, some, List, [], ◌∷◌, arith, nat_equal, string_equal,
}
use v2pro_dock.Base.Dict.{Dict, has}
use v2pro_dock.Pool.{ProxyConfig, key}
use v2pro_dock.Selector.{ProxySelector, active_config}
use v2pro_dock.Switch.{SwitchError}
use v2pro_dock.Switch.Outcome.{switch_avoids_excluded}
use v2pro_dock.Manager.{ProxyManager, build_excluding}
use v2pro_dock.Manager.Uniqueness.{Holds, build_excluding_lem}
use v2pro_dock.Upkeep.{Attempt, switch_instance, recovered, recover_instance}

-- A switch of an instance that excludes the keys that the others serve, and that succeeds, never
-- takes a config that another instance served when the keys were collected.
pub switch_unique :
    (a : Attempt) (i : ℕ) (s : ProxySelector) (m : ProxyManager) (c : ProxyConfig) (p : ℕ)
    → (switch_instance a (build_excluding m i) s).0 ≡ none
    → active_config (switch_instance a (build_excluding m i) s).1 ≡ some c
    → ¬ Holds m.instances 0 (key c) i p
unfolding switch_instance
switch_unique a i s m c p h e holds =
    let ((d, x, f), _, _, _, _) =
      switch_avoids_excluded a.world a.later (build_excluding m i) a.probes a.during s h in
    let same : c ≡ d = cc (e, x) in
    let t = (build_excluding_lem m i (key c)).1 (p, holds) in cc (same, t, f)

not_recovered_again :
    (i : ℕ) (used : Dict String ℕ) (r : Option SwitchError × ProxySelector)
    (rest other : ProxySelector → ProxyManager → ProxyManager) (m : ProxyManager)
    → (r.0 ≡ none → (c : ProxyConfig) × (active_config r.1 ≡ some c) × (has (key c) used ≡ false))
    → recovered i used r rest m ≡ recovered i used r other m
unfolding recovered
not_recovered_again i used (some e, s) rest other m h = refl
not_recovered_again i used (none, s) rest other m h = let (c, a, f) = h refl in ground (arith, a, f)

-- However many further rounds a recovery may make, it makes none: a switch that succeeds has
-- already avoided the keys that the check after it compares with.
pub recover_once :
    (a : Attempt) (more : List Attempt) (i : ℕ) (s : ProxySelector) (m : ProxyManager)
    → recover_instance (a ∷ more) i s m ≡ recover_instance (a ∷ []) i s m
unfolding recover_instance
recover_once a more i s m = not_recovered_again i (build_excluding m i) _ _ _ m (λ e.
    (switch_avoids_excluded a.world a.later (build_excluding m i) a.probes a.during s
      (unfold switch_instance in e)).0)
