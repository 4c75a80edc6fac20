-- ===== src/Selector/Health.antt =====
-- When a series of health checks gives an instance up.
use v2pro_dock.Base.{
  ℕ, ◌+◌, ◌≤◌, ◌≡◌, refl, ◌∙◌, ◌↔◌, Bool, true, false, some, List, [], ◌∷◌, arith, ltb,
  if◌then◌else◌, nat_equal, string_equal,
}
use v2pro_dock.Pool.{ProxyConfig}
use v2pro_dock.Probe.{HealthResult, probe_inconclusive}
use v2pro_dock.Egress.{EgressNotes}
use v2pro_dock.Selector.{ProxySelector, active_config, serving_traffic, health_check}

-- What one call of `HealthCheck` reads.
pub record Check : Type 0 where
  pub notes : EgressNotes
  pub now : ℕ
  pub later : ℕ
  pub result : HealthResult

abbrev pub check : Check → ProxySelector → Bool × ProxySelector
check c s = health_check c.notes c.now c.later c.result s

-- What a check says of the upstream: it works, nothing, or it fails.
pub data Evidence : Type 0 where
  works silent fails : Evidence

unfoldable pub evidence : ProxySelector → Check → Evidence
evidence s c =
    if serving_traffic c.notes c.now s
    then works
    else if c.result.working
    then works
    else if probe_inconclusive c.result
    then silent
    else fails

-- The failures since the upstream last worked. The newest check stands first.
unfoldable pub strikes : ProxySelector → List Check → ℕ
strikes s [] = s.fail_count
strikes s (c ∷ older) =
    let before = strikes s older in
    elim (evidence s c) [ works ↦ 0 | silent ↦ before | fails ↦ before + 1 ]

-- The successes since the upstream last failed.
unfoldable pub streak : ProxySelector → List Check → ℕ
streak s [] = s.ok_streak
streak s (c ∷ older) =
    let before = streak s older in
    elim (evidence s c) [ works ↦ before + 1 | silent ↦ before | fails ↦ 0 ]

-- The state after the checks.
unfoldable pub checked : ProxySelector → List Check → ProxySelector
checked s [] = s
checked s (c ∷ older) = (check c (checked s older)).1

pub record SameInstance (s t : ProxySelector) : Type 0 where
  pub configs : t.configs ≡ s.configs
  pub active : t.active_index ≡ s.active_index
  pub http : t.http_port ≡ s.http_port
  pub socks : t.socks_port ≡ s.socks_port

pub check-SameInstance : (c : Check) (s : ProxySelector) → SameInstance s (check c s).1
unfolding health_check
check-SameInstance c s = ground arith

checked-SameInstance : (s : ProxySelector) (cs : List Check) → SameInstance s (checked s cs)
unfolding checked
checked-SameInstance s [] = record { configs = refl; active = refl; http = refl; socks = refl }
checked-SameInstance s (c ∷ older) =
    let a = checked-SameInstance s older in
    let b = check-SameInstance c (checked s older) in
    record {
      configs = b.configs ∙ a.configs;
      active = b.active ∙ a.active;
      http = b.http ∙ a.http;
      socks = b.socks ∙ a.socks;
    }

evidence-same : (c : Check) (s t : ProxySelector) → SameInstance s t → evidence t c ≡ evidence s c
unfolding evidence serving_traffic
evidence-same c s t h = rw (h.http, h.socks) refl

pub active-same : (s t : ProxySelector) → SameInstance s t → active_config t ≡ active_config s
unfolding active_config
active-same s t h = rw (h.configs, h.active) refl

-- One check in terms of its evidence.
check_lem :
    (c : Check) (s : ProxySelector) (u : ProxyConfig)
    → active_config s ≡ some u
    → ((check c s).1.fail_count
        ≡ elim (evidence s c) [ works ↦ 0 | silent ↦ s.fail_count | fails ↦ s.fail_count + 1 ])
      × ((check c s).1.ok_streak
          ≡ elim (evidence s c) [ works ↦ s.ok_streak + 1 | silent ↦ s.ok_streak | fails ↦ 0 ])
      × ((check c s).0
          ≡ elim (evidence s c) [ works ↦ true | silent ↦ true | fails ↦ ltb (s.fail_count + 1) 3 ])
unfolding health_check evidence
check_lem c s u h = ground (arith, h)

-- Over any series of checks of an instance that serves an upstream, the counters are the failures
-- since it last worked and the successes since it last failed, where a probe that the target
-- throttled or forbade counts neither way.
pub checked_counters :
    (s : ProxySelector) (cs : List Check) (u : ProxyConfig)
    → active_config s ≡ some u
    → ((checked s cs).fail_count ≡ strikes s cs) × ((checked s cs).ok_streak ≡ streak s cs)
unfolding checked strikes streak
checked_counters s [] u h = (refl, refl)
checked_counters s (c ∷ older) u h =
    let same = checked-SameInstance s older in
    let ih = checked_counters s older u h in
    let step = check_lem c (checked s older) u (active-same s (checked s older) same ∙ h) in
    ground (arith, evidence-same c s (checked s older) same, ih, step)

-- The newest check of a series gives the instance up exactly when it is a failure and at least the
-- third since the upstream last worked.
pub gives_up_iff :
    (s : ProxySelector) (c : Check) (older : List Check) (u : ProxyConfig)
    → active_config s ≡ some u
    → ((check c (checked s older)).0 ≡ false)
      ↔ ((evidence s c ≡ fails) × (3 ≤ strikes s (c ∷ older)))
unfolding strikes
gives_up_iff s c older u h =
    let same = checked-SameInstance s older in
    let ih = checked_counters s older u h in
    let step = check_lem c (checked s older) u (active-same s (checked s older) same ∙ h) in
    ground (arith, evidence-same c s (checked s older) same, ih, step)
