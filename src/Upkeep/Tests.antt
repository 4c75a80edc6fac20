-- ===== src/Upkeep/Tests.antt =====
-- Two instances of one manager, each of which serves an upstream.
use v2pro_dock.Base.{◌≢◌, String, arith, eq_iff, sym, ap, ◌∙◌, zero, suc}
use v2pro_dock.Upkeep.Distinct.{IsDistinct}
use v2pro_dock.Base.{◌≡◌, refl, inr, false, none, some, [], ◌∷◌, nat_equal, string_equal, get_elem?}
use v2pro_dock.Base.Dict.{lookup, insert}
use v2pro_dock.Base.Int.{negsuc}
use v2pro_dock.Selector.{ProxySelector, active_config, serving_clients, index_of}
use v2pro_dock.Pool.{ProxyConfig, key}
use v2pro_dock.Manager.{ProxyManager, build_excluding, zero_status}
use v2pro_dock.Manager.Uniqueness.{Holds}
use v2pro_dock.Upkeep.{Attempt, Rotation, reconcile_active, recover_instance, switch_instance}
use v2pro_dock.Upkeep.Recovery.{recover_once, switch_unique}
use v2pro_dock.Upkeep.Anchoring.{KeptAs, serving_untouched}
use v2pro_dock.Fixtures.{conf_a, conf_b, conf_c, good, serving_a, serving_b, up, one_client}

abbrev pair : ProxyManager
pair = record {
  instances = serving_a ∷ serving_b ∷ [];
  statuses = zero_status ∷ zero_status ∷ [];
  sub_urls = [];
  src_brk = record { fails = []; skip = [] };
  relay_alive = false;
  agg_relay = none;
}

abbrev pub attempt : Attempt
attempt = record { world = up; later = up; probes = (0, good) ∷ []; during = λ s. s }

switch_unique_example : ¬ Holds pair.instances 0 (key conf_c) 0 1
unfolding switch_instance lookup build_excluding active_config insert key index_of
switch_unique_example = switch_unique attempt 0 serving_a pair conf_c 1 refl refl

recover_once_example :
    recover_instance (attempt ∷ attempt ∷ []) 0 serving_a pair
    ≡ recover_instance (attempt ∷ []) 0 serving_a pair
recover_once_example = recover_once attempt (attempt ∷ []) 0 serving_a pair

abbrev rotation : Rotation
rotation = record { probe = λ c. good; expired = λ i. false }

serving_untouched_example :
    ((reconcile_active [] one_client rotation attempt 90 0 none serving_a pair).statuses
      ≡ zero_status ∷ zero_status ∷ [])
    × KeptAs serving_a (
        get_elem?
          (reconcile_active [] one_client rotation attempt 90 0 none serving_a pair).instances
          0)
unfolding active_config serving_clients
serving_untouched_example =
    serving_untouched [] one_client rotation attempt 90 0 none serving_a pair conf_a refl refl
      (inr refl)

-- A refresh has dropped the upstream that the first instance served.
abbrev orphan : ProxySelector
orphan = record serving_a { configs = conf_b ∷ []; active_index = negsuc 0 }

abbrev refreshed : ProxyManager
refreshed = record pair { instances = orphan ∷ serving_b ∷ [] }

-- The first instance has failed twice.
abbrev pub failing_a : ProxySelector
failing_a = record serving_a { fail_count = 2 }

abbrev pub strained : ProxyManager
strained = record pair { instances = failing_a ∷ serving_b ∷ [] }

keys_differ : ◌≢◌ {A = String} "a.example:443" "b.example:443"
keys_differ h = ground (arith, (eq_iff "a.example:443" "b.example:443").1 h)

serves_a :
    (s : ProxySelector) (c : ProxyConfig)
    → some failing_a ≡ some s
    → active_config s ≡ some c
    → key c ≡ "a.example:443"
unfolding active_config key
serves_a s c g h =
    let e : s ≡ failing_a = cc g in
    let f : conf_a ≡ c = cc (sym (ap active_config e) ∙ h) in ap key (sym f)

serves_b :
    (s : ProxySelector) (c : ProxyConfig)
    → some serving_b ≡ some s
    → active_config s ≡ some c
    → key c ≡ "b.example:443"
unfolding active_config key
serves_b s c g h =
    let e : s ≡ serving_b = cc g in
    let f : conf_b ≡ c = cc (sym (ap active_config e) ∙ h) in ap key (sym f)

pub distinct : IsDistinct strained.instances
distinct zero zero s t c d gp gq hc hd e = refl
distinct zero (suc zero) s t c d gp gq hc hd e =
    absurd (keys_differ (sym (serves_a s c gp hc) ∙ e ∙ serves_b t d gq hd))
distinct (suc zero) zero s t c d gp gq hc hd e =
    absurd (keys_differ (sym (serves_a t d gq hd) ∙ sym e ∙ serves_b s c gp hc))
distinct (suc zero) (suc zero) s t c d gp gq hc hd e = refl
distinct (suc (suc p)) q s t c d gp gq hc hd e = absurd (cc gp)
distinct zero (suc (suc q)) s t c d gp gq hc hd e = absurd (cc gq)
distinct (suc zero) (suc (suc q)) s t c d gp gq hc hd e = absurd (cc gq)
