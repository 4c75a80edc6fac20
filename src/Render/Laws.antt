-- ===== src/Render/Laws.antt =====
-- What the rendered configuration keeps of the upstream, and when it holds a relay.
use v2pro_dock.Base.{
  ℕ, String, ◌≡◌, refl, ap, ◌∙◌, true, false, Option, none, some, str_eq, if◌then◌else◌, nat_equal,
  string_equal, if_cases, maybe_cases,
}
use v2pro_dock.Json.{Json, str, obj, Fields, get, put, member, first, as_text}
use v2pro_dock.Json.Laws.{get-put_ne, get-put_self}
use v2pro_dock.Stdlib.{Stdlib}
use v2pro_dock.Link.Dialled.{dial_target, target_in}
use v2pro_dock.Render.{RelayCfg, chain_fragment, is_filled, upstream_out_tag}
use v2pro_dock.Render.Config.{
  Setup, armed, outbounds, tagged, fragments, upstream, full_config, full_config_of,
}

dial_target-put :
    (k : String) (v : Json) (fs : Fields)
    → str_eq k "settings" ≡ false
    → dial_target (obj (put k v fs)) ≡ dial_target (obj fs)
unfolding dial_target
dial_target-put k v fs h = ap target_in (get-put_ne k "settings" v fs h)

-- An outbound that dials what `out` dials.
DialsAs : Fields → Fields → Type 0
DialsAs out x = dial_target (obj x) ≡ dial_target (obj out)

tagged-dial_target :
    (g : Stdlib) (r : Option RelayCfg) (out : Fields) → DialsAs out (tagged g r out)
unfolding tagged DialsAs
tagged-dial_target g r out = maybe_cases (DialsAs out) r out _ refl (λ rc.
    if_cases (DialsAs out) (is_filled g (as_text (get "tag" out))) _ _ (λ _. refl)
      (λ _. dial_target-put "tag" (str upstream_out_tag) out refl))

chain_fragment-dial_target : (out : Fields) → DialsAs out (chain_fragment out)
unfolding chain_fragment DialsAs
chain_fragment-dial_target out = dial_target-put "streamSettings" _ out refl

-- Neither the tag nor the fragment carrier changes which server the upstream dials.
pub upstream-dial_target :
    (g : Stdlib) (e : Setup) (r : Option RelayCfg) (out : Fields)
    → dial_target (obj (upstream g e r out)) ≡ dial_target (obj out)
unfolding upstream DialsAs
upstream-dial_target g e r out =
    if_cases (DialsAs out) (fragments g e (tagged g r out)) _ _
      (λ _. chain_fragment-dial_target (tagged g r out) ∙ tagged-dial_target g r out)
      (λ _. tagged-dial_target g r out)

-- The first outbound of the configuration, xray's default, is the upstream.
pub first_outbound :
    (g : Stdlib) (e : Setup) (p : ℕ) (out : Fields)
    → first (member "outbounds" (some (full_config g e p out)))
      ≡ some (obj (upstream g e (armed g e) out))
unfolding full_config member first outbounds
first_outbound g e p out = refl

-- Without a relay the relay's port is not read.
full_config_of-none :
    (g : Stdlib) (e : Setup) (p : ℕ) (out : Fields)
    → full_config_of g e none p out
      ≡ full_config_of g (record e { relay_url = ""; relay_port = 0 }) none p out
unfolding full_config_of
full_config_of-none g e p out = refl

-- Where no relay is armed, as its URL is unset or refused or its port is 0, the configuration is the
-- one of an environment without a relay: the feature that is off changes nothing.
pub full_config-off :
    (g : Stdlib) (e : Setup) (p : ℕ) (out : Fields)
    → armed g e ≡ none
    → full_config g e p out ≡ full_config g (record e { relay_url = ""; relay_port = 0 }) p out
unfolding full_config armed
full_config-off g e p out h = ap (λ r. full_config_of g e r p out) h ∙ full_config_of-none g e p out

pub put_tag-filled :
    (g : Stdlib) (out : Fields)
    → is_filled g "proxy" ≡ true
    → is_filled g (
        as_text (
          get "tag" (
            if is_filled g (as_text (get "tag" out))
            then out
            else put "tag" (str upstream_out_tag) out)))
      ≡ true
put_tag-filled g out h =
    if_cases (λ x. is_filled g (as_text (get "tag" x)) ≡ true)
      (is_filled g (as_text (get "tag" out))) _ _ (λ k. k)
      (λ k. ap (λ v. is_filled g (as_text v)) (get-put_self "tag" (str upstream_out_tag) out) ∙ h)

pub upstream-tag :
    (g : Stdlib) (e : Setup) (r : Option RelayCfg) (out : Fields)
    → get "tag" (upstream g e r out) ≡ get "tag" (tagged g r out)
unfolding upstream chain_fragment
upstream-tag g e r out =
    if_cases (λ x. get "tag" x ≡ get "tag" (tagged g r out)) (fragments g e (tagged g r out)) _ _
      (λ _. get-put_ne "streamSettings" "tag" _ (tagged g r out) refl) (λ _. refl)
