-- ===== src/Link/Dialled/Vless.antt =====
-- The outbound of `parseVless`, v2proxy/subscription.go.
use v2pro_dock.Base.{
  String, ◌≡◌, refl, sym, ap, ◌∙◌, inl, inr, true, false, ◌||◌, none, some, arith, str_eq, eq_iff,
  Bool-cases, nat_equal, string_equal, if_cases,
}
use v2pro_dock.Base.Int.{pos}
use v2pro_dock.Json.{str, Fields, get, put, as_text, member}
use v2pro_dock.Json.Laws.{get-if, get-put_ne, get-put_self}
use v2pro_dock.Stdlib.{Stdlib, Url, Values, query, append}
use v2pro_dock.Link.{to_int, build_tls}
use v2pro_dock.Link.Dialled.{put_unless_empty-get, Dials, dial_target, network_of, alpn_of}
use v2pro_dock.Link.Vless.{
  vless_outbound, vless_stream, vless_security, vless_framing, vless_transport, vless_base,
  with_reality, reality_settings,
}

build_tls-alpn :
    (g : Stdlib) (q : Values) (t : String) → t ≡ "ws" → get "alpn" (build_tls g q t) ≡ none
unfolding build_tls get put
build_tls-alpn g q t h = ground (arith, eq_iff t "ws")

with_reality-get :
    (k : String) (q : Values) (s : Fields)
    → str_eq "flow" k ≡ false
    → str_eq "realitySettings" k ≡ false
    → get k (with_reality q s) ≡ get k s
unfolding with_reality
with_reality-get k q s f r =
    put_unless_empty-get (query q "flow") "flow" k (str (query q "flow"))
      (put "realitySettings" (reality_settings q) s) (get k s) f
      (get-put_ne "realitySettings" k (reality_settings q) s r)

-- The settings of the security stand under other keys than the network.
vless_security-network :
    (g : Stdlib) (q : Values) (t : String) (s : Fields)
    → get "network" (vless_security g q t s) ≡ get "network" s
unfolding vless_security member
vless_security-network g q t s =
    get-if "network" _ (str_eq (query q "security") "reality") _ _
      (with_reality-get "network" q s refl refl)
      (get-if "network" _ (str_eq (query q "security") "tls") _ _
        (get-put_ne "tlsSettings" "network" _ s refl) refl)

-- `transport + "Settings"` is not the network's key.
upgrade_key :
    (t : String)
    → (str_eq t "splithttp" || str_eq t "httpupgrade") ≡ true
    → str_eq (append t "Settings") "network" ≡ false
upgrade_key t h = elim (Bool-cases (str_eq t "splithttp")) [
  | inl e ↦ rw ((eq_iff t "splithttp").0 e) refl
  | inr e ↦ rw ((eq_iff t "httpupgrade").0 (ground arith)) refl
]

-- A stream that keeps its network `t`, and has the network "ws".
kept_network :
    (t : String) (s : Fields) (x : Fields)
    → get "network" s ≡ some (str t)
    → get "network" x ≡ get "network" s
    → as_text (get "network" x) ≡ "ws"
    → t ≡ "ws"
kept_network t s x h e k = sym (ap as_text (e ∙ h)) ∙ k

IfWs : String → Fields → Type 0
IfWs t x = as_text (get "network" x) ≡ "ws" → t ≡ "ws"

http_is_not_ws : {A : Type 0} → ◌≡◌ {A = String} "http" "ws" → A
http_is_not_ws h = ground (arith, eq_iff "http" "ws")

vless_framing-network :
    (g : Stdlib) (q : Values) (t : String) (s : Fields)
    → get "network" s ≡ some (str t)
    → IfWs t (vless_framing g q t s)
unfolding vless_framing IfWs
vless_framing-network g q t s h =
    if_cases (IfWs t) (str_eq t "ws") _ _ (λ e _. (eq_iff t "ws").0 e)
      (λ _.
        if_cases (IfWs t) (str_eq t "grpc") _ _
          (λ _. kept_network t s _ h (get-put_ne "grpcSettings" "network" _ s refl))
          (λ _.
            if_cases (IfWs t) (str_eq t "http" || str_eq t "h2") _ _
              (λ _ k. http_is_not_ws (
                sym (
                  ap as_text (
                    get-put_ne "httpSettings" "network" _ _ refl
                    ∙ get-put_self "network" (str "http") s))
                ∙ k))
              (λ _.
                if_cases (IfWs t) (str_eq t "splithttp" || str_eq t "httpupgrade") _ _
                  (λ e. kept_network t s _ h (get-put_ne _ "network" _ s (upgrade_key t e)))
                  (λ _. kept_network t s s h refl))))

vless_security-tls :
    (g : Stdlib) (q : Values) (t : String) (s : Fields)
    → t ≡ "ws"
    → get "tlsSettings" s ≡ none
    → member "alpn" (get "tlsSettings" (vless_security g q t s)) ≡ none
unfolding vless_security member
vless_security-tls g q t s h n =
    if_cases (λ x. member "alpn" (get "tlsSettings" x) ≡ none)
      (str_eq (query q "security") "reality") _ _
      (λ _. ap (member "alpn") (with_reality-get "tlsSettings" q s refl refl ∙ n))
      (λ _.
        if_cases (λ x. member "alpn" (get "tlsSettings" x) ≡ none)
          (str_eq (query q "security") "tls") _ _
          (λ _. ap (member "alpn") (get-put_self "tlsSettings" _ s) ∙ build_tls-alpn g q t h)
          (λ _. ap (member "alpn") n))

vless_framing-tls :
    (g : Stdlib) (q : Values) (t : String)
    → t ≡ "ws"
    → get "tlsSettings" (vless_framing g q t (vless_base q)) ≡ none
unfolding vless_framing get vless_base
vless_framing-tls g q t h = rw h refl

vless_stream-alpn :
    (g : Stdlib) (q : Values)
    → as_text (get "network" (vless_stream g q)) ≡ "ws"
    → member "alpn" (get "tlsSettings" (vless_stream g q)) ≡ none
unfolding vless_stream vless_base get IfWs
vless_stream-alpn g q h = vless_security-tls g q t framed is_ws (vless_framing-tls g q t is_ws)
  where
    t : String
    t = vless_transport q

    framed : Fields
    framed = vless_framing g q t (vless_base q)

    is_ws : t ≡ "ws"
    is_ws =
        vless_framing-network g q t (vless_base q) refl
          (sym (ap as_text (vless_security-network g q t framed)) ∙ h)

pub vless_outbound-Dials :
    (g : Stdlib) (u : Url) → Dials (vless_outbound g u) u.hostname (to_int g u.port (pos 443))
unfolding vless_outbound dial_target network_of alpn_of
vless_outbound-Dials g u = record { target = refl; tag = refl; alpn = vless_stream-alpn g u.values }
