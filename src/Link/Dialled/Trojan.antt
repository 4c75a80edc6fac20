-- ===== src/Link/Dialled/Trojan.antt =====
-- The outbound of `parseTrojan` and of `parseSS`, v2proxy/subscription.go.
use v2pro_dock.Base.{
  String, ◌≡◌, refl, sym, ap, ◌∙◌, false, none, some, str_eq, nat_equal, string_equal, if_cases,
}
use v2pro_dock.Base.Int.{pos}
use v2pro_dock.Json.{str, obj, Fields, get, as_text, member}
use v2pro_dock.Json.Laws.{get-put_ne}
use v2pro_dock.Stdlib.{Stdlib, Url, Values}
use v2pro_dock.Link.{to_int}
use v2pro_dock.Link.Dialled.{Dials, dial_target, network_of, alpn_of}
use v2pro_dock.Link.Trojan.{
  trojan_outbound, trojan_stream, trojan_framing, trojan_tls, trojan_transport, trojan_base,
}
use v2pro_dock.Link.Shadowsocks.{ss_outbound}

pub ss_outbound-Dials :
    (g : Stdlib) (u : Url) → Dials (ss_outbound g u) u.hostname (to_int g u.port (pos 443))
unfolding ss_outbound dial_target network_of alpn_of
ss_outbound-Dials g u = record { target = refl; tag = refl; alpn = λ h. refl }

-- The settings of the framing stand under other keys.
trojan_framing-get :
    (k : String) (q : Values) (t : String) (s : Fields)
    → str_eq "wsSettings" k ≡ false
    → str_eq "grpcSettings" k ≡ false
    → get k (trojan_framing q t s) ≡ get k s
unfolding trojan_framing
trojan_framing-get k q t s w g =
    if_cases (λ x. get k x ≡ get k s) (str_eq t "ws") _ _ (λ _. get-put_ne "wsSettings" k _ s w)
      (λ _.
        if_cases (λ x. get k x ≡ get k s) (str_eq t "grpc") _ _
          (λ _. get-put_ne "grpcSettings" k _ s g) (λ _. refl))

trojan_tls-alpn : (q : Values) (t : String) → t ≡ "ws" → get "alpn" (trojan_tls q t) ≡ none
unfolding trojan_tls get
trojan_tls-alpn q t h = rw h refl

trojan_stream-network :
    (q : Values) → get "network" (trojan_stream q) ≡ some (str (trojan_transport q))
unfolding trojan_stream get
trojan_stream-network q =
    trojan_framing-get "network" q (trojan_transport q) (trojan_base q) refl refl

trojan_stream-tls :
    (q : Values)
    → get "tlsSettings" (trojan_stream q) ≡ some (obj (trojan_tls q (trojan_transport q)))
unfolding trojan_stream get
trojan_stream-tls q =
    trojan_framing-get "tlsSettings" q (trojan_transport q) (trojan_base q) refl refl

trojan_stream-alpn :
    (q : Values)
    → as_text (get "network" (trojan_stream q)) ≡ "ws"
    → member "alpn" (get "tlsSettings" (trojan_stream q)) ≡ none
unfolding member
trojan_stream-alpn q h =
    rw (trojan_stream-tls q) (trojan_tls-alpn q _ (sym (ap as_text (trojan_stream-network q)) ∙ h))

pub trojan_outbound-Dials :
    (g : Stdlib) (u : Url) → Dials (trojan_outbound g u) u.hostname (to_int g u.port (pos 443))
unfolding trojan_outbound dial_target network_of alpn_of
trojan_outbound-Dials g u = record { target = refl; tag = refl; alpn = trojan_stream-alpn u.values }
