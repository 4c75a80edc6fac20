-- ===== src/Link/Dialled/Vmess.antt =====
-- The outbound of `parseVmess`, v2proxy/subscription.go.
use v2pro_dock.Base.{
  String, ◌≡◌, refl, ap, ◌∙◌, ◌||◌, none, str_eq, nat_equal, string_equal, if_cases,
}
use v2pro_dock.Json.{end, str, obj, Fields, get, put, member}
use v2pro_dock.Json.Laws.{get-if, get-put_ne, get-put_self}
use v2pro_dock.Stdlib.{Stdlib}
use v2pro_dock.Link.Dialled.{put_unless_empty-get, Dials, dial_target, network_of, alpn_of}
use v2pro_dock.Link.Vmess.{
  vmess_outbound, vmess_stream, vmess_framing, vmess_base, vmess_tls, vmess_port, vmess_http,
  vmess_net, text_at,
}

vmess_tls-alpn : (m : Fields) → get "alpn" (vmess_tls m) ≡ none
unfolding vmess_tls get
vmess_tls-alpn m =
    put_unless_empty-get (text_at "fp" m) "fingerprint" "alpn" (str (text_at "fp" m)) _ none refl (
      put_unless_empty-get (text_at "sni" m) "serverName" "alpn" (str (text_at "sni" m)) end none
        refl refl)

vmess_framing-tls :
    (g : Stdlib) (m : Fields) (net : String) (s : Fields)
    → get "tlsSettings" (vmess_framing g m net s) ≡ get "tlsSettings" s
unfolding vmess_framing vmess_http
vmess_framing-tls g m net s =
    get-if "tlsSettings" _ (str_eq net "ws") _ _ (get-put_ne "wsSettings" "tlsSettings" _ s refl) (
      get-if "tlsSettings" _ (str_eq net "grpc") _ _
        (get-put_ne "grpcSettings" "tlsSettings" _ s refl)
        (get-if "tlsSettings" _ (str_eq net "http" || str_eq net "h2") _ _
          (get-put_ne "httpSettings" "tlsSettings" (obj (vmess_http g m))
              (put "network" (str "http") s) refl
            ∙ get-put_ne "network" "tlsSettings" (str "http") s refl)
          refl))

vmess_stream-alpn :
    (g : Stdlib) (m : Fields) → member "alpn" (get "tlsSettings" (vmess_stream g m)) ≡ none
unfolding vmess_stream member
vmess_stream-alpn g m =
    if_cases (λ x. member "alpn" (get "tlsSettings" x) ≡ none) (str_eq (text_at "tls" m) "tls") _ _
      (λ _.
        ap (member "alpn") (
          get-put_self "tlsSettings" (obj (vmess_tls m))
            (vmess_framing g m (vmess_net m) (vmess_base m)))
        ∙ vmess_tls-alpn m)
      (λ _. ap (member "alpn") (vmess_framing-tls g m (vmess_net m) (vmess_base m)))

pub vmess_outbound-Dials :
    (g : Stdlib) (m : Fields) → Dials (vmess_outbound g m) (text_at "add" m) (vmess_port g m)
unfolding vmess_outbound dial_target network_of alpn_of
vmess_outbound-Dials g m = record { target = refl; tag = refl; alpn = λ _. vmess_stream-alpn g m }
