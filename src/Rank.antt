-- ===== src/Rank.antt =====
-- How resistant a share link is to active probing: `dpiRank` of v2proxy/subscription.go.
pub mod Tiers
pub mod Tests
use v2pro_dock.Base.{
  ℕ, String, Bool, false, ◌||◌, none, some, [], str_eq, if◌then◌else◌, nat_equal, string_equal,
  maybe,
}
use v2pro_dock.Stdlib.{Stdlib, Values, query, std, cut, contains, before_last}

abbrev pub rank_reality : ℕ
rank_reality = 100

abbrev pub rank_trojan : ℕ
rank_trojan = 80

abbrev pub rank_vmess_tls : ℕ
rank_vmess_tls = 60

abbrev pub rank_framed : ℕ
rank_framed = 40

abbrev pub rank_vmess_raw : ℕ
rank_vmess_raw = 20

abbrev pub rank_ss2022 : ℕ
rank_ss2022 = 10

abbrev pub rank_raw : ℕ
rank_raw = 0

-- `queryOf`
unfoldable pub query_of : Stdlib → String → Values
unfolding cut
query_of g rest = elim (cut rest "?") [
  | none ↦ []
  | some (before, after) ↦
      if str_eq after "" then [] else (elim (g.parse_query after) [ none ↦ [] | some q ↦ q ])
]

-- `pathUnescape`
unfoldable pub path_unescape : Stdlib → String → String
path_unescape g s = elim (g.path_unescape s) [ none ↦ s | some d ↦ d ]

-- `case "ws", "http", "h2", "grpc"`
abbrev pub is_framed : String → Bool
is_framed t = str_eq t "ws" || str_eq t "http" || str_eq t "h2" || str_eq t "grpc"

-- The two switches of `vmessRank`
unfoldable pub net_tls_rank : Stdlib → String → String → ℕ
net_tls_rank g net tls =
    if str_eq (g.to_lower tls) "reality"
    then rank_reality
    else if str_eq (g.to_lower tls) "tls"
    then (if is_framed (g.to_lower net) then rank_vmess_tls else rank_framed)
    else if is_framed (g.to_lower net)
    then rank_framed
    else rank_vmess_raw

-- `vmessRank`
unfoldable pub vmess_rank : Stdlib → String → ℕ
unfolding net_tls_rank path_unescape
vmess_rank g body =
    maybe (g.decode64 std (path_unescape g body)) rank_vmess_raw
      (λ decoded. maybe (g.unmarshal_net_tls decoded) rank_vmess_raw (λ p. net_tls_rank g p.0 p.1))

-- The user part before the last `@`, decoded if it is base64 of a `method:password`.
unfoldable pub ss_userinfo : Stdlib → String → String
unfolding before_last path_unescape
ss_userinfo g rest =
    let userinfo = maybe (before_last b'@' rest) rest (λ t. t) in
    maybe (g.decode64 std (path_unescape g userinfo)) userinfo
      (λ decoded. if contains decoded ":" then decoded else userinfo)

-- `isSS2022`
unfoldable pub is_ss2022 : Stdlib → String → Bool
unfolding ss_userinfo cut
is_ss2022 g rest = elim (cut (ss_userinfo g rest) ":") [
  | none ↦ false
  | some (method, password) ↦
      str_eq (g.to_lower method) "2022-blake3-aes-128-gcm"
      || str_eq (g.to_lower method) "2022-blake3-aes-256-gcm"
      || str_eq (g.to_lower method) "2022-blake3-chacha20-poly1305"
]

-- `case "vless", "trojan"`
unfoldable pub query_rank : Stdlib → String → Values → ℕ
unfolding query
query_rank g scheme q =
    if g.equal_fold (query q "security") "reality"
      || g.equal_fold (query q "flow") "xtls-rprx-vision"
    then rank_reality
    else if g.equal_fold scheme "trojan"
    then rank_trojan
    else if is_framed (g.to_lower (query q "type"))
    then rank_framed
    else rank_vmess_raw

-- The `switch` on the scheme
unfoldable pub scheme_rank : Stdlib → String → String → ℕ
unfolding query_rank query_of vmess_rank is_ss2022
scheme_rank g scheme rest =
    if str_eq (g.to_lower scheme) "vless" || str_eq (g.to_lower scheme) "trojan"
    then query_rank g scheme (query_of g rest)
    else if str_eq (g.to_lower scheme) "vmess"
    then vmess_rank g rest
    else if str_eq (g.to_lower scheme) "ss" || str_eq (g.to_lower scheme) "shadowsocks"
    then (if is_ss2022 g rest then rank_ss2022 else rank_raw)
    else rank_raw

-- `dpiRank`
unfoldable pub dpi_rank : Stdlib → String → ℕ
unfolding cut scheme_rank
dpi_rank g raw = maybe (cut raw "://") rank_raw (λ p. scheme_rank g p.0 p.1)
