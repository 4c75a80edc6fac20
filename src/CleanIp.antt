-- ===== src/CleanIp.antt =====
-- v2proxy/cleanip.go: dialling a working address in the place of a blocked one. The environment
-- variable is an argument.
pub mod Laws
use v2pro_dock.Base.{
  ℕ, zero, suc, ◌+◌, ◌-◌, ◌*◌, ◌/◌, ◌%◌, ◌^◌, ◌≤◌, ◌<◌, min, max, String, ◌≡◌, refl, sym, ap, ◌∙◌,
  ◌≢◌, ◌↔◌, ◌⊎◌, inl, inr, Bool, true, false, not, ◌&&◌, ◌||◌, Option, none, some, List, [], ◌∷◌,
  ◌++◌, map, arith, str_eq, eq_iff, ltb, leb, nat_eq, if◌then◌else◌, ltb→lt, leb→le, nat_eq_iff,
  Bool-cases, Option-cases, ◌==◌, ==_refl, Eq, nat_equal, string_equal, if_cases, maybe, length,
  get_elem?, set, take, head?, is_some, All, length-append, length-set, All-append, All-map,
  All-get,
}
use v2pro_dock.Base.Dict.{
  Dict, lookup, insert, delete, has, dict_laws, lookup-delete, lookup-insert, lookup-insert_self,
  lookup-insert_ne, lookup-delete_self, lookup-delete_ne, lookup-nil,
}
use v2pro_dock.Json.{str, Fields, get, put, obj, as_text}
use v2pro_dock.Stdlib.{
  Stdlib, Url, append, starts_with, cut, trim_prefix, without_blanks, pad64, decode_any,
}
use text.Mathlib.Text.{find?}

-- One entry of `CLEAN_IP_MAP`, `blocked=working`; a malformed one is ignored.
unfoldable pub add_entry : Stdlib → Dict String String → String → Dict String String
unfolding cut
add_entry g out entry = maybe (cut entry "=") out (λ p.
    if str_eq (g.to_lower (g.trim_space p.0)) "" || str_eq (g.trim_space p.1) ""
    then out
    else insert (g.to_lower (g.trim_space p.0)) (g.trim_space p.1) out)

add_entries : Stdlib → Dict String String → List String → Dict String String
unfolding add_entry
add_entries g out [] = out
add_entries g out (e ∷ es) = add_entries g (add_entry g out e) es

-- `cleanIPMap`; an empty map stands for nil, which the code tells from it nowhere.
unfoldable pub clean_ip_map : Stdlib → String → Dict String String
unfolding add_entries
clean_ip_map g env =
    if str_eq (g.trim_space env) "" then [] else add_entries g [] (g.split (g.trim_space env) ",")

-- `net.JoinHostPort`
unfoldable pub join_host_port : String → String → String
join_host_port host port = elim (find? host ":") [
  | none ↦ append host (append ":" port)
  | some _ ↦ append "[" (append host (append "]:" port))
]

-- The base64 text of a vmess link, without blanks and padded, decoded.
unfoldable pub vmess_payload : Stdlib → String → Option String
unfolding trim_prefix without_blanks pad64 decode_any
vmess_payload g raw = decode_any g (pad64 (without_blanks (trim_prefix raw "vmess://")))

-- The link with another value in its field `add`.
unfoldable pub with_add : Stdlib → String → Fields → String
with_add g gear fs = append "vmess://" (g.encode64 (g.marshal (obj (put "add" (str gear) fs))))

-- `rewriteVmessAdd` of a payload that decodes
unfoldable pub rewrite_fields : Stdlib → String → Dict String String → Fields → String
unfolding with_add
rewrite_fields g raw m fs = elim (lookup (g.to_lower (g.trim_space (as_text (get "add" fs)))) m) [
  | none ↦ raw
  | some gear ↦ with_add g gear fs
]

unfoldable pub rewrite_vmess_add : Stdlib → String → Dict String String → String
unfolding rewrite_fields vmess_payload
rewrite_vmess_add g raw m = elim (vmess_payload g raw) [
  | none ↦ raw
  | some data_text ↦ elim (g.unmarshal data_text) [
    | none ↦ raw
    | some fs ↦ rewrite_fields g raw m fs
  ]
]

-- The URL with another host, and its port if it has one.
unfoldable pub with_host : Stdlib → String → Url → String
unfolding join_host_port
with_host g gear u =
    if str_eq u.port ""
    then g.url_string (record u { host = gear })
    else g.url_string (record u { host = join_host_port gear u.port })

unfoldable pub rewrite_url : Stdlib → String → Dict String String → String
unfolding with_host
rewrite_url g raw m = elim (g.parse_url raw) [
  | none ↦ raw
  | some u ↦ elim (lookup (g.to_lower u.hostname) m) [ none ↦ raw | some gear ↦ with_host g gear u ]
]

-- `rewriteCleanIP`
unfoldable pub rewrite_clean_ip : Stdlib → String → Dict String String → String
unfolding rewrite_vmess_add rewrite_url
rewrite_clean_ip g raw [] = raw
rewrite_clean_ip g raw (e ∷ m) =
    if starts_with raw "vmess://"
    then rewrite_vmess_add g raw (e ∷ m)
    else rewrite_url g raw (e ∷ m)
