-- ===== src/Link/Shadowsocks.antt =====
-- `parseSS` of v2proxy/subscription.go.
use v2pro_dock.Base.{
  String, Bool, not, ◌||◌, none, some, [], ◌∷◌, str_eq, if◌then◌else◌, nat_equal, string_equal,
}
use v2pro_dock.Base.Int.{pos}
use v2pro_dock.Json.{Json, str, num, array, object, fields}
use v2pro_dock.Stdlib.{Stdlib, Url, std, cut}
use v2pro_dock.Link.{Parsed, ok, refused, unsupported_cipher, to_int, or_text, outbound, config}

-- `supportedSS`
unfoldable pub supported_ss : String → Bool
supported_ss m =
    str_eq m "aes-128-gcm"
    || str_eq m "aes-256-gcm"
    || str_eq m "chacha20-poly1305"
    || str_eq m "chacha20-ietf-poly1305"
    || str_eq m "xchacha20-ietf-poly1305"
    || str_eq m "2022-blake3-aes-128-gcm"
    || str_eq m "2022-blake3-aes-256-gcm"
    || str_eq m "2022-blake3-chacha20-poly1305"

-- The decoded `method:password`, or two empty texts; `strings.SplitN(s, ":", 2)` gives two parts
-- where `strings.Cut` succeeds, the same two.
unfoldable pub ss_decoded : Stdlib → String → String × String
unfolding cut
ss_decoded g user = elim (g.decode64 std user) [
  | none ↦ ("", "")
  | some t ↦ elim (cut t ":") [ none ↦ ("", "") | some p ↦ p ]
]

-- Without a method, the whole user part is the password of a default cipher.
unfoldable pub ss_credentials : Stdlib → String → String × String
unfolding ss_decoded
ss_credentials g user =
    if str_eq (ss_decoded g user).0 "" then ("chacha20-ietf-poly1305", user) else ss_decoded g user

unfoldable pub ss_outbound : Stdlib → Url → Json
unfolding ss_credentials to_int
ss_outbound g u =
    outbound "shadowsocks"
      (object (
        (
          "servers",
          array (
              object (
                ("address", str u.hostname)
                ∷ ("port", num (to_int g u.port (pos 443)))
                ∷ ("method", str (ss_credentials g u.username).0)
                ∷ ("password", str (ss_credentials g u.username).1)
                ∷ [])
              ∷ []),
        )
        ∷ []))
      (fields (("network", str "tcp") ∷ []))

-- `parseSS`
unfoldable pub parse_ss : Stdlib → Url → String → String → Parsed
unfolding supported_ss ss_credentials ss_outbound to_int config
parse_ss g u raw name =
    if not (supported_ss (ss_credentials g u.username).0)
    then refused (unsupported_cipher (ss_credentials g u.username).0)
    else ok (
        config g (or_text name u.hostname) raw u.hostname (to_int g u.port (pos 443))
          (ss_outbound g u))
