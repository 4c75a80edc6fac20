-- ===== src/Stdlib.antt =====
-- What v2proxy/subscription.go, cleanip.go and urlcheck.go use of Go's standard library. Cutting
-- and testing texts is written out; parsing and printing of URLs, numbers, base64 and JSON, and
-- Unicode's cases and blanks, are functions of a record, which the code takes as an argument.
pub mod Sample
use Prim.Native.String.{◌++◌ as append, len}
use Prim.Native.Char.{code}
use text.Mathlib.Text.{starts_with, find?, get?}
pub use Prim.Native.String.{◌++◌ as append, len}
pub use text.Mathlib.Text.{starts_with}
use v2pro_dock.Base.{
  ℕ, zero, suc, ◌+◌, ◌-◌, ◌%◌, String, Bool, true, false, ◌||◌, Option, none, some, List, [], ◌∷◌,
  ◌++◌, str_eq, ltb, nat_eq, if◌then◌else◌, nat_equal, string_equal, maybe,
}
use v2pro_dock.Base.Dict.{Dict, lookup}
use v2pro_dock.Base.Int.{ℤ}
use v2pro_dock.Json.{Json, null, bool, num, float, str, Fields}

-- `url.Values`
abbrev pub Values : Type 0
Values = Dict String (List String)

-- `Values.Get`
unfoldable pub query : Values → String → String
query q k = elim (lookup k q) [ none ↦ "" | some [] ↦ "" | some (v ∷ vs) ↦ v ]

-- A parsed `url.URL`: its fields, and what its methods `Hostname`, `Port`, `Query` and
-- `User.Username` return; without user part, both its texts are empty.
pub record Url : Type 0 where
  pub scheme : String
  pub host : String
  pub hostname : String
  pub port : String
  pub username : String
  pub password : String
  pub has_user : Bool
  pub path : String
  pub raw_query : String
  pub fragment : String
  pub values : Values

-- The four encodings that the code tries, in its order.
pub data Encoding : Type 0 where
  std raw_std url_safe raw_url_safe : Encoding

pub record Stdlib : Type 0 where
  pub to_lower : String → String
  pub trim_space : String → String
  pub split : String → String → List String
  pub atoi : String → Option ℤ
  pub itoa : ℤ → String
  pub parse_url : String → Option Url
  pub url_string : Url → String
  pub parse_query : String → Option Values
  pub path_unescape : String → Option String
  pub decode64 : Encoding → String → Option String
  pub encode64 : String → String
  pub unmarshal : String → Option Fields
  pub marshal : Json → String
  pub sprint : Json → String
  pub join_path : String → String → String
  pub base_name : String → String
  pub equal_fold : String → String → Bool
  -- `json.Unmarshal` into the struct of `vmessRank`: its `Net` and `TLS`.
  pub unmarshal_net_tls : String → Option (String × String)

-- `strings.Cut`
unfoldable pub cut : String → String → Option (String × String)
cut s sep = elim (find? s sep) [
  | none ↦ none
  | some i ↦ elim (get? s 0 i) [
    | none ↦ none
    | some before ↦ elim (get? s (i + len sep) (len s)) [
      | none ↦ none
      | some after ↦ some (before, after)
    ]
  ]
]

-- `strings.Contains`
abbrev pub contains : String → String → Bool
contains s t = elim (find? s t) [ none ↦ false | some i ↦ true ]

-- `s[:strings.LastIndex(s, c)]` for one ASCII character, if it occurs.
unfoldable pub before_last : ℕ → String → Option String
before_last c String.[] = none
before_last c (String.◌∷◌ x s) = elim (before_last c s) [
  | some t ↦ some (String.◌∷◌ x t)
  | none ↦ if nat_eq (code x) c then some "" else none
]

-- `strings.HasSuffix`
unfoldable pub has_suffix : String → String → Bool
has_suffix s t =
    if ltb (len s) (len t)
    then false
    else maybe (get? s (len s - len t) (len s)) false (λ end_text. str_eq end_text t)

-- `strings.TrimSuffix`
unfoldable pub trim_suffix : String → String → String
unfolding has_suffix
trim_suffix s t = if has_suffix s t then maybe (get? s 0 (len s - len t)) s (λ start. start) else s

-- `strings.TrimPrefix`
unfoldable pub trim_prefix : String → String → String
trim_prefix s p =
    if starts_with s p then (elim (get? s (len p) (len s)) [ none ↦ s | some t ↦ t ]) else s

-- `r == ' ' || r == '\n' || r == '\r' || r == '\t'`
abbrev pub is_blank : ℕ → Bool
is_blank c = nat_eq c 32 || nat_eq c 10 || nat_eq c 13 || nat_eq c 9

-- `strings.Map` with the function that drops blanks
unfoldable pub without_blanks : String → String
without_blanks String.[] = ""
without_blanks (String.◌∷◌ c s) =
    let rest = without_blanks s in if is_blank (code c) then rest else String.◌∷◌ c rest

-- `if mod := len(b64) % 4; mod != 0 { b64 += strings.Repeat("=", 4-mod) }`
abbrev pub repeat : ℕ → String
repeat zero = ""
repeat (suc n) = append "=" (repeat n)

unfoldable pub pad64 : String → String
pad64 s = if nat_eq (len s % 4) 0 then s else append s (repeat (4 - len s % 4))

-- The loop over the four encodings: the first that decodes.
unfoldable pub decode_any : Stdlib → String → Option String
decode_any g s = elim (g.decode64 std s) [
  | some t ↦ some t
  | none ↦ elim (g.decode64 raw_std s) [
    | some t ↦ some t
    | none ↦ elim (g.decode64 url_safe s) [ some t ↦ some t | none ↦ g.decode64 raw_url_safe s ]
  ]
]

-- `fmt.Sprint` of an entry of a `map[string]any`; a missing one is nil.
unfoldable pub sprint_any : Stdlib → Option Json → String
sprint_any g none = "<nil>"
sprint_any g (some null) = "<nil>"
sprint_any g (some (str s)) = s
sprint_any g (some (num z)) = g.itoa z
sprint_any g (some (float t)) = t
sprint_any g (some (bool b)) = if b then "true" else "false"
sprint_any g (some v) = g.sprint v
