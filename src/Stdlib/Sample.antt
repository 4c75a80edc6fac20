-- ===== src/Stdlib/Sample.antt =====
-- A small concrete standard library for the tests: texts stay as they are, and one table each for
-- numbers, URLs, queries, base64 and JSON.
use v2pro_dock.Base.{
  String, false, none, some, List, [], ◌∷◌, str_eq, nat_eq, if◌then◌else◌, nat_equal, string_equal,
}
use v2pro_dock.Base.Int.{pos, negsuc}
use v2pro_dock.Stdlib.{Stdlib, Url, append}

-- A URL of a scheme at `a.example:443`, with a query.
abbrev pub sample_url : String → List (String × List String) → Url
sample_url scheme values = record {
  scheme = scheme;
  host = "a.example:443";
  hostname = "a.example";
  port = "443";
  username = "u";
  password = "";
  has_user = false;
  path = "";
  raw_query = "";
  fragment = "";
  values = values;
}

abbrev pub sample_values : List (String × List String)
sample_values =
    ("security", "tls" ∷ []) ∷ ("type", "ws" ∷ []) ∷ ("alpn", "h2" ∷ []) ∷ ("sni", "s" ∷ []) ∷ []

abbrev pub sample : Stdlib
sample = record {
  to_lower = λ s. s;
  trim_space = λ s. s;
  split = λ s sep. s ∷ [];
  atoi = λ s. if str_eq s "443" then some (pos 443) else none;
  itoa = λ z. elim z [ pos n ↦ if nat_eq n 443 then "443" else "1080" | negsuc n ↦ "-1" ];
  parse_url = λ s.
      if str_eq s "vless://a"
      then some (sample_url "vless" sample_values)
      else if str_eq s "hy2://a"
      then some (sample_url "hy2" [])
      else if str_eq s "https://a.example"
      then some (sample_url "https" [])
      else none;
  url_string = λ u. append u.scheme (append "://" u.host);
  parse_query = λ s. none;
  path_unescape = λ s. some s;
  decode64 = λ e s. none;
  encode64 = λ s. s;
  unmarshal = λ s. none;
  marshal = λ j. "json";
  sprint = λ j. "";
  join_path = λ d n. append d (append "/" n);
  base_name = λ p. if str_eq p "/x/xray" then "xray" else p;
  equal_fold = str_eq;
  unmarshal_net_tls = λ s. none;
}
