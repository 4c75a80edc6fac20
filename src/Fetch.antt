-- ===== src/Fetch.antt =====
-- Fetching of subscriptions, v2proxy/subscription.go. What the network answers to the attempt of a
-- number at a URL is an argument.
pub mod Merge
pub mod Attempts
pub mod Pool
pub mod Reports
pub mod Tests
use v2pro_dock.Base.{
  ℕ, zero, suc, ◌+◌, String, Bool, false, ◌||◌, List, [], ◌∷◌, ◌++◌, str_eq, ltb, leb, nat_eq,
  if◌then◌else◌, nat_equal, string_equal, maybe, head?,
}
use v2pro_dock.Base.Dict.{Dict}
use Prim.Native.Char.{code}
use v2pro_dock.Stdlib.{Stdlib, Url, append, len, starts_with, without_blanks, pad64, decode_any}
use v2pro_dock.Pool.{ProxyConfig, order_by_dpi_rank}
use v2pro_dock.Link.{ok, refused}
use v2pro_dock.Link.Parse.{parse_to_xray_config}
use v2pro_dock.Rank.{dpi_rank}

abbrev pub fetch_attempts : ℕ
fetch_attempts = 2

abbrev pub fetch_max_body : ℕ
fetch_max_body = 10_485_760

-- What one request meets, in the order of the loop's checks.
pub data Reply : Type 0 where
  no_request unreachable unreadable : Reply
  answered : ℕ → String → Reply

pub data FetchError : Type 0 where
  no_attempt invalid_url net_error read_error too_large empty_body : FetchError
  http_status : ℕ → FetchError

pub data Body : Type 0 where
  body : String → Body
  failed : FetchError → Body

-- The checks on one reply.
unfoldable pub judge : Stdlib → Reply → Body
judge g no_request = failed invalid_url
judge g unreachable = failed net_error
judge g unreadable = failed read_error
judge g (answered status text) =
    if ltb fetch_max_body (len text)
    then failed too_large
    else if ltb status 200 || leb 300 status
    then failed (http_status status)
    else if str_eq (g.trim_space text) ""
    then failed empty_body
    else body text

-- `continue` with the error, or return the body.
abbrev pub or_next : Body → (FetchError → Body) → Body
or_next (body text) f = body text
or_next (failed e) f = f e

-- The loop from the attempt `i` on, with `left` to go and the last error.
unfoldable pub fetch_from : Stdlib → (ℕ → Reply) → ℕ → ℕ → FetchError → Body
unfolding judge
fetch_from g net zero i last = failed last
fetch_from g net (suc left) i last = or_next (judge g (net i)) (fetch_from g net left (i + 1))

-- `fetchOneURL`; the backoff between the attempts changes nothing but the time.
unfoldable pub fetch_one_url : Stdlib → (ℕ → Reply) → Body
unfolding fetch_from
fetch_one_url g net = fetch_from g net fetch_attempts 0 no_attempt

abbrev pub loopback_fallback_hosts : List String
loopback_fallback_hosts = "host.docker.internal" ∷ "172.17.0.1" ∷ "172.18.0.1" ∷ "10.0.2.2" ∷ []

abbrev pub mem : String → List String → Bool
mem s [] = false
mem s (t ∷ ts) = str_eq t s || mem s ts

-- The URL with another host, as `add` prints it.
unfoldable pub rehosted : Stdlib → Url → String → String
rehosted g u h =
    g.url_string (record u { host = if str_eq u.port "" then h else append h (append ":" u.port) })

-- The calls of `add`, with what is in `out` so far, which is also what was seen.
unfoldable pub add_hosts : Stdlib → Url → List String → List String → List String
unfolding rehosted
add_hosts g u [] out = out
add_hosts g u (h ∷ hs) out =
    add_hosts g u hs (if mem (rehosted g u h) out then out else out ++ (rehosted g u h ∷ []))

abbrev pub is_loopback : String → Bool
is_loopback h = str_eq h "127.0.0.1" || str_eq h "localhost" || str_eq h "::1" || str_eq h "0.0.0.0"

-- `subscriptionCandidates`
unfoldable pub subscription_candidates : Stdlib → String → List String
unfolding add_hosts
subscription_candidates g raw = maybe (g.parse_url raw) (raw ∷ []) (λ u.
    if is_loopback (g.to_lower u.hostname)
    then add_hosts g u loopback_fallback_hosts (raw ∷ [])
    else raw ∷ [])

-- The loop over the candidates; the last error, if none answers.
unfoldable pub fetch_candidates : Stdlib → (String → ℕ → Reply) → List String → FetchError → Body
unfolding fetch_one_url
fetch_candidates g net [] last = failed last
fetch_candidates g net (c ∷ cs) last = or_next (fetch_one_url g (net c)) (fetch_candidates g net cs)

-- `strings.ReplaceAll(content, "\r", "")`
unfoldable pub without_returns : String → String
without_returns String.[] = ""
without_returns (String.◌∷◌ c s) =
    let rest = without_returns s in if nat_eq (code c) 13 then rest else String.◌∷◌ c rest

-- `decodeBase64Content`
unfoldable pub decode_base64_content : Stdlib → String → String
unfolding without_blanks pad64 decode_any
decode_base64_content g s =
    let first = maybe (head? (g.split s "\n")) "" g.trim_space in
    if starts_with first "vless://"
      || starts_with first "vmess://"
      || starts_with first "trojan://"
      || starts_with first "ss://"
    then s
    else maybe (decode_any g (pad64 (without_blanks s))) s (λ t. t)

-- The loop over the lines: an empty line or one that does not parse is left out.
unfoldable pub parse_lines : Stdlib → Dict String String → List String → List ProxyConfig
unfolding parse_to_xray_config
parse_lines g clean [] = []
parse_lines g clean (l ∷ ls) =
    let rest = parse_lines g clean ls in
    if str_eq (g.trim_space l) ""
    then rest
    else (elim (parse_to_xray_config g clean (g.trim_space l)) [
      | ok c ↦ c ∷ rest
      | refused e ↦ rest
    ])

-- The content of a subscription, from its body to its lines.
unfoldable pub lines_of : Stdlib → String → List String
unfolding decode_base64_content without_returns
lines_of g text =
    g.split (decode_base64_content g (g.trim_space (without_returns (g.trim_space text)))) "\n"

pub data Fetched : Type 0 where
  configs : List ProxyConfig → Fetched
  fetch_failed : FetchError → Fetched

-- The rest of `FetchSubscription` after its loop.
unfoldable pub parsed_body : Stdlib → Dict String String → Body → Fetched
unfolding lines_of parse_lines order_by_dpi_rank dpi_rank
parsed_body g clean (failed e) = fetch_failed e
parsed_body g clean (body text) =
    configs (order_by_dpi_rank (dpi_rank g) (parse_lines g clean (lines_of g text)))

-- `FetchSubscription`
unfoldable pub fetch_subscription :
    Stdlib → Dict String String → (String → ℕ → Reply) → String → Fetched
unfolding fetch_candidates subscription_candidates parsed_body
fetch_subscription g clean net url =
    parsed_body g clean (fetch_candidates g net (subscription_candidates g url) no_attempt)

-- `splitURLs`: the fields, trimmed, each once; `fields` is `strings.FieldsFunc` with its separators.
unfoldable pub split_from : Stdlib → List String → List String → List String
split_from g seen [] = []
split_from g seen (p ∷ ps) =
    let skipped = split_from g seen ps in
    let taken = split_from g (g.trim_space p ∷ seen) ps in
    if str_eq (g.trim_space p) "" || mem (g.trim_space p) seen
    then skipped
    else g.trim_space p ∷ taken

unfoldable pub split_urls : Stdlib → (String → List String) → String → List String
unfolding split_from
split_urls g fields s = split_from g [] (fields s)
