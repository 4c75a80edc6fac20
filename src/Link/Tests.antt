-- ===== src/Link/Tests.antt =====
-- Links that are accepted and refused, under the sample library.
use v2pro_dock.Base.{some, ◌≡◌, refl, [], nat_equal, string_equal}
use v2pro_dock.Pool.{ProxyConfig}
use v2pro_dock.Stdlib.Sample.{sample}
use v2pro_dock.CleanIp.{rewrite_clean_ip}
use v2pro_dock.Link.{ok, hysteria}
use v2pro_dock.Link.Parse.{parse_to_xray_config}
use v2pro_dock.Link.Accepted.{IsBuilt, parse-IsBuilt}
use v2pro_dock.Link.Refused.{Judged, parse_refuses, link_error}

abbrev pub vless_config : ProxyConfig
vless_config = record {
  name = "a.example:443";
  raw = "vless://a";
  endpoint = "a.example:443";
  xray_cfg = "json";
  rank = 0;
}

parse_one : parse_to_xray_config sample [] "vless://a" ≡ ok vless_config
unfolding parse_to_xray_config
parse_one = refl

parse-IsBuilt_example : IsBuilt sample (rewrite_clean_ip sample "vless://a" []) vless_config
parse-IsBuilt_example = parse-IsBuilt sample [] "vless://a" vless_config parse_one

hysteria_link : link_error sample (rewrite_clean_ip sample "hy2://a" []) ≡ some hysteria
unfolding rewrite_clean_ip link_error
hysteria_link = refl

parse_refuses_example :
    Judged
      (link_error sample (rewrite_clean_ip sample "hy2://a" []))
      (parse_to_xray_config sample [] "hy2://a")
parse_refuses_example = parse_refuses sample [] "hy2://a"
