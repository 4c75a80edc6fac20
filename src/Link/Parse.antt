-- ===== src/Link/Parse.antt =====
-- `parseToXrayConfig` of v2proxy/subscription.go: a share link of any protocol.
use v2pro_dock.Base.{String, ◌||◌, none, some, str_eq, if◌then◌else◌, nat_equal, string_equal}
use v2pro_dock.Base.Dict.{Dict}
use v2pro_dock.Stdlib.{Stdlib, Url, starts_with, trim_prefix}
use v2pro_dock.CleanIp.{rewrite_clean_ip}
use v2pro_dock.Link.{Parsed, refused, require, bad_url, unsupported, or_text, parse_hy2}
use v2pro_dock.Link.Vless.{parse_vless}
use v2pro_dock.Link.Vmess.{parse_vmess}
use v2pro_dock.Link.Trojan.{parse_trojan}
use v2pro_dock.Link.Shadowsocks.{parse_ss}

-- The fragment, or the host; a fragment that does not decode reads as empty.
unfoldable pub link_name : Stdlib → Url → String
unfolding trim_prefix
link_name g u =
    or_text (elim (g.path_unescape (trim_prefix u.fragment "#")) [ none ↦ "" | some t ↦ t ]) u.host

-- The `switch` on the scheme
unfoldable pub parse_scheme : Stdlib → Url → String → String → Parsed
unfolding parse_vless parse_vmess parse_trojan parse_ss parse_hy2
parse_scheme g u raw name =
    let scheme = g.to_lower u.scheme in
    if str_eq scheme "vless"
    then parse_vless g u raw name
    else if str_eq scheme "vmess"
    then parse_vmess g raw name
    else if str_eq scheme "trojan"
    then parse_trojan g u raw name
    else if str_eq scheme "ss"
    then parse_ss g u raw name
    else if str_eq scheme "hysteria2" || str_eq scheme "hy2"
    then parse_hy2
    else refused (unsupported scheme)

-- `parseToXrayConfig` of a link whose address is rewritten
unfoldable pub parse_rewritten : Stdlib → String → Parsed
unfolding parse_scheme parse_vmess link_name
parse_rewritten g raw =
    if starts_with raw "vmess://"
    then parse_vmess g raw ""
    else require (g.parse_url raw) bad_url (λ u. parse_scheme g u raw (link_name g u))

-- `parseToXrayConfig`, with the map of clean addresses it reads.
unfoldable pub parse_to_xray_config : Stdlib → Dict String String → String → Parsed
unfolding parse_rewritten rewrite_clean_ip
parse_to_xray_config g clean raw = parse_rewritten g (rewrite_clean_ip g raw clean)
