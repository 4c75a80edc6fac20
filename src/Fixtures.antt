-- ===== src/Fixtures.antt =====
-- Concrete upstreams, probes and instances that the tests share.
use v2pro_dock.Base.{true, false, none, some, [], ◌∷◌, nat_equal, string_equal}
use v2pro_dock.Base.Int.{pos}
use v2pro_dock.Pool.{ProxyConfig}
use v2pro_dock.Probe.{HealthResult, Outcome, status_ok, telegram}
use v2pro_dock.Selector.{ProxySelector, Scan}
use v2pro_dock.Switch.{World}

abbrev pub conf_a : ProxyConfig
conf_a = record {
  name = "a";
  raw = "vless://a";
  endpoint = "a.example:443";
  xray_cfg = "{}";
  rank = 0;
}

abbrev pub conf_b : ProxyConfig
conf_b = record {
  name = "b";
  raw = "vless://b";
  endpoint = "b.example:443";
  xray_cfg = "{}";
  rank = 0;
}

-- A subscription line whose endpoint is unknown.
abbrev pub conf_c : ProxyConfig
conf_c = record { name = "c"; raw = "vmess://c"; endpoint = ""; xray_cfg = "{}"; rank = 0 }

abbrev pub good : HealthResult
good = record {
  latency = 300_000_000;
  working = true;
  failed = false;
  status = 204;
  url = "https://one";
}

abbrev pub throttled : HealthResult
throttled = record {
  latency = 200_000_000;
  working = false;
  failed = false;
  status = 429;
  url = "https://one";
}

abbrev pub dead : HealthResult
dead = record {
  latency = 5_000_000_000;
  working = false;
  failed = true;
  status = 0;
  url = "https://two";
}

abbrev pub good_outcome : Outcome
good_outcome = record { res = good; leg = record { url = "https://one"; grade = status_ok } }

abbrev pub throttled_outcome : Outcome
throttled_outcome = record {
  res = throttled;
  leg = record { url = "https://one"; grade = status_ok };
}

abbrev pub dead_outcome : Outcome
dead_outcome = record { res = dead; leg = record { url = "https://two"; grade = telegram } }

-- An instance that serves the first of three upstreams.
abbrev pub serving_a : ProxySelector
serving_a = record {
  configs = conf_a ∷ conf_b ∷ conf_c ∷ [];
  active_index = pos 0;
  fail_count = 0;
  xray = some 100;
  socks_port = 27_019;
  http_port = 27_021;
  relay_port = 0;
  check_interval = 60_000_000_000;
  last_check = none;
  last_latency = 3_000_000_000;
  last_probe = some 1;
  ok_streak = 2;
  active_since = some 1;
  temp_pids = [];
  serving_unproven = none;
}

abbrev pub serving_b : ProxySelector
serving_b = record serving_a {
  active_index = pos 1;
  xray = some 101;
  socks_port = 27_020;
  http_port = 27_022;
}

abbrev pub up : World
up = record {
  renders = λ c. true;
  launch = λ c. some 7;
  binds = true;
  verify = good;
  clock = 1_000;
}

abbrev pub one_client : Scan
one_client = record { clients = 1; proven = true }

abbrev pub blind : Scan
blind = record { clients = 0; proven = false }
