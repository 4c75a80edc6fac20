-- ===== src/Manager/Tests.antt =====
-- Two instances.
use v2pro_dock.Base.{false, none, [], ◌∷◌, nat_equal, string_equal}
use v2pro_dock.Manager.{InstanceStatus, ProxyManager, ok, starting, zero_status}
use v2pro_dock.Fixtures.{serving_a, serving_b}

abbrev status_0 : InstanceStatus
status_0 = record zero_status { status = ok; latency = 400_000_000; lat_ms = 400; name = "a" }

abbrev pair : ProxyManager
pair = record {
  instances = serving_a ∷ serving_b ∷ [];
  statuses = status_0 ∷ record zero_status { index = 1; status = starting } ∷ [];
  sub_urls = [];
  src_brk = record { fails = []; skip = [] };
  relay_alive = false;
  agg_relay = none;
}
