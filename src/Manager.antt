-- ===== src/Manager.antt =====
-- `ProxyManager` of v2proxy/manager.go: the instances, their statuses and what is derived from
-- them. The manager's mutex makes each method here one step.
pub mod Uniqueness
pub mod Statuses
pub mod Tests
use v2pro_dock.Base.{
  ℕ, zero, suc, ◌+◌, ◌/◌, min, String, Bool, true, false, ◌||◌, Option, none, some, List, [], ◌∷◌,
  str_eq, ltb, leb, nat_eq, if◌then◌else◌, nat_equal, string_equal, length, get_elem?,
}
use v2pro_dock.Base.Dict.{Dict, insert}
use v2pro_dock.Pool.{ProxyConfig, key}
use v2pro_dock.Breaker.{SrcBreaker}
use v2pro_dock.Selector.{ProxySelector, active_config}

-- The strings that `Status` takes; `blank` is that of the zero value.
pub data Status : Type 0 where
  blank starting ok down : Status

-- `Latency` in nanoseconds, `LatMs` in milliseconds. `ActiveSince` is kept as the time itself.
pub record InstanceStatus : Type 0 where
  pub index : ℕ
  pub status : Status
  pub latency : ℕ
  pub lat_ms : ℕ
  pub name : String
  pub error : String
  pub ok_streak : ℕ
  pub active_since : Option ℕ

abbrev pub zero_status : InstanceStatus
zero_status = record {
  index = 0;
  status = blank;
  latency = 0;
  lat_ms = 0;
  name = "";
  error = "";
  ok_streak = 0;
  active_since = none;
}

pub record ProxyManager : Type 0 where
  pub instances : List ProxySelector
  pub statuses : List InstanceStatus
  pub sub_urls : List String
  pub src_brk : SrcBreaker
  pub relay_alive : Bool
  pub agg_relay : Option ℕ

abbrev pub is_ok : InstanceStatus → Bool
is_ok s = elim s.status [ ok ↦ true | _ ↦ false ]

unfoldable pub status_of : ProxyManager → ℕ → InstanceStatus
status_of m i = elim (get_elem? m.statuses i) [ none ↦ zero_status | some s ↦ s ]

-- A write to `m.statuses[i]` behind the guard on the index.
unfoldable pub update_status :
    (InstanceStatus → InstanceStatus) → ℕ → List InstanceStatus → List InstanceStatus
update_status f i [] = []
update_status f zero (s ∷ ss) = f s ∷ ss
update_status f (suc i) (s ∷ ss) = s ∷ update_status f i ss

marked_down : String → InstanceStatus → InstanceStatus
marked_down msg s = record s { status = down; error = msg }

unfoldable pub mark_down : ℕ → String → ProxyManager → ProxyManager
unfolding update_status marked_down
mark_down i msg m = record m { statuses = update_status (marked_down msg) i m.statuses }

-- The streak and the adoption time of the instance, when there is one behind the index.
stability : Option ProxySelector → InstanceStatus → InstanceStatus
stability none s = s
stability (some inst) s = record s {
  ok_streak = inst.ok_streak;
  active_since = elim inst.active_since [ none ↦ s.active_since | some t ↦ some t ];
}

marked_ok : Option ProxySelector → String → ℕ → InstanceStatus → InstanceStatus
unfolding stability
marked_ok inst name lat s = stability inst (record s {
  status = ok;
  error = "";
  name = if str_eq name "" then s.name else name;
  latency = lat;
  lat_ms = lat / 1_000_000;
})

unfoldable pub mark_ok : ℕ → String → ℕ → ProxyManager → ProxyManager
unfolding update_status marked_ok
mark_ok i name lat m = record m {
  statuses = update_status (marked_ok (get_elem? m.instances i) name lat) i m.statuses;
}

-- The statuses that are "ok", before they are sorted.
unfoldable pub alive : List InstanceStatus → List InstanceStatus
alive [] = []
alive (s ∷ ss) = let rest = alive ss in if is_ok s then s ∷ rest else rest

unfoldable pub alive_count : ProxyManager → ℕ
unfolding alive
alive_count m = length (alive m.statuses)

unfoldable pub starting_count : List InstanceStatus → ℕ
starting_count [] = 0
starting_count (s ∷ ss) = let n = starting_count ss in elim s.status [ starting ↦ n + 1 | _ ↦ n ]

abbrev pub serve_min_ready : ℕ
serve_min_ready = 2

unfoldable pub serve_ready : ℕ → ℕ → Bool
serve_ready alive total =
    if leb total 0 || leb alive 0
    then false
    else if leb total alive
    then true
    else leb (min serve_min_ready total) alive

-- `buildExcluding`: the keys that the other instances serve, with their owners.
excluding_from : ℕ → ℕ → List ProxySelector → Dict String ℕ → Dict String ℕ
excluding_from i j [] used = used
excluding_from i j (o ∷ os) used =
    let skip = excluding_from i (j + 1) os used in
    let taken = λ (c : ProxyConfig). excluding_from i (j + 1) os (insert (key c) j used) in
    if nat_eq j i then skip else elim (active_config o) [ none ↦ skip | some c ↦ taken c ]

unfoldable pub build_excluding : ProxyManager → ℕ → Dict String ℕ
unfolding excluding_from
build_excluding m i = excluding_from i 0 m.instances []

-- `usedPorts`
ports_from : List ProxySelector → Dict ℕ Bool → Dict ℕ Bool
ports_from [] out = out
ports_from (s ∷ ss) out =
    let out' = insert s.http_port true (insert s.socks_port true out) in
    ports_from ss (if ltb 0 s.relay_port then insert s.relay_port true out' else out')

unfoldable pub used_ports : ProxyManager → Dict ℕ Bool
unfolding ports_from
used_ports m = ports_from m.instances []
