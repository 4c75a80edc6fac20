-- ===== src/Watchdog.antt =====
-- v2proxy/watchdog.go: which xray processes are orphans, and what a check does to the instances. A
-- process is a PID with its command line, cut at the zero bytes; what the process table, the ports
-- and the manager's state hold at the time they are read is an argument.
pub mod Prune
pub mod Check
pub mod Rounds
pub mod Tests
use v2pro_dock.Base.{
  ℕ, String, Bool, false, not, ◌&&◌, ◌||◌, Option, List, [], ◌∷◌, ◌++◌, str_eq, ltb, nat_eq,
  if◌then◌else◌, nat_equal, string_equal, maybe, length,
}
use v2pro_dock.Stdlib.{Stdlib, contains, has_suffix}

-- `base == "xray" || …`: an argument that names the binary.
unfoldable pub names_binary : Stdlib → String → Bool
unfolding has_suffix
names_binary g p =
    str_eq (g.base_name p) "xray"
    || str_eq (g.base_name p) "xray.exe"
    || has_suffix p "/xray"
    || has_suffix p "/xray.exe"

unfoldable pub names_config : Stdlib → String → String → Bool
unfolding has_suffix
names_config g xray_dir p =
    has_suffix p ".json" && contains p xray_dir && contains (g.base_name p) "config-"

-- One of the loop's three flags: does any part pass the test?
abbrev pub any_part : (String → Bool) → List String → Bool
any_part f [] = false
any_part f (p ∷ ps) = f p || any_part f ps

-- `cmdlineIsManaged` of the parts
unfoldable pub cmdline_is_managed : Stdlib → List String → String → Bool
unfolding names_binary names_config
cmdline_is_managed g parts xray_dir =
    if ltb (length parts) 4
    then false
    else any_part (names_binary g) parts
      && any_part (λ p. str_eq p "run") parts
      && any_part (names_config g xray_dir) parts

-- The process table: the parts of a PID's command line, if it can be read and is not empty.
abbrev pub Processes : Type 0
Processes = ℕ → Option (List String)

unfoldable pub is_managed : Stdlib → String → Processes → ℕ → Bool
unfolding cmdline_is_managed
is_managed g xray_dir procs pid =
    maybe (procs pid) false (λ parts. cmdline_is_managed g parts xray_dir)

-- `listXrayPIDs` on Linux, over the PIDs that `/proc` lists.
unfoldable pub list_xray_pids : Stdlib → String → ℕ → Processes → List ℕ → List ℕ
unfolding is_managed
list_xray_pids g xray_dir self procs [] = []
list_xray_pids g xray_dir self procs (pid ∷ pids) =
    let rest = list_xray_pids g xray_dir self procs pids in
    if not (nat_eq pid self) && is_managed g xray_dir procs pid then pid ∷ rest else rest

-- `keep[pid]`
abbrev pub member_pid : ℕ → List ℕ → Bool
member_pid p [] = false
member_pid p (q ∷ qs) = nat_eq q p || member_pid p qs

-- `orphanVictims`
unfoldable pub orphan_victims : List ℕ → List ℕ → List ℕ
orphan_victims [] keep = []
orphan_victims (p ∷ found) keep =
    let rest = orphan_victims found keep in if member_pid p keep then rest else p ∷ rest

-- The loop of `pruneOrphanXray` after the grace window: the PIDs that are killed.
unfoldable pub kill_orphans : Stdlib → String → List ℕ → Processes → List ℕ → List ℕ
unfolding is_managed
kill_orphans g xray_dir keep procs [] = []
kill_orphans g xray_dir keep procs (p ∷ victims) =
    let rest = kill_orphans g xray_dir keep procs victims in
    if member_pid p keep then rest else if is_managed g xray_dir procs p then p ∷ rest else rest

-- What a prune reads: the PIDs and the process table of its scan, the live set then, and both again
-- after the grace window.
pub record Sweep : Type 0 where
  pub self : ℕ
  pub pids : List ℕ
  pub procs : Processes
  pub live : List ℕ
  pub procs_later : Processes
  pub live_later : List ℕ

-- `pruneOrphanXray`; the early returns on empty sets kill nothing, as the loop then does.
unfoldable pub prune_orphan_xray : Stdlib → String → Sweep → List ℕ
unfolding orphan_victims kill_orphans list_xray_pids
prune_orphan_xray g xray_dir w =
    kill_orphans g xray_dir w.live_later w.procs_later
      (orphan_victims (list_xray_pids g xray_dir w.self w.procs w.pids) w.live)

-- The processes of an instance: `currentPID`, 0 for none, and those of its probes.
pub record Children : Type 0 where
  pub current : ℕ
  pub temps : List ℕ

-- `managedPIDs`
unfoldable pub managed_pids : List Children → List ℕ
managed_pids [] = []
managed_pids (c ∷ cs) =
    let rest = c.temps ++ managed_pids cs in if ltb 0 c.current then c.current ∷ rest else rest
