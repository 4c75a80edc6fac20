-- ===== src/Watchdog/Prune.antt =====
-- Which processes `pruneOrphanXray` of v2proxy/watchdog.go kills.
use v2pro_dock.Base.{
  ℕ, String, ◌≡◌, refl, ap, inl, inr, Bool, true, false, not, ◌&&◌, ◌||◌, List, [], ◌∷◌, ◌++◌,
  arith, ltb, nat_eq, nat_eq_iff, Bool-cases, nat_equal, string_equal,
}
use v2pro_dock.Stdlib.{Stdlib}
use v2pro_dock.Watchdog.{
  Processes, is_managed, list_xray_pids, member_pid, orphan_victims, kill_orphans, Sweep,
  prune_orphan_xray, Children, managed_pids,
}

member-append :
    (p : ℕ) (xs ys : List ℕ) → member_pid p (xs ++ ys) ≡ (member_pid p xs || member_pid p ys)
member-append p [] ys = refl
member-append p (x ∷ xs) ys = ground (arith, member-append p xs ys)

list_xray_pids-member :
    (g : Stdlib) (dir : String) (self : ℕ) (procs : Processes) (pids : List ℕ) (p : ℕ)
    → member_pid p (list_xray_pids g dir self procs pids)
      ≡ (member_pid p pids && not (nat_eq p self) && is_managed g dir procs p)
unfolding list_xray_pids
list_xray_pids-member g dir self procs [] p = refl
list_xray_pids-member g dir self procs (q ∷ qs) p = elim (Bool-cases (nat_eq q p)) [
  | inl e ↦ rw ((nat_eq_iff q p).0 e) (ground (arith, list_xray_pids-member g dir self procs qs p))
  | inr e ↦ ground (arith, list_xray_pids-member g dir self procs qs p)
]

orphan_victims-member :
    (found keep : List ℕ) (p : ℕ)
    → member_pid p (orphan_victims found keep) ≡ (member_pid p found && not (member_pid p keep))
unfolding orphan_victims
orphan_victims-member [] keep p = refl
orphan_victims-member (q ∷ qs) keep p = elim (Bool-cases (nat_eq q p)) [
  | inl e ↦ rw ((nat_eq_iff q p).0 e) (ground (arith, orphan_victims-member qs keep p))
  | inr e ↦ ground (arith, orphan_victims-member qs keep p)
]

kill_orphans-member :
    (g : Stdlib) (dir : String) (keep : List ℕ) (procs : Processes) (vs : List ℕ) (p : ℕ)
    → member_pid p (kill_orphans g dir keep procs vs)
      ≡ (member_pid p vs && not (member_pid p keep) && is_managed g dir procs p)
unfolding kill_orphans
kill_orphans-member g dir keep procs [] p = refl
kill_orphans-member g dir keep procs (q ∷ qs) p = elim (Bool-cases (nat_eq q p)) [
  | inl e ↦ rw ((nat_eq_iff q p).0 e) (ground (arith, kill_orphans-member g dir keep procs qs p))
  | inr e ↦ ground (arith, kill_orphans-member g dir keep procs qs p)
]

-- A prune kills exactly the listed processes other than itself whose command line is that of an xray
-- child both at the scan and at the kill, and which are live at neither time.
pub prune_orphan_xray_lem :
    (g : Stdlib) (dir : String) (w : Sweep) (p : ℕ)
    → member_pid p (prune_orphan_xray g dir w) ≡ (
        ((member_pid p w.pids && not (nat_eq p w.self) && is_managed g dir w.procs p)
          && not (member_pid p w.live))
        && not (member_pid p w.live_later)
        && is_managed g dir w.procs_later p)
unfolding prune_orphan_xray
prune_orphan_xray_lem g dir w p =
    rw kill_orphans-member (rw orphan_victims-member (rw list_xray_pids-member refl))

-- Is the process the current one of an instance, or one of its probes?
abbrev pub owns : ℕ → Children → Bool
owns p c = (ltb 0 c.current && nat_eq c.current p) || member_pid p c.temps

abbrev pub some_owns : ℕ → List Children → Bool
some_owns p [] = false
some_owns p (c ∷ cs) = owns p c || some_owns p cs

pub managed_pids-member :
    (cs : List Children) (p : ℕ) → member_pid p (managed_pids cs) ≡ some_owns p cs
unfolding managed_pids
managed_pids-member [] p = refl
managed_pids-member (c ∷ cs) p =
    ground (arith, managed_pids-member cs p, member-append p c.temps (managed_pids cs))

-- A process that is an instance's current child, or one of its probes, at the scan or at the second
-- look is never killed.
pub prune_spares_children :
    (g : Stdlib) (dir : String) (w : Sweep) (scan later : List Children) (p : ℕ)
    → w.live ≡ managed_pids scan
    → w.live_later ≡ managed_pids later
    → (some_owns p scan || some_owns p later) ≡ true
    → member_pid p (prune_orphan_xray g dir w) ≡ false
prune_spares_children g dir w scan later p l r h = ground (
  arith,
  prune_orphan_xray_lem g dir w p,
  ap (member_pid p) l,
  ap (member_pid p) r,
  managed_pids-member scan p,
  managed_pids-member later p,
)
