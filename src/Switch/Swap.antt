-- ===== src/Switch/Swap.antt =====
-- What a swap serves when it succeeds, and what it leaves when it fails.
use v2pro_dock.Base.{
  ℕ, String, ◌≡◌, refl, ap, ◌∙◌, ◌⊎◌, inl, inr, Bool, true, false, not, Option, none, some, List,
  str_eq, if◌then◌else◌, nat_equal, string_equal, get_elem?,
}
use v2pro_dock.Base.Int.{ℤ, pos}
use mathlib.Core.Path.{subst}
use v2pro_dock.Pool.{ProxyConfig, key}
use v2pro_dock.Selector.{ProxySelector, active_config, index_of}
use v2pro_dock.Selector.Anchor.{index_of-find}
use v2pro_dock.Switch.{
  World, StartError, Plan, SwitchError, stop_xray, start_xray, try_restore, adopted, swapped,
  swap_at, swap, key_at, no_configs, no_working_config, winner_vanished, winner_failed, never_bound,
  not_verified,
}
use v2pro_dock.Switch.Restore.{
  SamePool, Restores, Runs, start_xray-same, start_xray-failed, try_restore_lem,
  try_restore-Restores, try_restore-Runs,
}

SamePool-trans : (s t u : ProxySelector) → SamePool s t → SamePool t u → SamePool s u
SamePool-trans s t u p q = record {
  configs = q.configs ∙ p.configs;
  ports = (q.ports.0 ∙ p.ports.0, q.ports.1 ∙ p.ports.1);
}

start_after_stop :
    (w : World) (i : ℤ) (s : ProxySelector)
    → SamePool s (start_xray w i (stop_xray s)).1
      × ((start_xray w i (stop_xray s)).1.active_index ≡ s.active_index)
unfolding stop_xray
start_after_stop w i s =
    let (a, b) = start_xray-same w i (record s { xray = none }) in
    (record { configs = a.configs; ports = a.ports }, b)

-- The pool is as it was, and so is what is served, unless it is now the config of the given key.
abbrev pub Fallback : String → ProxySelector → ProxySelector → Type 0
Fallback old_key s t =
    SamePool s t
    × ((t.active_index ≡ s.active_index)
        ⊎ ((c : ProxyConfig) × (active_config t ≡ some c)
            × (key c ≡ old_key)
            × (str_eq old_key "" ≡ false)))

-- A config of the key `k` is served, proven through the serving port.
abbrev pub Serves : World → String → ProxySelector → ProxySelector → Type 0
Serves w k s t =
    SamePool s t
    × ((c : ProxyConfig) × (active_config t ≡ some c) × (key c ≡ k))
    × (w.binds ≡ true)
    × (w.verify.working ≡ true)
    × (t.fail_count ≡ 0)

Fallback-trans :
    (old_key : String) (s t u : ProxySelector)
    → SamePool s t × (t.active_index ≡ s.active_index)
    → Fallback old_key t u
    → Fallback old_key s u
Fallback-trans old_key s t u p (q, inl e) = (SamePool-trans s t u p.0 q, inl (e ∙ p.1))
Fallback-trans old_key s t u p (q, inr e) = (SamePool-trans s t u p.0 q, inr e)

-- What a swap that stopped the old child and failed leaves: the pool as it was; no child, or that
-- of the config with the old key; and that one whenever it is in the pool, renders and starts.
abbrev pub Revived : World → String → ProxySelector → ProxySelector → Type 0
Revived later old_key s t =
    Fallback old_key s t × ((t.xray ≡ none) ⊎ Runs later old_key t) × Restores later old_key s t

abbrev pub Swapped :
    World → World → String → String → ProxySelector → Option SwitchError × ProxySelector → Type 0
Swapped w later old_key k s (none, t) = Serves w k s t
Swapped w later old_key k s (some winner_vanished, t) = t ≡ s
Swapped w later old_key k s (some winner_failed, t) = Revived later old_key s t
Swapped w later old_key k s (some never_bound, t) = Revived later old_key s t
Swapped w later old_key k s (some not_verified, t) = Revived later old_key s t
Swapped w later old_key k s (some no_configs, t) = ⊥
Swapped w later old_key k s (some no_working_config, t) = ⊥

-- Whatever the error, what a failed swap leaves is a fallback.
pub Swapped-Fallback :
    (w later : World) (old_key k : String) (s : ProxySelector) (e : SwitchError) (t : ProxySelector)
    → Swapped w later old_key k s (some e, t)
    → Fallback old_key s t
Swapped-Fallback w later old_key k s winner_vanished t m =
    rw m (record { configs = refl; ports = (refl, refl) }, inl refl)
Swapped-Fallback w later old_key k s winner_failed t m = m.0
Swapped-Fallback w later old_key k s never_bound t m = m.0
Swapped-Fallback w later old_key k s not_verified t m = m.0
Swapped-Fallback w later old_key k s no_configs t m = elim m [ ]
Swapped-Fallback w later old_key k s no_working_config t m = elim m [ ]

-- A restore after the child was stopped, on an instance that kept its pool.
restore-Revived :
    (later : World) (old_key : String) (s t : ProxySelector)
    → SamePool s t × (t.active_index ≡ s.active_index)
    → t.xray ≡ none
    → Revived later old_key s (try_restore later old_key t)
restore-Revived later old_key s t same dead = (
  Fallback-trans old_key s t _ same (try_restore_lem later old_key t),
  try_restore-Runs later old_key t dead,
  subst
      (λ (cs : List ProxyConfig).
        (j : ℕ) (c : ProxyConfig) (pid : ℕ)
        → str_eq old_key "" ≡ false
        → index_of old_key cs ≡ pos j
        → get_elem? cs j ≡ some c
        → later.renders c ≡ true
        → later.launch c ≡ some pid
        → ((try_restore later old_key t).xray ≡ some pid)
          × ((try_restore later old_key t).active_index ≡ pos j))
      same.0.configs (try_restore-Restores later old_key t),
)

Serves-adopted :
    (w : World) (k : String) (cur lat : ℕ) (c : ProxyConfig) (s t : ProxySelector)
    → SamePool s t
    → get_elem? s.configs cur ≡ some c
    → key c ≡ k
    → w.binds ≡ true
    → w.verify.working ≡ true
    → Serves w k s (adopted w cur lat t)
unfolding adopted active_config
Serves-adopted w k cur lat c s t same g h b v = (
  record { configs = same.configs; ports = same.ports },
  (c, ap (λ (cs : List ProxyConfig). get_elem? cs cur) same.configs ∙ g, h),
  b,
  v,
  refl,
)

branches-Swapped :
    (w later : World) (old_key k : String) (s : ProxySelector) (b v : Bool) (t a : ProxySelector)
    → Revived later old_key s t
    → (b ≡ true → v ≡ true → Serves w k s a)
    → Swapped w later old_key k s (
        if not b
        then (some never_bound, t)
        else if not v
        then (some not_verified, t)
        else (none, a))
branches-Swapped w later old_key k s false v t a back win = back
branches-Swapped w later old_key k s true false t a back win = back
branches-Swapped w later old_key k s true true t a back win = win refl refl

swapped-Swapped :
    (w later : World) (old_key k : String) (cur lat : ℕ) (c : ProxyConfig) (s : ProxySelector)
    (r : Option StartError × ProxySelector)
    → SamePool s r.1 × (r.1.active_index ≡ s.active_index)
    → (r.0 ≡ none) ⊎ (r.1.xray ≡ none)
    → get_elem? s.configs cur ≡ some c
    → key c ≡ k
    → Swapped w later old_key k s (swapped w later old_key cur lat r)
unfolding swapped stop_xray
swapped-Swapped w later old_key k cur lat c s (some e, t) same (inl n) g h = cc n
swapped-Swapped w later old_key k cur lat c s (some e, t) same (inr dead) g h =
    restore-Revived later old_key s t same dead
swapped-Swapped w later old_key k cur lat c s (none, t) same dead g h =
    let stopped = record t { xray = none } in
    branches-Swapped w later old_key k s w.binds w.verify.working _ _
      (restore-Revived later old_key s stopped
        (record { configs = same.0.configs; ports = same.0.ports }, same.1) refl)
      (Serves-adopted w k cur lat c s t same.0 g h)

stopped_start :
    (w : World) (i : ℤ) (s : ProxySelector)
    → ((start_xray w i (stop_xray s)).0 ≡ none) ⊎ ((start_xray w i (stop_xray s)).1.xray ≡ none)
unfolding stop_xray
stopped_start w i s = start_xray-failed w i (record s { xray = none }) refl

-- A swap to a winner serves a config of the winner's key, proven through the serving port. A winner
-- that left the pool changes nothing. Any other failure comes after the old child was stopped: the
-- pool and the ports stay; if the upstream that was served when the switch began has a key and is
-- still in the pool, and its configuration renders and its child starts, then this child runs and
-- the upstream is served again; and no other child is left running.
pub swap-Swapped :
    (w later : World) (p : Plan) (win lat : ℕ) (s : ProxySelector)
    → Swapped w later p.old_key (key_at p.pool (pos win)) s (swap w later p (some (win, lat)) s)
unfolding swap
swap-Swapped w later p win lat s = elim (index_of-find (key_at p.pool (pos win)) s.configs) [
  | inl (f, n) ↦ rw (n, swap_at) refl
  | inr (j, c, f, n, g, h) ↦
      rw (n, swap_at)
        (swapped-Swapped w later p.old_key _ j lat c s _ (start_after_stop w (pos j) s)
          (stopped_start w (pos j) s) g h)
]
