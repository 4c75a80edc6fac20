-- ===== src/Switch/Restore.antt =====
-- What a restart and a restore leave alone, and what they serve.
use v2pro_dock.Base.{Bool, false}
use v2pro_dock.Base.{
  ℕ, String, ◌≡◌, refl, ap, ◌∙◌, ◌⊎◌, inl, inr, true, Option, none, some, List, arith, str_eq,
  Bool-cases, Option-cases, nat_equal, string_equal, get_elem?,
}
use v2pro_dock.Base.Int.{ℤ, pos}
use v2pro_dock.Pool.{ProxyConfig, key}
use v2pro_dock.Selector.{ProxySelector, at_index, active_config, index_of}
use v2pro_dock.Selector.Anchor.{index_of-find}
use v2pro_dock.Switch.{
  World, StartError, start_config, started, restored, restore_at, start_xray, try_restore,
}

-- The fields that a swap may not touch.
pub record SamePool (s t : ProxySelector) : Type 0 where
  pub configs : t.configs ≡ s.configs
  pub ports : (t.socks_port ≡ s.socks_port) × (t.http_port ≡ s.http_port)

start_config-same :
    (w : World) (o : Option ProxyConfig) (s : ProxySelector)
    → SamePool s (start_config w o s).1 × ((start_config w o s).1.active_index ≡ s.active_index)
unfolding start_config
start_config-same w none s = ground arith
start_config-same w (some c) s = ground arith

-- A start or a stop changes neither the pool nor what counts as active.
pub start_xray-same :
    (w : World) (i : ℤ) (s : ProxySelector)
    → SamePool s (start_xray w i s).1 × ((start_xray w i s).1.active_index ≡ s.active_index)
unfolding start_xray
start_xray-same w i s = start_config-same w (at_index s.configs i) s

start_config-ok :
    (w : World) (o : Option ProxyConfig) (s : ProxySelector)
    → (start_config w o s).0 ≡ none
    → (c : ProxyConfig) × (pid : ℕ) × (o ≡ some c)
      × (w.renders c ≡ true)
      × (w.launch c ≡ some pid)
      × ((start_config w o s).1.xray ≡ some pid)
unfolding start_config
start_config-ok w none s h = cc h
start_config-ok w (some c) s h = elim (Option-cases (w.launch c)) [
  | inl e ↦ absurd (ground arith)
  | inr (pid, e) ↦ (c, pid, refl, ground arith, e, ground arith)
]

-- A child runs after a start that returns no error, and it was launched for the config at the
-- index, which renders.
pub start_xray-ok :
    (w : World) (i : ℤ) (s : ProxySelector)
    → (start_xray w i s).0 ≡ none
    → (c : ProxyConfig) × (pid : ℕ) × (at_index s.configs i ≡ some c)
      × (w.renders c ≡ true)
      × (w.launch c ≡ some pid)
      × ((start_xray w i s).1.xray ≡ some pid)
unfolding start_xray
start_xray-ok w i s h = start_config-ok w (at_index s.configs i) s h

restored-served :
    (b : Bool) (k : String) (j : ℕ) (c : ProxyConfig) (clock : ℕ) (s : ProxySelector)
    (r : Option StartError × ProxySelector)
    → SamePool s r.1 × (r.1.active_index ≡ s.active_index)
    → get_elem? s.configs j ≡ some c
    → key c ≡ k
    → b ≡ false
    → SamePool s (restored j clock r)
      × (((restored j clock r).active_index ≡ s.active_index)
          ⊎ ((d : ProxyConfig) × (active_config (restored j clock r) ≡ some d)
              × (key d ≡ k)
              × (b ≡ false)))
unfolding restored active_config
restored-served b k j c clock s (none, t) same g h ne = (
  record { configs = same.0.configs; ports = same.0.ports },
  inr (c, ap (λ (cs : List ProxyConfig). get_elem? cs j) same.0.configs ∙ g, h, ne),
)
restored-served b k j c clock s (some e, t) same g h ne = (same.0, inl same.1)

-- A restore leaves the pool alone, and afterwards either the active index is as it was, or the
-- config of the given key is served, which then is not empty.
pub try_restore_lem :
    (w : World) (k : String) (s : ProxySelector)
    → SamePool s (try_restore w k s)
      × (((try_restore w k s).active_index ≡ s.active_index)
          ⊎ ((c : ProxyConfig) × (active_config (try_restore w k s) ≡ some c)
              × (key c ≡ k)
              × (str_eq k "" ≡ false)))
unfolding try_restore
try_restore_lem w k s = elim (Bool-cases (str_eq k "")) [
  | inl e ↦ rw e (record { configs = refl; ports = (refl, refl) }, inl refl)
  | inr e ↦ rw e (elim (index_of-find k s.configs) [
    | inl (f, n) ↦ rw (n, restore_at) (record { configs = refl; ports = (refl, refl) }, inl refl)
    | inr (j, c, f, n, g, h) ↦
        rw (n, restore_at)
          (restored-served false k j c w.clock s (start_xray w (pos j) s)
            (start_xray-same w (pos j) s) g h refl)
  ])
]

-- If the config of the key, which is not empty, is in the pool, renders and starts, its child runs
-- and it is what is served.
abbrev pub Restores : World → String → ProxySelector → ProxySelector → Type 0
Restores w k s t =
    (j : ℕ) (c : ProxyConfig) (pid : ℕ)
    → str_eq k "" ≡ false
    → index_of k s.configs ≡ pos j
    → get_elem? s.configs j ≡ some c
    → w.renders c ≡ true
    → w.launch c ≡ some pid
    → (t.xray ≡ some pid) × (t.active_index ≡ pos j)

-- The child of the config that is served runs, and its key is the given one.
abbrev pub Runs : World → String → ProxySelector → Type 0
Runs w k t =
    (c : ProxyConfig) × (pid : ℕ) × (active_config t ≡ some c)
    × (key c ≡ k)
    × (w.launch c ≡ some pid)
    × (t.xray ≡ some pid)

restored-started :
    (w : World) (i j : ℕ) (c : ProxyConfig) (pid : ℕ) (s : ProxySelector)
    → w.renders c ≡ true
    → w.launch c ≡ some pid
    → ((restored j i (start_config w (some c) s)).xray ≡ some pid)
      × ((restored j i (start_config w (some c) s)).active_index ≡ pos j)
unfolding restored start_config started
restored-started w i j c pid s r l = rw (r, l) (refl, refl)

pub try_restore-Restores :
    (w : World) (k : String) (s : ProxySelector) → Restores w k s (try_restore w k s)
unfolding try_restore
try_restore-Restores w k s j c pid ne at g r l =
    rw (ne, at, restore_at, start_xray, g) (restored-started w w.clock j c pid s r l)

-- A start that fails leaves no child, if none ran before.
start_config-failed :
    (w : World) (o : Option ProxyConfig) (s : ProxySelector)
    → s.xray ≡ none
    → ((start_config w o s).0 ≡ none) ⊎ ((start_config w o s).1.xray ≡ none)
unfolding start_config started
start_config-failed w none s h = inr h
start_config-failed w (some c) s h = elim (Bool-cases (w.renders c)) [
  | inr e ↦ rw e (inr h)
  | inl e ↦ rw e (elim (Option-cases (w.launch c)) [
    | inl q ↦ rw q (inr refl)
    | inr (pid, q) ↦ rw q (inl refl)
  ])
]

-- A start that returns an error leaves no child, if none ran before.
pub start_xray-failed :
    (w : World) (i : ℤ) (s : ProxySelector)
    → s.xray ≡ none
    → ((start_xray w i s).0 ≡ none) ⊎ ((start_xray w i s).1.xray ≡ none)
unfolding start_xray
start_xray-failed w i s h = start_config-failed w (at_index s.configs i) s h

restored-Runs :
    (w : World) (k : String) (i j : ℕ) (c : ProxyConfig) (s : ProxySelector)
    → s.xray ≡ none
    → get_elem? s.configs j ≡ some c
    → key c ≡ k
    → ((restored j i (start_config w (some c) s)).xray ≡ none)
      ⊎ Runs w k (restored j i (start_config w (some c) s))
unfolding restored start_config started active_config
restored-Runs w k i j c s h g e = elim (Bool-cases (w.renders c)) [
  | inr r ↦ rw r (inl h)
  | inl r ↦ rw r (elim (Option-cases (w.launch c)) [
    | inl q ↦ rw q (inl refl)
    | inr (pid, q) ↦ rw q (inr (c, pid, g, e, q, refl))
  ])
]

-- A restore on an instance without a child leaves it so, or the config of the key runs.
pub try_restore-Runs :
    (w : World) (k : String) (s : ProxySelector)
    → s.xray ≡ none
    → ((try_restore w k s).xray ≡ none) ⊎ Runs w k (try_restore w k s)
unfolding try_restore
try_restore-Runs w k s h = elim (Bool-cases (str_eq k "")) [
  | inl e ↦ rw e (inl h)
  | inr e ↦ rw e (elim (index_of-find k s.configs) [
    | inl (f, n) ↦ rw (n, restore_at) (inl h)
    | inr (j, c, f, n, g, q) ↦
        rw (n, restore_at, start_xray, g) (restored-Runs w k w.clock j c s h g q)
  ])
]
