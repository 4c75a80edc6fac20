-- ===== src/Selector/Anchor.antt =====
-- Which upstream is active after a pool was replaced, and after an upstream was retained.
use v2pro_dock.Base.{
  ℕ, suc, ◌+◌, String, ◌≡◌, refl, ap, ◌∙◌, ◌⊎◌, inl, inr, none, some, List, [], ◌∷◌, arith, str_eq,
  eq_iff, if◌then◌else◌, Bool-cases, ==_refl, nat_equal, string_equal, get_elem?,
}
use v2pro_dock.Base.Int.{pos, negsuc}
use v2pro_dock.Pool.{ProxyConfig, key, find_key}
use v2pro_dock.Selector.{
  ProxySelector, at_index, active_config, index_from, index_of, key_or_empty, update_configs,
  retain_active,
}

-- An index counted from `i` finds the config that the key search finds.
index_from-find :
    (i : ℕ) (k : String) (cs : List ProxyConfig)
    → (find_key k cs ≡ none) × (index_from i k cs ≡ negsuc 0)
      ⊎ ((j : ℕ) × (c : ProxyConfig) × (find_key k cs ≡ some c)
          × (index_from i k cs ≡ pos (i + j))
          × (get_elem? cs j ≡ some c)
          × (key c ≡ k))
unfolding index_from find_key
index_from-find i k [] = inl (refl, refl)
index_from-find i k (c ∷ cs) = elim (Bool-cases (str_eq (key c) k)) [
  | inl e ↦ rw e (inr (0, c, refl, ground arith, refl, (eq_iff (key c) k).0 e))
  | inr e ↦ elim (index_from-find (i + 1) k cs) [
    | inl (f, n) ↦ rw e (inl (f, n))
    | inr (j, d, f, n, g, h) ↦ rw e (inr (suc j, d, f, n ∙ ap pos (omega arith), g, h))
  ]
]

pub index_of-find :
    (k : String) (cs : List ProxyConfig)
    → (find_key k cs ≡ none) × (index_of k cs ≡ negsuc 0)
      ⊎ ((j : ℕ) × (c : ProxyConfig) × (find_key k cs ≡ some c)
          × (index_of k cs ≡ pos j)
          × (get_elem? cs j ≡ some c)
          × (key c ≡ k))
unfolding index_of
index_of-find k cs = elim (index_from-find 0 k cs) [
  | inl p ↦ inl p
  | inr (j, c, f, n, g, h) ↦ inr (j, c, f, n ∙ ap pos (omega arith), g, h)
]

at_index-index_of :
    (k : String) (cs : List ProxyConfig) → at_index cs (index_of k cs) ≡ find_key k cs
at_index-index_of k cs = elim (index_of-find k cs) [
  | inl (f, n) ↦ rw (f, n)
  | inr (j, c, f, n, g, h) ↦ rw (f, n) g
]

-- After a refresh the pool is the new one, and what is served is the config of the new pool that
-- has the key of the upstream served before; nothing is, if none has it or nothing was served.
pub active_config-update :
    (new : List ProxyConfig) (s : ProxySelector)
    → ((update_configs new s).configs ≡ new)
      × (active_config (update_configs new s) ≡ (
          if str_eq (key_or_empty (active_config s)) ""
          then none
          else find_key (key_or_empty (active_config s)) new))
unfolding active_config update_configs
active_config-update new s =
    elim (Bool-cases (str_eq (key_or_empty (at_index s.configs s.active_index)) "")) [
      | inl e ↦ (refl, rw e refl)
      | inr e ↦ (refl, rw e (at_index-index_of _ new))
    ]

find_key-head : (c : ProxyConfig) (cs : List ProxyConfig) → some c ≡ find_key (key c) (c ∷ cs)
unfolding find_key
find_key-head c cs = ground (arith, ==_refl (key c))

-- Retaining an upstream serves the first config of its key, and puts it at the head of the pool
-- when the pool holds none; nothing else of the pool changes.
pub active_config-retain :
    (c : ProxyConfig) (s : ProxySelector)
    → ((retain_active c s).configs
        ≡ elim (find_key (key c) s.configs) [ none ↦ c ∷ s.configs | some _ ↦ s.configs ])
      × (active_config (retain_active c s) ≡ find_key (key c) (retain_active c s).configs)
unfolding active_config retain_active
active_config-retain c s = elim (index_of-find (key c) s.configs) [
  | inl (f, n) ↦ rw (n, f, retain_active) (refl, find_key-head c s.configs)
  | inr (j, d, f, n, g, h) ↦ rw (n, f, retain_active) (refl, g)
]
