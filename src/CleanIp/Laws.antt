-- ===== src/CleanIp/Laws.antt =====
-- What the map of clean addresses of v2proxy/cleanip.go holds.
use v2pro_dock.Base.{
  String, ◌≡◌, sym, ◌∙◌, ◌≢◌, false, ◌||◌, none, some, List, [], ◌∷◌, arith, str_eq, eq_iff,
  nat_equal, string_equal, if_cases, maybe_cases,
}
use v2pro_dock.Base.Dict.{Dict, lookup, insert, lookup-insert, lookup-nil}
use v2pro_dock.Stdlib.{Stdlib, cut}
use v2pro_dock.CleanIp.{add_entry, add_entries, clean_ip_map}

-- Neither a blocked name nor a working address is empty.
IsFilled : Dict String String → Type 0
IsFilled m = (k v : String) → lookup k m ≡ some v → (k ≢ "") × (v ≢ "")

insert-IsFilled :
    (k v : String) (m : Dict String String)
    → (str_eq k "" || str_eq v "") ≡ false
    → IsFilled m
    → IsFilled (insert k v m)
unfolding IsFilled
insert-IsFilled k v m h f j w e =
    ground (arith, lookup-insert k j v m, f j w, eq_iff k "", eq_iff v "", eq_iff k j)

add_entry-IsFilled :
    (g : Stdlib) (m : Dict String String) (entry : String)
    → IsFilled m
    → IsFilled (add_entry g m entry)
unfolding add_entry
add_entry-IsFilled g m entry f = maybe_cases IsFilled (cut entry "=") m _ f (λ p.
    if_cases IsFilled (str_eq (g.to_lower (g.trim_space p.0)) "" || str_eq (g.trim_space p.1) "") _
      _ (λ _. f) (λ h. insert-IsFilled (g.to_lower (g.trim_space p.0)) (g.trim_space p.1) m h f))

add_entries-IsFilled :
    (g : Stdlib) (m : Dict String String) (es : List String)
    → IsFilled m
    → IsFilled (add_entries g m es)
unfolding add_entries
add_entries-IsFilled g m [] f = f
add_entries-IsFilled g m (e ∷ es) f =
    add_entries-IsFilled g (add_entry g m e) es (add_entry-IsFilled g m e f)

nil-IsFilled : IsFilled []
unfolding IsFilled
nil-IsFilled k v e = elim (impossible (sym (lookup-nil k) ∙ e)) [ ]
  where
    impossible : none ≡ some v → ⊥
    impossible q = cc

-- Whatever the variable holds, the map of clean addresses has no empty name and no empty address: a
-- link without a server, whose name is empty, is never rewritten.
pub clean_ip_map-filled :
    (g : Stdlib) (env k v : String) → lookup k (clean_ip_map g env) ≡ some v → (k ≢ "") × (v ≢ "")
unfolding clean_ip_map IsFilled
clean_ip_map-filled g env =
    if_cases IsFilled (str_eq (g.trim_space env) "") _ _ (λ _. nil-IsFilled)
      (λ _. add_entries-IsFilled g [] (g.split (g.trim_space env) ",") nil-IsFilled)
