-- ===== src/Json/Laws.antt =====
-- What writing a field of a JSON object does to reading one.
use v2pro_dock.Base.{
  String, ◌≡◌, refl, Bool, true, false, Option, some, arith, str_eq, eq_iff, if◌then◌else◌,
  nat_equal, string_equal,
}
use v2pro_dock.Json.{Json, Fields, end, field, get, put}

pub get-put :
    (k j : String) (v : Json) (fs : Fields)
    → get j (put k v fs) ≡ (if str_eq k j then some v else get j fs)
unfolding get put
get-put k j v end = refl
get-put k j v (field i w fs) = ground (arith, eq_iff i k, eq_iff i j, eq_iff k j, get-put k j v fs)

pub get-put_self : (k : String) (v : Json) (fs : Fields) → get k (put k v fs) ≡ some v
get-put_self k v fs = ground (arith, get-put k k v fs, eq_iff k k)

pub get-put_ne :
    (k j : String) (v : Json) (fs : Fields) → str_eq k j ≡ false → get j (put k v fs) ≡ get j fs
get-put_ne k j v fs h = ground (arith, get-put k j v fs)

-- A key that both branches leave alone.
pub get-if :
    (k : String) (r : Option Json) (b : Bool) (x y : Fields)
    → get k x ≡ r
    → get k y ≡ r
    → get k (if b then x else y) ≡ r
get-if k r true x y hx hy = hx
get-if k r false x y hx hy = hy
