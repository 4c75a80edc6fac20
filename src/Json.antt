-- ===== src/Json.antt =====
-- Go's view of JSON in v2proxy/subscription.go and v2proxy/selector.go: a `map[string]any`, its
-- slices and scalars. An object's fields are an association list, as a Go map prints in key order.
pub mod Laws
use v2pro_dock.Base.{
  String, Bool, Option, none, some, List, [], ◌∷◌, map, str_eq, if◌then◌else◌, nat_equal,
  string_equal,
}
use v2pro_dock.Base.Int.{ℤ}

-- A number is an integer, or the text that `fmt.Sprint` gives for any other.
mutual
  pub data Json : Type 0 where
    null : Json
    bool : Bool → Json
    num : ℤ → Json
    float : String → Json
    str : String → Json
    arr : Items → Json
    obj : Fields → Json

  pub data Items : Type 0 where
    nil : Items
    item : Json → Items → Items

  pub data Fields : Type 0 where
    end : Fields
    field : String → Json → Fields → Fields

-- `v, ok := m[k]`
unfoldable pub get : String → Fields → Option Json
get k end = none
get k (field j v fs) = let rest = get k fs in if str_eq j k then some v else rest

-- `m[k] = v`
unfoldable pub put : String → Json → Fields → Fields
put k v end = field k v end
put k v (field j w fs) =
    let rest = put k v fs in if str_eq j k then field j v fs else field j w rest

-- A map literal, whose keys differ.
abbrev pub fields : List (String × Json) → Fields
fields [] = end
fields ((k, v) ∷ kvs) = field k v (fields kvs)

abbrev pub object : List (String × Json) → Json
object kvs = obj (fields kvs)

abbrev pub items : List Json → Items
items [] = nil
items (v ∷ vs) = item v (items vs)

abbrev pub array : List Json → Json
array vs = arr (items vs)

abbrev pub texts : List String → Json
texts ss = array (map str ss)

-- `m, ok := v.(map[string]any)`
abbrev pub as_object : Option Json → Option Fields
as_object (some (obj fs)) = some fs
as_object _ = none

-- `s, _ := v.(string)`: anything else gives the empty text.
abbrev pub as_text : Option Json → String
as_text (some (str s)) = s
as_text _ = ""

-- `m[k]` of a value that should be an object
unfoldable pub member : String → Option Json → Option Json
unfolding get
member k v = elim (as_object v) [ none ↦ none | some fs ↦ get k fs ]

-- `v[0]` of a value that should be a slice
unfoldable pub first : Option Json → Option Json
first (some (arr (item v vs))) = some v
first _ = none
