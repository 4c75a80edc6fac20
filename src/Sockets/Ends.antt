-- ===== src/Sockets/Ends.antt =====
-- The two rows of a connection in the tables that v2proxy/selector.go reads.
use v2pro_dock.Base.{String, ◌≡◌, refl, Bool, true, false, if◌then◌else◌, nat_equal, string_equal}
use v2pro_dock.Sockets.{endpoint_string, TextTools, Row, Key, connection, key_equal}

-- The row of the other end.
abbrev pub mirrored : Row → String → Row
mirrored r inode = record { local = r.remote; remote = r.local; state = r.state; inode = inode }

-- Strings are ordered: of two different ones exactly one is greater.
abbrev pub IsOrder : (String → String → Bool) → Type 0
IsOrder greater =
    ((a b : String) → greater a b ≡ true → greater b a ≡ false)
    × ((a b : String) → greater a b ≡ false → greater b a ≡ false → a ≡ b)

-- Both rows of a connection have one key.
pub connection-mirrored :
    (g : TextTools)
    → IsOrder g.greater
    → (r : Row) (inode : String) → connection g (mirrored r inode) ≡ connection g r
unfolding connection
connection-mirrored g order r inode =
    ordered_pair (g.greater a b) (g.greater b a) (order.0 a b) (order.1 a b)
  where
    a : String
    a = endpoint_string g r.local

    b : String
    b = endpoint_string g r.remote

    swapped : a ≡ b → ◌≡◌ {A = Key} (b, a) (a, b)
    swapped e = cc

    ordered_pair :
        (x y : Bool)
        → (x ≡ true → y ≡ false)
        → (x ≡ false → y ≡ false → a ≡ b)
        → ◌≡◌ {A = Key} (if y then (a, b) else (b, a)) (if x then (b, a) else (a, b))
    ordered_pair true y h k = rw (h refl) refl
    ordered_pair false true h k = refl
    ordered_pair false false h k = let e = k refl refl in swapped e
