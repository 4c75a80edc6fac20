-- ===== src/Base/Int.antt =====
-- Go's `int` where the program uses negative values (an index of -1 for "none"). `negsuc n` is
-- -(n + 1). Values stay far below 2 ^ 63, so no operation here wraps.
use Prim.Native.Nat.{ℕ}

pub data ℤ : Type 0 where
  pos : ℕ → ℤ
  negsuc : ℕ → ℤ
