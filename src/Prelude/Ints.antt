-- ===== src/Prelude/Ints.antt =====
-- `i64`, over the native numbers: the program stores, compares and prints these and computes with
-- none of them.
use Prim.Native.Nat.{ℕ}

-- `negsuc n` is -(n + 1).
pub data ℤ : Type 0 where
  pos negsuc : ℕ → ℤ
