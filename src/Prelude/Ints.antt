-- ===== src/Prelude/Ints.antt =====
-- C ints as integers.
use Prim.Native.Nat.{ℕ}

pub data ℤ : Type 0 where
  pos : ℕ → ℤ
  negsuc : ℕ → ℤ
