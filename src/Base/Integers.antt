-- ===== src/Base/Integers.antt =====
-- Integers, with a sign in front of a native number.
use Prim.Native.Nat.{ℕ}

pub data ℤ : Type 0 where
  pos : ℕ → ℤ
  negsuc : ℕ → ℤ
