-- ===== src/Prelude/Int.antt =====
-- Go's `int` as a mathematical integer, for option fields that may be zero or negative.
use Prim.Native.Nat.{ℕ}

-- `negsuc n` is -(n + 1).
pub data ℤ : Type 0 where
  pos : ℕ → ℤ
  negsuc : ℕ → ℤ
