-- ===== src/Prelude/Integer.antt =====
-- The signed integers of C++.
use Prim.Native.Nat.{ℕ}

-- `int` and `int64_t`; `negsuc n` is -(n + 1).
pub data ℤ : Type 0 where
  pos : ℕ → ℤ
  negsuc : ℕ → ℤ
