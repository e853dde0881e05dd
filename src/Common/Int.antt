-- ===== src/Common/Int.antt =====
-- The C++ `int` and `long long int` values of the program, as integers.
use Prim.Native.Nat.{ℕ}

-- `negsuc n` is -(n + 1).
pub data ℤ : Type 0 where
  pos : ℕ → ℤ
  negsuc : ℕ → ℤ
