-- ===== src/Prelude/Int.antt =====
-- The signed numbers of the source: Go's `int` and `time.Duration`.
use Prim.Native.Nat.{ℕ}

-- `negsuc n` is -(n + 1).
pub data ℤ : Type 0 where
  pos : ℕ → ℤ
  negsuc : ℕ → ℤ
