-- ===== src/Prelude/Int.antt =====
-- Signed integers over the native numbers: `negsuc n` is -(n + 1).
use Prim.Native.Nat.{ℕ, suc}

pub data ℤ : Type 0 where
  pos : ℕ → ℤ
  negsuc : ℕ → ℤ

abbrev pub negate_ℕ : ℕ → ℤ
negate_ℕ Prim.Native.Nat.zero = pos 0
negate_ℕ (suc n) = negsuc n
