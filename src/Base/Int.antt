-- ===== src/Base/Int.antt =====
-- Go's signed `int`, where its sign matters. `negsuc n` is -(n + 1).
use Prim.Native.Nat.{ℕ}

pub data ℤ : Type 0 where
  pos : ℕ → ℤ
  negsuc : ℕ → ℤ
