-- ===== src/Prelude/Int.antt =====
-- Go's `int`, 64 bits wide on the platforms that the program is built for. `negsuc n` is -(n + 1).
use Prim.Native.Nat.{ℕ}

pub data ℤ : Type 0 where
  pos : ℕ → ℤ
  negsuc : ℕ → ℤ
