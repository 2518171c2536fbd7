-- ===== src/Prelude/Integers.antt =====
-- Go's `int`, where it may be negative; `negsuc n` is -1 - n.
use Prim.Native.Nat.{ℕ}

pub data ℤ : Type 0 where
  pos negsuc : ℕ → ℤ
