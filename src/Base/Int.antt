-- ===== src/Base/Int.antt =====
-- Signed integers over the native numbers, with the order only: what the source compares.
use Prim.Native.Nat.{ℕ, suc, ◌+◌, ◌*◌}
use mathlib.Core.Bool.{Bool}
use engine_ci.Base.Tests.{ltb}

-- `negsuc n` is -(n + 1).
pub data ℤ : Type 0 where
  pos : ℕ → ℤ
  negsuc : ℕ → ℤ

-- t seconds, and a number of nanoseconds, before n nanoseconds.
abbrev pub elapsed_before : ℤ → ℕ → ℕ → Bool
elapsed_before (pos s) d n = ltb (s * 1000000000 + d) n
elapsed_before (negsuc s) d n = ltb d (n + suc s * 1000000000)
