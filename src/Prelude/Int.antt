-- ===== src/Prelude/Int.antt =====
-- Signed integers over the native numbers, as far as status codes and lengths need them.
use Prim.Native.Nat.{ℕ, ◌-◌, ◌%◌, ◌^◌}
use mathlib.Core.Bool.{Bool, true, false, ◌&&◌}
use smqueue.Prelude.Tests.{ltb, ◌==◌}

-- `negsuc n` is -(n + 1).
pub data ℤ : Type 0 where
  pos : ℕ → ℤ
  negsuc : ℕ → ℤ

unfoldable pub is_zero : ℤ → Bool
is_zero (pos n) = n == 0
is_zero (negsuc n) = false

unfoldable pub is_negative : ℤ → Bool
is_negative (pos n) = false
is_negative (negsuc n) = true

-- The bit pattern of a long cut to an int, as an unsigned number.
unfoldable pub low_word : ℤ → ℕ
low_word (pos n) = n % 2 ^ 32
low_word (negsuc n) = 2 ^ 32 - 1 - n % 2 ^ 32

-- (int)value > 0.
unfoldable pub is_positive_int : ℤ → Bool
unfolding low_word
is_positive_int v = ltb 0 (low_word v) && ltb (low_word v) (2 ^ 31)
