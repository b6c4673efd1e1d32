-- ===== src/Prelude/Strtol.antt =====
-- strtol(s, &end, 10) of <cstdlib>, on a 64-bit long.
use Prim.Native.Nat.{ℕ, ◌-◌, ◌^◌}
use mathlib.Core.Bool.{Bool, true, false}
use mathlib.Core.List.{[], ◌∷◌}
use smqueue.Prelude.Tests.{ltb, leb, ◌==◌, if◌then◌else◌}
use smqueue.Prelude.Bytes.{Str, is_space, is_digit, skip_while, take_while, digits_value}
use smqueue.Prelude.Int.{ℤ, pos, negsuc}

-- The value, what `end` points at, and whether errno is ERANGE.
pub record Strtol : Type 0 where
  pub value : ℤ
  pub rest : Str
  pub range_error : Bool

unfoldable pub positive : ℕ → Str → Strtol
positive n rest =
    if ltb n (2 ^ 63)
    then record { value = pos n; rest = rest; range_error = false }
    else record { value = pos (2 ^ 63 - 1); rest = rest; range_error = true }

unfoldable pub negative : ℕ → Str → Strtol
negative n rest =
    if n == 0
    then record { value = pos 0; rest = rest; range_error = false }
    else if leb n (2 ^ 63)
    then record { value = negsuc (n - 1); rest = rest; range_error = false }
    else record { value = negsuc (2 ^ 63 - 1); rest = rest; range_error = true }

-- Digits behind an optional sign; without a digit the whole text is left.
unfoldable pub signed : Str → (ℕ → Str → Strtol) → Str → Strtol
unfolding take_while skip_while digits_value is_digit
signed whole make s = elim (take_while is_digit s) [
  | [] ↦ record { value = pos 0; rest = whole; range_error = false }
  | c ∷ r ↦ make (digits_value 0 (c ∷ r)) (skip_while is_digit s)
]

unfoldable pub strtol : Str → Strtol
unfolding signed positive negative skip_while is_space
strtol s = elim (skip_while is_space s) [
  | [] ↦ record { value = pos 0; rest = s; range_error = false }
  | c ∷ r ↦
      if c == b'-'
      then signed s negative r
      else if c == b'+'
      then signed s positive r
      else signed s positive (c ∷ r)
]
