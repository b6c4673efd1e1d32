-- ===== src/Prelude/Decimal.antt =====
-- A number as decimal text: `ostream << n`.
use Prim.Native.Nat.{ℕ, zero, suc, ◌+◌, ◌/◌, ◌%◌, ◌<◌}
use mathlib.Core.Path.{◌≡◌, refl, ap, ◌∙◌}
use mathlib.Core.Bool.{true}
use mathlib.Core.Logic.{inl, inr}
use mathlib.Core.List.{[], ◌∷◌}
use native.Mathlib.Omega.{arith}
use smqueue.Prelude.Tests.{ltb, if◌then◌else◌, Bool-cases}
use smqueue.Prelude.Bytes.{Str, digits_value, is_digit}
use smqueue.Prelude.Lists.{All}

-- The digits of `n` in front of a text.
show_digits : ℕ → ℕ → Str → Str
show_digits zero n acc = acc
show_digits (suc f) n acc =
    let rest = show_digits f (n / 10) ((b'0' + n % 10) ∷ acc) in
    if ltb n 10 then (b'0' + n) ∷ acc else rest

unfoldable pub decimal : ℕ → Str
unfolding show_digits
decimal n = show_digits (suc n) n []

-- With fuel above the number, reading the digits gives the number in front of what follows.
digits_value-show :
    (f n : ℕ) (acc : Str) → n < f → digits_value 0 (show_digits f n acc) ≡ digits_value n acc
unfolding show_digits digits_value
digits_value-show zero n acc h = elim h [ ]
digits_value-show (suc f) n acc h = elim (Bool-cases (ltb n 10)) [
  | inl e ↦ rw e (ap (λ (k : ℕ). digits_value k acc) (omega arith))
  | inr e ↦ rw e (
      digits_value-show f (n / 10) _ (ground arith)
      ∙ ap (λ (k : ℕ). digits_value k acc) (omega arith))
]

pub digits_value-decimal : (n : ℕ) → digits_value 0 (decimal n) ≡ n
unfolding decimal digits_value
digits_value-decimal n = digits_value-show (suc n) n [] (omega arith)

digit-is_digit : (n : ℕ) → n < 10 → is_digit (b'0' + n) ≡ true
unfolding is_digit
digit-is_digit n h = ground arith

-- A digit is put in front of digits, at least one.
digits_show :
    (f n : ℕ) (acc : Str)
    → n < f
    → All (λ c. is_digit c ≡ true) acc
    → (c : ℕ) × (t : Str) × (show_digits f n acc ≡ c ∷ t) × All (λ c. is_digit c ≡ true) (c ∷ t)
unfolding show_digits
digits_show zero n acc h k = elim h [ ]
digits_show (suc f) n acc h k = elim (Bool-cases (ltb n 10)) [
  | inl e ↦ (b'0' + n, acc, rw e refl, (digit-is_digit n (ground arith), k))
  | inr e ↦ rw e (
      digits_show f (n / 10) ((b'0' + n % 10) ∷ acc) (ground arith)
        (digit-is_digit (n % 10) (omega arith), k))
]

-- A decimal text is not empty, and has digits only.
pub decimal-digits :
    (n : ℕ) → (c : ℕ) × (t : Str) × (decimal n ≡ c ∷ t) × All (λ c. is_digit c ≡ true) (c ∷ t)
unfolding decimal
decimal-digits n = digits_show (suc n) n [] (omega arith) tt
