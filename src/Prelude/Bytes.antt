-- ===== src/Prelude/Bytes.antt =====
-- C strings as lists of bytes without the closing NUL, and the comparisons of <cstring>.
use Prim.Native.Nat.{ℕ, zero, suc, ◌+◌, ◌-◌, ◌*◌}
use Prim.Native.Char.{code}
use Prim.Native.String.{String}
use mathlib.Core.Path.{◌≡◌, refl}
use mathlib.Core.Bool.{Bool, true, false, ◌&&◌, ◌||◌}
use mathlib.Core.List.{List, [], ◌∷◌}
use mathlib.Core.Option.{Option, none, some}
use native.Mathlib.Omega.{arith}
use smqueue.Prelude.Tests.{◌==◌, leb, if◌then◌else◌}

abbrev pub Str : Type 0
Str = List ℕ

-- The bytes of an ASCII literal.
abbrev pub codes : String → Str
codes String.[] = []
codes (String.◌∷◌ c s) = code c ∷ codes s

-- strcmp(s, t) == 0.
unfoldable pub str_eq : Str → Str → Bool
str_eq [] [] = true
str_eq [] (d ∷ t) = false
str_eq (c ∷ s) [] = false
str_eq (c ∷ s) (d ∷ t) = c == d && str_eq s t

-- tolower of the C locale.
unfoldable pub to_lower : ℕ → ℕ
to_lower c = if leb b'A' c && leb c b'Z' then c + 32 else c

-- strcasecmp(s, t) == 0.
unfoldable pub str_case_eq : Str → Str → Bool
unfolding to_lower
str_case_eq [] [] = true
str_case_eq [] (d ∷ t) = false
str_case_eq (c ∷ s) [] = false
str_case_eq (c ∷ s) (d ∷ t) = to_lower c == to_lower d && str_case_eq s t

-- strncmp(p, s, strlen(p)) == 0.
unfoldable pub starts_with : Str → Str → Bool
starts_with [] s = true
starts_with (c ∷ p) [] = false
starts_with (c ∷ p) (d ∷ s) = c == d && starts_with p s

-- s[i], where the byte after the last one is NUL.
unfoldable pub char_at : Str → ℕ → ℕ
char_at [] i = 0
char_at (c ∷ s) zero = c
char_at (c ∷ s) (suc i) = char_at s i

-- strchr(s, c): what stands before the first `c`, and what stands behind it.
unfoldable pub split_at : ℕ → Str → Option (Str × Str)
split_at c [] = none
split_at c (d ∷ s) =
    if d == c
    then some ([], s)
    else elim (split_at c s) [ none ↦ none | some (a, b) ↦ some (d ∷ a, b) ]

unfoldable pub is_digit : ℕ → Bool
is_digit c = leb b'0' c && leb c b'9'

pub str_eq_refl : (s : Str) → str_eq s s ≡ true
unfolding str_eq
str_eq_refl [] = refl
str_eq_refl (c ∷ s) = ground (arith, str_eq_refl s)

pub str_eq_sound : (s t : Str) → str_eq s t ≡ true → s ≡ t
unfolding str_eq
str_eq_sound [] [] h = refl
str_eq_sound [] (d ∷ t) h = cc
str_eq_sound (c ∷ s) [] h = cc
str_eq_sound (c ∷ s) (d ∷ t) h = ground (arith, str_eq_sound s t)

-- isspace of the C locale.
unfoldable pub is_space : ℕ → Bool
is_space c = c == 32 || (leb 9 c && leb c 13)

unfoldable pub skip_while : (ℕ → Bool) → Str → Str
skip_while p [] = []
skip_while p (c ∷ s) = if p c then skip_while p s else c ∷ s

unfoldable pub take_while : (ℕ → Bool) → Str → Str
take_while p [] = []
take_while p (c ∷ s) = if p c then c ∷ take_while p s else []

-- The decimal number that a run of digits stands for.
unfoldable pub digits_value : ℕ → Str → ℕ
digits_value acc [] = acc
digits_value acc (c ∷ s) = digits_value (acc * 10 + (c - b'0')) s

-- strstr(s, p): the text from the first occurrence on.
unfoldable pub find : Str → Str → Option Str
find p [] = if starts_with p [] then some [] else none
find p (c ∷ s) = if starts_with p (c ∷ s) then some (c ∷ s) else find p s

unfoldable pub starts_with_case : Str → Str → Bool
starts_with_case [] s = true
starts_with_case (c ∷ p) [] = false
starts_with_case (c ∷ p) (d ∷ s) = to_lower c == to_lower d && starts_with_case p s

-- strcasestr(s, p).
unfoldable pub find_case : Str → Str → Option Str
find_case p [] = if starts_with_case p [] then some [] else none
find_case p (c ∷ s) = if starts_with_case p (c ∷ s) then some (c ∷ s) else find_case p s

-- isalpha of the C locale.
unfoldable pub is_letter : ℕ → Bool
is_letter c = (leb b'A' c && leb c b'Z') || (leb b'a' c && leb c b'z')
