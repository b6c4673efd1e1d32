-- ===== src/Smq/Stream.antt =====
-- The extractions of std::ifstream that read_queue_from_file of smqueue/smqueue.cpp uses.
pub mod Extract
use smqueue.Prelude.{
  ℕ, zero, suc, ◌+◌, ◌-◌, ◌%◌, ◌^◌, Bool, true, false, not, ◌||◌, List, [], ◌∷◌, ◌++◌, Option, none,
  some, Str, codes, str_eq, is_space, is_digit, skip_while, take_while, split_at, digits_value,
  decimal, length, take, drop, Res, ok, fault, deref, ◌>>=◌, ltb, leb, ◌==◌, if◌then◌else◌,
}

-- An ifstream: what is left, failbit, and eofbit.
pub record Stream : Type 0 where
  pub rest : Str
  pub is_failed : Bool
  pub is_eof : Bool

abbrev pub at : Str → Stream
at r = record { rest = r; is_failed = false; is_eof = false }

abbrev pub behind : Str → Stream
behind [] = record { rest = []; is_failed = false; is_eof = true }
behind (c ∷ r) = at (c ∷ r)

abbrev pub failing : Stream → Stream
failing f = record f { is_failed = true }

-- What operator>> does first: nothing is read from a stream that is not good; spaces are skipped.
abbrev pub first : {A : Type 0} → A → (Str → Stream × A) → Str → Stream × A
first old next [] = (record { rest = []; is_failed = true; is_eof = true }, old)
first old next (c ∷ r) = next (c ∷ r)

unfoldable pub extract : {A : Type 0} → Stream → A → (Str → Stream × A) → Stream × A
unfolding skip_while is_space
extract f old next =
    if f.is_failed || f.is_eof
    then (failing f, old)
    else first old next (skip_while is_space f.rest)

unfoldable pub word_of : Str → Stream × Str
unfolding skip_while take_while is_space
word_of r = (behind (skip_while (λ c. not (is_space c)) r), take_while (λ c. not (is_space c)) r)

-- stream >> text.
unfoldable pub extract_word : Stream → Str → Stream × Str
unfolding extract word_of
extract_word f old = extract f old word_of

-- The digits of an unsigned int of 32 bits; one that does not fit gives the largest, and fails.
unfoldable pub numeral : (ℕ → ℕ) → Str → Str → Stream × ℕ
unfolding digits_value
numeral sign [] r = (failing (behind r), 0)
numeral sign (c ∷ t) r =
    if ltb (digits_value 0 (c ∷ t)) (2 ^ 32)
    then (behind r, sign (digits_value 0 (c ∷ t)))
    else (failing (behind r), 2 ^ 32 - 1)

unfoldable pub magnitude : (ℕ → ℕ) → Str → Stream × ℕ
unfolding take_while skip_while is_digit numeral
magnitude sign r = numeral sign (take_while is_digit r) (skip_while is_digit r)

unfoldable pub unsigned_of : Str → Stream × ℕ
unfolding magnitude
unsigned_of [] = (failing (behind []), 0)
unsigned_of (c ∷ r) =
    if c == b'-'
    then magnitude (λ n. (2 ^ 32 - n) % 2 ^ 32) r
    else if c == b'+'
    then magnitude (λ n. n) r
    else magnitude (λ n. n) (c ∷ r)

-- stream >> unsigned.
unfoldable pub extract_unsigned : Stream → ℕ → Stream × ℕ
unfolding extract unsigned_of
extract_unsigned f old = extract f old unsigned_of

-- while (peek() == '\n') get().
unfoldable pub skip_newlines : Stream → Stream
unfolding skip_while
skip_newlines f =
    if f.is_failed || f.is_eof then failing f else behind (skip_while (λ c. c == 10) f.rest)

-- get(text, length + 1, '\0'); it fails where it gets nothing.
unfoldable pub get_chars : ℕ → Stream → Stream × Str
unfolding take_while
get_chars n f =
    let text = take_while (λ c. not (c == 0)) (take n f.rest) in
    if f.is_failed || f.is_eof
    then (failing f, [])
    else if length text == 0
    then (failing (behind f.rest), [])
    else (behind (drop (length text) f.rest), text)
