-- ===== src/Smq/Stream/Extract.antt =====
-- What the extractions of smqueue.cpp make of a record that was written.
use smqueue.Prelude.{
  ℕ, suc, ◌-◌, ◌^◌, ◌≤◌, ◌<◌, ◌≡◌, refl, sym, ap, ◌∙◌, Bool, true, false, not, [], ◌∷◌, ◌++◌, Str,
  All, is_space, is_digit, skip_while, take_while, digits_value, decimal, digits_value-decimal,
  decimal-digits, length, take, drop, ◌==◌, arith,
}
use smqueue.Smq.Stream.{
  Stream, failing, at, behind, extract, extract_word, extract_unsigned, word_of, unsigned_of,
  numeral, magnitude, skip_newlines, get_chars,
}

abbrev pub failed_at : Str → Stream
failed_at r = record { rest = r; is_failed = true; is_eof = false }

abbrev pub Each : (ℕ → Bool) → Str → Type 0
Each p s = All (λ c. p c ≡ true) s

pub take_while-append :
    (p : ℕ → Bool) (s : Str) (c : ℕ) (r : Str)
    → Each p s
    → p c ≡ false
    → take_while p (s ++ c ∷ r) ≡ s
unfolding take_while
take_while-append p [] c r h k = rw k refl
take_while-append p (x ∷ s) c r h k =
    rw h.0 (ap (λ (t : Str). x ∷ t) (take_while-append p s c r h.1 k))

pub skip_while-append :
    (p : ℕ → Bool) (s : Str) (c : ℕ) (r : Str)
    → Each p s
    → p c ≡ false
    → skip_while p (s ++ c ∷ r) ≡ c ∷ r
unfolding skip_while
skip_while-append p [] c r h k = rw k refl
skip_while-append p (x ∷ s) c r h k = rw h.0 (skip_while-append p s c r h.1 k)

not-true : (b : Bool) → b ≡ true → not b ≡ false
not-true b h = ap not h

pub extract_word-word :
    (x old : Str) (c d : ℕ) (t r : Str)
    → Each (λ c. not (is_space c)) (c ∷ t)
    → is_space d ≡ true
    → skip_while is_space x ≡ (c ∷ t) ++ d ∷ r
    → extract_word (at x) old ≡ (at (d ∷ r), c ∷ t)
unfolding extract_word extract word_of
extract_word-word x old c d t r k sep h =
    let p : ℕ → Bool = λ c. not (is_space c) in
    rw
      (
        h,
        skip_while-append p (c ∷ t) d r k (ap not sep),
        take_while-append p (c ∷ t) d r k (ap not sep),
      )
      refl

digit-not_sign : (c : ℕ) → is_digit c ≡ true → ((c == b'-') ≡ false) × ((c == b'+') ≡ false)
unfolding is_digit
digit-not_sign c h = (ground arith, ground arith)

digit-not_space : (c : ℕ) → is_digit c ≡ true → is_space c ≡ false
unfolding is_digit is_space
digit-not_space c h = ground arith

space-not_digit : (c : ℕ) → is_space c ≡ true → is_digit c ≡ false
unfolding is_digit is_space
space-not_digit c h = ground arith

magnitude-fits :
    (sign : ℕ → ℕ) (s : Str) (c d : ℕ) (t r : Str)
    → take_while is_digit s ≡ c ∷ t
    → skip_while is_digit s ≡ d ∷ r
    → digits_value 0 (c ∷ t) < 2 ^ 32
    → magnitude sign s ≡ (at (d ∷ r), sign (digits_value 0 (c ∷ t)))
unfolding magnitude numeral
magnitude-fits sign s c d t r h k l = rw (h, k) (ground arith)

magnitude-overflows :
    (sign : ℕ → ℕ) (s : Str) (c d : ℕ) (t r : Str)
    → take_while is_digit s ≡ c ∷ t
    → skip_while is_digit s ≡ d ∷ r
    → 2 ^ 32 ≤ digits_value 0 (c ∷ t)
    → magnitude sign s ≡ (failed_at (d ∷ r), 2 ^ 32 - 1)
unfolding magnitude numeral
magnitude-overflows sign s c d t r h k l = rw (h, k) (ground arith)

module _ (c d : ℕ) (t r : Str) (k : Each is_digit (c ∷ t)) (sep : is_space d ≡ true) where
  unsigned_of-magnitude : unsigned_of ((c ∷ t) ++ d ∷ r) ≡ magnitude (λ n. n) ((c ∷ t) ++ d ∷ r)
  unfolding unsigned_of
  unsigned_of-magnitude = rw ((digit-not_sign c k.0).0, (digit-not_sign c k.0).1) refl

  taken : take_while is_digit ((c ∷ t) ++ d ∷ r) ≡ c ∷ t
  taken = take_while-append is_digit (c ∷ t) d r k (space-not_digit d sep)

  skipped : skip_while is_digit ((c ∷ t) ++ d ∷ r) ≡ d ∷ r
  skipped = skip_while-append is_digit (c ∷ t) d r k (space-not_digit d sep)

-- The digits behind a space are what the number is read from.
extract_unsigned-digits :
    (old n d : ℕ) (r : Str)
    → (c : ℕ) × (t : Str) × (extract_unsigned (at (32 ∷ (decimal n ++ d ∷ r))) old
        ≡ unsigned_of ((c ∷ t) ++ d ∷ r))
      × Each is_digit (c ∷ t)
      × (digits_value 0 (c ∷ t) ≡ n)
unfolding extract_unsigned extract skip_while
extract_unsigned-digits old n d r =
    let (c, t, e, k) = decimal-digits n in
    (
      c,
      t,
      rw (e, digit-not_space c k.0) refl,
      k,
      ap (digits_value 0) (sym e) ∙ digits_value-decimal n,
    )

-- A number behind a space is read where it fits, up to the space behind it.
pub extract_unsigned-decimal :
    (old n d : ℕ) (r : Str)
    → n < 2 ^ 32
    → is_space d ≡ true
    → extract_unsigned (at (32 ∷ (decimal n ++ d ∷ r))) old ≡ (at (d ∷ r), n)
extract_unsigned-decimal old n d r h sep =
    let (c, t, e, k, v) = extract_unsigned-digits old n d r in
    e
    ∙ unsigned_of-magnitude c d t r k sep
    ∙ magnitude-fits (λ n. n) ((c ∷ t) ++ d ∷ r) c d t r (taken c d t r k sep)
        (skipped c d t r k sep) (omega (arith, v))
    ∙ ap (λ (m : ℕ). (at (d ∷ r), m)) v

-- One that does not fit makes the stream fail.
pub extract_unsigned-overflow :
    (old n d : ℕ) (r : Str)
    → 2 ^ 32 ≤ n
    → is_space d ≡ true
    → extract_unsigned (at (32 ∷ (decimal n ++ d ∷ r))) old ≡ (failed_at (d ∷ r), 2 ^ 32 - 1)
extract_unsigned-overflow old n d r h sep =
    let (c, t, e, k, v) = extract_unsigned-digits old n d r in
    e
    ∙ unsigned_of-magnitude c d t r k sep
    ∙ magnitude-overflows (λ n. n) ((c ∷ t) ++ d ∷ r) c d t r (taken c d t r k sep)
        (skipped c d t r k sep) (omega (arith, v))

-- Nothing is read from a stream that failed.
pub extract_word-failed :
    (f : Stream) (old : Str) → f.is_failed ≡ true → extract_word f old ≡ (failing f, old)
unfolding extract_word extract
extract_word-failed f old h = rw h refl

pub extract_unsigned-failed :
    (f : Stream) (old : ℕ) → f.is_failed ≡ true → extract_unsigned f old ≡ (failing f, old)
unfolding extract_unsigned extract
extract_unsigned-failed f old h = rw h refl

pub skip_newlines-failed : (f : Stream) → f.is_failed ≡ true → skip_newlines f ≡ failing f
unfolding skip_newlines
skip_newlines-failed f h = rw h refl

pub get_chars-failed : (n : ℕ) (f : Stream) → f.is_failed ≡ true → get_chars n f ≡ (failing f, [])
unfolding get_chars
get_chars-failed n f h = rw h refl

take-append : (s r : Str) → take (length s) (s ++ r) ≡ s
take-append [] r = refl
take-append (c ∷ s) r = ap (λ (t : Str). c ∷ t) (take-append s r)

drop-append : (s r : Str) → drop (length s) (s ++ r) ≡ r
drop-append [] r = refl
drop-append (c ∷ s) r = drop-append s r

take_while-all : (p : ℕ → Bool) (s : Str) → Each p s → take_while p s ≡ s
unfolding take_while
take_while-all p [] h = refl
take_while-all p (c ∷ s) h = rw h.0 (ap (λ (t : Str). c ∷ t) (take_while-all p s h.1))

get_chars-at :
    (n c : ℕ) (x t r : Str)
    → take_while (λ c. not (c == 0)) (take n x) ≡ c ∷ t
    → drop (length (c ∷ t)) x ≡ r
    → get_chars n (at x) ≡ (behind r, c ∷ t)
unfolding get_chars
get_chars-at n c x t r h k = rw (h, k, suc-ne_zero (length t)) refl
  where
    suc-ne_zero : (n : ℕ) → (suc n == 0) ≡ false
    suc-ne_zero n = ground arith

-- A text without a NUL is read by its length.
pub get_chars-text :
    (c : ℕ) (t r : Str)
    → Each (λ c. not (c == 0)) (c ∷ t)
    → get_chars (length (c ∷ t)) (at ((c ∷ t) ++ r)) ≡ (behind r, c ∷ t)
get_chars-text c t r k =
    get_chars-at (length (c ∷ t)) c ((c ∷ t) ++ r) t r
      (ap (take_while (λ c. not (c == 0))) (take-append (c ∷ t) r)
        ∙ take_while-all (λ c. not (c == 0)) (c ∷ t) k)
      (drop-append (c ∷ t) r)

pub skip_newlines-at :
    (x y : Str) → skip_while (λ c. c == 10) x ≡ y → skip_newlines (at x) ≡ behind y
unfolding skip_newlines
skip_newlines-at x y h = rw h refl
