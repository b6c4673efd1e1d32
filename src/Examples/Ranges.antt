-- ===== src/Examples/Ranges.antt =====
-- The numbers in ranges of bits that are given one by one.
use smqueue.Prelude.{
  ℕ, zero, suc, ◌+◌, ◌-◌, ◌*◌, ◌/◌, ◌%◌, ◌^◌, ◌≤◌, ◌<◌, ◌≡◌, refl, ap, ◌∙◌, ◌&&◌, ◌⊎◌, true, leb,
  ltb, if◌then◌else◌, arith,
}
use native.Mathlib.Numerals.{unary_clauses}

pub record BitArray : Type 0 where
  pub size : ℕ
  pub bit : ℕ → ℕ

-- The number in n bits from i on, the highest bit first.
unfoldable pub read : (ℕ → ℕ) → ℕ → ℕ → ℕ
read f i zero = 0
read f i (suc n) = read f i n * 2 + f (i + n)

unfoldable pub bit_of : ℕ → ℕ → ℕ
bit_of v zero = v % 2
bit_of v (suc k) = bit_of (v / 2) k

-- A range of bits is replaced.
unfoldable pub replace : (ℕ → ℕ) → ℕ → ℕ → (ℕ → ℕ) → ℕ → ℕ
replace f i n g j = if leb i j && ltb j (i + n) then g (j - i) else f j

pow_suc : (n : ℕ) → 2 ^ suc n ≡ 2 ^ n * 2
pow_suc n = simp unary_clauses

pub read-bits :
    (f : ℕ → ℕ) (i n v : ℕ)
    → v < 2 ^ n
    → ((k : ℕ) → k < n → f (i + k) ≡ bit_of v (n - 1 - k))
    → read f i n ≡ v
unfolding read bit_of
read-bits f i zero v h k = omega arith
read-bits f i (suc n) v h k =
    let last : f (i + n) ≡ v % 2 = k n (omega arith) ∙ ap (bit_of v) (zero_of n) in
    let front : read f i n ≡ v / 2 =
      read-bits f i n (v / 2) (omega (arith, pow_suc n))
        (λ j l. k j (omega arith) ∙ ap (bit_of v) (suc_of n j l)) in
    omega (arith, last, front)
  where
    zero_of : (n : ℕ) → suc n - 1 - n ≡ 0
    zero_of n = omega arith

    suc_of : (n j : ℕ) → j < n → suc n - 1 - j ≡ suc (n - 1 - j)
    suc_of n j l = omega arith

pub read-same :
    (f g : ℕ → ℕ) (i j n : ℕ) → ((k : ℕ) → k < n → f (i + k) ≡ g (j + k)) → read f i n ≡ read g j n
unfolding read
read-same f g i j zero h = refl
read-same f g i j (suc n) h =
    omega (arith, h n (omega arith), read-same f g i j n (λ k l. h k (omega arith)))

pub replace-inside :
    (f : ℕ → ℕ) (i n : ℕ) (g : ℕ → ℕ) (k : ℕ) → k < n → replace f i n g (i + k) ≡ g k
unfolding replace
replace-inside f i n g k h = rw (inside i n k h, shift i k) refl
  where
    inside : (i n k : ℕ) → k < n → (leb i (i + k) && ltb (i + k) (i + n)) ≡ true
    inside i n k h = ground arith

    shift : (i k : ℕ) → i + k - i ≡ k
    shift i k = omega arith

pub replace-outside :
    (f : ℕ → ℕ) (i n : ℕ) (g : ℕ → ℕ) (k : ℕ) → (k < i) ⊎ (i + n ≤ k) → replace f i n g k ≡ f k
unfolding replace
replace-outside f i n g k h = ground arith
