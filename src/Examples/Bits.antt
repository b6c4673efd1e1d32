-- ===== src/Examples/Bits.antt =====
-- Bit vectors as arrays, at which the theorems on the SMS codec are applied.
use smqueue.Prelude.{
  ℕ, Bool, false, subst, ◌+◌, ◌-◌, ◌*◌, ◌/◌, ◌%◌, ◌^◌, ◌≤◌, ◌<◌, ◌≡◌, refl, sym, ap, ◌∙◌, ◌⊎◌, inl,
  inr, true, leb, if◌then◌else◌, arith,
}
use smqueue.Codec.{
  Parse, value, sms_read_error, l3_read_error, asserted, overrun, IsApart, BitVectors,
}
use smqueue.Examples.Ranges.{
  BitArray, read, bit_of, replace, read-bits, read-same, replace-inside, replace-outside,
}

unfoldable pub peek : BitArray → ℕ → ℕ → Parse ℕ
unfolding read
peek b i n = if leb (i + n) b.size then value (read b.bit i n) else asserted

unfoldable pub fill : BitArray → ℕ → ℕ → ℕ → Parse BitArray
unfolding bit_of replace
fill b i v n =
    if leb (i + n) b.size
    then value (record b { bit = replace b.bit i n (λ k. bit_of v (n - 1 - k)) })
    else asserted

unfoldable pub cut : BitArray → ℕ → ℕ → Parse BitArray
cut b i n =
    if leb (i + n) b.size then value (record { size = n; bit = λ k. b.bit (i + k) }) else asserted

unfoldable pub paste : BitArray → BitArray → ℕ → Parse BitArray
unfolding replace
paste b d i =
    if leb (i + b.size) d.size
    then value (record d { bit = replace d.bit i b.size b.bit })
    else asserted

peek-same :
    (b c : BitArray) (i j n : ℕ)
    → i + n ≤ b.size
    → j + n ≤ c.size
    → ((k : ℕ) → k < n → b.bit (i + k) ≡ c.bit (j + k))
    → peek b i n ≡ peek c j n
unfolding peek
peek-same b c i j n h l k = ground (arith, read-same b.bit c.bit i j n k)

beside : (i n j m k : ℕ) → IsApart i n j m → k < m → (j + k < i) ⊎ (i + n ≤ j + k)
beside i n j m k (inl h) l = inl (omega arith)
beside i n j m k (inr h) l = inr (omega arith)

peek_apart :
    (b : BitArray) (i n : ℕ) (g : ℕ → ℕ) (j m : ℕ)
    → IsApart i n j m
    → peek (record b { bit = replace b.bit i n g }) j m ≡ peek b j m
unfolding peek
peek_apart b i n g j m a =
    rw
      (read-same (replace b.bit i n g) b.bit j j m
        (λ k l. replace-outside b.bit i n g (j + k) (beside i n j m k a l)))
      refl

pub fill_lem :
    (b : BitArray) (i v n : ℕ)
    → i + n ≤ b.size
    → v < 2 ^ n
    → (c : BitArray) × (fill b i v n ≡ value c)
      × (c.size ≡ b.size)
      × (peek c i n ≡ value v)
      × ((j m : ℕ) → IsApart i n j m → peek c j m ≡ peek b j m)
unfolding fill peek
fill_lem b i v n h l =
    let g : ℕ → ℕ = λ k. bit_of v (n - 1 - k) in
    (
      record b { bit = replace b.bit i n g },
      ground arith,
      refl,
      ground
          (arith, read-bits (replace b.bit i n g) i n v l (λ k q. replace-inside b.bit i n g k q)),
      peek_apart b i n g,
    )

pub cut_lem :
    (b : BitArray) (i n : ℕ)
    → i + n ≤ b.size
    → (c : BitArray) × (cut b i n ≡ value c)
      × (c.size ≡ n)
      × ((j m : ℕ) → j + m ≤ n → peek c j m ≡ peek b (i + j) m)
unfolding cut
cut_lem b i n h = (
  record { size = n; bit = λ k. b.bit (i + k) },
  ground arith,
  refl,
  λ j m l.
      peek-same (record { size = n; bit = λ k. b.bit (i + k) }) b j (i + j) m l (omega arith)
        (λ k q. ap b.bit (omega arith)),
)

pub paste_lem :
    (b d : BitArray) (i : ℕ)
    → i + b.size ≤ d.size
    → (c : BitArray) × (paste b d i ≡ value c)
      × (c.size ≡ d.size)
      × ((j m : ℕ) → j + m ≤ b.size → peek c (i + j) m ≡ peek b j m)
      × ((j m : ℕ) → IsApart i b.size j m → peek c j m ≡ peek d j m)
unfolding paste
paste_lem b d i h =
    let c : BitArray = record d { bit = replace d.bit i b.size b.bit } in
    (
      c,
      ground arith,
      refl,
      λ j m l. peek-same c b (i + j) j m (omega arith) l (λ k q.
          ap (replace d.bit i b.size b.bit) (omega arith)
          ∙ replace-inside d.bit i b.size b.bit (j + k) (omega arith)),
      peek_apart d i b.size b.bit,
    )

-- The number in n bits from i on, the lowest bit first.
abbrev backwards : (ℕ → ℕ) → ℕ → ℕ → (ℕ → ℕ)
backwards f i n k = f (i + (n - 1 - k))

unfoldable pub peek_back : BitArray → ℕ → ℕ → Parse ℕ
unfolding read
peek_back b i n = if leb (i + n) b.size then value (read (backwards b.bit i n) 0 n) else asserted

unfoldable pub fill_back : BitArray → ℕ → ℕ → ℕ → Parse BitArray
unfolding bit_of replace
fill_back b i v n =
    if leb (i + n) b.size then value (record b { bit = replace b.bit i n (bit_of v) }) else asserted

peek_back-apart :
    (b : BitArray) (i n : ℕ) (g : ℕ → ℕ) (j m : ℕ)
    → IsApart i n j m
    → peek_back (record b { bit = replace b.bit i n g }) j m ≡ peek_back b j m
unfolding peek_back
peek_back-apart b i n g j m a =
    rw
      (read-same (backwards (replace b.bit i n g) j m) (backwards b.bit j m) 0 0 m (λ k l.
        replace-outside b.bit i n g (j + (m - 1 - (0 + k)))
          (beside i n j m (m - 1 - (0 + k)) a (omega arith))))
      refl

pub fill_back_lem :
    (b : BitArray) (i v n : ℕ)
    → i + n ≤ b.size
    → v < 2 ^ n
    → (c : BitArray) × (fill_back b i v n ≡ value c)
      × (c.size ≡ b.size)
      × (peek_back c i n ≡ value v)
      × ((j m : ℕ) → IsApart i n j m → peek_back c j m ≡ peek_back b j m)
unfolding fill_back peek_back
fill_back_lem b i v n h l = (
  record b { bit = replace b.bit i n (bit_of v) },
  ground arith,
  refl,
  ground (
    arith,
    read-bits (backwards (replace b.bit i n (bit_of v)) i n) 0 n v l (λ k q.
        replace-inside b.bit i n (bit_of v) (n - 1 - (0 + k)) (omega arith)
        ∙ ap (λ (j : ℕ). bit_of v (n - 1 - j)) (omega arith)),
  ),
  peek_back-apart b i n (bit_of v),
)

value_of : {A : Type 0} → A → Parse A → A
value_of d (value a) = a
value_of d sms_read_error = d
value_of d l3_read_error = d
value_of d asserted = d
value_of d overrun = d

filled : (t : Bool) (r c : BitArray) → (if t then value r else asserted) ≡ value c → r ≡ c
unfolding value_of
filled true r c h = ap (value_of r) h
filled false r c h = cc

pub fill-apart_back :
    (b c : BitArray) (i v n j m : ℕ)
    → fill b i v n ≡ value c
    → IsApart i n j m
    → peek_back c j m ≡ peek_back b j m
unfolding fill
fill-apart_back b c i v n j m h a =
    let g : ℕ → ℕ = λ k. bit_of v (n - 1 - k) in
    subst (λ d. peek_back d j m ≡ peek_back b j m)
      (filled (leb (i + n) b.size) (record b { bit = replace b.bit i n g }) c h)
      (peek_back-apart b i n g j m a)

-- The place of a bit when its octet is turned round.
mirror : ℕ → ℕ
mirror k = 8 * (k / 8) + (7 - k % 8)

mirror_twice : (k : ℕ) → mirror (mirror k) ≡ k
unfolding mirror
mirror_twice k = omega arith

mirror_inside : (k n : ℕ) → n % 8 ≡ 0 → k < n → mirror k < n
unfolding mirror
mirror_inside k n h l = omega arith

unfoldable pub turn : BitArray → BitArray
unfolding mirror
turn b = record b { bit = λ k. b.bit (mirror k) }

pub size-turn : (b : BitArray) → (turn b).size ≡ b.size
unfolding turn
size-turn b = refl

pub turn_twice :
    (b : BitArray) (j m : ℕ)
    → b.size % 8 ≡ 0
    → j + m ≤ b.size
    → peek (turn (turn b)) j m ≡ peek b j m
unfolding turn
turn_twice b j m w h =
    peek-same (turn (turn b)) b j j m h h (λ k l. ap b.bit (mirror_twice (j + k)))

bit_or : Parse ℕ → ℕ
bit_or (value n) = n
bit_or sms_read_error = 0
bit_or l3_read_error = 0
bit_or asserted = 0
bit_or overrun = 0

peek_one : (b : BitArray) (k : ℕ) → k < b.size → peek b k 1 ≡ value (b.bit k)
unfolding peek read
peek_one b k h = ground (arith, at k)
  where
    at : (k : ℕ) → b.bit (k + 0) ≡ b.bit k
    at k = ap b.bit (omega arith)

pub turn_same :
    (b c : BitArray) (j m : ℕ)
    → b.size % 8 ≡ 0
    → b.size ≡ c.size
    → ((j m : ℕ) → j + m ≤ c.size → peek b j m ≡ peek c j m)
    → j + m ≤ c.size
    → peek (turn b) j m ≡ peek (turn c) j m
unfolding turn bit_or
turn_same b c j m w s same h = peek-same (turn b) (turn c) j j m (omega arith) h (λ k l.
    let inside : mirror (j + k) < b.size = mirror_inside (j + k) b.size w (omega arith) in
    ap bit_or (
      sym (peek_one b (mirror (j + k)) inside)
      ∙ same (mirror (j + k)) 1 (omega arith)
      ∙ peek_one c (mirror (j + k)) (omega arith)))

abbrev pub arrays : BitVectors
arrays = record {
  Bits = BitArray;
  size = λ b. b.size;
  peek_field = peek;
  fill_field = fill;
  empty = record { size = 0; bit = λ k. 0 };
  resize = λ b n. record b { size = n };
  segment = cut;
  copy_to_segment = paste;
  lsb8msb = turn;
  peek_reversed = peek_back;
  fill_reversed = fill_back;
  reversed-in_range = fill_back_lem;
  fill-apart_reversed = fill-apart_back;
  size-empty = refl;
  size-resize = λ b n. refl;
  fill-in_range = fill_lem;
  segment-in_range = cut_lem;
  copy-in_range = paste_lem;
  size-lsb8msb = size-turn;
  lsb8msb_twice = turn_twice;
  lsb8msb_same = turn_same;
}

-- An array of zeros.
abbrev pub zeros : ℕ → BitArray
zeros n = record { size = n; bit = λ k. 0 }
