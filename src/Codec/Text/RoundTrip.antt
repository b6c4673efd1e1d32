-- ===== src/Codec/Text/RoundTrip.antt =====
-- A text that is encoded with seven bits and decoded.
use smqueue.Prelude.{
  ℕ, zero, suc, ◌+◌, ◌-◌, ◌*◌, ◌/◌, ◌^◌, ◌≤◌, ◌<◌, ◌≡◌, ◌≢◌, refl, sym, ap, ◌∙◌, ◌⊎◌, inl, inr,
  Bool, true, false, ◌||◌, [], ◌∷◌, map, Str, length, get_or, All, ltb, ◌==◌, if◌then◌else◌, arith,
  Bool-cases,
}
use native.Mathlib.Numerals.{unary_clauses}
use smqueue.Codec.{
  Parse, value, sms_read_error, l3_read_error, asserted, overrun, ◌>>=◌, BitVectors, IsApart,
  write_field,
}
use smqueue.Codec.Transfer.{CodedText}
use smqueue.Codec.Text.{
  gsm_alphabet, last_index, encode_gsm_char, decode_gsm_char, write_septets, encode7bit,
  read_septets, decode_text,
}

-- A character of the alphabet.
abbrev pub member : ℕ → Str → Bool
member c [] = false
member c (x ∷ xs) = (x == c) || member c xs

-- What a character is shown as: anything that is not in the alphabet is an at sign.
abbrev pub shown : ℕ → ℕ
shown c = if member c gsm_alphabet then c else b'@'

-- The last index is one at which the character stands, or the one before if it does not occur.
last_index_lem :
    (c i found : ℕ) (xs : Str)
    → ((member c xs ≡ false) × (last_index c i found xs ≡ found))
      ⊎ ((member c xs ≡ true)
          × (k : ℕ) × (last_index c i found xs ≡ i + k)
          × (get_or xs k 0 ≡ c)
          × (k < length xs))
unfolding last_index
last_index_lem c i found [] = inl (refl, refl)
last_index_lem c i found (x ∷ xs) = elim (Bool-cases (x == c)) [
  | inl e ↦ rw e (elim (last_index_lem c (suc i) i xs) [
    | inl (m, q) ↦ inr (refl, 0, q ∙ at_zero i, is_eq x c e, at_head (length xs))
    | inr (m, k, q, g, l) ↦ inr (refl, suc k, q ∙ at_suc i k, g, under_suc k (length xs) l)
  ])
  | inr e ↦ rw e (elim (last_index_lem c (suc i) found xs) [
    | inl (m, q) ↦ inl (m, q)
    | inr (m, k, q, g, l) ↦ inr (m, suc k, q ∙ at_suc i k, g, under_suc k (length xs) l)
  ])
]
  where
    at_zero : (i : ℕ) → i ≡ i + 0
    at_zero i = omega arith

    at_suc : (i k : ℕ) → suc i + k ≡ i + suc k
    at_suc i k = omega arith

    is_eq : (x c : ℕ) → (x == c) ≡ true → x ≡ c
    is_eq x c e = ground arith

    at_head : (n : ℕ) → 0 < suc n
    at_head n = omega arith

    under_suc : (k n : ℕ) → k < n → suc k < suc n
    under_suc k n l = omega arith

-- Decoding what a character was encoded as shows it.
pub decode_gsm_char-encode_gsm_char : (c : ℕ) → decode_gsm_char (encode_gsm_char c) ≡ shown c
unfolding decode_gsm_char encode_gsm_char
decode_gsm_char-encode_gsm_char c = elim (last_index_lem c 0 0 gsm_alphabet) [
  | inl (m, q) ↦
      ap (λ (k : ℕ). get_or gsm_alphabet k 0) q ∙ sym (ap (λ (b : Bool). if b then c else b'@') m)
  | inr (m, k, q, g, l) ↦
      ap (λ (k : ℕ). get_or gsm_alphabet k 0) (q ∙ zero_add k)
      ∙ g
      ∙ sym (ap (λ (b : Bool). if b then c else b'@') m)
]
  where
    zero_add : (k : ℕ) → 0 + k ≡ k
    zero_add k = omega arith

-- Every character but NUL fits seven bits.
encode_gsm_char-lt : (c : ℕ) → c ≢ 0 → encode_gsm_char c < 2 ^ 7
unfolding encode_gsm_char
encode_gsm_char-lt c h = elim (last_index_lem c 0 0 gsm_alphabet) [
  | inl (m, q) ↦ small (last_index c 0 0 gsm_alphabet) q
  | inr (m, k, q, g, l) ↦ below (last_index c 0 0 gsm_alphabet) k q l (not_last k g)
]
  where
    small : (n : ℕ) → n ≡ 0 → n < 2 ^ 7
    small n h = omega arith

    below : (n k : ℕ) → n ≡ 0 + k → k < 129 → k ≢ 128 → n < 2 ^ 7
    below n k h l d = omega arith

    not_last : (k : ℕ) → get_or gsm_alphabet k 0 ≡ c → k ≢ 128
    not_last k g e = h (sym g ∙ ap (λ (k : ℕ). get_or gsm_alphabet k 0) e)

module _ (V : BitVectors) where
  -- Septets one behind the other from an index on, and nothing else.
  pub record Septets (b : V.Bits) (i : ℕ) (s : Str) (c : V.Bits) : Type 0 where
    pub same_size : V.size c ≡ V.size b
    pub reads : read_septets V c (length s) i ≡ value (map shown s)
    pub outside :
        (j m : ℕ) → IsApart i (length s * 7) j m → V.peek_reversed c j m ≡ V.peek_reversed b j m

  read_septet :
      (c : V.Bits) (n i v : ℕ) (t : Str)
      → V.peek_reversed c i 7 ≡ value v
      → read_septets V c n (i + 7) ≡ value t
      → read_septets V c (suc n) i ≡ value (decode_gsm_char v ∷ t)
  unfolding read_septets
  read_septet c n i v t h k = rw (h, k) refl

  write_septets_lem :
      (s : Str) (b : V.Bits) (i : ℕ)
      → All (λ c. c ≢ 0) s
      → i + length s * 7 ≤ V.size b
      → (c : V.Bits) × (write_septets V s (b, i) ≡ value (c, i + length s * 7)) × Septets b i s c
  unfolding write_septets read_septets
  write_septets_lem [] b i h room = (
    b,
    ap (λ (j : ℕ). value (b, j)) (omega arith),
    record { same_size = refl; reads = refl; outside = λ j m a. refl },
  )
  write_septets_lem (x ∷ s) b i h room =
      let (c, e, sz, at, out) =
        V.reversed-in_range b i (encode_gsm_char x) 7 (omega arith) (encode_gsm_char-lt x h.0) in
      let (d, e', w) = write_septets_lem s c (i + 7) h.1 (omega (arith, sz)) in
      (
        d,
        rw e (e' ∙ ap (λ (j : ℕ). value (d, j)) (omega arith)),
        record {
          same_size = w.same_size ∙ sz;
          reads =
              read_septet d (length s) i (encode_gsm_char x) (map shown s)
                (w.outside i 7 (inl (omega arith)) ∙ at) w.reads
              ∙ ap (λ (c : ℕ). value (c ∷ map shown s)) (decode_gsm_char-encode_gsm_char x);
          outside = λ j m a.
              w.outside j m (apart_right i (length s) j m a)
              ∙ out j m (apart_left i (length s) j m a);
        },
      )
    where
      apart_left : (i n j m : ℕ) → IsApart i (suc n * 7) j m → IsApart i 7 j m
      apart_left i n j m (inl h) = inl h
      apart_left i n j m (inr h) = inr (omega arith)

      apart_right : (i n j m : ℕ) → IsApart i (suc n * 7) j m → IsApart (i + 7) (n * 7) j m
      apart_right i n j m (inl h) = inl (omega arith)
      apart_right i n j m (inr h) = inr (omega arith)

  abbrev pair : ℕ → ℕ → Parse (ℕ × ℕ)
  pair k v = value (v, k)

  abbrev one_more : (ℕ → Parse Str) → ℕ × ℕ → Parse Str
  one_more f r = f r.1 >>= λ rest. value (decode_gsm_char r.0 ∷ rest)

  behind_one :
      (k : ℕ) (p : Parse ℕ) (f g : ℕ → Parse Str)
      → f k ≡ g k
      → (p >>= pair k >>= one_more f) ≡ (p >>= pair k >>= one_more g)
  behind_one k (value v) f g h =
      ap (λ (m : Parse Str). m >>= λ rest. value (decode_gsm_char v ∷ rest)) h
  behind_one k sms_read_error f g h = refl
  behind_one k l3_read_error f g h = refl
  behind_one k asserted f g h = refl
  behind_one k overrun f g h = refl

  -- Septets are read alike where the bits are the same.
  read_septets-same :
      (b c : V.Bits) (n i : ℕ)
      → ((j m : ℕ) → j + m ≤ i + n * 7 → V.peek_reversed c j m ≡ V.peek_reversed b j m)
      → read_septets V c n i ≡ read_septets V b n i
  unfolding read_septets
  read_septets-same b c zero i h = refl
  read_septets-same b c (suc n) i h =
      ap (λ (p : Parse ℕ). p >>= pair (i + 7) >>= one_more (read_septets V c n))
        (h i 7 (omega arith))
      ∙ behind_one (i + 7) (V.peek_reversed b i 7) (read_septets V c n) (read_septets V b n)
          (read_septets-same b c n (i + 7) (λ j m l. h j m (omega arith)))

  decode_plain :
      (u : CodedText V) (t : Str)
      → u.dcs ≡ 0
      → u.udhi ≡ false
      → u.text_length * 7 ≤ V.size u.raw
      → read_septets V u.raw u.text_length 0 ≡ value t
      → decode_text V u ≡ value t
  unfolding decode_text
  decode_plain u t d h l e = rw (d, fits l, h) e
    where
      fits : {a b : ℕ} → a ≤ b → ltb b a ≡ false
      fits l = ground arith

-- A text without a NUL, encoded into an element without a header: it gets the coding scheme 0 and the
-- number of characters, and whole octets, as few as hold seven bits for each character. Decoded, it gives
-- the text back, with an at sign in the place of every character that is not in the alphabet.
pub decode_text-encode7bit :
    (V : BitVectors) (u : CodedText V) (s : Str)
    → u.udhi ≡ false
    → All (λ c. c ≢ 0) s
    → (r : CodedText V) × (encode7bit V u s ≡ value r)
      × (r.dcs ≡ 0)
      × (r.text_length ≡ length s)
      × (V.size r.raw ≡ (length s * 7 + 7) / 8 * 8)
      × (decode_text V r ≡ value (map shown s))
unfolding encode7bit write_field
decode_text-encode7bit V u s h k =
    let n = (length s * 7 + 7) / 8 * 8 in
    let sz = V.size-resize u.raw n in
    let (b, e, w) = write_septets_lem V s (V.resize u.raw n) 0 k (omega (arith, sz)) in
    let zero_add : 0 + length s * 7 ≡ length s * 7 = omega arith in
    let (c, e', sz', at, out) =
      V.fill-in_range b (length s * 7) 0 (n - length s * 7) (omega (arith, sz, w.same_size))
        (pow_pos (n - length s * 7)) in
    let r : CodedText V = record u { dcs = 0; text_length = length s; raw = c } in
    (
      r,
      rw (e, zero_add, e') refl,
      refl,
      refl,
      sz' ∙ w.same_size ∙ sz,
      decode_plain V r (map shown s) refl h (omega (arith, sz', w.same_size, sz)) (
          read_septets-same V b c (length s) 0 (λ j m l.
            V.fill-apart_reversed b c (length s * 7) 0 (n - length s * 7) j m e'
              (inl (omega arith)))
          ∙ w.reads),
    )
  where
    pow_suc : (n : ℕ) → 2 ^ suc n ≡ 2 ^ n * 2
    pow_suc n = simp unary_clauses

    pow_pos : (n : ℕ) → 0 < 2 ^ n
    pow_pos zero = omega arith
    pow_pos (suc n) = omega (arith, pow_suc n, pow_pos n)
