-- ===== src/Codec/Digits/RoundTrip.antt =====
-- The digits that are written are read back.
use smqueue.Prelude.{
  ℕ, suc, ◌+◌, ◌*◌, ◌/◌, ◌%◌, ◌≤◌, ◌<◌, ◌≡◌, refl, sym, ap, ◌∙◌, Bool, true, false, ◌&&◌, ◌||◌, [],
  ◌∷◌, ◌++◌, Str, length, length-append, leb, ◌==◌, All, arith,
}
use mathlib.Core.Path.{fun_ext}
use native.Mathlib.Nat.{add-zero}
use mathlib.Core.List.{append_assoc, append-nil}
use smqueue.Codec.{
  value, ◌>>=◌, >>=_assoc, >>=-value, read_field_lem, BitVectors, Cursor, write_field,
}
use smqueue.Codec.Fields.{Fields, width, Fits, HasFields, write_fields, write_fields_lem}
use smqueue.Codec.Digits.{
  max_digits, encode, decode, without_plus, octets, write_pairs, put_digit, parse_octets,
  write_digits, parse_digits,
}

-- A character that stands for a digit.
abbrev pub IsBcd : ℕ → Type 0
IsBcd c = ((c == b'*') || (c == b'#') || (leb b'0' c && leb c b'9')) ≡ true

encode-lt : (c : ℕ) → encode c < 12
unfolding encode
encode-lt c = ground arith

pub encode-eq_15 : (c : ℕ) → (encode c == 15) ≡ false
encode-eq_15 c = ground (arith, encode-lt c)

pub decode-encode : (c : ℕ) → IsBcd c → decode (encode c) ≡ c
unfolding encode decode
decode-encode c h = ground arith

-- The fields of digits, in the order of the frame.
abbrev pub digit_fields : Str → Fields
digit_fields [] = []
digit_fields (x ∷ []) = (15, 4) ∷ (encode x, 4) ∷ []
digit_fields (x ∷ y ∷ s) = (encode y, 4) ∷ (encode x, 4) ∷ digit_fields s

abbrev pub pairs : Str → ℕ
pairs [] = 0
pairs (x ∷ []) = 1
pairs (x ∷ y ∷ s) = suc (pairs s)

pub pairs-octets : (s : Str) → pairs s ≡ length s / 2 + length s % 2
pairs-octets [] = refl
pairs-octets (x ∷ []) = refl
pairs-octets (x ∷ y ∷ s) = omega (arith, pairs-octets s)

pub width-digit_fields : (s : Str) → width (digit_fields s) ≡ 8 * (length s / 2 + length s % 2)
width-digit_fields [] = refl
width-digit_fields (x ∷ []) = refl
width-digit_fields (x ∷ y ∷ s) = omega (arith, width-digit_fields s)

pub digit_fields-Fits : (s : Str) → Fits (digit_fields s)
digit_fields-Fits [] = tt
digit_fields-Fits (x ∷ []) = (omega arith, (omega (arith, encode-lt x), tt))
digit_fields-Fits (x ∷ y ∷ s) =
    (omega (arith, encode-lt y), (omega (arith, encode-lt x), digit_fields-Fits s))

pub put_digit_lem :
    (digits : Str) (c : ℕ) → length digits ≤ 20 → put_digit digits c ≡ value (digits ++ c ∷ [])
unfolding put_digit
put_digit_lem digits c h = ground arith

regroup :
    (digits : Str) (x y : ℕ) (s : Str) → (digits ++ x ∷ [] ++ y ∷ []) ++ s ≡ digits ++ x ∷ y ∷ s
regroup digits x y s = simp append_assoc

module _ (V : BitVectors) where
  pub write_pairs-fields :
      (s : Str) (c : Cursor V) → write_pairs V s c ≡ write_fields V (digit_fields s) c
  unfolding write_pairs
  write_pairs-fields [] c = refl
  write_pairs-fields (x ∷ []) c =
      ap (λ k. write_field V 15 4 c >>= k)
        (fun_ext (λ d. sym (>>=-value (write_field V (encode x) 4 d))))
  write_pairs-fields (x ∷ y ∷ s) c =
      >>=_assoc (write_field V (encode y) 4 c) (write_field V (encode x) 4) (write_pairs V s)
      ∙ ap (λ k. write_field V (encode y) 4 c >>= λ d. write_field V (encode x) 4 d >>= k)
          (fun_ext (write_pairs-fields s))

  pub parse_octets-fields :
      (src : V.Bits) (s digits : Str) (i : ℕ)
      → All IsBcd s
      → length digits + length s ≤ max_digits
      → HasFields V src i (digit_fields s)
      → parse_octets V src (pairs s) digits i ≡ value (digits ++ s, i + width (digit_fields s))
  unfolding parse_octets
  parse_octets-fields src [] digits i h l f = rw (append-nil digits, add-zero i)
  parse_octets-fields src (x ∷ []) digits i h l f =
      rw
        (
          read_field_lem V src i 4 15 f.0,
          read_field_lem V src (i + 4) 4 (encode x) f.1.0,
          decode-encode x h.0,
          put_digit_lem digits x (omega arith),
        )
        (ground (arith, length-append digits (x ∷ [])))
  parse_octets-fields src (x ∷ y ∷ s) digits i h l f =
      rw
        (
          read_field_lem V src i 4 (encode y) f.0,
          read_field_lem V src (i + 4) 4 (encode x) f.1.0,
          decode-encode x h.0,
          put_digit_lem digits x (omega arith),
          encode-eq_15 y,
          decode-encode y h.1.0,
        )
        (ground (
          arith,
          length-append digits (x ∷ []),
          length-append (digits ++ x ∷ []) (y ∷ []),
          regroup digits x y s,
          parse_octets-fields src s ((digits ++ x ∷ []) ++ y ∷ []) (i + 4 + 4) h.1.1
              (omega
                (arith, length-append digits (x ∷ []), length-append (digits ++ x ∷ []) (y ∷ [])))
              f.1.1,
        ))

-- The text of a number; an international one has a plus in front, which is not a digit.
abbrev pub number_text : Bool → Str → Str
number_text true s = b'+' ∷ s
number_text false s = s

without_plus-number_text : (b : Bool) (s : Str) → All IsBcd s → without_plus (number_text b s) ≡ s
unfolding without_plus
without_plus-number_text true s h = refl
without_plus-number_text false [] h = refl
without_plus-number_text false (c ∷ s) h = ground arith

pub octets-number_text :
    (b : Bool) (s : Str) → All IsBcd s → octets (number_text b s) ≡ length s / 2 + length s % 2
unfolding octets
octets-number_text b s h =
    ap (λ (t : Str). length t / 2 + length t % 2) (without_plus-number_text b s h)

module _ (V : BitVectors) where
  pub write_digits-fields :
      (b : Bool) (s : Str) (c : Cursor V)
      → All IsBcd s
      → write_digits V (number_text b s) c ≡ write_fields V (digit_fields s) c
  unfolding write_digits
  write_digits-fields b s c h = rw (without_plus-number_text b s h) (write_pairs-fields V s c)

  pub parse_digits-fields :
      (src : V.Bits) (b : Bool) (s : Str) (i : ℕ)
      → All IsBcd s
      → length (number_text b s) ≤ max_digits
      → HasFields V src i (digit_fields s)
      → parse_digits V src (octets (number_text b s)) b i
        ≡ value (number_text b s, i + width (digit_fields s))
  unfolding parse_digits
  parse_digits-fields src true s i h l f =
      rw (octets-number_text true s h, ← (pairs-octets s))
        (parse_octets-fields V src s (b'+' ∷ []) i h (omega arith) f)
  parse_digits-fields src false s i h l f =
      rw (octets-number_text false s h, ← (pairs-octets s))
        (parse_octets-fields V src s [] i h (omega arith) f)

-- A number of digits, stars and hashes that fits the array of characters, international or not, and a
-- frame with room for it: what L3BCDDigits::write puts into the frame, L3BCDDigits::parse reads back, and
-- both stop behind the octets that lengthV gives.
pub parse_digits-write_digits :
    (V : BitVectors) (b : V.Bits) (i : ℕ) (international : Bool) (s : Str)
    → All IsBcd s
    → length (number_text international s) ≤ max_digits
    → i + 8 * octets (number_text international s) ≤ V.size b
    → (c : V.Bits) × (write_digits V (number_text international s) (b, i)
        ≡ value (c, i + 8 * octets (number_text international s)))
      × (parse_digits V c (octets (number_text international s)) international i
          ≡ value (number_text international s, i + 8 * octets (number_text international s)))
parse_digits-write_digits V b i intl s h l room =
    let o = octets-number_text intl s h in
    let w = width-digit_fields s in
    let (c, e, k) =
      write_fields_lem V (digit_fields s) b i (digit_fields-Fits s) (omega (arith, o, w)) in
    let at : i + width (digit_fields s) ≡ i + 8 * octets (number_text intl s) =
      omega (arith, o, w) in
    (
      c,
      write_digits-fields V intl s (b, i) h ∙ e ∙ ap (λ (j : ℕ). value (c, j)) at,
      parse_digits-fields V c intl s i h l k.fields
          ∙ ap (λ (j : ℕ). value (number_text intl s, j)) at,
    )
