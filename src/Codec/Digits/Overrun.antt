-- ===== src/Codec/Digits/Overrun.antt =====
-- A number that is longer than the array of L3BCDDigits in GSM/GSML3CCElements.cpp.
use smqueue.Prelude.{
  ℕ, ◌+◌, ◌/◌, ◌%◌, ◌≤◌, ◌≡◌, refl, false, [], ◌∷◌, ◌++◌, Str, length, length-append, All, ◌==◌,
  arith, Bool-cases, inl, inr, ◌<◌,
}
use smqueue.Codec.{overrun, BitVectors, read_field_lem}
use smqueue.Codec.Fields.{HasFields}
use smqueue.Codec.Digits.{max_digits, encode, put_digit, parse_octets, parse_digits}
use smqueue.Codec.Digits.RoundTrip.{
  IsBcd, digit_fields, pairs, pairs-octets, decode-encode, encode-eq_15, put_digit_lem,
}

put_digit-overrun : (digits : Str) (c : ℕ) → 20 < length digits → put_digit digits c ≡ overrun
unfolding put_digit
put_digit-overrun digits c h = ground arith

module _ (V : BitVectors) (src : V.Bits) where
  parse_octets-overrun :
      (s digits : Str) (i : ℕ)
      → All IsBcd s
      → length digits % 2 ≡ 0
      → length digits ≤ max_digits
      → 22 ≤ length digits + length s
      → HasFields V src i (digit_fields s)
      → parse_octets V src (pairs s) digits i ≡ overrun
  unfolding parse_octets
  parse_octets-overrun [] digits i h p l m f = absurd (omega arith)
  parse_octets-overrun (x ∷ []) digits i h p l m f = absurd (omega arith)
  parse_octets-overrun (x ∷ y ∷ s) digits i h p l m f =
      let l1 = length-append digits (x ∷ []) in
      let l2 = length-append (digits ++ x ∷ []) (y ∷ []) in
      rw
        (
          read_field_lem V src i 4 (encode y) f.0,
          read_field_lem V src (i + 4) 4 (encode x) f.1.0,
          decode-encode x h.0,
          put_digit_lem digits x (omega arith),
          encode-eq_15 y,
          decode-encode y h.1.0,
        )
        (elim (Bool-cases (length digits == 20)) [
          | inl full ↦ rw (put_digit-overrun (digits ++ x ∷ []) y (ground (arith, l1)))
          | inr room ↦ rw (put_digit_lem (digits ++ x ∷ []) y (ground (arith, l1))) (
              ground (
                arith,
                l1,
                l2,
                parse_octets-overrun s ((digits ++ x ∷ []) ++ y ∷ []) (i + 4 + 4) h.1.1
                    (omega (arith, l1, l2)) (ground (arith, l1, l2)) (omega (arith, l1, l2)) f.1.1,
              ))
        ])

-- A frame that holds a number of more than 21 digits, stars and hashes, which is not international: in
-- its parse L3BCDDigits::parse writes behind the end of its array, where its test comes too late.
pub parse_digits-overrun :
    (V : BitVectors) (src : V.Bits) (s : Str) (i : ℕ)
    → All IsBcd s
    → 21 < length s
    → HasFields V src i (digit_fields s)
    → parse_digits V src (length s / 2 + length s % 2) false i ≡ overrun
unfolding parse_digits
parse_digits-overrun V src s i h l f =
    rw (← (pairs-octets s)) (parse_octets-overrun V src s [] i h refl (omega arith) (omega arith) f)
