-- ===== src/Codec/Transfer/Address.antt =====
-- The address of the transfer layer, written and read: its length octet counts digits, not octets.
use smqueue.Prelude.{
  ℕ, ◌+◌, ◌*◌, ◌/◌, ◌%◌, ◌^◌, ◌≤◌, ◌<◌, ◌≡◌, refl, sym, ap, ◌∙◌, ◌⊎◌, inl, inr, Bool, true, false,
  [], ◌∷◌, ◌++◌, Str, length, length-append, All, All-append, ◌==◌, arith,
}
use mathlib.Core.Path.{fun_ext}
use smqueue.Codec.{value, ◌>>=◌, read_field_lem, BitVectors, Cursor}
use smqueue.Codec.Fields.{
  Fields, width, Fits, HasFields, write_fields, write_fields_lem, write_fields-append,
}
use smqueue.Codec.Digits.{max_digits, encode, octets, write_digits}
use smqueue.Codec.Digits.RoundTrip.{
  IsBcd, digit_fields, width-digit_fields, number_text, octets-number_text, write_digits-fields,
  parse_digits-fields,
}
use smqueue.Codec.Elements.{international_number}
use smqueue.Codec.Elements.RoundTrip.{
  number, IsNumber, number_fields, number_fields-Fits, width-number_fields,
}
use smqueue.Codec.Transfer.{address_length, write_address, parse_address}

-- The number of digits that is written: the plus is one of them.
abbrev pub counted : ℕ → Str → ℕ
counted t s = length (number_text (t == international_number) s)

abbrev pub address_fields : ℕ → ℕ → Str → Fields
address_fields t p s = (counted t s, 8) ∷ number_fields t p s

-- The number of digits gives the number of octets, in spite of the plus.
abbrev pub CountsOctets : ℕ → Str → Type 0
CountsOctets t s = ((t == international_number) ≡ false) ⊎ (length s % 2 ≡ 1)

counts_octets :
    (b : Bool) (s : Str)
    → All IsBcd s
    → (b ≡ false) ⊎ (length s % 2 ≡ 1)
    → length (number_text b s) / 2 + length (number_text b s) % 2 ≡ octets (number_text b s)
counts_octets false s h k = sym (octets-number_text false s h)
counts_octets true s h (inl k) = ground arith
counts_octets true s h (inr k) = omega (arith, octets-number_text true s h)

pub counted-lt : (t p : ℕ) (s : Str) → IsNumber t p s → counted t s < 2 ^ 8
counted-lt t p s k = omega (arith, k.digits_fit)

pub address_fields-Fits : (t p : ℕ) (s : Str) → IsNumber t p s → Fits (address_fields t p s)
address_fields-Fits t p s k = (counted-lt t p s k, number_fields-Fits t p s k)

pub width-address_fields :
    (t p : ℕ) (s : Str)
    → IsNumber t p s
    → width (address_fields t p s) ≡ 8 * address_length (number t p s)
unfolding address_length
width-address_fields t p s k = omega (arith, width-number_fields t p s k)

module _ (V : BitVectors) where
  pub write_address-fields :
      (t p : ℕ) (s : Str) (c : Cursor V)
      → IsNumber t p s
      → write_address V (number t p s) c ≡ write_fields V (address_fields t p s) c
  unfolding write_address
  write_address-fields t p s c k =
      rw (fun_ext (λ d. write_digits-fields V (t == international_number) s d k.bcd))

  -- What is read when the length octet stands for a number of digits.
  parse_address-octets :
      (src : V.Bits) (n t p : ℕ) (s : Str) (i : ℕ)
      → IsNumber t p s
      → n / 2 + n % 2 ≡ octets (number t p s).digits
      → HasFields V src i ((n, 8) ∷ number_fields t p s)
      → parse_address V src i ≡ value (number t p s, i + width (address_fields t p s))
  unfolding parse_address
  parse_address-octets src n t p s i k o f =
      rw
        (
          read_field_lem V src i 8 n f.0,
          read_field_lem V src (i + 8) 1 1 f.1.0,
          read_field_lem V src (i + 8 + 1) 3 t f.1.1.0,
          read_field_lem V src (i + 8 + 1 + 3) 4 p f.1.1.1.0,
          o,
          parse_digits-fields V src (t == international_number) s (i + 8 + 1 + 3 + 4) k.bcd
              k.digits_fit f.1.1.1.1,
        )
        (ap (λ (j : ℕ). value (number t p s, j)) (omega arith))

  pub parse_address-fields :
      (src : V.Bits) (t p : ℕ) (s : Str) (i : ℕ)
      → IsNumber t p s
      → CountsOctets t s
      → HasFields V src i (address_fields t p s)
      → parse_address V src i ≡ value (number t p s, i + width (address_fields t p s))
  parse_address-fields src t p s i k o f =
      parse_address-octets src (counted t s) t p s i k
        (counts_octets (t == international_number) s k.bcd o) f

-- A number of a type below 8 and a plan below 16, with digits, stars and hashes that fit the array of
-- characters, either not international or with an odd number of digits, and a frame with room for it:
-- what TLAddress::write puts into the frame, TLAddress::parse reads back, and both stop behind the octets
-- that TLAddress::length gives.
pub parse_address-write_address :
    (V : BitVectors) (b : V.Bits) (i t p : ℕ) (s : Str)
    → IsNumber t p s
    → CountsOctets t s
    → i + 8 * address_length (number t p s) ≤ V.size b
    → (c : V.Bits) × (write_address V (number t p s) (b, i)
        ≡ value (c, i + 8 * address_length (number t p s)))
      × (parse_address V c i ≡ value (number t p s, i + 8 * address_length (number t p s)))
parse_address-write_address V b i t p s k o room =
    let w = width-address_fields t p s k in
    let (c, e, f) =
      write_fields_lem V (address_fields t p s) b i (address_fields-Fits t p s k)
        (omega (arith, w)) in
    (
      c,
      write_address-fields V t p s (b, i) k ∙ e ∙ ap (λ (j : ℕ). value (c, i + j)) w,
      parse_address-fields V c t p s i k o f.fields ∙ ap (λ (j : ℕ). value (number t p s, i + j)) w,
    )

digit_fields-append :
    (s : Str) (x y : ℕ)
    → length s % 2 ≡ 0
    → digit_fields s ++ digit_fields (x ∷ y ∷ []) ≡ digit_fields (s ++ x ∷ y ∷ [])
digit_fields-append [] x y h = refl
digit_fields-append (a ∷ []) x y h = absurd (omega arith)
digit_fields-append (a ∷ b ∷ s) x y h =
    ap (λ (fs : Fields). (encode b, 4) ∷ (encode a, 4) ∷ fs)
      (digit_fields-append s x y (omega arith))

module _ (p : ℕ) (s : Str) (x y : ℕ) (bcd : All IsBcd s) (next : All IsBcd (x ∷ y ∷ [])) where
  abbrev longer : Str
  longer = s ++ x ∷ y ∷ []

  length-longer : length longer ≡ length s + 2
  length-longer = length-append s (x ∷ y ∷ [])

  longer-IsNumber : p < 16 → length s + 3 ≤ max_digits → IsNumber international_number p longer
  longer-IsNumber h l = record {
    type_fits = omega arith;
    plan_fits = h;
    bcd = All-append IsBcd s (x ∷ y ∷ []) bcd next;
    digits_fit = omega (arith, length-longer);
  }

  shorter-IsNumber : p < 16 → length s + 3 ≤ max_digits → IsNumber international_number p s
  shorter-IsNumber h l = record {
    type_fits = omega arith;
    plan_fits = h;
    bcd = bcd;
    digits_fit = omega arith;
  }

  octets-longer :
      length s % 2 ≡ 0
      → counted international_number s / 2 + counted international_number s % 2
        ≡ octets (number international_number p longer).digits
  octets-longer e = omega (
    arith,
    length-longer,
    octets-number_text true longer (All-append IsBcd s (x ∷ y ∷ []) bcd next),
  )

  even_fields :
      length s % 2 ≡ 0
      → address_fields international_number p s ++ digit_fields (x ∷ y ∷ [])
        ≡ (counted international_number s, 8) ∷ number_fields international_number p longer
  even_fields e =
      ap
        (λ (fs : Fields).
          (counted international_number s, 8) ∷ (1, 1) ∷ (international_number, 3) ∷ (p, 4) ∷ fs)
        (digit_fields-append s x y e)

  width-longer :
      length s % 2 ≡ 0
      → width (address_fields international_number p longer)
        ≡ 8 * (address_length (number international_number p s) + 1)
  unfolding address_length
  width-longer e =
      omega (arith, length-longer, width-digit_fields longer, octets-number_text true s bcd)

  write_longer :
      (V : BitVectors) (c : Cursor V)
      → IsNumber international_number p s
      → length s % 2 ≡ 0
      → (write_address V (number international_number p s) c >>= write_digits V (x ∷ y ∷ []))
        ≡ write_fields V
            ((counted international_number s, 8) ∷ number_fields international_number p longer)
            c
  write_longer V c k e =
      ap (λ m. m >>= write_digits V (x ∷ y ∷ []))
        (write_address-fields V international_number p s c k)
      ∙ ap (λ f. write_fields V (address_fields international_number p s) c >>= f)
          (fun_ext (λ d. write_digits-fields V false (x ∷ y ∷ []) d next))
      ∙ write_fields-append V (address_fields international_number p s) (digit_fields (x ∷ y ∷ []))
          c
      ∙ ap (λ fs. write_fields V fs c) (even_fields e)

-- An international number with an even number of digits, with two more digits in the octet behind it, and
-- room for them: what TLAddress::write and then L3BCDDigits::write put into the frame, TLAddress::parse
-- reads as one number with the digits of the next octet at its end, since the length octet counts the
-- plus as a digit; it stops behind that octet.
pub parse_address-even :
    (V : BitVectors) (b : V.Bits) (i p : ℕ) (s : Str) (x y : ℕ)
    → All IsBcd s
    → All IsBcd (x ∷ y ∷ [])
    → length s % 2 ≡ 0
    → p < 16
    → length s + 3 ≤ max_digits
    → i + 8 * (address_length (number international_number p s) + 1) ≤ V.size b
    → (c : V.Bits) × ((write_address V (number international_number p s) (b, i)
          >>= write_digits V (x ∷ y ∷ []))
        ≡ value (c, i + 8 * (address_length (number international_number p s) + 1)))
      × (parse_address V c i
          ≡ value (
            number international_number p (s ++ x ∷ y ∷ []),
            i + 8 * (address_length (number international_number p s) + 1),
          ))
parse_address-even V b i p s x y bcd next even h l room =
    let k = longer-IsNumber p s x y bcd next h l in
    let w = width-longer p s x y bcd next even in
    let (c, e, f) =
      write_fields_lem V
        ((counted international_number s, 8)
          ∷ number_fields international_number p (s ++ x ∷ y ∷ []))
        b i (omega arith, number_fields-Fits international_number p (s ++ x ∷ y ∷ []) k)
        (omega (arith, w)) in
    (
      c,
      write_longer p s x y bcd next V (b, i) (shorter-IsNumber p s x y bcd next h l) even
          ∙ e
          ∙ ap (λ (j : ℕ). value (c, i + j)) w,
      parse_address-octets V c (counted international_number s) international_number p
            (s ++ x ∷ y ∷ []) i k (octets-longer p s x y bcd next even) f.fields
          ∙ ap (λ (j : ℕ). value (number international_number p (s ++ x ∷ y ∷ []), i + j)) w,
    )
