-- ===== src/Codec/Elements/RoundTrip.antt =====
-- An element that is written is read back.
use smqueue.Prelude.{
  ℕ, ◌+◌, ◌-◌, ◌*◌, ◌≤◌, ◌<◌, ◌≡◌, refl, ap, Bool, true, false, [], ◌∷◌, Str, length, All, ◌==◌,
  arith,
}
use mathlib.Core.Path.{fun_ext}
use smqueue.Codec.{value, read_field_lem, BitVectors, Cursor}
use smqueue.Codec.Fields.{Fields, width, Fits, HasFields, write_fields}
use smqueue.Codec.Digits.{max_digits, octets}
use smqueue.Codec.Digits.RoundTrip.{
  IsBcd, digit_fields, digit_fields-Fits, width-digit_fields, number_text, octets-number_text,
  write_digits-fields, parse_digits-fields,
}
use smqueue.Codec.Elements.{
  international_number, BcdNumber, number_length, write_number, parse_number, number_element,
  Element, parse_lv, write_lv,
}

-- A number of a type and a plan, with digits that fit; the international ones have a plus in front.
abbrev pub number : ℕ → ℕ → Str → BcdNumber
number t p s = record {
  number_type = t;
  plan = p;
  digits = number_text (t == international_number) s;
}

pub record IsNumber (t p : ℕ) (s : Str) : Type 0 where
  pub type_fits : t < 8
  pub plan_fits : p < 16
  pub bcd : All IsBcd s
  pub digits_fit : length (number_text (t == international_number) s) ≤ max_digits

abbrev pub number_fields : ℕ → ℕ → Str → Fields
number_fields t p s = (1, 1) ∷ (t, 3) ∷ (p, 4) ∷ digit_fields s

pub number_fields-Fits : (t p : ℕ) (s : Str) → IsNumber t p s → Fits (number_fields t p s)
number_fields-Fits t p s k = (omega arith, (k.type_fits, (k.plan_fits, digit_fields-Fits s)))

-- The octets of a number: one for the type and the plan, and one for every two digits.
pub width-number_fields :
    (t p : ℕ) (s : Str)
    → IsNumber t p s
    → width (number_fields t p s) ≡ 8 * (octets (number t p s).digits + 1)
width-number_fields t p s k =
    omega (arith, width-digit_fields s, octets-number_text (t == international_number) s k.bcd)

add_one-sub_one : (n : ℕ) → n + 1 - 1 ≡ n
add_one-sub_one n = omega arith

pub pos-ne_zero : (n : ℕ) → 0 < n → (n == 0) ≡ false
pos-ne_zero n h = ground arith

module _ (V : BitVectors) where
  pub write_number-fields :
      (t p : ℕ) (s : Str) (c : Cursor V)
      → IsNumber t p s
      → write_number V (number t p s) c ≡ write_fields V (number_fields t p s) c
  unfolding write_number
  write_number-fields t p s c k =
      rw (fun_ext (λ d. write_digits-fields V (t == international_number) s d k.bcd))

  pub parse_number-fields :
      (src : V.Bits) (old : BcdNumber) (t p : ℕ) (s : Str) (i : ℕ)
      → IsNumber t p s
      → HasFields V src i (number_fields t p s)
      → parse_number V src old (octets (number t p s).digits + 1) i
        ≡ value (number t p s, i + width (number_fields t p s))
  unfolding parse_number
  parse_number-fields src old t p s i k f =
      rw
        (
          read_field_lem V src i 1 1 f.0,
          read_field_lem V src (i + 1) 3 t f.1.0,
          read_field_lem V src (i + 1 + 3) 4 p f.1.1.0,
          add_one-sub_one (octets (number t p s).digits),
          parse_digits-fields V src (t == international_number) s (i + 1 + 3 + 4) k.bcd k.digits_fit
              f.1.1.1,
        )
        (ap (λ (j : ℕ). value (number t p s, j)) (omega arith))

-- How an element stands in a frame, and that its class writes and parses it so.
pub record Encodes (V : BitVectors) {T : Type 0} (E : Element V T) (t : T) (fs : Fields)
    : Type 0 where
  pub fits : Fits fs
  pub octets_of : width fs ≡ 8 * E.length_v t
  pub short : E.length_v t < 256
  pub present : 0 < E.length_v t
  pub writes : (c : Cursor V) → E.write_v t c ≡ write_fields V fs c
  pub parses :
      (src : V.Bits) (old : T) (i : ℕ)
      → HasFields V src i fs
      → E.parse_v src old (E.length_v t) i ≡ value (t, i + width fs)

module _ (V : BitVectors) {T : Type 0} (E : Element V T) (t : T) (fs : Fields) where
  abbrev pub lv_fields : Fields
  lv_fields = (E.length_v t, 8) ∷ fs

  pub lv_fields-Fits : Encodes V E t fs → Fits lv_fields
  lv_fields-Fits k = (k.short, k.fits)

  pub write_lv-fields :
      Encodes V E t fs → (c : Cursor V) → write_lv V E t c ≡ write_fields V lv_fields c
  unfolding write_lv
  write_lv-fields k c = rw (pos-ne_zero (E.length_v t) k.present, fun_ext k.writes)

  pub parse_lv-fields :
      Encodes V E t fs
      → (src : V.Bits) (old : T) (i : ℕ) → HasFields V src i lv_fields
      → parse_lv V E src old i ≡ value (t, i + width lv_fields)
  unfolding parse_lv
  parse_lv-fields k src old i f =
      rw
        (
          read_field_lem V src i 8 (E.length_v t) f.0,
          pos-ne_zero (E.length_v t) k.present,
          k.parses src old (i + 8) f.1,
        )
        (ground (arith, k.octets_of))

number_length_lem :
    (t p : ℕ) (s : Str)
    → IsNumber t p s
    → 0 < length s
    → number_length (number t p s) ≡ octets (number t p s).digits + 1
unfolding number_length
number_length_lem t p s k h = ground (arith, octets-number_text (t == international_number) s k.bcd)

length-number_text : (b : Bool) (s : Str) → length s ≤ length (number_text b s)
length-number_text true s = omega arith
length-number_text false s = omega arith

-- A number with digits.
pub number-Encodes :
    (V : BitVectors) (t p : ℕ) (s : Str)
    → IsNumber t p s
    → 0 < length s
    → Encodes V (number_element V) (number t p s) (number_fields t p s)
number-Encodes V t p s k h =
    let len = number_length_lem t p s k h in
    let o = octets-number_text (t == international_number) s k.bcd in
    let l = length-number_text (t == international_number) s in
    let d = k.digits_fit in
    record {
      fits = number_fields-Fits t p s k;
      octets_of = omega (arith, width-number_fields t p s k, len);
      short = omega (arith, len, o, l, d);
      present = omega (arith, len);
      writes = λ c. write_number-fields V t p s c k;
      parses = λ src old i f. rw len (parse_number-fields V src old t p s i k f);
    }

-- How an element stands in a frame with the octet of its length in front. An element of no octets is not
-- parsed: what was there before is left.
pub record IsLv (V : BitVectors) {T : Type 0} (E : Element V T) (old t : T) (fs : Fields)
    : Type 0 where
  pub lv_fits : Fits fs
  pub lv_octets : width fs ≡ 8 * (E.length_v t + 1)
  pub lv_writes : (c : Cursor V) → write_lv V E t c ≡ write_fields V fs c
  pub lv_parses :
      (src : V.Bits) (i : ℕ)
      → HasFields V src i fs
      → parse_lv V E src old i ≡ value (t, i + width fs)

pub present-IsLv :
    (V : BitVectors) {T : Type 0} (E : Element V T) (old t : T) (fs : Fields)
    → Encodes V E t fs
    → IsLv V E old t (lv_fields V E t fs)
present-IsLv V E old t fs k = record {
  lv_fits = lv_fields-Fits V E t fs k;
  lv_octets = omega (arith, k.octets_of);
  lv_writes = write_lv-fields V E t fs k;
  lv_parses = λ src i f. parse_lv-fields V E t fs k src old i f;
}

pub absent-IsLv :
    (V : BitVectors) {T : Type 0} (E : Element V T) (t : T)
    → E.length_v t ≡ 0
    → IsLv V E t t ((0, 8) ∷ [])
unfolding parse_lv write_lv
absent-IsLv V E t k = record {
  lv_fits = (omega arith, tt);
  lv_octets = omega (arith, k);
  lv_writes = λ c. rw k refl;
  lv_parses = λ src i f. rw (read_field_lem V src i 8 0 f.0) refl;
}
