-- ===== src/Codec/Transfer/Submit.antt =====
-- A SUBMIT unit, read from a frame that is described field by field.
use smqueue.Prelude.{
  ◌<◌, ℕ, ◌+◌, ◌-◌, ◌*◌, ◌≤◌, ◌≡◌, refl, ap, subst, Bool, true, false, [], ◌∷◌, ◌++◌, Str, Option,
  none, some, arith,
}
use smqueue.Codec.{value, read_field_lem, BitVectors}
use smqueue.Codec.Fields.{Fields, width, width-append, HasFields, HasFields-append}
use smqueue.Codec.Elements.RoundTrip.{number, IsNumber}
use smqueue.Codec.Validity.{Calendar, relative_minutes, one_week, parse_validity}
use smqueue.Codec.Transfer.{leb-lt, bit, is_set, SubmitUnit, parse_coded, parse_submit, parse_tpdu}
use smqueue.Codec.Transfer.Address.{CountsOctets, address_fields, parse_address-fields}

is_set-bit : (b : Bool) → is_set (bit b) ≡ b
is_set-bit true = refl
is_set-bit false = refl

-- The validity period is absent, or an octet in the relative format.
abbrev pub format : Option ℕ → ℕ
format none = 0
format (some v) = 2

abbrev pub validity_fields : Option ℕ → Fields
validity_fields none = []
validity_fields (some v) = (v, 8) ∷ []

abbrev pub expires : ℕ → Option ℕ → ℕ
expires now none = now + one_week
expires now (some v) = now + relative_minutes v * 60

-- The fields behind the first octet, up to the octets of the text.
pub record Submitted : Type 0 where
  pub rd : Bool
  pub rp : Bool
  pub srr : Bool
  pub udhi : Bool
  pub mr : ℕ
  pub da_type : ℕ
  pub da_plan : ℕ
  pub da_digits : Str
  pub pi : ℕ
  pub dcs : ℕ
  pub vp : Option ℕ
  pub text_length : ℕ

abbrev pub tail_fields : Submitted → Fields
tail_fields m = (m.pi, 8) ∷ (m.dcs, 8) ∷ validity_fields m.vp ++ (m.text_length, 8) ∷ []

abbrev pub submit_fields : Submitted → Fields
submit_fields m = (m.mr, 8) ∷ address_fields m.da_type m.da_plan m.da_digits ++ tail_fields m

module _ (V : BitVectors) where
  -- The bits of the first octet of a SUBMIT unit, and the fields behind it.
  pub record IsSubmit (c : V.Bits) (m : Submitted) : Type 0 where
    pub mti_at : V.peek_field c 6 2 ≡ value 1
    pub rd_at : V.peek_field c 5 1 ≡ value (bit m.rd)
    pub vpf_at : V.peek_field c 3 2 ≡ value (format m.vp)
    pub srr_at : V.peek_field c 2 1 ≡ value (bit m.srr)
    pub udhi_at : V.peek_field c 1 1 ≡ value (bit m.udhi)
    pub rp_at : V.peek_field c 0 1 ≡ value (bit m.rp)
    pub fields_at : HasFields V c 8 (submit_fields m)
    pub da_number : IsNumber m.da_type m.da_plan m.da_digits
    pub dcs_fits : m.dcs < 256
    pub da_counted : CountsOctets m.da_type m.da_digits

  parse_validity-relative :
      (cal : Calendar) (now : ℕ) (src : V.Bits) (vp : Option ℕ) (i : ℕ)
      → HasFields V src i (validity_fields vp)
      → parse_validity V cal now (format vp) src i
        ≡ value (expires now vp, i + width (validity_fields vp))
  unfolding parse_validity
  parse_validity-relative cal now src none i h =
      ap (λ (j : ℕ). value (now + one_week, j)) (omega arith)
  parse_validity-relative cal now src (some v) i h =
      rw (read_field_lem V src i 8 v h.0)
        (ap (λ (j : ℕ). value (now + relative_minutes v * 60, j)) (omega arith))

  parse_coded-at :
      (dcs : ℕ) (udhi : Bool) (c r : V.Bits) (k len : ℕ)
      → dcs < 256
      → V.peek_field c k 8 ≡ value len
      → V.segment c (k + 8) (V.size c - (k + 8)) ≡ value r
      → parse_coded V dcs udhi c k
        ≡ value (record { dcs = dcs; udhi = udhi; text_length = len; raw = V.lsb8msb r }, k + 8)
  unfolding parse_coded
  parse_coded-at dcs udhi c r k len d h l = rw (leb-lt d, read_field_lem V c k 8 len h, l) refl

-- The unit that the fields and the bits behind them stand for.
abbrev pub submitted : (V : BitVectors) → ℕ → Submitted → V.Bits → SubmitUnit V
submitted V now m raw = record {
  rd = m.rd;
  vpf = format m.vp;
  rp = m.rp;
  srr = m.srr;
  mr = m.mr;
  da = number m.da_type m.da_plan m.da_digits;
  pi = m.pi;
  submit_dcs = m.dcs;
  expiration = expires now m.vp;
  ud = record { dcs = m.dcs; udhi = m.udhi; text_length = m.text_length; raw = raw };
}

width-submit_fields :
    (m : Submitted)
    → 8 + width (submit_fields m)
      ≡ 8
        + 8
        + width (address_fields m.da_type m.da_plan m.da_digits)
        + 8
        + 8
        + width (validity_fields m.vp)
        + 8
width-submit_fields m = omega (
  arith,
  width-append (address_fields m.da_type m.da_plan m.da_digits) (tail_fields m),
  width-append (validity_fields m.vp) ((m.text_length, 8) ∷ []),
)

module _ (V : BitVectors) (cal : Calendar) (now : ℕ) (c r : V.Bits) (m : Submitted)
    (h : IsSubmit V c m)
    (cut : V.segment c (8 + width (submit_fields m)) (V.size c - (8 + width (submit_fields m)))
      ≡ value r) where
  parse_submit-fields : parse_submit V cal now c ≡ value (submitted V now m (V.lsb8msb r))
  unfolding parse_submit
  parse_submit-fields =
      let a = address_fields m.da_type m.da_plan m.da_digits in
      let (to, behind) = HasFields-append V c (8 + 8) a (tail_fields m) h.fields_at.1 in
      let (valid, text) =
        HasFields-append V c (8 + 8 + width a + 8 + 8) (validity_fields m.vp)
          ((m.text_length, 8) ∷ []) behind.1.1 in
      rw
        (
          h.rd_at,
          h.vpf_at,
          h.rp_at,
          h.udhi_at,
          h.srr_at,
          read_field_lem V c 8 8 m.mr h.fields_at.0,
          parse_address-fields V c m.da_type m.da_plan m.da_digits (8 + 8) h.da_number h.da_counted
              to,
          read_field_lem V c (8 + 8 + width a) 8 m.pi behind.0,
          read_field_lem V c (8 + 8 + width a + 8) 8 m.dcs behind.1.0,
          parse_validity-relative V cal now c m.vp (8 + 8 + width a + 8 + 8) valid,
          parse_coded-at V m.dcs (is_set (bit m.udhi)) c r
              (8 + 8 + width a + 8 + 8 + width (validity_fields m.vp)) m.text_length h.dcs_fits
              text.0
              (subst (λ k. V.segment c k (V.size c - k) ≡ value r) (width-submit_fields m) cut),
          is_set-bit m.rd,
          is_set-bit m.rp,
          is_set-bit m.srr,
          is_set-bit m.udhi,
        )
        refl

-- A frame that describes a SUBMIT unit field by field, with a validity period that is absent or relative,
-- a coding scheme below 256 and an address whose length octet is right, and that goes on behind these fields: parseTPDU returns
-- the unit with these fields, with the time at which it expires (one week on, or the minutes of the
-- relative format on), and with the rest of the frame, turned round octet by octet, as its text.
pub parse_tpdu-submit :
    (V : BitVectors) (cal : Calendar) (now : ℕ) (c : V.Bits) (m : Submitted)
    → IsSubmit V c m
    → 8 + width (submit_fields m) ≤ V.size c
    → (r : V.Bits) × (V.segment c
          (8 + width (submit_fields m))
          (V.size c - (8 + width (submit_fields m)))
        ≡ value r)
      × (parse_tpdu V cal now c ≡ value (some (submitted V now m (V.lsb8msb r))))
unfolding parse_tpdu
parse_tpdu-submit V cal now c m h room =
    let at = 8 + width (submit_fields m) in
    let (r, e, _, _) = V.segment-in_range c at (V.size c - at) (omega arith) in
    (r, e, rw (h.mti_at, parse_submit-fields V cal now c r m h e) refl)
