-- ===== src/Codec/Connection/RoundTrip.antt =====
-- A message of the connection layer that is written is read back, but for CPError.
use smqueue.Prelude.{
  ℕ, ◌+◌, ◌*◌, ◌/◌, ◌<◌, ◌≡◌, refl, sym, ap, ◌∙◌, false, [], ◌∷◌, some, ltb, arith,
}
use smqueue.Codec.{
  value, asserted, ◌>>=◌, >>=_assoc, >>=-value, read_field_lem, BitVectors, write_bits,
}
use smqueue.Codec.Fields.{Fields, width, write_fields, write_fields_lem}
use smqueue.Codec.Payload.{
  SameBits, IsUnit, Framed, Framed-SameBits, write_fields-Framed, read_unit,
}
use smqueue.Codec.Elements.{parse_lv, write_lv}
use smqueue.Codec.Elements.RoundTrip.{pos-ne_zero}
use smqueue.Codec.Elements.{BcdNumber, no_number}
use smqueue.Codec.Relay.{rp_data, rp_bits_needed, write_rp, parse_rp}
use smqueue.Codec.Relay.RoundTrip.{IsAddress, write_rp-Framed}
use smqueue.Codec.Connection.{
  parse_rpdu, cp_data, cp_ack, cp_error, cp_bits_needed, write_cp, parse_sms,
}

abbrev data_fields : ℕ → ℕ → Fields
data_fields ti n = (ti, 4) ∷ (9, 4) ∷ (1, 8) ∷ (n, 8) ∷ []

octets_lem : (size n : ℕ) → size ≡ 8 * n → size / 8 ≡ n
octets_lem size n h = omega arith

module _ (V : BitVectors) (ti n : ℕ) (rpdu : V.Bits) (ht : ti < 16) (k : IsUnit V rpdu n) where
  bits_lem : cp_bits_needed V (cp_data rpdu) ≡ width (data_fields ti n) + V.size rpdu
  unfolding cp_bits_needed
  bits_lem = omega (arith, k.whole)

  write_data-fields :
      (b : V.Bits)
      → write_cp V (record { ti = ti; body = cp_data rpdu }) b ≡ (
          write_fields V (data_fields ti n) (V.resize b (cp_bits_needed V (cp_data rpdu)), 0)
          >>= write_bits V rpdu)
  unfolding write_cp write_lv
  write_data-fields b =
      rw (octets_lem (V.size rpdu) n k.whole, pos-ne_zero n k.nonempty) (simp >>=_assoc)

  parse_data_lem :
      (c : V.Bits)
      → Framed V (data_fields ti n) rpdu c
      → (t : V.Bits) × (parse_sms V c ≡ value (some (record { ti = ti; body = cp_data t })))
        × SameBits V t rpdu
  unfolding parse_sms parse_lv parse_rpdu
  parse_data_lem c w =
      let (t, e, same) = read_unit V (data_fields ti n) rpdu c 24 n k w refl in
      (
        t,
        rw
            (
              w.holds.1.1.0,
              w.holds.0,
              read_field_lem V c 16 8 n w.holds.1.1.1.0,
              pos-ne_zero n k.nonempty,
              enough (V.size c) (24 + n * 8) (omega (arith, k.whole, w.long_enough)),
              e,
            )
            (ground arith),
        same,
      )
    where
      enough : (a b : ℕ) → a ≡ b → ltb a b ≡ false
      enough a b h = ground arith

  pub write_data-Framed :
      (b : V.Bits)
      → (c : V.Bits) × (write_cp V (record { ti = ti; body = cp_data rpdu }) b
          ≡ value (c, cp_bits_needed V (cp_data rpdu)))
        × Framed V (data_fields ti n) rpdu c
  write_data-Framed b =
      let (c, e, w) =
        write_fields-Framed V (data_fields ti n) rpdu (V.resize b (cp_bits_needed V (cp_data rpdu)))
          (ht, (omega arith, (omega arith, (k.short, tt)))) (V.size-resize b _ ∙ bits_lem) in
      (c, write_data-fields b ∙ e ∙ ap (λ (j : ℕ). value (c, j)) (sym bits_lem), w)

-- A CPData around an RPData: the transaction identifier fits four bits, the reference an octet, the
-- addresses are left out or have digits, stars and hashes that fit, the transfer unit has 1 to 255 octets
-- and the whole RPData fewer than 256. What RPMessage::write and CPMessage::write make of it is read back:
-- parseSMS gives a CPData with the identifier, and RPMessage::parse, on what it holds, the reference, the
-- addresses and a transfer unit with the same bits.
pub parse_sms-write_cp :
    (V : BitVectors) (ti ref n m : ℕ) (o d : BcdNumber) (tpdu old b b' : V.Bits)
    → ti < 16
    → ref < 256
    → IsAddress o
    → IsAddress d
    → IsUnit V tpdu n
    → rp_bits_needed V (rp_data o d tpdu) ≡ 8 * m
    → m < 256
    → (rpdu : V.Bits) × (frame : V.Bits) × (u : V.Bits) × (t : V.Bits) × (write_rp V
          (record { reference = ref; body = rp_data o d tpdu })
          b
        ≡ value (rpdu, 8 * m))
      × (write_cp V (record { ti = ti; body = cp_data rpdu }) b'
          ≡ value (frame, cp_bits_needed V (cp_data rpdu)))
      × (parse_sms V frame ≡ value (some (record { ti = ti; body = cp_data u })))
      × (parse_rp V (record { reference = 0; body = rp_data no_number no_number old }) u
          ≡ value (record { reference = ref; body = rp_data o d t }))
      × SameBits V t tpdu
unfolding rp_bits_needed
parse_sms-write_cp V ti ref n m o d tpdu old b b' hti hr ho hd ht hm hl =
    let (fs, rpdu, e, size, w, parses) = write_rp-Framed V o d tpdu b ref n ho hd ht hr in
    let k : IsUnit V rpdu m = record {
      whole = size ∙ hm;
      nonempty = omega (arith, hm);
      short = hl;
    } in
    let (frame, e1, v) = write_data-Framed V ti m rpdu hti k b' in
    let (u, e2, same) = parse_data_lem V ti m rpdu hti k frame v in
    let (t, e3, same') = parses u old (Framed-SameBits V fs tpdu rpdu u w same) in
    (rpdu, frame, u, t, e ∙ ap (λ (j : ℕ). value (rpdu, j)) hm, e1, e2, e3, same')

-- A CP-ACK with an identifier of four bits is read back by parseSMS.
pub parse_sms-write_ack :
    (V : BitVectors) (ti : ℕ) (b : V.Bits)
    → ti < 16
    → (c : V.Bits) × (write_cp V (record { ti = ti; body = cp_ack }) b
        ≡ value (c, cp_bits_needed V cp_ack))
      × (parse_sms V c ≡ value (some (record { ti = ti; body = cp_ack })))
unfolding write_cp parse_sms cp_bits_needed
parse_sms-write_ack V ti b h =
    let (c, e, w) =
      write_fields_lem V ((ti, 4) ∷ (9, 4) ∷ (4, 8) ∷ []) (V.resize b 16) 0
        (h, (omega arith, (omega arith, tt))) (omega (arith, V.size-resize b 16)) in
    (c, e, rw (w.fields.1.1.0, w.fields.0) refl)

-- A CP-ERROR with an identifier of four bits and a cause of one octet, as CPMessage::write writes it, makes
-- parseSMS assert.
pub parse_sms-write_error :
    (V : BitVectors) (ti cause : ℕ) (b : V.Bits)
    → ti < 16
    → cause < 256
    → (c : V.Bits) × (write_cp V (record { ti = ti; body = cp_error cause }) b
        ≡ value (c, cp_bits_needed V (cp_error cause)))
      × (parse_sms V c ≡ asserted)
unfolding write_cp parse_sms cp_bits_needed
parse_sms-write_error V ti cause b h k =
    let (c, e, w) =
      write_fields_lem V ((ti, 4) ∷ (9, 4) ∷ (16, 8) ∷ (cause, 8) ∷ []) (V.resize b 24) 0
        (h, (omega arith, (omega arith, (k, tt)))) (omega (arith, V.size-resize b 24)) in
    (c, (simp >>=-value at e), rw (w.fields.1.1.0, w.fields.0) refl)
