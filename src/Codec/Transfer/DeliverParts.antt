-- ===== src/Codec/Transfer/DeliverParts.antt =====
-- The parts of a DELIVER unit in a frame: the first octet, and the fields behind it.
use smqueue.Prelude.{
  ℕ, ◌+◌, ◌*◌, ◌%◌, ◌^◌, ◌≤◌, ◌<◌, ◌≡◌, refl, ◌∙◌, inl, inr, Bool, true, false, [], ◌∷◌, ◌++◌, Str,
  arith,
}
use smqueue.Codec.{Parse, value, ◌>>=◌, >>=_assoc, BitVectors, Cursor, write_field}
use smqueue.Codec.Fields.{
  Fields, width, width-append, Fits, Fits-append, HasFields, write_fields, write_fields-append,
}
use smqueue.Codec.Payload.{SameBits}
use smqueue.Codec.Elements.RoundTrip.{number, IsNumber}
use smqueue.Codec.Validity.{Calendar, stamp_of, write_time}
use smqueue.Codec.Validity.Stamp.{IsTm, tm_fields, tm_fields-Fits}
use smqueue.Codec.Transfer.{bit, write_address, coded_length, DeliverUnit, deliver_body_length}
use smqueue.Codec.Transfer.Address.{
  address_fields, address_fields-Fits, width-address_fields, write_address-fields,
}

bit-lt : (b : Bool) → bit b < 2 ^ 1
bit-lt true = omega arith
bit-lt false = omega arith

module _ (V : BitVectors) where
  -- A unit that can be written: a number as address, an octet each for the protocol and the coding scheme,
  -- a time of the calendar, and a text in whole octets.
  pub record IsDeliver (cal : Calendar) (d : DeliverUnit V) (t p : ℕ) (s : Str) : Type 0 where
    pub oa_eq : d.oa ≡ number t p s
    pub oa_number : IsNumber t p s
    pub pid_fits : d.pid < 256
    pub dcs_fits : d.deliver_ud.dcs < 256
    pub stamp : IsTm (stamp_of cal true d.scts)
    pub text_whole : V.size d.deliver_ud.raw % 8 ≡ 0
    pub text_short : d.deliver_ud.text_length < 256

  -- The first octet: reply path, header indicator, status report, unused, more messages, type.
  abbrev pub first_fields : DeliverUnit V → Fields
  first_fields d =
      (bit d.reply_path, 1)
      ∷ (bit d.deliver_ud.udhi, 1)
      ∷ (bit d.sri, 1)
      ∷ (0, 2)
      ∷ (bit d.mms, 1)
      ∷ (0, 2)
      ∷ []

  abbrev pub middle_fields : Calendar → DeliverUnit V → ℕ → ℕ → Str → Fields
  middle_fields cal d t p s =
      address_fields t p s
      ++ (d.pid, 8) ∷ (d.deliver_ud.dcs, 8) ∷ tm_fields (stamp_of cal true d.scts)

  pub middle_fields-Fits :
      (cal : Calendar) (d : DeliverUnit V) (t p : ℕ) (s : Str)
      → IsDeliver cal d t p s
      → Fits (middle_fields cal d t p s)
  middle_fields-Fits cal d t p s k =
      Fits-append (address_fields t p s) _ (address_fields-Fits t p s k.oa_number) (
        omega (arith, k.pid_fits),
        (omega (arith, k.dcs_fits), tm_fields-Fits (stamp_of cal true d.scts) k.stamp),
      )

  pub width-middle_fields :
      (cal : Calendar) (d : DeliverUnit V) (t p : ℕ) (s : Str)
      → IsDeliver cal d t p s
      → width (middle_fields cal d t p s) + 8 + V.size d.deliver_ud.raw
        ≡ 8 * deliver_body_length V d
  unfolding deliver_body_length coded_length
  width-middle_fields cal d t p s k = rw k.oa_eq (
      omega (
        arith,
        width-append (address_fields t p s)
            ((d.pid, 8) ∷ (d.deliver_ud.dcs, 8) ∷ tm_fields (stamp_of cal true d.scts)),
        width-address_fields t p s k.oa_number,
        k.text_whole,
      ))

  pub write_middle :
      (cal : Calendar) (d : DeliverUnit V) (t p : ℕ) (s : Str) (c : Cursor V)
      (next : Cursor V → Parse (Cursor V))
      → IsDeliver cal d t p s
      → (write_address V d.oa c >>= λ c. write_field V d.pid 8 c >>= λ c.
          write_field V d.deliver_ud.dcs 8 c >>= λ c. write_time V cal true d.scts c >>= next)
        ≡ (write_fields V (middle_fields cal d t p s) c >>= next)
  unfolding write_time
  write_middle cal d t p s c next k =
      rw
        (
          k.oa_eq,
          write_address-fields V t p s c k.oa_number,
          ← (
              write_fields-append V (address_fields t p s)
                ((d.pid, 8) ∷ (d.deliver_ud.dcs, 8) ∷ tm_fields (stamp_of cal true d.scts)) c),
        )
        (simp >>=_assoc)

  -- The bits of the first octet but the unused ones, which are written last.
  pub record Header (b c : V.Bits) (d : DeliverUnit V) : Type 0 where
    pub size_eq : V.size c ≡ V.size b
    pub rp_at : V.peek_field c 0 1 ≡ value (bit d.reply_path)
    pub udhi_at : V.peek_field c 1 1 ≡ value (bit d.deliver_ud.udhi)
    pub sri_at : V.peek_field c 2 1 ≡ value (bit d.sri)
    pub mms_at : V.peek_field c 5 1 ≡ value (bit d.mms)
    pub mti_at : V.peek_field c 6 2 ≡ value 0

  -- The header, in the order in which its bits are written.
  abbrev pub write_header : DeliverUnit V → V.Bits → (V.Bits → Parse (Cursor V)) → Parse (Cursor V)
  write_header d b next = do
    f ← V.fill_field b 6 0 2
    f ← V.fill_field f 5 (bit d.mms) 1
    f ← V.fill_field f 0 (bit d.reply_path) 1
    f ← V.fill_field f 1 (bit d.deliver_ud.udhi) 1
    f ← V.fill_field f 2 (bit d.sri) 1
    next f

  pub write_header_lem :
      (d : DeliverUnit V) (b : V.Bits) (next : V.Bits → Parse (Cursor V))
      → 8 ≤ V.size b
      → (c : V.Bits) × (write_header d b next ≡ next c) × Header b c d
  write_header_lem d b next room =
      let (c1, e1, s1, at1, o1) = V.fill-in_range b 6 0 2 (omega arith) (omega arith) in
      let (c2, e2, s2, at2, o2) =
        V.fill-in_range c1 5 (bit d.mms) 1 (omega (arith, s1)) (bit-lt d.mms) in
      let (c3, e3, s3, at3, o3) =
        V.fill-in_range c2 0 (bit d.reply_path) 1 (omega (arith, s1, s2)) (bit-lt d.reply_path) in
      let (c4, e4, s4, at4, o4) =
        V.fill-in_range c3 1 (bit d.deliver_ud.udhi) 1 (omega (arith, s1, s2, s3))
          (bit-lt d.deliver_ud.udhi) in
      let (c5, e5, s5, at5, o5) =
        V.fill-in_range c4 2 (bit d.sri) 1 (omega (arith, s1, s2, s3, s4)) (bit-lt d.sri) in
      (
        c5,
        rw (e1, e2, e3, e4, e5) refl,
        record {
          size_eq = s5 ∙ s4 ∙ s3 ∙ s2 ∙ s1;
          rp_at = o5 0 1 (inl (omega arith)) ∙ o4 0 1 (inl (omega arith)) ∙ at3;
          udhi_at = o5 1 1 (inl (omega arith)) ∙ at4;
          sri_at = at5;
          mms_at =
              o5 5 1 (inr (omega arith))
              ∙ o4 5 1 (inr (omega arith))
              ∙ o3 5 1 (inr (omega arith))
              ∙ at2;
          mti_at =
              o5 6 2 (inr (omega arith))
              ∙ o4 6 2 (inr (omega arith))
              ∙ o3 6 2 (inr (omega arith))
              ∙ o2 6 2 (inr (omega arith))
              ∙ at1;
        },
      )

  -- The fields in front of the octets of the text.
  abbrev pub deliver_fields : Calendar → DeliverUnit V → ℕ → ℕ → Str → Fields
  deliver_fields cal d t p s =
      first_fields d ++ middle_fields cal d t p s ++ (d.deliver_ud.text_length, 8) ∷ []

  -- A frame with these fields from its start on, and behind them bits that are those of the text once they
  -- are turned round, and nothing else.
  pub record Delivered (cal : Calendar) (d : DeliverUnit V) (t p : ℕ) (s : Str) (c u : V.Bits)
      : Type 0 where
    pub fields_at : HasFields V c 0 (deliver_fields cal d t p s)
    pub text : SameBits V u d.deliver_ud.raw
    pub text_at :
        (j m : ℕ)
        → j + m ≤ V.size d.deliver_ud.raw
        → V.peek_field c (width (deliver_fields cal d t p s) + j) m ≡ V.peek_field (V.lsb8msb u) j m
    pub all_bits : V.size c ≡ width (deliver_fields cal d t p s) + V.size d.deliver_ud.raw
