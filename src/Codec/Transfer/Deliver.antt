-- ===== src/Codec/Transfer/Deliver.antt =====
-- A DELIVER unit that is written: the frame, field by field.
use smqueue.Prelude.{ℕ, ◌+◌, ◌*◌, ◌≤◌, ◌≡◌, sym, ap, ◌∙◌, inl, inr, true, [], ◌∷◌, Str, arith}
use smqueue.Codec.{Parse, value, ◌>>=◌, BitVectors, Cursor, IsApart, write_field}
use smqueue.Codec.Fields.{
  width, width-append, HasFields-same, HasFields-both, Written, write_fields, write_fields_lem,
}
use smqueue.Codec.Validity.{Calendar, write_time}
use smqueue.Codec.Transfer.{
  leb-lt, write_address, write_coded, DeliverUnit, deliver_body_length, write_deliver,
}
use smqueue.Codec.Transfer.UserData.{CodedAt, write_coded_lem}
use smqueue.Codec.Transfer.DeliverParts.{
  IsDeliver, middle_fields, middle_fields-Fits, width-middle_fields, write_middle, Header,
  write_header_lem, deliver_fields, Delivered,
}

module _ (V : BitVectors) (cal : Calendar) (d : DeliverUnit V) (t p : ℕ) (s : Str)
    (k0 : IsDeliver V cal d t p s) where
  width-deliver_fields :
      width (deliver_fields V cal d t p s) ≡ 8 + width (middle_fields V cal d t p s) + 8
  width-deliver_fields =
      omega (arith, width-append (middle_fields V cal d t p s) ((d.deliver_ud.text_length, 8) ∷ []))

  -- What is left of the header once the rest is written.
  finished :
      (b c f g v u : V.Bits)
      → Header V b c d
      → Written V c 8 (middle_fields V cal d t p s) f
      → V.size g ≡ V.size f
      → V.peek_field g 3 2 ≡ value 0
      → ((j m : ℕ) → IsApart 3 2 j m → V.peek_field g j m ≡ V.peek_field f j m)
      → CodedAt V g (8 + width (middle_fields V cal d t p s)) d.deliver_ud v u
      → V.size c ≡ 8 + 8 * deliver_body_length V d
      → Delivered V cal d t p s v u
  finished b c f g v u h w sz at out k room =
      let fs = middle_fields V cal d t p s in
      let wf = width-middle_fields V cal d t p s k0 in
      let wd = width-deliver_fields in
      let kept : (j m : ℕ) → j + m ≤ 8 → IsApart 3 2 j m → V.peek_field v j m ≡ V.peek_field c j m =
        λ j m l a. k.before j m (omega arith) ∙ out j m a ∙ w.outside j m (inl l) in
      record {
        fields_at = (
          kept 0 1 (omega arith) (inl (omega arith)) ∙ h.rp_at,
          (
            kept 1 1 (omega arith) (inl (omega arith)) ∙ h.udhi_at,
            (
              kept 2 1 (omega arith) (inl (omega arith)) ∙ h.sri_at,
              (
                k.before 3 2 (omega arith) ∙ at,
                (
                  kept 5 1 (omega arith) (inr (omega arith)) ∙ h.mms_at,
                  (
                    kept 6 2 (omega arith) (inr (omega arith)) ∙ h.mti_at,
                    HasFields-both V v 8 fs ((d.deliver_ud.text_length, 8) ∷ [])
                        (HasFields-same V f v 8 fs
                          (λ j m l r. k.before j m r ∙ out j m (inr (omega arith))) w.fields)
                        (k.length_at, tt),
                  ),
                ),
              ),
            ),
          ),
        );
        text = k.text;
        text_at = λ j m l. ap (λ (i : ℕ). V.peek_field v (i + j) m) wd ∙ k.turned_at j m l;
        all_bits = omega (arith, k.same_size, sz, w.same_size, room, wf, wd);
      }

  abbrev rest_of : V.Bits → Parse (Cursor V)
  rest_of c = write_address V d.oa (c, 8) >>= λ c. write_field V d.pid 8 c >>= λ c.
      write_field V d.deliver_ud.dcs 8 c >>= λ c. write_time V cal true d.scts c >>= λ c.
      V.fill_field c.0 3 0 2 >>= λ f. write_coded V d.deliver_ud (f, c.1)

  -- The steps behind the header.
  write_rest :
      (c f g v u : V.Bits)
      → write_fields V (middle_fields V cal d t p s) (c, 8)
        ≡ value (f, 8 + width (middle_fields V cal d t p s))
      → V.fill_field f 3 0 2 ≡ value g
      → write_coded V d.deliver_ud (g, 8 + width (middle_fields V cal d t p s))
        ≡ value (v, 8 + width (middle_fields V cal d t p s) + 8)
      → rest_of c ≡ value (v, width (deliver_fields V cal d t p s))
  write_rest c f g v u e e' e'' =
      write_middle V cal d t p s (c, 8)
        (λ c. V.fill_field c.0 3 0 2 >>= λ f. write_coded V d.deliver_ud (f, c.1)) k0
      ∙ rw (e, e', e'') (ap (λ (j : ℕ). value (v, j)) (sym width-deliver_fields))

-- A DELIVER unit with a number as its address, octets as protocol and coding scheme, a time of the
-- calendar, and a text in whole octets with a length below 256: TLMessage::write with
-- TLDeliver::writeBody succeeds on any vector, which takes just the bits that bitsNeeded gives. It holds
-- the bits of the first octet, the address, the protocol, the coding scheme, the time stamp in local time
-- and the length of the text, in this order, and behind them the text turned round octet by octet.
pub write_deliver-fields :
    (V : BitVectors) (cal : Calendar) (d : DeliverUnit V) (t p : ℕ) (s : Str) (dest : V.Bits)
    → IsDeliver V cal d t p s
    → (c : V.Bits) × (u : V.Bits) × (write_deliver V cal d dest
        ≡ value (c, width (deliver_fields V cal d t p s)))
      × (V.size c ≡ 8 * (1 + deliver_body_length V d))
      × Delivered V cal d t p s c u
unfolding write_deliver
write_deliver-fields V cal d t p s dest k =
    let wf = width-middle_fields V cal d t p s k in
    let sz = V.size-resize dest ((1 + deliver_body_length V d) * 8) in
    let (b, e, h) =
      write_header_lem V d (V.resize dest ((1 + deliver_body_length V d) * 8))
        (rest_of V cal d t p s k) (omega (arith, sz)) in
    let (f, e_f, w) =
      write_fields_lem V (middle_fields V cal d t p s) b 8 (middle_fields-Fits V cal d t p s k)
        (omega (arith, sz, h.size_eq, wf)) in
    let (g, e_g, sz_g, at_g, out_g) =
      V.fill-in_range f 3 0 2 (omega (arith, sz, h.size_eq, w.same_size)) (omega arith) in
    let (v, u, e_v, coded) =
      write_coded_lem V g (8 + width (middle_fields V cal d t p s)) d.deliver_ud (record {
        whole = k.text_whole;
        room = omega (arith, sz, h.size_eq, w.same_size, sz_g, wf);
        short = k.text_short;
      }) in
    (
      v,
      u,
      rw (leb-lt k.dcs_fits) (e ∙ write_rest V cal d t p s k b f g v u e_f e_g e_v),
      omega (arith, sz, h.size_eq, w.same_size, sz_g, coded.same_size),
      finished V cal d t p s k (V.resize dest ((1 + deliver_body_length V d) * 8)) b f g v u h w
          sz_g at_g out_g coded (omega (arith, sz, h.size_eq)),
    )
