-- ===== src/Codec/Transfer/UserData.antt =====
-- The user data of the transfer layer, written and read.
use smqueue.Prelude.{ℕ, ◌+◌, ◌-◌, ◌%◌, ◌≤◌, ◌<◌, ◌≡◌, refl, ap, ◌∙◌, inl, arith}
use smqueue.Codec.{value, read_field_lem, BitVectors, write_field}
use smqueue.Codec.Payload.{SameBits}
use smqueue.Codec.Transfer.{leb-lt, CodedText, write_coded, parse_coded}

add-sub : (a b : ℕ) → a + b - a ≡ b
add-sub a b = omega arith

module _ (V : BitVectors) where
  -- An octet of a length in front of a text in whole octets, at the end of the frame.
  pub record EndsWith (b : V.Bits) (i : ℕ) (u : CodedText V) : Type 0 where
    pub whole : V.size u.raw % 8 ≡ 0
    pub room : V.size b ≡ i + 8 + V.size u.raw
    pub short : u.text_length < 256

  -- A vector that was turned round, copied, and turned round again.
  turned_back :
      (t r raw : V.Bits)
      → V.size raw % 8 ≡ 0
      → SameBits V t raw
      → SameBits V r (V.lsb8msb t)
      → SameBits V (V.lsb8msb r) raw
  turned_back t r raw w p q = record {
    size_eq = V.size-lsb8msb r ∙ q.size_eq ∙ V.size-lsb8msb t ∙ p.size_eq;
    peek_eq = λ j m h.
        let s = V.size-lsb8msb t in
        V.lsb8msb_same r (V.lsb8msb t) j m (omega (arith, q.size_eq, s, p.size_eq)) q.size_eq
          q.peek_eq (omega (arith, s, p.size_eq))
        ∙ V.lsb8msb_twice t j m (omega (arith, p.size_eq)) (omega (arith, p.size_eq))
        ∙ p.peek_eq j m h;
  }

  pasted :
      (raw t c : V.Bits)
      → V.size c ≡ V.size t
      → V.size t ≡ V.size raw
      → ((j m : ℕ) → j + m ≤ V.size raw → V.peek_field c (0 + j) m ≡ V.peek_field raw j m)
      → SameBits V c raw
  pasted raw t c s e h = record {
    size_eq = s ∙ e;
    peek_eq = λ j m l. ap (λ (k : ℕ). V.peek_field c k m) (zero_add j) ∙ h j m l;
  }
    where
      zero_add : (j : ℕ) → j ≡ 0 + j
      zero_add j = omega arith

-- What TLUserData::write leaves in a frame: the length, and bits that are those of the text once they are
-- turned round; what stands before is not touched.
pub record CodedAt (V : BitVectors) (b : V.Bits) (i : ℕ) (u : CodedText V) (c t : V.Bits)
    : Type 0 where
  pub same_size : V.size c ≡ V.size b
  pub text : SameBits V t u.raw
  pub length_at : V.peek_field c i 8 ≡ value u.text_length
  pub turned_at :
      (j m : ℕ)
      → j + m ≤ V.size u.raw
      → V.peek_field c (i + 8 + j) m ≡ V.peek_field (V.lsb8msb t) j m
  pub before : (j m : ℕ) → j + m ≤ i → V.peek_field c j m ≡ V.peek_field b j m

pub write_coded_lem :
    (V : BitVectors) (b : V.Bits) (i : ℕ) (u : CodedText V)
    → EndsWith V b i u
    → (c : V.Bits) × (t : V.Bits) × (write_coded V u (b, i) ≡ value (c, i + 8))
      × CodedAt V b i u c t
unfolding write_coded write_field
write_coded_lem V b i u k =
    let (b', e, sz, at, out) =
      V.fill-in_range b i u.text_length 8 (omega (arith, k.room)) (omega (arith, k.short)) in
    let n = V.size u.raw in
    let (t, e_t, sz_t, same_t) = V.segment-in_range b' (i + 8) n (omega (arith, k.room, sz)) in
    let (t', e_t', sz_t', in_t, out_t) = V.copy-in_range u.raw t 0 (omega (arith, sz_t)) in
    let sz_m = V.size-lsb8msb t' in
    let (c, e_c, sz_c, in_c, out_c) =
      V.copy-in_range (V.lsb8msb t') b' (i + 8) (omega (arith, k.room, sz, sz_t, sz_t', sz_m)) in
    let rest : V.size b' - (i + 8) ≡ n = omega (arith, k.room, sz) in
    (
      c,
      t',
      rw (e, rest, e_t, e_t', e_c) refl,
      record {
        same_size = sz_c ∙ sz;
        text = pasted V u.raw t t' sz_t' sz_t in_t;
        length_at = out_c i 8 (inl (omega arith)) ∙ at;
        turned_at = λ j m h. in_c j m (omega (arith, sz_m, sz_t', sz_t));
        before = λ j m h. out_c j m (inl (omega arith)) ∙ out j m (inl h);
      },
    )

-- A text in whole octets of at most 255 characters with a coding scheme of an octet, and a frame that ends with its length octet and its
-- octets: what TLUserData::write puts into the frame, TLUserData::parse reads back with the coding scheme
-- and the header indicator it is given, with the same length and the same bits. Both leave the index
-- behind the length octet.
pub parse_coded-write_coded :
    (V : BitVectors) (b : V.Bits) (i : ℕ) (u : CodedText V)
    → EndsWith V b i u
    → u.dcs < 256
    → (c : V.Bits) × (raw : V.Bits) × (write_coded V u (b, i) ≡ value (c, i + 8))
      × (parse_coded V u.dcs u.udhi c i
          ≡ value (
            record { dcs = u.dcs; udhi = u.udhi; text_length = u.text_length; raw = raw },
            i + 8,
          ))
      × SameBits V raw u.raw
unfolding parse_coded
parse_coded-write_coded V b i u k scheme =
    let (c, t, e, w) = write_coded_lem V b i u k in
    let n = V.size u.raw in
    let (r, e_r, sz_r, same_r) =
      V.segment-in_range c (i + 8) n (omega (arith, k.room, w.same_size)) in
    let rest : V.size c - (i + 8) ≡ n = omega (arith, k.room, w.same_size) in
    let sz : V.size (V.lsb8msb t) ≡ n = V.size-lsb8msb t ∙ w.text.size_eq in
    (
      c,
      V.lsb8msb r,
      e,
      rw (leb-lt scheme, read_field_lem V c i 8 u.text_length w.length_at, rest, e_r) refl,
      turned_back V t r u.raw k.whole w.text (record {
        size_eq = omega (arith, sz_r, sz);
        peek_eq = λ j m h. same_r j m (omega (arith, sz)) ∙ w.turned_at j m (omega (arith, sz));
      }),
    )
