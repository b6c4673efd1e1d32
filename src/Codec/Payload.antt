-- ===== src/Codec/Payload.antt =====
-- A frame that holds fields and, behind them, the bits of another vector.
use smqueue.Prelude.{ℕ, ◌+◌, ◌*◌, ◌≤◌, ◌<◌, ◌≡◌, refl, sym, ap, ◌∙◌, inl, arith}
use smqueue.Codec.{value, ◌>>=◌, BitVectors, write_bits}
use smqueue.Codec.Fields.{
  Fields, width, Fits, HasFields, HasFields-same, write_fields, write_fields_lem,
}

-- The same bits.
pub record SameBits (V : BitVectors) (a b : V.Bits) : Type 0 where
  pub size_eq : V.size a ≡ V.size b
  pub peek_eq : (j m : ℕ) → j + m ≤ V.size b → V.peek_field a j m ≡ V.peek_field b j m

-- A unit of some octets, fewer than 256.
pub record IsUnit (V : BitVectors) (unit : V.Bits) (n : ℕ) : Type 0 where
  pub whole : V.size unit ≡ 8 * n
  pub nonempty : 0 < n
  pub short : n < 256

-- Fields from the start of the frame, the unit behind them, and nothing else.
pub record Framed (V : BitVectors) (fs : Fields) (unit c : V.Bits) : Type 0 where
  pub holds : HasFields V c 0 fs
  pub unit_at :
      (j m : ℕ) → j + m ≤ V.size unit → V.peek_field c (width fs + j) m ≡ V.peek_field unit j m
  pub long_enough : V.size c ≡ width fs + V.size unit

zero_add : (n : ℕ) → 0 + n ≡ n
zero_add n = omega arith

write_bits_lem :
    (V : BitVectors) (unit c f : V.Bits) (i : ℕ)
    → V.copy_to_segment unit c i ≡ value f
    → write_bits V unit (c, i) ≡ value (f, i + V.size unit)
unfolding write_bits
write_bits_lem V unit c f i h = rw h refl

pub write_fields-Framed :
    (V : BitVectors) (fs : Fields) (unit b : V.Bits)
    → Fits fs
    → V.size b ≡ width fs + V.size unit
    → (c : V.Bits) × ((write_fields V fs (b, 0) >>= write_bits V unit)
        ≡ value (c, width fs + V.size unit))
      × Framed V fs unit c
write_fields-Framed V fs unit b fits room =
    let (c, e, w) = write_fields_lem V fs b 0 fits (omega (arith, room)) in
    let (f, e', sz, inside, outside) =
      V.copy-in_range unit c (width fs) (omega (arith, room, w.same_size)) in
    (
      f,
      ap (λ m. m >>= write_bits V unit) (e ∙ ap (λ (k : ℕ). value (c, k)) (zero_add (width fs)))
          ∙ write_bits_lem V unit c f (width fs) e',
      record {
        holds = HasFields-same V c f 0 fs (λ j m p q. outside j m (inl (omega arith))) w.fields;
        unit_at = inside;
        long_enough = sz ∙ w.same_size ∙ room;
      },
    )

-- The unit is read again as a segment.
pub read_unit :
    (V : BitVectors) (fs : Fields) (unit c : V.Bits) (i n : ℕ)
    → IsUnit V unit n
    → Framed V fs unit c
    → width fs ≡ i
    → (t : V.Bits) × (V.segment c i (n * 8) ≡ value t) × SameBits V t unit
read_unit V fs unit c i n k w e =
    let (t, e', sz, same) =
      V.segment-in_range c i (n * 8) (omega (arith, k.whole, w.long_enough, e)) in
    (
      t,
      e',
      record {
        size_eq = omega (arith, k.whole, sz);
        peek_eq = λ j m q.
            same j m (omega (arith, k.whole))
            ∙ ap (λ (l : ℕ). V.peek_field c (l + j) m) (sym e)
            ∙ w.unit_at j m q;
      },
    )

-- A frame with the same bits is framed alike.
pub Framed-SameBits :
    (V : BitVectors) (fs : Fields) (unit c d : V.Bits)
    → Framed V fs unit c
    → SameBits V d c
    → Framed V fs unit d
Framed-SameBits V fs unit c d w k = record {
  holds =
      HasFields-same V c d 0 fs (λ j m p q. k.peek_eq j m (omega (arith, w.long_enough))) w.holds;
  unit_at = λ j m q. k.peek_eq (width fs + j) m (omega (arith, w.long_enough)) ∙ w.unit_at j m q;
  long_enough = k.size_eq ∙ w.long_enough;
}
