-- ===== src/Codec/Elements.antt =====
-- The elements of layer 3 in GSM/GSML3Message.cpp and GSM/GSML3CCElements.cpp, of which the SMS messages
-- are made: L3ProtocolElement, and L3CalledPartyBCDNumber, which is also the RPAddress of SMS/.
pub mod RoundTrip
use smqueue.Prelude.{
  ℕ, ◌+◌, ◌-◌, ◌*◌, ◌≡◌, Bool, true, false, [], ◌∷◌, Str, ◌==◌, ltb, if◌then◌else◌,
}
use smqueue.Codec.{
  Parse, value, l3_read_error, asserted, ◌>>=◌, BitVectors, Cursor, write_field, read_field,
}
use smqueue.Codec.Digits.{bcd_digits, octets, write_digits, parse_digits}

-- TypeOfNumber and NumberingPlan are read from the frame by a cast.
abbrev pub international_number : ℕ
international_number = 1

abbrev pub national_number : ℕ
national_number = 2

abbrev pub e164_plan : ℕ
e164_plan = 1

-- L3CalledPartyBCDNumber; TLAddress of SMS/ has the same members.
pub record BcdNumber : Type 0 where
  pub number_type : ℕ
  pub plan : ℕ
  pub digits : Str

-- The constructor without arguments.
abbrev pub no_number : BcdNumber
no_number = record { number_type = 0; plan = 0; digits = [] }

-- The constructor from a text.
unfoldable pub bcd_number : Str → BcdNumber
unfolding bcd_digits
bcd_number text = record { number_type = type_of text; plan = e164_plan; digits = bcd_digits text }
  where
    type_of : Str → ℕ
    type_of [] = national_number
    type_of (c ∷ s) = if c == b'+' then international_number else national_number

-- L3CalledPartyBCDNumber::lengthV.
unfoldable pub number_length : BcdNumber → ℕ
unfolding octets
number_length n = if octets n.digits == 0 then 0 else octets n.digits + 1

module _ (V : BitVectors) where
  -- L3CalledPartyBCDNumber::writeV.
  unfoldable pub write_number : BcdNumber → Cursor V → Parse (Cursor V)
  unfolding write_field write_digits
  write_number n c = do
    c ← write_field V 1 1 c
    c ← write_field V n.number_type 3 c
    c ← write_field V n.plan 4 c
    write_digits V n.digits c

  -- L3CalledPartyBCDNumber::parseV. parseLV calls it with a length that is not 0.
  unfoldable pub parse_number : V.Bits → BcdNumber → ℕ → ℕ → Parse (BcdNumber × ℕ)
  unfolding read_field parse_digits
  parse_number src n expected i = do
    ext ← read_field V src 1 i
    if ext.0 == 1
        then (do
          t ← read_field V src 3 ext.1
          p ← read_field V src 4 t.1
          d ← parse_digits V src (expected - 1) (t.0 == international_number) p.1
          value (record { number_type = t.0; plan = p.0; digits = d.0 }, d.1))
        else l3_read_error

-- The virtual functions of an L3ProtocolElement. Where a class has only one of the two parseV, the other
-- one asserts.
pub record Element (V : BitVectors) (T : Type 0) : Type 0 where
  pub length_v : T → ℕ
  pub write_v : T → Cursor V → Parse (Cursor V)
  pub parse_v : V.Bits → T → ℕ → ℕ → Parse (T × ℕ)
  pub parse_fixed : V.Bits → T → ℕ → Parse (T × ℕ)

module _ (V : BitVectors) where
  abbrev pub number_element : Element V BcdNumber
  number_element = record {
    length_v = number_length;
    write_v = write_number V;
    parse_v = parse_number V;
    parse_fixed = λ src n i. asserted;
  }

module _ (V : BitVectors) {T : Type 0} (E : Element V T) where
  -- parseLV: an element of no octets is left as it is.
  unfoldable pub parse_lv : V.Bits → T → ℕ → Parse (T × ℕ)
  unfolding read_field
  parse_lv src t i = do
    len ← read_field V src 8 i
    if len.0 == 0 then value (t, len.1) else (do
      r ← E.parse_v src t len.0 len.1
      if r.1 == len.1 + 8 * len.0 then value r else l3_read_error)

  -- parseTV: whether the element was there, too.
  unfoldable pub parse_tv : ℕ → V.Bits → T → ℕ → Parse (T × ℕ × Bool)
  unfolding read_field
  parse_tv iei src t i =
      let n : ℕ = if E.length_v t == 0 then 4 else 8 in
      if i == V.size src then value (t, i, false) else (do
        this ← V.peek_field src i n
        if this == iei
            then (do r ← E.parse_fixed src t (i + n); value (r.0, r.1, true))
            else value (t, i, false))

  -- parseTLV.
  unfoldable pub parse_tlv : ℕ → V.Bits → T → ℕ → Parse (T × ℕ × Bool)
  unfolding parse_lv
  parse_tlv iei src t i = if i == V.size src then value (t, i, false) else (do
    this ← V.peek_field src i 8
    if this == iei
        then (do r ← parse_lv src t (i + 8); value (r.0, r.1, true))
        else value (t, i, false))

  -- writeLV.
  unfoldable pub write_lv : T → Cursor V → Parse (Cursor V)
  unfolding write_field
  write_lv t c = do
    c ← write_field V (E.length_v t) 8 c
    if E.length_v t == 0 then value c else E.write_v t c

  -- writeTLV.
  unfoldable pub write_tlv : ℕ → T → Cursor V → Parse (Cursor V)
  unfolding write_field write_lv
  write_tlv iei t c = write_field V iei 8 c >>= write_lv t

  -- writeTV.
  unfoldable pub write_tv : ℕ → T → Cursor V → Parse (Cursor V)
  unfolding write_field
  write_tv iei t c = write_field V iei (if E.length_v t == 0 then 4 else 8) c >>= E.write_v t

module _ (V : BitVectors) (src : V.Bits) where
  -- skipLV: the bits that are skipped, and the index behind them.
  unfoldable pub skip_lv : ℕ → Parse (ℕ × ℕ)
  unfolding read_field
  skip_lv i =
      if i == V.size src
      then value (0, i)
      else (do len ← read_field V src 8 i; value (len.1 + 8 * len.0 - i, len.1 + 8 * len.0))

  -- skipTLV.
  unfoldable pub skip_tlv : ℕ → ℕ → Parse (ℕ × ℕ)
  unfolding read_field
  skip_tlv iei i = if i == V.size src then value (0, i) else (do
    this ← V.peek_field src i 8
    if this == iei
        then (do len ← read_field V src 8 (i + 8); value (len.1 + 8 * len.0 - i, len.1 + 8 * len.0))
        else value (0, i))

  -- skipTV.
  unfoldable pub skip_tv : ℕ → ℕ → ℕ → Parse (ℕ × ℕ)
  skip_tv iei bits i =
      let n : ℕ = if ltb 4 bits then 8 else 4 in
      if i == V.size src then value (0, i) else (do
        this ← V.peek_field src i n
        if this == iei then value (n + bits, i + n + bits) else value (0, i))
