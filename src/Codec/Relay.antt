-- ===== src/Codec/Relay.antt =====
-- The relay layer of SMS/SMSMessages.cpp and SMS/SMSMessages.h: RPMessage, RPData, RPAck and RPError.
pub mod RoundTrip
use smqueue.Prelude.{
  Option, none, some, Str, length, ℕ, ◌+◌, ◌*◌, ◌/◌, ◌%◌, Bool, true, false, ltb, ◌==◌,
  if◌then◌else◌,
}
use smqueue.Codec.{
  Parse, value, sms_read_error, l3_read_error, asserted, overrun, ◌>>=◌, BitVectors, Cursor,
  write_field, read_field, write_bits,
}
use smqueue.Codec.Elements.{
  BcdNumber, no_number, number_length, number_element, Element, parse_lv, write_lv,
}

module _ (V : BitVectors) where
  -- RPUserData::lengthV.
  unfoldable pub user_length : V.Bits → ℕ
  user_length tpdu = if V.size tpdu % 8 == 0 then V.size tpdu / 8 else V.size tpdu / 8 + 1

  -- RPUserData::parseV.
  unfoldable pub parse_user : V.Bits → V.Bits → ℕ → ℕ → Parse (V.Bits × ℕ)
  parse_user src old expected i =
      if ltb (V.size src) (i + expected * 8)
      then sms_read_error
      else (do tpdu ← V.segment src i (expected * 8); value (tpdu, i + expected * 8))

  abbrev pub user_element : Element V V.Bits
  user_element = record {
    length_v = user_length;
    write_v = write_bits V;
    parse_v = parse_user;
    parse_fixed = λ src tpdu i. asserted;
  }

  -- RPCause.
  unfoldable pub parse_cause : V.Bits → ℕ → ℕ → ℕ → Parse (ℕ × ℕ)
  parse_cause src old expected i = do v ← V.peek_field src i 8; value (v, i + 8 * expected)

  abbrev pub cause_element : Element V ℕ
  cause_element = record {
    length_v = λ cause. 1;
    write_v = λ cause. write_field V cause 8;
    parse_v = parse_cause;
    parse_fixed = λ src cause. read_field V src 8;
  }

  -- The classes of RPMessage with a parser: the originator, the destination and the transfer unit of
  -- RPData; and the cause of RPError.
  pub data RpBody : Type 0 where
    rp_data : BcdNumber → BcdNumber → V.Bits → RpBody
    rp_ack : RpBody
    rp_error : ℕ → RpBody

  pub record RpMessage : Type 0 where
    pub reference : ℕ
    pub body : RpBody

  -- MTI of the class.
  unfoldable pub rp_mti : RpBody → ℕ
  rp_mti (rp_data o d t) = 0
  rp_mti rp_ack = 2
  rp_mti (rp_error c) = 4

  -- l2BodyLength of the class; lengthLV is one more than lengthV.
  unfoldable pub rp_body_length : RpBody → ℕ
  unfolding user_length
  rp_body_length (rp_data o d t) = number_length o + 1 + (number_length d + 1) + (user_length t + 1)
  rp_body_length rp_ack = 0
  rp_body_length (rp_error c) = cause_element.length_v c + 1

  -- bitsNeeded.
  unfoldable pub rp_bits_needed : RpBody → ℕ
  unfolding rp_body_length
  rp_bits_needed b = (rp_body_length b + 2) * 8

  -- writeBody of the class.
  unfoldable pub write_rp_body : RpBody → Cursor V → Parse (Cursor V)
  write_rp_body (rp_data o d t) c = do
    c ← write_lv V (number_element V) o c
    c ← write_lv V (number_element V) d c
    write_lv V user_element t c
  write_rp_body rp_ack c = value c
  write_rp_body (rp_error cause) c = write_lv V cause_element cause c

  -- RPMessage::write; from the network side one is added to the type.
  unfoldable pub write_rp : RpMessage → V.Bits → Parse (Cursor V)
  unfolding write_field write_rp_body rp_bits_needed rp_mti
  write_rp m dest = do
    c ← write_field V 0 5 (V.resize dest (rp_bits_needed m.body), 0)
    c ← write_field V (rp_mti m.body + 1) 3 c
    c ← write_field V m.reference 8 c
    write_rp_body m.body c

  -- parseBody of the class, for an object of it.
  unfoldable pub parse_rp_body : V.Bits → RpBody → ℕ → Parse (RpBody × ℕ)
  parse_rp_body src (rp_data o d t) i = do
    o ← parse_lv V (number_element V) src o i
    d ← parse_lv V (number_element V) src d o.1
    t ← parse_lv V user_element src t d.1
    value (rp_data o.0 d.0 t.0, t.1)
  parse_rp_body src rp_ack i = value (rp_ack, i)
  parse_rp_body src (rp_error cause) i = do
    cause ← parse_lv V cause_element src cause i
    value (rp_error cause.0, cause.1)

  -- RPMessage::parse.
  unfoldable pub parse_rp : RpMessage → V.Bits → Parse RpMessage
  unfolding read_field parse_rp_body
  parse_rp m src = do
    r ← read_field V src 8 8
    b ← parse_rp_body src m.body r.1
    value (record { reference = r.0; body = b.0 })

-- try, with a handler for SMSReadError and one for L3ReadError that give a null pointer.
unfoldable pub or_null : {T : Type 0} → Parse T → Parse (Option T)
or_null (value t) = value (some t)
or_null sms_read_error = value none
or_null l3_read_error = value none
or_null asserted = asserted
or_null overrun = overrun

module _ (V : BitVectors) where
  -- decodeRPData, with decodeToString and BitVector::unpack as one function of the text and its encoding.
  unfoldable pub decode_rp_data : (Str → Str → V.Bits) → Str → Str → Parse (Option (RpMessage V))
  unfolding parse_rp or_null
  decode_rp_data unpack datastring encoding =
      if length datastring == 0
      then value none
      else or_null (
          parse_rp V (record { reference = 0; body = rp_data no_number no_number V.empty })
            (unpack datastring encoding))
