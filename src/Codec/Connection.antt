-- ===== src/Codec/Connection.antt =====
-- The connection layer of SMS/SMSMessages.cpp and SMS/SMSMessages.h: CPMessage and its classes CPData,
-- CPAck and CPError, with CPFactory and parseSMS.
pub mod RoundTrip
use smqueue.Prelude.{ℕ, ◌+◌, ◌*◌, ◌/◌, Option, none, some, ltb, ◌==◌, if◌then◌else◌}
use smqueue.Codec.{
  Parse, value, l3_read_error, asserted, ◌>>=◌, BitVectors, Cursor, write_field, read_field,
  write_bits,
}
use smqueue.Codec.Elements.{Element, parse_lv, write_lv}

-- L3SMSPD.
abbrev pub sms_pd : ℕ
sms_pd = 9

module _ (V : BitVectors) where
  -- CPUserData::parseV, for the unit of the relay layer.
  unfoldable pub parse_rpdu : V.Bits → V.Bits → ℕ → ℕ → Parse (V.Bits × ℕ)
  parse_rpdu src old expected i =
      if ltb (V.size src) (i + expected * 8)
      then l3_read_error
      else (do rpdu ← V.segment src i (expected * 8); value (rpdu, i + expected * 8))

  abbrev pub rpdu_element : Element V V.Bits
  rpdu_element = record {
    length_v = λ rpdu. V.size rpdu / 8;
    write_v = write_bits V;
    parse_v = parse_rpdu;
    parse_fixed = λ src rpdu i. asserted;
  }

  -- The classes: the unit of CPData, and the cause of CPError.
  pub data CpBody : Type 0 where
    cp_data : V.Bits → CpBody
    cp_ack : CpBody
    cp_error : ℕ → CpBody

  -- The transaction identifier, and the class.
  pub record CpMessage : Type 0 where
    pub ti : ℕ
    pub body : CpBody

  unfoldable pub cp_mti : CpBody → ℕ
  cp_mti (cp_data rpdu) = 0x01
  cp_mti cp_ack = 0x04
  cp_mti (cp_error cause) = 0x10

  -- l2BodyLength; CPError has its cause without a length.
  unfoldable pub cp_body_length : CpBody → ℕ
  cp_body_length (cp_data rpdu) = V.size rpdu / 8 + 1
  cp_body_length cp_ack = 0
  cp_body_length (cp_error cause) = 1

  -- L3Message::bitsNeeded.
  unfoldable pub cp_bits_needed : CpBody → ℕ
  unfolding cp_body_length
  cp_bits_needed b = 8 * (cp_body_length b + 2)

  unfoldable pub write_cp_body : CpBody → Cursor V → Parse (Cursor V)
  write_cp_body (cp_data rpdu) c = write_lv V rpdu_element rpdu c
  write_cp_body cp_ack c = value c
  write_cp_body (cp_error cause) c = write_field V cause 8 c

  -- CPMessage::write.
  unfoldable pub write_cp : CpMessage → V.Bits → Parse (Cursor V)
  unfolding write_field write_cp_body cp_bits_needed cp_mti
  write_cp m dest = do
    c ← write_field V m.ti 4 (V.resize dest (cp_bits_needed m.body), 0)
    c ← write_field V sms_pd 4 c
    c ← write_field V (cp_mti m.body) 8 c
    write_cp_body m.body c

  -- CPFactory: a message of the class of a type, as its constructor makes it.
  unfoldable pub cp_factory : ℕ → Option CpMessage
  cp_factory mti =
      if mti == 0x01
      then some (record { ti = 7; body = cp_data V.empty })
      else if mti == 0x04
      then some (record { ti = 7; body = cp_ack })
      else if mti == 0x10
      then some (record { ti = 7; body = cp_error 0x7f })
      else none

  -- parseBody of the class; CPError has none that does not assert.
  unfoldable pub parse_cp_body : V.Bits → CpBody → ℕ → Parse (CpBody × ℕ)
  parse_cp_body src (cp_data rpdu) i = do
    r ← parse_lv V rpdu_element src rpdu i
    value (cp_data r.0, r.1)
  parse_cp_body src cp_ack i = value (cp_ack, i)
  parse_cp_body src (cp_error cause) i = asserted

  -- What parseSMS does with what CPFactory made: the identifier, and L3Message::parse.
  unfoldable pub parse_made : V.Bits → Option CpMessage → Parse (Option CpMessage)
  unfolding parse_cp_body
  parse_made frame none = value none
  parse_made frame (some m) = do
    ti ← V.peek_field frame 0 4
    b ← parse_cp_body frame m.body 16
    value (some (record { ti = ti; body = b.0 }))

  -- parseSMS.
  unfoldable pub parse_sms : V.Bits → Parse (Option CpMessage)
  unfolding parse_made cp_factory
  parse_sms frame = do mti ← V.peek_field frame 8 8; parse_made frame (cp_factory mti)
