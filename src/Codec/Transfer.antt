-- ===== src/Codec/Transfer.antt =====
-- The transfer layer of SMS/SMSMessages.cpp and SMS/SMSMessages.h: TLAddress, TLUserData, TLMessage with
-- TLSubmit and TLDeliver, and parseTPDU.
pub mod Address
pub mod UserData
pub mod Submit
pub mod DeliverParts
pub mod Deliver
use smqueue.Prelude.{
  ◌<◌, ◌≡◌, arith, ℕ, zero, suc, ◌+◌, ◌-◌, ◌*◌, ◌/◌, ◌%◌, Bool, true, false, Option, none, some,
  Str, length, leb, ◌==◌, if◌then◌else◌,
}
use smqueue.Codec.{
  Parse, value, sms_read_error, asserted, ◌>>=◌, BitVectors, Cursor, write_field, read_field,
}
use smqueue.Codec.Digits.{octets, write_digits, parse_digits}
use smqueue.Codec.Elements.{BcdNumber, international_number}
use smqueue.Codec.Validity.{Calendar, write_time, parse_validity, validity_length}

abbrev pub bit : Bool → ℕ
bit true = 1
bit false = 0

abbrev pub is_set : ℕ → Bool
is_set zero = false
is_set (suc n) = true

-- A coding scheme of an octet passes the asserts.
pub leb-lt : {n : ℕ} → n < 256 → leb 256 n ≡ false
leb-lt h = ground arith

-- TLAddress::length.
unfoldable pub address_length : BcdNumber → ℕ
unfolding octets
address_length n = 2 + octets n.digits

module _ (V : BitVectors) where
  -- TLAddress::write; the number of digits counts a plus in front.
  unfoldable pub write_address : BcdNumber → Cursor V → Parse (Cursor V)
  unfolding write_field write_digits
  write_address n c = do
    c ← write_field V (length n.digits) 8 c
    c ← write_field V 1 1 c
    c ← write_field V n.number_type 3 c
    c ← write_field V n.plan 4 c
    write_digits V n.digits c

  -- TLAddress::parse.
  unfoldable pub parse_address : V.Bits → ℕ → Parse (BcdNumber × ℕ)
  unfolding read_field parse_digits
  parse_address src i = do
    num ← read_field V src 8 i
    ext ← read_field V src 1 num.1
    if ext.0 == 1
        then (do
          t ← read_field V src 3 ext.1
          p ← read_field V src 4 t.1
          d ← parse_digits V src (num.0 / 2 + num.0 % 2) (t.0 == international_number) p.1
          value (record { number_type = t.0; plan = p.0; digits = d.0 }, d.1))
        else sms_read_error

  -- TLUserData: the length is in characters, and the bits are those of the text.
  pub record CodedText : Type 0 where
    pub dcs : ℕ
    pub udhi : Bool
    pub text_length : ℕ
    pub raw : V.Bits

  -- TLUserData::length, where the coding scheme is set; it asserts that it is.
  unfoldable pub coded_length : CodedText → ℕ
  coded_length u = 1 + (V.size u.raw + 7) / 8

  -- TLUserData::write: the rest of the frame takes the bits, and is turned round octet by octet.
  unfoldable pub write_coded : CodedText → Cursor V → Parse (Cursor V)
  unfolding write_field
  write_coded u c = do
    c ← write_field V u.text_length 8 c
    tail ← V.segment c.0 c.1 (V.size c.0 - c.1)
    tail ← V.copy_to_segment u.raw tail 0
    dest ← V.copy_to_segment (V.lsb8msb tail) c.0 c.1
    value (dest, c.1)

  -- TLUserData::parse with the coding scheme and the header indicator that were set.
  unfoldable pub parse_coded : ℕ → Bool → V.Bits → ℕ → Parse (CodedText × ℕ)
  unfolding read_field
  parse_coded dcs udhi src i = if leb 256 dcs then asserted else (do
    len ← read_field V src 8 i
    raw ← V.segment src len.1 (V.size src - len.1)
    value (record { dcs = dcs; udhi = udhi; text_length = len.0; raw = V.lsb8msb raw }, len.1))

  -- TLSubmit.
  pub record SubmitUnit : Type 0 where
    pub rd : Bool
    pub vpf : ℕ
    pub rp : Bool
    pub srr : Bool
    pub mr : ℕ
    pub da : BcdNumber
    pub pi : ℕ
    pub submit_dcs : ℕ
    pub expiration : ℕ
    pub ud : CodedText

  -- TLMessage::parse and TLSubmit::parseBody at a time.
  unfoldable pub parse_submit : Calendar → ℕ → V.Bits → Parse SubmitUnit
  unfolding read_field parse_address parse_validity parse_coded
  parse_submit cal now src = do
    rd ← V.peek_field src 5 1
    vpf ← V.peek_field src 3 2
    rp ← V.peek_field src 0 1
    udhi ← V.peek_field src 1 1
    srr ← V.peek_field src 2 1
    mr ← read_field V src 8 8
    da ← parse_address src mr.1
    pi ← read_field V src 8 da.1
    dcs ← read_field V src 8 pi.1
    vp ← parse_validity V cal now vpf src dcs.1
    ud ← parse_coded dcs.0 (is_set udhi) src vp.1
    value (record {
      rd = is_set rd;
      vpf = vpf;
      rp = is_set rp;
      srr = is_set srr;
      mr = mr.0;
      da = da.0;
      pi = pi.0;
      submit_dcs = dcs.0;
      expiration = vp.0;
      ud = ud.0;
    })

  -- parseTPDU: only SUBMIT is parsed; the other types give a null pointer.
  unfoldable pub parse_tpdu : Calendar → ℕ → V.Bits → Parse (Option SubmitUnit)
  unfolding parse_submit
  parse_tpdu cal now src = do
    mti ← V.peek_field src 6 2
    if mti == 1 then (do s ← parse_submit cal now src; value (some s)) else value none

  -- TLDeliver.
  pub record DeliverUnit : Type 0 where
    pub mms : Bool
    pub sri : Bool
    pub reply_path : Bool
    pub oa : BcdNumber
    pub pid : ℕ
    pub scts : ℕ
    pub deliver_ud : CodedText

  -- TLDeliver::l2BodyLength.
  unfoldable pub deliver_body_length : DeliverUnit → ℕ
  unfolding address_length coded_length
  deliver_body_length d = address_length d.oa + 1 + 1 + 7 + coded_length d.deliver_ud

  -- TLMessage::write and TLDeliver::writeBody, behind the assert of the length: the header bits, then the body, then the unused bits.
  unfoldable pub write_deliver : Calendar → DeliverUnit → V.Bits → Parse (Cursor V)
  unfolding write_field write_address write_time write_coded deliver_body_length
  write_deliver cal d dest = if leb 256 d.deliver_ud.dcs then asserted else (do
    f ← V.fill_field (V.resize dest ((1 + deliver_body_length d) * 8)) 6 0 2
    f ← V.fill_field f 5 (bit d.mms) 1
    f ← V.fill_field f 0 (bit d.reply_path) 1
    f ← V.fill_field f 1 (bit d.deliver_ud.udhi) 1
    f ← V.fill_field f 2 (bit d.sri) 1
    c ← write_address d.oa (f, 8)
    c ← write_field V d.pid 8 c
    c ← write_field V d.deliver_ud.dcs 8 c
    c ← write_time V cal true d.scts c
    f ← V.fill_field c.0 3 0 2
    write_coded d.deliver_ud (f, c.1))
