-- ===== src/Codec/Text.antt =====
-- The 7-bit text of GSM/GSMCommon.h, GSM/GSMCommon.cpp and TLUserData in SMS/SMSMessages.cpp.
pub mod RoundTrip
use smqueue.Prelude.{
  ℕ, zero, suc, ◌+◌, ◌-◌, ◌*◌, ◌/◌, ◌%◌, ◌^◌, Bool, true, false, ◌||◌, ◌&&◌, List, [], ◌∷◌, Str,
  length, get_or, ltb, leb, ◌==◌, if◌then◌else◌,
}
use smqueue.Codec.{
  Parse, value, sms_read_error, ◌>>=◌, BitVectors, Cursor, write_field, write_reversed,
  read_reversed,
}
use smqueue.Codec.Transfer.{CodedText}

-- gGSMAlphabet with the NUL at its end.
abbrev pub gsm_alphabet : Str
gsm_alphabet =
    64 ∷ 163 ∷ 36 ∷ 165 ∷ 232 ∷ 233 ∷ 249 ∷ 236 ∷ 242 ∷ 231 ∷ 10 ∷ 216 ∷ 248 ∷ 13 ∷ 197 ∷ 229 ∷ 68
    ∷ 95 ∷ 70 ∷ 71 ∷ 76 ∷ 79 ∷ 80 ∷ 67 ∷ 83 ∷ 84 ∷ 90 ∷ 32 ∷ 198 ∷ 230 ∷ 223 ∷ 201 ∷ 32 ∷ 33 ∷ 34
    ∷ 35 ∷ 164 ∷ 37 ∷ 38 ∷ 39 ∷ 40 ∷ 41 ∷ 42 ∷ 43 ∷ 44 ∷ 45 ∷ 46 ∷ 47 ∷ 48 ∷ 49 ∷ 50 ∷ 51 ∷ 52 ∷ 53
    ∷ 54 ∷ 55 ∷ 56 ∷ 57 ∷ 58 ∷ 59 ∷ 60 ∷ 61 ∷ 62 ∷ 63 ∷ 161 ∷ 65 ∷ 66 ∷ 67 ∷ 68 ∷ 69 ∷ 70 ∷ 71 ∷ 72
    ∷ 73 ∷ 74 ∷ 75 ∷ 76 ∷ 77 ∷ 78 ∷ 79 ∷ 80 ∷ 81 ∷ 82 ∷ 83 ∷ 84 ∷ 85 ∷ 86 ∷ 87 ∷ 88 ∷ 89 ∷ 90 ∷ 196
    ∷ 214 ∷ 209 ∷ 220 ∷ 167 ∷ 191 ∷ 97 ∷ 98 ∷ 99 ∷ 100 ∷ 101 ∷ 102 ∷ 103 ∷ 104 ∷ 105 ∷ 106 ∷ 107
    ∷ 108 ∷ 109 ∷ 110 ∷ 111 ∷ 112 ∷ 113 ∷ 114 ∷ 115 ∷ 116 ∷ 117 ∷ 118 ∷ 119 ∷ 120 ∷ 121 ∷ 122 ∷ 228
    ∷ 246 ∷ 241 ∷ 252 ∷ 225 ∷ 0 ∷ []

-- The loop that fills the reverse table, for one entry of it: the last index of a character.
unfoldable pub last_index : ℕ → ℕ → ℕ → Str → ℕ
last_index c i found [] = found
last_index c i found (x ∷ xs) = last_index c (suc i) (if x == c then i else found) xs

-- encodeGSMChar. The initializer of the table sets its first entry only, which the loop overwrites;
-- the others are 0.
unfoldable pub encode_gsm_char : ℕ → ℕ
unfolding last_index
encode_gsm_char ascii = last_index ascii 0 0 gsm_alphabet

-- decodeGSMChar.
unfoldable pub decode_gsm_char : ℕ → ℕ
decode_gsm_char sms = get_or gsm_alphabet sms 0

module _ (V : BitVectors) where
  -- The loop of encode7bit.
  unfoldable pub write_septets : Str → Cursor V → Parse (Cursor V)
  unfolding write_reversed encode_gsm_char
  write_septets [] c = value c
  write_septets (x ∷ s) c = write_reversed V (encode_gsm_char x) 7 c >>= write_septets s

  -- TLUserData::encode7bit.
  unfoldable pub encode7bit : CodedText V → Str → Parse (CodedText V)
  unfolding write_septets write_field
  encode7bit u text =
      let bytes = (length text * 7 + 7) / 8 in
      do
        c ← write_septets text (V.resize u.raw (bytes * 8), 0)
        c ← write_field V 0 (bytes * 8 - length text * 7) c
        value (record u { dcs = 0; text_length = length text; raw = c.0 })

  -- The loop of decode.
  unfoldable pub read_septets : V.Bits → ℕ → ℕ → Parse Str
  unfolding read_reversed decode_gsm_char
  read_septets raw zero i = value []
  read_septets raw (suc n) i = do
    gsm ← read_reversed V raw 7 i
    rest ← read_septets raw n gsm.1
    value (decode_gsm_char gsm.0 ∷ rest)

  -- TLUserData::decode; the length is an unsigned int of 32 bits, and wraps where the header is longer.
  unfoldable pub decode_text : CodedText V → Parse Str
  unfolding read_septets
  decode_text u =
      if u.dcs == 0 || (leb 244 u.dcs && leb u.dcs 247)
      then (if ltb (V.size u.raw) (u.text_length * 7)
          then sms_read_error
          else if u.udhi
          then behind_header
          else read_septets u.raw u.text_length 0)
      else sms_read_error
    where
      septets : ℕ → ℕ
      septets udhl = (udhl * 8 + 8 + 6) / 7

      behind_header : Parse Str
      behind_header = do
        udhl ← V.peek_reversed u.raw 0 8
        read_septets u.raw ((u.text_length + 2 ^ 32 - septets udhl) % 2 ^ 32) (septets udhl * 7)
