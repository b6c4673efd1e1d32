-- ===== src/Codec/Digits.antt =====
-- L3BCDDigits of GSM/GSML3CCElements.cpp: a number as digits of four bits, the second of a pair first.
pub mod RoundTrip
pub mod Overrun
use smqueue.Prelude.{
  ℕ, zero, suc, ◌+◌, ◌-◌, ◌/◌, ◌%◌, Bool, true, false, ◌&&◌, List, [], ◌∷◌, ◌++◌, Str, length, ltb,
  leb, ◌==◌, if◌then◌else◌,
}
use smqueue.Codec.{
  Parse, value, l3_read_error, overrun, ◌>>=◌, BitVectors, Cursor, write_field, read_field,
}

-- The char array mDigits holds maxDigits characters and the end.
abbrev pub max_digits : ℕ
max_digits = 20

-- The constructor copies at most maxDigits characters.
unfoldable pub bcd_digits : Str → Str
bcd_digits = up_to max_digits
  where
    up_to : ℕ → Str → Str
    up_to zero s = []
    up_to (suc n) [] = []
    up_to (suc n) (c ∷ s) = if c == 0 then [] else c ∷ up_to n s

-- encode; anything but a digit, a star or a hash becomes 0.
unfoldable pub encode : ℕ → ℕ
encode c =
    if c == b'*'
    then 10
    else if c == b'#'
    then 11
    else if leb b'0' c && leb c b'9'
    then c - b'0'
    else 0

unfoldable pub decode : ℕ → ℕ
decode d = if d == 10 then b'*' else if d == 11 then b'#' else d + b'0'

-- A plus in front is not written.
unfoldable pub without_plus : Str → Str
without_plus [] = []
without_plus (c ∷ s) = if c == b'+' then s else c ∷ s

-- lengthV: the octets of the digits.
unfoldable pub octets : Str → ℕ
unfolding without_plus
octets s = let sz = length (without_plus s) in sz / 2 + sz % 2

module _ (V : BitVectors) where
  unfoldable pub write_pairs : Str → Cursor V → Parse (Cursor V)
  unfolding write_field encode
  write_pairs [] c = value c
  write_pairs (x ∷ []) c = write_field V 15 4 c >>= write_field V (encode x) 4
  write_pairs (x ∷ y ∷ s) c =
      write_field V (encode y) 4 c >>= write_field V (encode x) 4 >>= write_pairs s

  -- L3BCDDigits::write.
  unfoldable pub write_digits : Str → Cursor V → Parse (Cursor V)
  unfolding write_pairs without_plus
  write_digits s = write_pairs (without_plus s)

-- mDigits[i++] = c.
unfoldable pub put_digit : Str → ℕ → Parse Str
put_digit digits c = if leb (length digits) max_digits then value (digits ++ c ∷ []) else overrun

module _ (V : BitVectors) (src : V.Bits) where
  -- The loop of L3BCDDigits::parse over the octets that are left, behind the digits read so far.
  unfoldable pub parse_octets : ℕ → Str → ℕ → Parse (Str × ℕ)
  unfolding read_field decode put_digit
  parse_octets zero digits i = value (digits, i)
  parse_octets (suc n) digits i = do
    d2 ← read_field V src 4 i
    d1 ← read_field V src 4 d2.1
    digits ← put_digit digits (decode d1.0)
    digits ← (if d2.0 == 15 then value digits else put_digit digits (decode d2.0))
    if ltb max_digits (length digits) then l3_read_error else parse_octets n digits d1.1

  -- L3BCDDigits::parse: the digits, and the index behind them.
  unfoldable pub parse_digits : ℕ → Bool → ℕ → Parse (Str × ℕ)
  unfolding parse_octets
  parse_digits n international i = parse_octets n (if international then b'+' ∷ [] else []) i
