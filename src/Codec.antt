-- ===== src/Codec.antt =====
-- What the SMS codec of SMS/ and GSM/ stands on: the bit vectors of CommonLibs, which are not in the
-- repository, and the outcomes of a parser.
pub mod Fields
pub mod Digits
pub mod Elements
pub mod Payload
pub mod Relay
pub mod Connection
pub mod Validity
pub mod Transfer
pub mod Text
use smqueue.Prelude.{ℕ, ◌+◌, ◌%◌, ◌^◌, ◌≤◌, ◌<◌, ◌≡◌, refl, ◌⊎◌}

-- SMSReadError and L3ReadError are thrown; a failed assert ends the program; `overrun` is a write behind
-- the end of an array, which the language leaves undefined.
pub data Parse {ℓ} (T : Type ℓ) : Type ℓ where
  value : T → Parse T
  sms_read_error : Parse T
  l3_read_error : Parse T
  asserted : Parse T
  overrun : Parse T

module _ {ℓ κ} {T : Type ℓ} {U : Type κ} where
  infixl 5 ◌>>=◌
  abbrev pub ◌>>=◌ : Parse T → (T → Parse U) → Parse U
  value t >>= next = next t
  sms_read_error >>= next = sms_read_error
  l3_read_error >>= next = l3_read_error
  asserted >>= next = asserted
  overrun >>= next = overrun

pub >>=_assoc {ℓ κ μ} :
    {T : Type ℓ} {U : Type κ} {W : Type μ} (m : Parse T) (f : T → Parse U) (g : U → Parse W)
    → (m >>= f >>= g) ≡ (m >>= λ t. f t >>= g)
>>=_assoc (value t) f g = refl
>>=_assoc sms_read_error f g = refl
>>=_assoc l3_read_error f g = refl
>>=_assoc asserted f g = refl
>>=_assoc overrun f g = refl

pub >>=-value {ℓ} : {T : Type ℓ} (m : Parse T) → (m >>= value) ≡ m
>>=-value (value t) = refl
>>=-value sms_read_error = refl
>>=-value l3_read_error = refl
>>=-value asserted = refl
>>=-value overrun = refl

-- Two ranges of bits that do not meet.
abbrev pub IsApart : ℕ → ℕ → ℕ → ℕ → Type 0
IsApart i n j m = (j + m ≤ i) ⊎ (i + n ≤ j)

-- BitVector: what the codec calls, and what it relies on. Nothing is said of an access behind the end.
pub record BitVectors : Type 1 where
  pub Bits : Type 0
  pub size : Bits → ℕ
  -- peekField(readIndex, length).
  pub peek_field : Bits → ℕ → ℕ → Parse ℕ
  -- fillField(writeIndex, value, length).
  pub fill_field : Bits → ℕ → ℕ → ℕ → Parse Bits
  -- peekFieldReversed and fillFieldReversed: the lowest bit first.
  pub peek_reversed : Bits → ℕ → ℕ → Parse ℕ
  pub fill_reversed : Bits → ℕ → ℕ → ℕ → Parse Bits
  -- The constructor without arguments.
  pub empty : Bits
  -- A vector of a length.
  pub resize : Bits → ℕ → Bits
  -- segmentCopyTo: a new vector of bits from an index on.
  pub segment : Bits → ℕ → ℕ → Parse Bits
  -- copyToSegment(other, start): the whole vector goes into the other one.
  pub copy_to_segment : Bits → Bits → ℕ → Parse Bits
  -- LSB8MSB: the bits of each octet are turned round.
  pub lsb8msb : Bits → Bits
  pub size-empty : size empty ≡ 0
  pub size-resize : (b : Bits) (n : ℕ) → size (resize b n) ≡ n
  pub fill-in_range :
      (b : Bits) (i v n : ℕ)
      → i + n ≤ size b
      → v < 2 ^ n
      → (c : Bits) × (fill_field b i v n ≡ value c)
        × (size c ≡ size b)
        × (peek_field c i n ≡ value v)
        × ((j m : ℕ) → IsApart i n j m → peek_field c j m ≡ peek_field b j m)
  pub reversed-in_range :
      (b : Bits) (i v n : ℕ)
      → i + n ≤ size b
      → v < 2 ^ n
      → (c : Bits) × (fill_reversed b i v n ≡ value c)
        × (size c ≡ size b)
        × (peek_reversed c i n ≡ value v)
        × ((j m : ℕ) → IsApart i n j m → peek_reversed c j m ≡ peek_reversed b j m)
  pub fill-apart_reversed :
      (b c : Bits) (i v n j m : ℕ)
      → fill_field b i v n ≡ value c
      → IsApart i n j m
      → peek_reversed c j m ≡ peek_reversed b j m
  pub segment-in_range :
      (b : Bits) (i n : ℕ)
      → i + n ≤ size b
      → (c : Bits) × (segment b i n ≡ value c)
        × (size c ≡ n)
        × ((j m : ℕ) → j + m ≤ n → peek_field c j m ≡ peek_field b (i + j) m)
  pub copy-in_range :
      (b d : Bits) (i : ℕ)
      → i + size b ≤ size d
      → (c : Bits) × (copy_to_segment b d i ≡ value c)
        × (size c ≡ size d)
        × ((j m : ℕ) → j + m ≤ size b → peek_field c (i + j) m ≡ peek_field b j m)
        × ((j m : ℕ) → IsApart i (size b) j m → peek_field c j m ≡ peek_field d j m)
  pub size-lsb8msb : (b : Bits) → size (lsb8msb b) ≡ size b
  pub lsb8msb_twice :
      (b : Bits) (j m : ℕ)
      → size b % 8 ≡ 0
      → j + m ≤ size b
      → peek_field (lsb8msb (lsb8msb b)) j m ≡ peek_field b j m
  pub lsb8msb_same :
      (b c : Bits) (j m : ℕ)
      → size b % 8 ≡ 0
      → size b ≡ size c
      → ((j m : ℕ) → j + m ≤ size c → peek_field b j m ≡ peek_field c j m)
      → j + m ≤ size c
      → peek_field (lsb8msb b) j m ≡ peek_field (lsb8msb c) j m

module _ (V : BitVectors) where
  -- A frame and the index at which it is read or written next.
  abbrev pub Cursor : Type 0
  Cursor = V.Bits × ℕ

  -- writeField.
  unfoldable pub write_field : ℕ → ℕ → Cursor → Parse Cursor
  write_field v n (b, i) = do c ← V.fill_field b i v n; value (c, i + n)

  -- writeV of the classes that hold a frame: its bits are copied.
  unfoldable pub write_bits : V.Bits → Cursor → Parse Cursor
  write_bits unit (dest, i) = do c ← V.copy_to_segment unit dest i; value (c, i + V.size unit)

  -- readField: the value, and the index behind it.
  unfoldable pub read_field : V.Bits → ℕ → ℕ → Parse (ℕ × ℕ)
  read_field b n i = do v ← V.peek_field b i n; value (v, i + n)

  -- writeFieldReversed, readFieldReversed.
  unfoldable pub write_reversed : ℕ → ℕ → Cursor → Parse Cursor
  write_reversed v n (b, i) = do c ← V.fill_reversed b i v n; value (c, i + n)

  unfoldable pub read_reversed : V.Bits → ℕ → ℕ → Parse (ℕ × ℕ)
  read_reversed b n i = do v ← V.peek_reversed b i n; value (v, i + n)

  pub read_field_lem :
      (b : V.Bits) (i n v : ℕ) → V.peek_field b i n ≡ value v → read_field b n i ≡ value (v, i + n)
  unfolding read_field
  read_field_lem b i n v h = rw h
