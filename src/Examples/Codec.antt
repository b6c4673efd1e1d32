-- ===== src/Examples/Codec.antt =====
-- The theorems on the SMS codec, at arrays of bits.
use smqueue.Prelude.{◌+◌, ◌*◌, ◌/◌, ◌%◌, ◌≡◌, refl, inl, inr, false, some, codes, arith, Str}
use smqueue.Codec.{value, asserted, overrun}
use smqueue.Codec.Payload.{SameBits, IsUnit}
use smqueue.Codec.Digits.{encode, parse_digits}
use smqueue.Codec.Digits.Overrun.{parse_digits-overrun}
use smqueue.Codec.Elements.{no_number, number_length}
use smqueue.Codec.Elements.RoundTrip.{number}
use smqueue.Codec.Relay.{rp_data, rp_bits_needed, write_rp, parse_rp}
use smqueue.Codec.Relay.RoundTrip.{IsAddress}
use smqueue.Codec.Connection.{cp_data, cp_ack, cp_error, cp_bits_needed, write_cp, parse_sms}
use smqueue.Codec.Connection.RoundTrip.{
  parse_sms-write_cp, parse_sms-write_ack, parse_sms-write_error,
}
use smqueue.Examples.Ranges.{BitArray}
use smqueue.Examples.Bits.{peek, arrays, zeros}

abbrev many_zeros : Str
many_zeros = codes "0000000000000000000000"

parse_digits-overrun_example : parse_digits arrays (zeros 88) (22 / 2 + 22 % 2) false 0 ≡ overrun
unfolding peek encode
parse_digits-overrun_example =
    parse_digits-overrun arrays (zeros 88) many_zeros 0 (ground arith) (omega arith) (ground arith)

four_one_one : IsAddress (number 2 1 (codes "411"))
four_one_one = inr (
  2,
  1,
  codes "411",
  refl,
  record {
    type_fits = omega arith;
    plan_fits = omega arith;
    bcd = (refl, (refl, (refl, tt)));
    digits_fit = omega arith;
  },
  omega arith,
)

one_octet : IsUnit arrays (zeros 8) 1
one_octet = record { whole = refl; nonempty = omega arith; short = omega arith }

parse_sms-write_cp_example :
    (rpdu : BitArray) × (frame : BitArray) × (u : BitArray) × (t : BitArray) × (write_rp arrays
        (record { reference = 7; body = rp_data (number 2 1 (codes "411")) no_number (zeros 8) })
        (zeros 0)
      ≡ value (rpdu, 8 * 9))
    × (write_cp arrays (record { ti = 5; body = cp_data rpdu }) (zeros 0)
        ≡ value (frame, cp_bits_needed arrays (cp_data rpdu)))
    × (parse_sms arrays frame ≡ value (some (record { ti = 5; body = cp_data u })))
    × (parse_rp arrays (record { reference = 0; body = rp_data no_number no_number (zeros 0) }) u
        ≡ value (record { reference = 7; body = rp_data (number 2 1 (codes "411")) no_number t }))
    × SameBits arrays t (zeros 8)
unfolding rp_bits_needed number_length
parse_sms-write_cp_example =
    parse_sms-write_cp arrays 5 7 1 9 (number 2 1 (codes "411")) no_number (zeros 8) (zeros 0)
      (zeros 0) (zeros 0) (omega arith) (omega arith) four_one_one (inl refl) one_octet refl
      (omega arith)

parse_sms-write_ack_example :
    (c : BitArray) × (write_cp arrays (record { ti = 5; body = cp_ack }) (zeros 0)
      ≡ value (c, cp_bits_needed arrays cp_ack))
    × (parse_sms arrays c ≡ value (some (record { ti = 5; body = cp_ack })))
parse_sms-write_ack_example = parse_sms-write_ack arrays 5 (zeros 0) (omega arith)

parse_sms-write_error_example :
    (c : BitArray) × (write_cp arrays (record { ti = 5; body = cp_error 97 }) (zeros 0)
      ≡ value (c, cp_bits_needed arrays (cp_error 97)))
    × (parse_sms arrays c ≡ asserted)
parse_sms-write_error_example =
    parse_sms-write_error arrays 5 97 (zeros 0) (omega arith) (omega arith)
