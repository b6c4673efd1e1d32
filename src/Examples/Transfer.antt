-- ===== src/Examples/Transfer.antt =====
-- The theorems on the transfer layer of the SMS codec, at arrays of bits.
use smqueue.Prelude.{ℕ, Str, ◌+◌, ◌-◌, ◌*◌, ◌≡◌, refl, inl, false, ◌∷◌, some, codes, arith, pos}
use smqueue.Codec.{
  value, ◌>>=◌, Cursor, write_field, Parse, sms_read_error, l3_read_error, asserted, overrun,
}
use smqueue.Codec.Fields.{width, write_fields}
use smqueue.Codec.Payload.{SameBits}
use smqueue.Codec.Digits.{encode, octets, write_digits}
use smqueue.Codec.Elements.{international_number}
use smqueue.Codec.Elements.RoundTrip.{number, IsNumber}
use smqueue.Codec.Validity.{
  Tm, Calendar, relative_minutes, relative_code, one_week, validity_length, parse_validity,
  write_validity, write_tm, parse_tm, quarters, stamp_of,
}
use smqueue.Codec.Validity.Relative.{IsNear, relative_code-relative_minutes, write_validity-formats}
use smqueue.Codec.Validity.Stamp.{IsTm, Misread, parse_tm-write_tm}
use smqueue.Codec.Transfer.{
  address_length, write_address, parse_address, CodedText, write_coded, parse_coded, DeliverUnit,
  deliver_body_length, write_deliver, parse_tpdu,
}
use smqueue.Codec.Transfer.Address.{parse_address-write_address, parse_address-even}
use smqueue.Codec.Transfer.UserData.{parse_coded-write_coded}
use smqueue.Codec.Transfer.DeliverParts.{deliver_fields, Delivered}
use smqueue.Codec.Transfer.Submit.{Submitted, submit_fields, submitted, parse_tpdu-submit}
use smqueue.Codec.Transfer.Deliver.{write_deliver-fields}
use smqueue.Codec.Text.{encode7bit, decode_text}
use smqueue.Codec.Text.RoundTrip.{decode_text-encode7bit}
use smqueue.Examples.Ranges.{BitArray}
use smqueue.Examples.Bits.{peek, fill, arrays, zeros}

relative_code-relative_minutes_example : relative_code (relative_minutes 200) ≡ 200
relative_code-relative_minutes_example = relative_code-relative_minutes 200 (omega arith)

-- A time in July 2015.
abbrev july : Tm
july = record {
  tm_year = 115;
  tm_mon = 6;
  tm_mday = 28;
  tm_hour = 14;
  tm_min = 5;
  tm_sec = 59;
  tm_gmtoff = pos 7200;
}

abbrev one_time : Calendar
one_time = record { localtime = λ s. july; gmtime = λ s. july; timegm = λ t. 1438092359 }

write_validity-formats_example :
    (write_validity arrays 1000 0 4600 (zeros 8, 0) ≡ value (zeros 8, 0))
    × (write_validity arrays 1000 2 4600 (zeros 8, 0) ≡ asserted)
    × (c : BitArray) × (read : ℕ) × (write_validity arrays 1000 1 4600 (zeros 8, 0)
        ≡ value (c, 0 + 8))
    × (validity_length 1 ≡ value 1)
    × (parse_validity arrays one_time 1000 2 c 0 ≡ value (read, 0 + 8))
    × IsNear 1000 4600 read
    × (parse_validity arrays one_time 1000 1 c 0 ≡ value (1000 + one_week, 0 + 7))
write_validity-formats_example =
    write_validity-formats arrays one_time (zeros 8) 0 1000 4600 2 (omega arith) (omega arith)
      (omega arith)

july-IsTm : IsTm july
unfolding quarters
july-IsTm = record {
  month = omega arith;
  day = omega arith;
  hour = omega arith;
  minute = omega arith;
  second = omega arith;
  zone = omega arith;
}

frame_of : Parse (Cursor arrays) → BitArray
frame_of (value (c, i)) = c
frame_of sms_read_error = zeros 0
frame_of l3_read_error = zeros 0
frame_of asserted = zeros 0
frame_of overrun = zeros 0

parse_tm-write_tm_example :
    (r : Tm) × (parse_tm arrays (frame_of (write_tm arrays july (zeros 64, 0))) 0
      ≡ value (r, 0 + 57))
    × Misread arrays july r
unfolding frame_of write_tm peek fill
parse_tm-write_tm_example =
    parse_tm-write_tm arrays (zeros 64) (frame_of (write_tm arrays july (zeros 64, 0))) july 0 0
      july-IsTm (omega arith) refl refl

four_one_one : IsNumber 2 1 (codes "411")
four_one_one = record {
  type_fits = omega arith;
  plan_fits = omega arith;
  bcd = (refl, (refl, (refl, tt)));
  digits_fit = omega arith;
}

parse_address-write_address_example :
    (c : BitArray) × (write_address arrays (number 2 1 (codes "411")) (zeros 32, 0)
      ≡ value (c, 0 + 8 * address_length (number 2 1 (codes "411"))))
    × (parse_address arrays c 0
        ≡ value (number 2 1 (codes "411"), 0 + 8 * address_length (number 2 1 (codes "411"))))
unfolding address_length octets
parse_address-write_address_example =
    parse_address-write_address arrays (zeros 32) 0 2 1 (codes "411") four_one_one (inl refl)
      (omega arith)

parse_address-even_example :
    (c : BitArray) × ((write_address arrays
          (number international_number 1 (codes "12"))
          (zeros 32, 0)
        >>= write_digits arrays (codes "00"))
      ≡ value (c, 0 + 8 * (address_length (number international_number 1 (codes "12")) + 1)))
    × (parse_address arrays c 0
        ≡ value (
          number international_number 1 (codes "1200"),
          0 + 8 * (address_length (number international_number 1 (codes "12")) + 1),
        ))
unfolding address_length octets
parse_address-even_example =
    parse_address-even arrays (zeros 32) 0 1 (codes "12") b'0' b'0' (refl, (refl, tt))
      (refl, (refl, tt)) refl (omega arith) (omega arith) (omega arith)

abbrev two_letters : CodedText arrays
two_letters = record { dcs = 0; udhi = false; text_length = 2; raw = zeros 16 }

parse_coded-write_coded_example :
    (c : BitArray) × (raw : BitArray) × (write_coded arrays two_letters (zeros 24, 0)
      ≡ value (c, 0 + 8))
    × (parse_coded arrays 0 false c 0
        ≡ value (record { dcs = 0; udhi = false; text_length = 2; raw = raw }, 0 + 8))
    × SameBits arrays raw (zeros 16)
parse_coded-write_coded_example =
    parse_coded-write_coded arrays (zeros 24) 0 two_letters
      (record { whole = refl; room = refl; short = omega arith }) (omega arith)

abbrev to_deliver : DeliverUnit arrays
to_deliver = record {
  mms = false;
  sri = false;
  reply_path = false;
  oa = number 2 1 (codes "411");
  pid = 0;
  scts = 1438092359;
  deliver_ud = two_letters;
}

write_deliver-fields_example :
    (c : BitArray) × (u : BitArray) × (write_deliver arrays one_time to_deliver (zeros 0)
      ≡ value (c, width (deliver_fields arrays one_time to_deliver 2 1 (codes "411"))))
    × (c.size ≡ 8 * (1 + deliver_body_length arrays to_deliver))
    × Delivered arrays one_time to_deliver 2 1 (codes "411") c u
unfolding stamp_of
write_deliver-fields_example =
    write_deliver-fields arrays one_time to_deliver 2 1 (codes "411") (zeros 0) (record {
      oa_eq = refl;
      oa_number = four_one_one;
      pid_fits = omega arith;
      dcs_fits = omega arith;
      stamp = july-IsTm;
      text_whole = refl;
      text_short = omega arith;
    })

abbrev a_submit : Submitted
a_submit = record {
  rd = false;
  rp = false;
  srr = false;
  udhi = false;
  mr = 3;
  da_type = 2;
  da_plan = 1;
  da_digits = codes "411";
  pi = 0;
  dcs = 0;
  vp = some 200;
  text_length = 2;
}

a_frame : BitArray
unfolding frame_of
a_frame = frame_of (
    write_fields arrays
      ((0, 1) ∷ (0, 1) ∷ (0, 1) ∷ (2, 2) ∷ (0, 1) ∷ (1, 2) ∷ submit_fields a_submit) (zeros 88, 0))

parse_tpdu-submit_example :
    (r : BitArray) × (arrays.segment a_frame
        (8 + width (submit_fields a_submit))
        (a_frame.size - (8 + width (submit_fields a_submit)))
      ≡ value r)
    × (parse_tpdu arrays one_time 1000 a_frame
        ≡ value (some (submitted arrays 1000 a_submit (arrays.lsb8msb r))))
unfolding a_frame peek fill write_field encode
parse_tpdu-submit_example =
    parse_tpdu-submit arrays one_time 1000 a_frame a_submit
      (record {
        mti_at = refl;
        rd_at = refl;
        vpf_at = refl;
        srr_at = refl;
        udhi_at = refl;
        rp_at = refl;
        fields_at = (
          refl,
          (
            refl,
            (
              refl,
              (refl, (refl, (refl, (refl, (refl, (refl, (refl, (refl, (refl, (refl, tt)))))))))),
            ),
          ),
        );
        da_number = four_one_one;
        dcs_fits = omega arith;
        da_counted = inl refl;
      })
      (omega arith)

-- A text with a character that is not in the alphabet.
abbrev bracket : Str
bracket = codes "a[1"

decode_text-encode7bit_example :
    (r : CodedText arrays) × (encode7bit arrays two_letters bracket ≡ value r)
    × (r.dcs ≡ 0)
    × (r.text_length ≡ 3)
    × (arrays.size r.raw ≡ 24)
    × (decode_text arrays r ≡ value (codes "a@1"))
decode_text-encode7bit_example =
    decode_text-encode7bit arrays two_letters bracket refl
      (omega arith, (omega arith, (omega arith, tt)))
