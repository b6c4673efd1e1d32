-- ===== src/Codec/Validity/Stamp.antt =====
-- A time stamp of GSM/GSML3MMElements.cpp that is written and parsed.
use smqueue.Prelude.{
  ℕ, ◌+◌, ◌*◌, ◌/◌, ◌%◌, ◌≤◌, ◌<◌, ◌≡◌, refl, ap, ◌∙◌, subst, Bool, true, false, List, [], ◌∷◌, All,
  if◌then◌else◌, arith,
}
use smqueue.Codec.{value, >>=_assoc, >>=-value, read_field_lem, BitVectors, Cursor}
use smqueue.Codec.Fields.{Fields, Fits, HasFields, write_fields, write_fields_lem}
use smqueue.Codec.Validity.{
  Tm, quarters, is_west, zone_offset, write_two, write_tm, read_two, parse_tm,
}

-- A date and time of the calendar, at an offset of less than twenty hours.
pub record IsTm (t : Tm) : Type 0 where
  pub month : t.tm_mon < 12
  pub day : t.tm_mday < 32
  pub hour : t.tm_hour < 24
  pub minute : t.tm_min < 60
  pub second : t.tm_sec < 61
  pub zone : quarters t.tm_gmtoff < 80

-- The numbers of two digits, and the zone.
abbrev numbers : Tm → List ℕ
numbers t = t.tm_year % 100 ∷ (t.tm_mon + 1) ∷ t.tm_mday ∷ t.tm_hour ∷ t.tm_min ∷ t.tm_sec ∷ []

abbrev zone_fields : Tm → Fields
zone_fields t =
    (quarters t.tm_gmtoff % 10, 4)
    ∷ (if is_west t.tm_gmtoff then 1 else 0, 1)
    ∷ (quarters t.tm_gmtoff / 10, 3)
    ∷ []

abbrev twos : List ℕ → Fields → Fields
twos [] fs = fs
twos (n ∷ ns) fs = (n % 10, 4) ∷ (n / 10, 4) ∷ twos ns fs

abbrev pub tm_fields : Tm → Fields
tm_fields t = twos (numbers t) (zone_fields t)

twos-Fits : (ns : List ℕ) (fs : Fields) → All (λ n. n < 100) ns → Fits fs → Fits (twos ns fs)
twos-Fits [] fs h k = k
twos-Fits (n ∷ ns) fs h k =
    let l : n < 100 = h.0 in (omega arith, (omega arith, twos-Fits ns fs h.1 k))

bit-lt : (b : Bool) → (if b then 1 else 0) < 2
bit-lt true = omega arith
bit-lt false = omega arith

pub tm_fields-Fits : (t : Tm) → IsTm t → Fits (tm_fields t)
tm_fields-Fits t k =
    twos-Fits (numbers t) (zone_fields t)
      (
        omega arith,
        (
          omega (arith, k.month),
          (
            omega (arith, k.day),
            (omega (arith, k.hour), (omega (arith, k.minute), (omega (arith, k.second), tt))),
          ),
        ),
      )
      (omega arith, (bit-lt (is_west t.tm_gmtoff), (omega (arith, k.zone), tt)))

module _ (V : BitVectors) where
  pub write_tm-fields : (t : Tm) (c : Cursor V) → write_tm V t c ≡ write_fields V (tm_fields t) c
  unfolding write_tm write_two
  write_tm-fields t c = simp (>>=_assoc, >>=-value)

  read_two_lem :
      (src : V.Bits) (i n : ℕ)
      → V.peek_field src i 4 ≡ value (n % 10)
      → V.peek_field src (i + 4) 4 ≡ value (n / 10)
      → read_two V src i ≡ value (n, i + 4 + 4)
  unfolding read_two
  read_two_lem src i n h k =
      rw (read_field_lem V src i 4 (n % 10) h, read_field_lem V src (i + 4) 4 (n / 10) k)
        (ap (λ (m : ℕ). value (m, i + 4 + 4)) (omega arith))

  -- What parse makes of the fields of a time, and of the four bits at its last three.
  pub record Misread (t r : Tm) : Type 0 where
    pub year : r.tm_year ≡ 2000 + t.tm_year % 100
    pub month : r.tm_mon ≡ t.tm_mon + 2
    pub day : r.tm_mday ≡ t.tm_mday
    pub hour : r.tm_hour ≡ t.tm_hour
    pub minute : r.tm_min ≡ t.tm_min
    pub second : r.tm_sec ≡ t.tm_sec

  parse_tm-fields :
      (src : V.Bits) (t : Tm) (i z : ℕ)
      → HasFields V src i (tm_fields t)
      → V.peek_field src (i + 53) 4 ≡ value z
      → (r : Tm) × (parse_tm V src i ≡ value (r, i + 57)) × Misread t r
  unfolding parse_tm
  parse_tm-fields src t i z h k =
      let k' : V.peek_field src (i + 4 + 4 + 4 + 4 + 4 + 4 + 4 + 4 + 4 + 4 + 4 + 4 + 4 + 1) 4
          ≡ value z =
        subst (λ (j : ℕ). V.peek_field src j 4 ≡ value z) (omega arith) k in
      let r : Tm = record {
        tm_year = 2000 + t.tm_year % 100;
        tm_mon = 1 + (t.tm_mon + 1);
        tm_mday = t.tm_mday;
        tm_hour = t.tm_hour;
        tm_min = t.tm_min;
        tm_sec = t.tm_sec;
        tm_gmtoff =
            zone_offset (if is_west t.tm_gmtoff then 1 else 0) (quarters t.tm_gmtoff % 10 + 10 * z);
      } in
      (
        r,
        rw
            (
              read_two_lem src (i) (t.tm_year % 100) h.0 h.1.0,
              read_two_lem src (i + 4 + 4) (t.tm_mon + 1) h.1.1.0 h.1.1.1.0,
              read_two_lem src (i + 4 + 4 + 4 + 4) t.tm_mday h.1.1.1.1.0 h.1.1.1.1.1.0,
              read_two_lem src (i + 4 + 4 + 4 + 4 + 4 + 4) t.tm_hour h.1.1.1.1.1.1.0
                  h.1.1.1.1.1.1.1.0,
              read_two_lem src (i + 4 + 4 + 4 + 4 + 4 + 4 + 4 + 4) t.tm_min h.1.1.1.1.1.1.1.1.0
                  h.1.1.1.1.1.1.1.1.1.0,
              read_two_lem src (i + 4 + 4 + 4 + 4 + 4 + 4 + 4 + 4 + 4 + 4) t.tm_sec
                  h.1.1.1.1.1.1.1.1.1.1.0 h.1.1.1.1.1.1.1.1.1.1.1.0,
              read_field_lem V src (i + 4 + 4 + 4 + 4 + 4 + 4 + 4 + 4 + 4 + 4 + 4 + 4) 4
                  (quarters t.tm_gmtoff % 10) h.1.1.1.1.1.1.1.1.1.1.1.1.0,
              read_field_lem V src (i + 4 + 4 + 4 + 4 + 4 + 4 + 4 + 4 + 4 + 4 + 4 + 4 + 4) 1
                  (if is_west t.tm_gmtoff then 1 else 0) h.1.1.1.1.1.1.1.1.1.1.1.1.1.0,
              read_field_lem V src (i + 4 + 4 + 4 + 4 + 4 + 4 + 4 + 4 + 4 + 4 + 4 + 4 + 4 + 1) 4 z
                  k',
            )
            (ap (λ (j : ℕ). value (r, j)) (omega arith)),
        record {
          year = refl;
          month = omega arith;
          day = refl;
          hour = refl;
          minute = refl;
          second = refl;
        },
      )

-- A time with a month, a day, an hour, a minute, a second and an offset of a calendar, which
-- L3TimeZoneAndTime::writeV put into a frame: it takes the seven octets of lengthV. Where the bit behind
-- them can be read, L3TimeZoneAndTime::parseV reads it too, 57 bits in all, and gives the month two too
-- high and the year from 2000 on, where both are meant to count as in the calendar.
pub parse_tm-write_tm :
    (V : BitVectors) (b c : V.Bits) (t : Tm) (i z : ℕ)
    → IsTm t
    → i + 56 ≤ V.size b
    → write_tm V t (b, i) ≡ value (c, i + 56)
    → V.peek_field c (i + 53) 4 ≡ value z
    → (r : Tm) × (parse_tm V c i ≡ value (r, i + 57)) × Misread V t r
parse_tm-write_tm V b c t i z k room e p =
    let (d, e', w) = write_fields_lem V (tm_fields t) b i (tm_fields-Fits t k) (omega arith) in
    let same : d ≡ c = cc (e, e', write_tm-fields V t (b, i)) in
    parse_tm-fields V c t i z (subst (λ f. HasFields V f i (tm_fields t)) same w.fields) p

-- The writer succeeds on a frame with room, and stops behind the seven octets.
pub write_tm_lem :
    (V : BitVectors) (b : V.Bits) (t : Tm) (i : ℕ)
    → IsTm t
    → i + 56 ≤ V.size b
    → (c : V.Bits) × (write_tm V t (b, i) ≡ value (c, i + 56))
write_tm_lem V b t i k room =
    let (c, e, w) = write_fields_lem V (tm_fields t) b i (tm_fields-Fits t k) (omega arith) in
    (c, write_tm-fields V t (b, i) ∙ e)
