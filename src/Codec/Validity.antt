-- ===== src/Codec/Validity.antt =====
-- Times in transfer units: TLValidityPeriod of SMS/SMSMessages.cpp and L3TimeZoneAndTime of
-- GSM/GSML3MMElements.cpp. Times are seconds since 1970.
pub mod Relative
pub mod Stamp
use smqueue.Prelude.{
  ℕ, ◌+◌, ◌-◌, ◌*◌, ◌/◌, ◌%◌, Bool, true, false, ◌||◌, ◌^◌, ℤ, pos, negsuc, ltb, leb, ◌==◌,
  if◌then◌else◌,
}
use smqueue.Codec.{Parse, value, asserted, ◌>>=◌, BitVectors, Cursor, write_field, read_field}

-- struct tm: the year counts from 1900 and the month from 0; the offset is in seconds.
pub record Tm : Type 0 where
  pub tm_year : ℕ
  pub tm_mon : ℕ
  pub tm_mday : ℕ
  pub tm_hour : ℕ
  pub tm_min : ℕ
  pub tm_sec : ℕ
  pub tm_gmtoff : ℤ

-- The calendar of the C library: localtime_r, gmtime_r and timegm.
pub record Calendar : Type 0 where
  pub localtime : ℕ → Tm
  pub gmtime : ℕ → Tm
  pub timegm : Tm → ℕ

-- The offset in quarters of an hour: whether it is negative, and how many.
unfoldable pub quarters : ℤ → ℕ
quarters (pos n) = n / 900
quarters (negsuc n) = (n + 1) / 900

unfoldable pub is_west : ℤ → Bool
is_west (pos n) = false
is_west (negsuc n) = ltb 0 ((n + 1) / 900)

-- L3TimeZoneAndTime with its type: LOCAL_TIME, or UTC_TIME with the offset of the local time.
unfoldable pub stamp_of : Calendar → Bool → ℕ → Tm
stamp_of cal is_local seconds =
    if is_local
    then cal.localtime seconds
    else record (cal.gmtime seconds) { tm_gmtoff = (cal.localtime seconds).tm_gmtoff }

module _ (V : BitVectors) where
  -- The lower digit first.
  unfoldable pub write_two : ℕ → Cursor V → Parse (Cursor V)
  unfolding write_field
  write_two n c = do c ← write_field V (n % 10) 4 c; write_field V (n / 10) 4 c

  -- L3TimeZoneAndTime::writeV.
  unfoldable pub write_tm : Tm → Cursor V → Parse (Cursor V)
  unfolding write_field write_two quarters is_west
  write_tm t c = do
    c ← write_two (t.tm_year % 100) c
    c ← write_two (t.tm_mon + 1) c
    c ← write_two t.tm_mday c
    c ← write_two t.tm_hour c
    c ← write_two t.tm_min c
    c ← write_two t.tm_sec c
    c ← write_field V (quarters t.tm_gmtoff % 10) 4 c
    c ← write_field V (if is_west t.tm_gmtoff then 1 else 0) 1 c
    write_field V (quarters t.tm_gmtoff / 10) 3 c

  unfoldable pub write_time : Calendar → Bool → ℕ → Cursor V → Parse (Cursor V)
  unfolding write_tm stamp_of
  write_time cal is_local seconds = write_tm (stamp_of cal is_local seconds)

-- An unsigned number of quarters is negated, multiplied and assigned to a long.
unfoldable pub zone_offset : ℕ → ℕ → ℤ
zone_offset sign zone = pos ((if sign == 0 then zone * 900 else (2 ^ 32 - zone) * 900) % 2 ^ 32)

module _ (V : BitVectors) (src : V.Bits) where
  -- readField(rp,4) + readField(rp,4)*10; the left operand is taken to be read first.
  unfoldable pub read_two : ℕ → Parse (ℕ × ℕ)
  unfolding read_field
  read_two i = do
    low ← read_field V src 4 i
    high ← read_field V src 4 low.1
    value (low.0 + high.0 * 10, high.1)

  -- The fields that L3TimeZoneAndTime::parseV reads, with the index behind them.
  unfoldable pub parse_tm : ℕ → Parse (Tm × ℕ)
  unfolding read_field read_two zone_offset
  parse_tm i = do
    year ← read_two i
    month ← read_two year.1
    day ← read_two month.1
    hour ← read_two day.1
    minute ← read_two hour.1
    second ← read_two minute.1
    zone ← read_field V src 4 second.1
    sign ← read_field V src 1 zone.1
    tens ← read_field V src 4 sign.1
    value (
      record {
        tm_year = 2000 + year.0;
        tm_mon = 1 + month.0;
        tm_mday = day.0;
        tm_hour = hour.0;
        tm_min = minute.0;
        tm_sec = second.0;
        tm_gmtoff = zone_offset sign.0 (zone.0 + 10 * tens.0);
      },
      tens.1,
    )

  unfoldable pub parse_time : Calendar → ℕ → Parse (ℕ × ℕ)
  unfolding parse_tm
  parse_time cal i = do t ← parse_tm i; value (cal.timegm t.0, t.1)

-- TLValidityPeriod::length for a format.
unfoldable pub validity_length : ℕ → Parse ℕ
validity_length vpf =
    if vpf == 0
    then value 0
    else if vpf == 1
    then value 1
    else if vpf == 2 || vpf == 3
    then value 7
    else asserted

-- The minutes of the relative format.
unfoldable pub relative_minutes : ℕ → ℕ
relative_minutes vp =
    if ltb vp 144
    then (vp + 1) * 5
    else if ltb vp 168
    then 12 * 60 + (vp - 143) * 30
    else if ltb vp 197
    then 24 * 60 * (vp - 166)
    else 7 * 24 * 60 * (vp - 192)

-- The octet for a number of minutes that is not 0.
unfoldable pub relative_code : ℕ → ℕ
relative_code minutes =
    let vp =
      if leb minutes 720
      then (minutes - 1) / 5
      else if ltb minutes 1440
      then 143 + (minutes - 720) / 30
      else if ltb minutes 43200
      then 166 + minutes / (24 * 60)
      else 192 + minutes / (7 * 24 * 60) in
    if ltb 255 vp then 255 else vp

abbrev pub one_week : ℕ
one_week = 7 * 24 * 60 * 60

module _ (V : BitVectors) where
  -- TLValidityPeriod::parse at a time: when the message expires, and the index behind the field.
  unfoldable pub parse_validity : Calendar → ℕ → ℕ → V.Bits → ℕ → Parse (ℕ × ℕ)
  unfolding read_field parse_time relative_minutes
  parse_validity cal now vpf src i =
      if vpf == 2
      then (do vp ← read_field V src 8 i; value (now + relative_minutes vp.0 * 60, vp.1))
      else if vpf == 3
      then parse_time V src cal i
      else if vpf == 1
      then value (now + one_week, i + 7)
      else if vpf == 0
      then value (now + one_week, i)
      else asserted

  -- TLValidityPeriod::write at a time.
  unfoldable pub write_validity : ℕ → ℕ → ℕ → Cursor V → Parse (Cursor V)
  unfolding write_field relative_code
  write_validity now vpf expiration c =
      if vpf == 0
      then value c
      else if vpf == 1
      then write_field V (relative_code (at_least_one ((expiration - now) / 60))) 8 c
      else asserted
    where
      at_least_one : ℕ → ℕ
      at_least_one m = if ltb m 1 then 1 else m
