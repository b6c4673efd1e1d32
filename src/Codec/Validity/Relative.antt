-- ===== src/Codec/Validity/Relative.antt =====
-- The relative format of the validity period in SMS/SMSMessages.cpp: the octet and the minutes.
use smqueue.Prelude.{
  ◌⊎◌, inl, inr, leb, Bool, true, ℕ, ◌+◌, ◌-◌, ◌*◌, ◌/◌, ◌≤◌, ◌<◌, ◌≡◌, refl, false, [], ◌∷◌, ltb,
  arith,
}
use smqueue.Codec.{value, asserted, >>=-value, read_field_lem, BitVectors}
use smqueue.Codec.Fields.{write_fields_lem}
use smqueue.Codec.Validity.{
  relative_minutes, relative_code, one_week, Calendar, validity_length, parse_validity,
  write_validity,
}

-- Every octet of the relative format is the one that is written for the minutes that it stands for.
pub relative_code-relative_minutes : (vp : ℕ) → vp < 256 → relative_code (relative_minutes vp) ≡ vp
unfolding relative_code relative_minutes
relative_code-relative_minutes vp h = ground arith

pub relative_code-lt : (minutes : ℕ) → relative_code minutes < 256
unfolding relative_code
relative_code-lt minutes = ground arith

-- A period of up to twelve hours is rounded up by less than five minutes.
pub relative_minutes-relative_code_short :
    (m : ℕ)
    → 0 < m
    → m ≤ 720
    → (m ≤ relative_minutes (relative_code m)) × (relative_minutes (relative_code m) < m + 5)
unfolding relative_code relative_minutes
relative_minutes-relative_code_short m h l = ground arith

-- A longer period of less than 64 weeks is cut by less than a week.
pub relative_minutes-relative_code_long :
    (m : ℕ)
    → 720 < m
    → m < 64 * 10080
    → (relative_minutes (relative_code m) ≤ m) × (m < relative_minutes (relative_code m) + 10080)
unfolding relative_code relative_minutes
relative_minutes-relative_code_long m h l = ground arith

relative_minutes-relative_code_most :
    (m : ℕ) → 64 * 10080 ≤ m → relative_minutes (relative_code m) ≡ 63 * 10080
unfolding relative_code relative_minutes
relative_minutes-relative_code_most m h = ground arith

-- How far from an expiration that was written the one that is read is: up to 12 hours and 59 seconds
-- ahead, less than a minute too early and less than five minutes too late; from then on and less than 64
-- weeks ahead, not too late and at most a week too early; from 64 weeks on, it is 63 weeks ahead.
abbrev pub IsNear : ℕ → ℕ → ℕ → Type 0
IsNear now meant read =
    ((meant < now + 43260) × (meant < read + 60) × (read < meant + 300))
    ⊎ ((now + 43260 ≤ meant)
        × (meant < now + 64 * one_week)
        × (read ≤ meant)
        × (meant ≤ read + one_week))
    ⊎ ((now + 64 * one_week ≤ meant) × (read ≡ now + 63 * one_week))

at_or_below : (a b : ℕ) → (a ≤ b) ⊎ (b < a)
at_or_below a b = by_test _ refl
  where
    by_test : (c : Bool) → leb a b ≡ c → (a ≤ b) ⊎ (b < a)
    by_test true e = inl (ground arith)
    by_test false e = inr (ground arith)

near :
    (now meant : ℕ)
    → now + 60 ≤ meant
    → IsNear now meant (now + relative_minutes (relative_code ((meant - now) / 60)) * 60)
near now meant h =
    let m = (meant - now) / 60 in
    elim (at_or_below (now + 43260) meant) [
      | inr l ↦
          let r = relative_minutes-relative_code_short m (omega arith) (omega arith) in
          inl (l, omega arith, omega arith)
      | inl k ↦ elim (at_or_below (now + 64 * one_week) meant) [
        | inr l ↦
            let r = relative_minutes-relative_code_long m (omega arith) (omega arith) in
            inr (inl (k, l, omega arith, omega arith))
        | inl l ↦
            let r = relative_minutes-relative_code_most m (omega arith) in
            inr (inr (l, omega arith))
      ]
    ]

-- The formats of the validity period in write and in parse, for a message that expires in a minute or
-- later. With 0, write writes nothing, and with every format above 1 it stops at an assertion. With 1 it
-- writes one octet, as length says. Parsed with the format 2, that octet gives an expiration near the one
-- that was written: up to 12 hours and 59 seconds ahead, less than a minute too early and less than five
-- minutes too late; beyond that and less than 64 weeks ahead, not too late and at most a week too early;
-- beyond that, 63 weeks ahead. Parsed with the format 1 that was written, parse reads nothing, stops 7
-- bits further, inside the octet, and takes a week.
pub write_validity-formats :
    (V : BitVectors) (cal : Calendar) (b : V.Bits) (i now expiration other : ℕ)
    → now + 60 ≤ expiration
    → i + 8 ≤ V.size b
    → 1 < other
    → (write_validity V now 0 expiration (b, i) ≡ value (b, i))
      × (write_validity V now other expiration (b, i) ≡ asserted)
      × (c : V.Bits) × (read : ℕ) × (write_validity V now 1 expiration (b, i) ≡ value (c, i + 8))
      × (validity_length 1 ≡ value 1)
      × (parse_validity V cal now 2 c i ≡ value (read, i + 8))
      × IsNear now expiration read
      × (parse_validity V cal now 1 c i ≡ value (now + one_week, i + 7))
unfolding write_validity parse_validity validity_length
write_validity-formats V cal b i now expiration other h room above =
    let m = (expiration - now) / 60 in
    let (c, e, w) =
      write_fields_lem V ((relative_code m, 8) ∷ []) b i (relative_code-lt m, tt) (omega arith) in
    (
      refl,
      ground arith,
      c,
      now + relative_minutes (relative_code m) * 60,
      rw (long m (omega arith)) ((simp >>=-value at e)),
      refl,
      rw (read_field_lem V c i 8 (relative_code m) w.fields.0) refl,
      near now expiration h,
      refl,
    )
  where
    long : (m : ℕ) → 0 < m → ltb m 1 ≡ false
    long m h = ground arith
