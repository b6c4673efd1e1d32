-- ===== src/Codec/Relay/RoundTrip.antt =====
-- A message of the relay layer that is written is read back.
use smqueue.Prelude.{
  ℕ, ◌+◌, ◌*◌, ◌<◌, ◌≡◌, ◌⊎◌, refl, sym, ap, ◌∙◌, subst, false, [], ◌∷◌, ◌++◌, Str, length, ltb,
  inl, inr, arith,
}
use mathlib.Core.Path.{fun_ext}
use smqueue.Codec.{
  Parse, value, ◌>>=◌, >>=_assoc, >>=-value, read_field_lem, BitVectors, Cursor, write_field,
  write_bits,
}
use smqueue.Codec.Fields.{
  Fields, width, width-append, Fits, Fits-append, HasFields, HasFields-append, write_fields,
  write_fields-append,
}
use smqueue.Codec.Payload.{SameBits, IsUnit, Framed, write_fields-Framed, read_unit}
use smqueue.Codec.Elements.{
  no_number, BcdNumber, number_length, number_element, Element, parse_lv, write_lv,
}
use smqueue.Codec.Elements.RoundTrip.{
  IsLv, pos-ne_zero, number, IsNumber, number_fields, number-Encodes, lv_fields, present-IsLv,
  absent-IsLv,
}
use smqueue.Codec.Relay.{
  user_length, parse_user, user_element, rp_data, rp_bits_needed, write_rp, write_rp_body, parse_rp,
  parse_rp_body,
}

user_length_lem :
    (V : BitVectors) (tpdu : V.Bits) (n : ℕ) → IsUnit V tpdu n → user_length V tpdu ≡ n
unfolding user_length
user_length_lem V tpdu n k = ground (arith, k.whole)

-- A writer that begins with fields.
fields_then :
    (V : BitVectors) (fs gs : Fields) (K : Cursor V → Parse (Cursor V)) (c : Cursor V)
    → (write_fields V fs c >>= λ e. write_fields V gs e >>= K) ≡ (write_fields V (fs ++ gs) c >>= K)
fields_then V fs gs K c =
    sym (>>=_assoc (write_fields V fs c) (write_fields V gs) K)
    ∙ ap (λ m. m >>= K) (write_fields-append V fs gs c)

lv_then :
    (V : BitVectors) {T : Type 0} (E : Element V T) (old t : T) (fs gs : Fields)
    (J K : Cursor V → Parse (Cursor V)) (c : Cursor V)
    → IsLv V E old t fs
    → ((e : Cursor V) → J e ≡ (write_fields V gs e >>= K))
    → (write_lv V E t c >>= J) ≡ (write_fields V (fs ++ gs) c >>= K)
lv_then V E old t fs gs J K c h k = rw (h.lv_writes c, fun_ext k) (fields_then V fs gs K c)

write_unit-fields :
    (V : BitVectors) (tpdu : V.Bits) (n : ℕ) (c : Cursor V)
    → IsUnit V tpdu n
    → write_lv V (user_element V) tpdu c ≡ (write_fields V ((n, 8) ∷ []) c >>= write_bits V tpdu)
unfolding write_lv
write_unit-fields V tpdu n c k =
    rw (user_length_lem V tpdu n k, pos-ne_zero n k.nonempty, >>=-value (write_field V n 8 c)) refl

write_body-fields :
    (V : BitVectors) (o d old_o old_d : BcdNumber) (fo fd : Fields) (tpdu : V.Bits) (n : ℕ)
    → IsLv V (number_element V) old_o o fo
    → IsLv V (number_element V) old_d d fd
    → IsUnit V tpdu n
    → (c : Cursor V)
    → write_rp_body V (rp_data o d tpdu) c
      ≡ (write_fields V (fo ++ (fd ++ (n, 8) ∷ [])) c >>= write_bits V tpdu)
unfolding write_rp_body
write_body-fields V o d old_o old_d fo fd tpdu n ho hd ht c =
    lv_then V (number_element V) old_o o fo (fd ++ (n, 8) ∷ []) _ (write_bits V tpdu) c ho (λ e.
      lv_then V (number_element V) old_d d fd ((n, 8) ∷ []) _ (write_bits V tpdu) e hd
        (λ f. write_unit-fields V tpdu n f ht))

-- The fields of RPData in front of its transfer unit.
abbrev data_fields : ℕ → Fields → Fields → ℕ → Fields
data_fields ref fo fd n = (0, 5) ∷ (1, 3) ∷ (ref, 8) ∷ (fo ++ (fd ++ (n, 8) ∷ []))

module _ (V : BitVectors) (o d : BcdNumber) (old_o old_d : BcdNumber) (fo fd : Fields)
    (tpdu : V.Bits) (ref n : ℕ) (ho : IsLv V (number_element V) old_o o fo)
    (hd : IsLv V (number_element V) old_d d fd) (ht : IsUnit V tpdu n) where
  -- The writer writes the fields, and copies the unit behind them.
  write_data-fields :
      (b : V.Bits)
      → write_rp V (record { reference = ref; body = rp_data o d tpdu }) b ≡ (
          write_fields V
            (data_fields ref fo fd n)
            (V.resize b (rp_bits_needed V (rp_data o d tpdu)), 0)
          >>= write_bits V tpdu)
  unfolding write_rp write_rp_body write_lv
  write_data-fields b =
      let T = V.resize b (rp_bits_needed V (rp_data o d tpdu)) in
      ap
        (λ k. write_field V 0 5 (T, 0) >>= λ c.
          write_field V 1 3 c >>= λ c. write_field V ref 8 c >>= k)
        (fun_ext (write_body-fields V o d old_o old_d fo fd tpdu n ho hd ht))
      ∙ simp >>=_assoc

parse_unit_lem :
    (V : BitVectors) (fs : Fields) (tpdu c old : V.Bits) (i n : ℕ)
    → IsUnit V tpdu n
    → Framed V fs tpdu c
    → width fs ≡ i + 8
    → HasFields V c i ((n, 8) ∷ [])
    → (t : V.Bits) × (parse_lv V (user_element V) c old i ≡ value (t, i + 8 + n * 8))
      × SameBits V t tpdu
unfolding parse_lv parse_user
parse_unit_lem V fs tpdu c old i n k w e h =
    let (t, e', same) = read_unit V fs tpdu c (i + 8) n k w e in
    (
      t,
      rw
          (
            read_field_lem V c i 8 n h.0,
            pos-ne_zero n k.nonempty,
            enough (V.size c) (i + 8 + n * 8) (omega (arith, k.whole, w.long_enough, e)),
            e',
          )
          (ground arith),
      same,
    )
  where
    enough : (a b : ℕ) → a ≡ b → ltb a b ≡ false
    enough a b h = ground arith

module _ (V : BitVectors) (o d : BcdNumber) (old_o old_d : BcdNumber) (fo fd : Fields)
    (tpdu : V.Bits) (ref n : ℕ) (ho : IsLv V (number_element V) old_o o fo)
    (hd : IsLv V (number_element V) old_d d fd) (ht : IsUnit V tpdu n) (hr : ref < 256) where
  bits_needed_lem :
      rp_bits_needed V (rp_data o d tpdu) ≡ width (data_fields ref fo fd n) + V.size tpdu
  unfolding rp_bits_needed
  bits_needed_lem = omega (
    arith,
    ho.lv_octets,
    hd.lv_octets,
    ht.whole,
    user_length_lem V tpdu n ht,
    width-append fo (fd ++ (n, 8) ∷ []),
    width-append fd ((n, 8) ∷ []),
  )

  data_fields-Fits : Fits (data_fields ref fo fd n)
  data_fields-Fits = (
    omega arith,
    (
      omega arith,
      (
        hr,
        Fits-append fo (fd ++ (n, 8) ∷ []) ho.lv_fits
            (Fits-append fd ((n, 8) ∷ []) hd.lv_fits (ht.short, tt)),
      ),
    ),
  )

  write_data_lem :
      (b : V.Bits)
      → (c : V.Bits) × (write_rp V (record { reference = ref; body = rp_data o d tpdu }) b
          ≡ value (c, rp_bits_needed V (rp_data o d tpdu)))
        × Framed V (data_fields ref fo fd n) tpdu c
  write_data_lem b =
      let F = data_fields ref fo fd n in
      let B = V.resize b (rp_bits_needed V (rp_data o d tpdu)) in
      let (c, e, w) =
        write_fields-Framed V F tpdu B data_fields-Fits (V.size-resize b _ ∙ bits_needed_lem) in
      (
        c,
        write_data-fields V o d old_o old_d fo fd tpdu ref n ho hd ht b
            ∙ e
            ∙ ap (λ (k : ℕ). value (c, k)) (sym bits_needed_lem),
        w,
      )

  parse_data_lem :
      (c : V.Bits) (old_t : V.Bits)
      → Framed V (data_fields ref fo fd n) tpdu c
      → (t : V.Bits) × (parse_rp V (record { reference = 0; body = rp_data old_o old_d old_t }) c
          ≡ value (record { reference = ref; body = rp_data o d t }))
        × SameBits V t tpdu
  unfolding parse_rp parse_rp_body
  parse_data_lem c old_t w =
      let F = fd ++ (n, 8) ∷ [] in
      let (at_o, h1) = HasFields-append V c 16 fo F w.holds.1.1.1 in
      let (at_d, h2) = HasFields-append V c (16 + width fo) fd ((n, 8) ∷ []) h1 in
      let i = 16 + width fo + width fd in
      let end : width (data_fields ref fo fd n) ≡ i + 8 =
        omega (arith, width-append fo F, width-append fd ((n, 8) ∷ [])) in
      let (t, e, k) = parse_unit_lem V (data_fields ref fo fd n) tpdu c old_t i n ht w end h2 in
      (
        t,
        rw
            (
              read_field_lem V c 8 8 ref w.holds.1.1.0,
              ho.lv_parses c 16 at_o,
              hd.lv_parses c (16 + width fo) at_d,
              e,
            )
            refl,
        k,
      )

-- An address that is left out, or one with digits.
abbrev pub IsAddress : BcdNumber → Type 0
IsAddress a =
    (a ≡ no_number) ⊎ ((t p : ℕ) × (s : Str) × (a ≡ number t p s) × IsNumber t p s × (0 < length s))

no_number-length : number_length no_number ≡ 0
unfolding number_length
no_number-length = refl

address_fields :
    (V : BitVectors) (a : BcdNumber)
    → IsAddress a
    → (fs : Fields) × IsLv V (number_element V) no_number a fs
address_fields V a (inl e) = (
  (0, 8) ∷ [],
  subst (λ b. IsLv V (number_element V) no_number b ((0, 8) ∷ [])) (sym e)
      (absent-IsLv V (number_element V) no_number no_number-length),
)
address_fields V a (inr (t, p, s, e, k, h)) = (
  lv_fields V (number_element V) (number t p s) (number_fields t p s),
  subst
      (λ b.
        IsLv V (number_element V) no_number b
          (lv_fields V (number_element V) (number t p s) (number_fields t p s)))
      (sym e)
      (present-IsLv V (number_element V) no_number (number t p s) (number_fields t p s)
        (number-Encodes V t p s k h)),
)

-- An RPData is written into a frame, and read from every frame like it.
pub write_rp-Framed :
    (V : BitVectors) (o d : BcdNumber) (tpdu b : V.Bits) (ref n : ℕ)
    → IsAddress o
    → IsAddress d
    → IsUnit V tpdu n
    → ref < 256
    → (fs : Fields) × (c : V.Bits) × (write_rp V
          (record { reference = ref; body = rp_data o d tpdu })
          b
        ≡ value (c, rp_bits_needed V (rp_data o d tpdu)))
      × (V.size c ≡ rp_bits_needed V (rp_data o d tpdu))
      × Framed V fs tpdu c
      × ((e old : V.Bits)
          → Framed V fs tpdu e
          → (t : V.Bits) × (parse_rp V
                (record { reference = 0; body = rp_data no_number no_number old })
                e
              ≡ value (record { reference = ref; body = rp_data o d t }))
            × SameBits V t tpdu)
write_rp-Framed V o d tpdu b ref n ho hd ht hr =
    let (fo, lo) = address_fields V o ho in
    let (fd, ld) = address_fields V d hd in
    let (c, e, w) = write_data_lem V o d no_number no_number fo fd tpdu ref n lo ld ht hr b in
    (
      data_fields ref fo fd n,
      c,
      e,
      w.long_enough ∙ sym (bits_needed_lem V o d no_number no_number fo fd tpdu ref n lo ld ht hr),
      w,
      λ e old v. parse_data_lem V o d no_number no_number fo fd tpdu ref n lo ld ht hr e old v,
    )

-- An RPData with a reference of one octet, addresses that are left out or have digits, stars and hashes
-- that fit, and a transfer unit of 1 to 255 octets: RPMessage::write fills a frame of bitsNeeded exactly,
-- and RPMessage::parse, on an RPData as its constructor makes it, reads the same reference, the same
-- addresses and a transfer unit with the same bits.
pub parse_rp-write_rp :
    (V : BitVectors) (o d : BcdNumber) (tpdu old b : V.Bits) (ref n : ℕ)
    → IsAddress o
    → IsAddress d
    → IsUnit V tpdu n
    → ref < 256
    → (c : V.Bits) × (t : V.Bits) × (write_rp V
          (record { reference = ref; body = rp_data o d tpdu })
          b
        ≡ value (c, rp_bits_needed V (rp_data o d tpdu)))
      × (V.size c ≡ rp_bits_needed V (rp_data o d tpdu))
      × (parse_rp V (record { reference = 0; body = rp_data no_number no_number old }) c
          ≡ value (record { reference = ref; body = rp_data o d t }))
      × SameBits V t tpdu
parse_rp-write_rp V o d tpdu old b ref n ho hd ht hr =
    let (fs, c, e, size, w, parses) = write_rp-Framed V o d tpdu b ref n ho hd ht hr in
    let (t, e', k) = parses c old w in (c, t, e, size, e', k)
