-- ===== src/Codec/Fields.antt =====
-- The fields of a frame, one behind the other: the reference description that the codec is measured by.
use smqueue.Prelude.{
  ℕ, ◌+◌, ◌^◌, ◌≤◌, ◌<◌, ◌≡◌, refl, ap, subst, ◌∙◌, List, [], ◌∷◌, ◌++◌, inl, inr, arith,
}
use mathlib.Core.Path.{fun_ext}
use native.Mathlib.Nat.{add-zero}
use smqueue.Codec.{Parse, value, ◌>>=◌, >>=_assoc, BitVectors, Cursor, IsApart, write_field}

-- Values with the number of their bits.
abbrev pub Fields : Type 0
Fields = List (ℕ × ℕ)

abbrev pub width : Fields → ℕ
width [] = 0
width ((v, n) ∷ fs) = n + width fs

abbrev pub Fits : Fields → Type 0
Fits [] = Unit
Fits ((v, n) ∷ fs) = (v < 2 ^ n) × Fits fs

pub width-append : (fs gs : Fields) → width (fs ++ gs) ≡ width fs + width gs
width-append [] gs = omega arith
width-append ((v, n) ∷ fs) gs = omega (arith, width-append fs gs)

pub Fits-append : (fs gs : Fields) → Fits fs → Fits gs → Fits (fs ++ gs)
Fits-append [] gs h k = k
Fits-append ((v, n) ∷ fs) gs h k = (h.0, Fits-append fs gs h.1 k)

IsApart-left : (i n w j m : ℕ) → IsApart i (n + w) j m → IsApart i n j m
IsApart-left i n w j m (inl h) = inl h
IsApart-left i n w j m (inr h) = inr (omega arith)

IsApart-right : (i n w j m : ℕ) → IsApart i (n + w) j m → IsApart (i + n) w j m
IsApart-right i n w j m (inl h) = inl (omega arith)
IsApart-right i n w j m (inr h) = inr (omega arith)

module _ (V : BitVectors) where
  -- A frame holds fields from an index on.
  abbrev pub HasFields : V.Bits → ℕ → Fields → Type 0
  HasFields b i [] = Unit
  HasFields b i ((v, n) ∷ fs) = (V.peek_field b i n ≡ value v) × HasFields b (i + n) fs

  pub HasFields-append :
      (b : V.Bits) (i : ℕ) (fs gs : Fields)
      → HasFields b i (fs ++ gs)
      → HasFields b i fs × HasFields b (i + width fs) gs
  HasFields-append b i [] gs h = (tt, subst (λ j. HasFields b j gs) (omega arith) h)
  HasFields-append b i ((v, n) ∷ fs) gs h =
      let (k, l) = HasFields-append b (i + n) fs gs h.1 in
      ((h.0, k), subst (λ j. HasFields b j gs) (omega arith) l)

  pub HasFields-both :
      (b : V.Bits) (i : ℕ) (fs gs : Fields)
      → HasFields b i fs
      → HasFields b (i + width fs) gs
      → HasFields b i (fs ++ gs)
  HasFields-both b i [] gs h k = subst (λ j. HasFields b j gs) (omega arith) k
  HasFields-both b i ((v, n) ∷ fs) gs h k =
      (h.0, HasFields-both b (i + n) fs gs h.1 (subst (λ j. HasFields b j gs) (omega arith) k))

  -- The fields are written one behind the other.
  abbrev pub write_fields : Fields → Cursor V → Parse (Cursor V)
  write_fields [] c = value c
  write_fields ((v, n) ∷ fs) c = write_field V v n c >>= write_fields fs

  pub write_fields-append :
      (fs gs : Fields) (c : Cursor V)
      → (write_fields fs c >>= write_fields gs) ≡ write_fields (fs ++ gs) c
  write_fields-append [] gs c = refl
  write_fields-append ((v, n) ∷ fs) gs c =
      >>=_assoc (write_field V v n c) (write_fields fs) (write_fields gs)
      ∙ ap (λ k. write_field V v n c >>= k) (fun_ext (write_fields-append fs gs))

  -- A frame that fields were written into, from an index on, and nothing else.
  pub record Written (b : V.Bits) (i : ℕ) (fs : Fields) (c : V.Bits) : Type 0 where
    pub same_size : V.size c ≡ V.size b
    pub fields : HasFields c i fs
    pub outside : (j m : ℕ) → IsApart i (width fs) j m → V.peek_field c j m ≡ V.peek_field b j m

  -- Fields are held by every frame with the same bits.
  pub HasFields-same :
      (b c : V.Bits) (i : ℕ) (fs : Fields)
      → ((j m : ℕ) → i ≤ j → j + m ≤ i + width fs → V.peek_field c j m ≡ V.peek_field b j m)
      → HasFields b i fs
      → HasFields c i fs
  HasFields-same b c i [] k h = tt
  HasFields-same b c i ((v, n) ∷ fs) k h = (
    k i n (omega arith) (omega arith) ∙ h.0,
    HasFields-same b c (i + n) fs (λ j m p q. k j m (omega arith) (omega arith)) h.1,
  )

  pub write_fields_lem :
      (fs : Fields) (b : V.Bits) (i : ℕ)
      → Fits fs
      → i + width fs ≤ V.size b
      → (c : V.Bits) × (write_fields fs (b, i) ≡ value (c, i + width fs)) × Written b i fs c
  unfolding write_field
  write_fields_lem [] b i f h =
      (b, rw (add-zero i), record { same_size = refl; fields = tt; outside = λ j m a. refl })
  write_fields_lem ((v, n) ∷ fs) b i f h =
      let (c, e, sz, at, out) = V.fill-in_range b i v n (omega arith) f.0 in
      let (d, e', w) = write_fields_lem fs c (i + n) f.1 (omega (arith, sz)) in
      (
        d,
        rw e (e' ∙ ap (λ (k : ℕ). value (d, k)) (omega arith)),
        record {
          same_size = w.same_size ∙ sz;
          fields = (w.outside i n (inl (omega arith)) ∙ at, w.fields);
          outside = λ j m a.
              w.outside j m (IsApart-right i n (width fs) j m a)
              ∙ out j m (IsApart-left i n (width fs) j m a);
        },
      )
