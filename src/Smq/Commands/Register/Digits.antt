-- ===== src/Smq/Commands/Register/Digits.antt =====
-- What shortcode_register of smqueue/smcommands.cpp accepts for a phone number.
use smqueue.Prelude.{
  sym, ap, ◌∙◌, ℕ, suc, ◌+◌, ◌≤◌, ◌≡◌, ◌⊎◌, Bool, true, ◌||◌, [], ◌∷◌, ◌++◌, none, Str, is_digit,
  ◌==◌, if◌then◌else◌, arith, Option-cases, inl, inr,
}
use mathlib.Core.List.{append_assoc, append-nil}
use smqueue.Smq.{World, Smq}
use smqueue.Smq.Commands.{Action, register, await_register, retry_after_delay}
use smqueue.Smq.Commands.Register.{
  Phone, no_phone, phone_step, parse_phone, phone_error, run_register, register_phone,
}

-- The characters of a text that go into the number, and how many pass a test.
unfoldable pub number_of : Str → Str
number_of [] = []
number_of (c ∷ s) = if is_digit c || c == b'+' then c ∷ number_of s else number_of s

unfoldable pub count : (ℕ → Bool) → Str → ℕ
count f [] = 0
count f (c ∷ s) = if f c then suc (count f s) else count f s

-- An error stays.
parse_phone-bad : (v : Phone) (s : Str) → (parse_phone v s).bad ≡ none → v.bad ≡ none
unfolding parse_phone
parse_phone-bad v [] h = h
parse_phone-bad v (c ∷ s) h = ground arith

-- What the loop does to its variables while it meets no error.
abbrev Reads : Phone → Str → Phone → Type 0
Reads v s r =
    (r.phonenum ≡ v.phonenum ++ number_of s)
    × (r.seendig ≡ v.seendig + count is_digit s)
    × (r.exclaim ≡ v.exclaim + count (λ c. c == b'!') s)

-- One character of a text that is accepted.
phone_step-Reads :
    (v : Phone) (c : ℕ)
    → (phone_step v c).bad ≡ none
    → v.bad ≡ none
    → Reads v (c ∷ []) (phone_step v c)
unfolding phone_step number_of count
phone_step-Reads v c h n = ground (arith, append-nil v.phonenum)

number_of-cons : (c : ℕ) (s : Str) → number_of (c ∷ s) ≡ number_of (c ∷ []) ++ number_of s
unfolding number_of
number_of-cons c s = ground arith

count-cons : (f : ℕ → Bool) (c : ℕ) (s : Str) → count f (c ∷ s) ≡ count f (c ∷ []) + count f s
unfolding count
count-cons f c s = ground arith

Reads-cons :
    (v w r : Phone) (c : ℕ) (s : Str) → Reads v (c ∷ []) w → Reads w s r → Reads v (c ∷ s) r
Reads-cons v w r c s h k = (
  k.0
      ∙ ap (λ t. t ++ number_of s) h.0
      ∙ append_assoc v.phonenum (number_of (c ∷ [])) (number_of s)
      ∙ ap (λ t. v.phonenum ++ t) (sym (number_of-cons c s)),
  omega (arith, count-cons is_digit c s),
  omega (arith, count-cons (λ c. c == b'!') c s),
)

parse_phone-cons :
    (v : Phone) (c : ℕ) (s : Str)
    → v.bad ≡ none
    → parse_phone v (c ∷ s) ≡ parse_phone (phone_step v c) s
unfolding parse_phone
parse_phone-cons v c s h = ground arith

parse_phone-Reads :
    (v : Phone) (s : Str) → (parse_phone v s).bad ≡ none → Reads v s (parse_phone v s)
unfolding parse_phone number_of count
parse_phone-Reads v [] h = (sym (append-nil v.phonenum), omega arith, omega arith)
parse_phone-Reads v (c ∷ s) h =
    let n = parse_phone-bad v (c ∷ s) h in
    let k : (parse_phone (phone_step v c) s).bad ≡ none =
      ap (λ (r : Phone). r.bad) (sym (parse_phone-cons v c s n)) ∙ h in
    rw (parse_phone-cons v c s n) (
      Reads-cons v (phone_step v c) (parse_phone (phone_step v c) s) c s
        (phone_step-Reads v c (parse_phone-bad (phone_step v c) s k) n)
        (parse_phone-Reads (phone_step v c) s k))

-- The text was accepted: what the loop and the test of the number of digits leave.
phone_error-none :
    (w : World) (v : Phone)
    → phone_error w v ≡ none
    → (v.bad ≡ none)
      × (((w.config.register_digits_override ≡ true) × (v.exclaim ≡ 3))
          ⊎ ((w.config.register_digits_min ≤ v.seendig)
              × (v.seendig ≤ w.config.register_digits_max)))
unfolding phone_error
phone_error-none w v h = ground arith

-- An action by which the handset is added to the registry, now or later.
abbrev pub Adds : Action → Type 0
Adds a = (a ≡ register) ⊎ (a ≡ await_register) ⊎ (a ≡ retry_after_delay)

register_phone-Adds :
    (w : World) (s : Smq) (imsi phone : Str)
    → Adds (register_phone w s imsi phone).action
    → (w.hlr.get_clid_local imsi ≡ none) × (w.hlr.get_imsi2 phone ≡ none)
unfolding register_phone
register_phone-Adds w s imsi phone h = ground arith

-- Where shortcode_register asks for a registration, now or later, the IMSI has no number, the number in
-- the text, which is its digits and plus signs, belongs to no IMSI, and the count of digits is within the
-- limits, or three exclamation marks override them.
pub run_register-Adds :
    (w : World) (s : Smq) (imsi text : Str)
    → Adds (run_register w s imsi text).action
    → (w.hlr.get_clid_local imsi ≡ none)
      × (w.hlr.get_imsi2 (number_of text) ≡ none)
      × (((w.config.register_digits_override ≡ true) × (count (λ c. c == b'!') text ≡ 3))
          ⊎ ((w.config.register_digits_min ≤ count is_digit text)
              × (count is_digit text ≤ w.config.register_digits_max)))
unfolding run_register
run_register-Adds w s imsi text h =
    elim (Option-cases (phone_error w (parse_phone no_phone text))) [
      | inl e ↦
          let ok = phone_error-none w (parse_phone no_phone text) e in
          let r = parse_phone-Reads no_phone text ok.0 in
          ground (arith, register_phone-Adds w s imsi (number_of text))
      | inr (t, e) ↦ ground arith
    ]
