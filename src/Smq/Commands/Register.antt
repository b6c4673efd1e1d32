-- ===== src/Smq/Commands/Register.antt =====
-- shortcode_register of smqueue/smcommands.cpp.
pub mod Digits
use smqueue.Prelude.{
  ℕ, ◌+◌, Bool, true, false, not, ◌&&◌, ◌||◌, [], ◌∷◌, ◌++◌, Option, none, some, Str, codes, str_eq,
  is_digit, decimal, ltb, ◌==◌, if◌then◌else◌,
}
use smqueue.Smq.{World, Smq, AddStatus, success, delayed, failure, tryagain}
use smqueue.Smq.Commands.{Outcome, register, await_register, retry_after_delay, replies, acts}

-- The variables of the loop over the text; `bad` is the message of the error that ended it.
pub record Phone : Type 0 where
  pub phonenum : Str
  pub seendig : ℕ
  pub seenplus : Bool
  pub exclaim : ℕ
  pub bad : Option Str

abbrev pub no_phone : Phone
no_phone = record { phonenum = []; seendig = 0; seenplus = false; exclaim = 0; bad = none }

unfoldable pub is_filler : ℕ → Bool
is_filler c = c == b' ' || c == b'(' || c == b')' || c == 13 || c == 10

-- One character.
unfoldable pub phone_step : Phone → ℕ → Phone
unfolding is_digit is_filler
phone_step v c =
    if is_digit c
    then record v { phonenum = v.phonenum ++ c ∷ []; seendig = v.seendig + 1 }
    else if c == b'+'
    then (if v.seendig == 0 && not v.seenplus
        then record v { phonenum = v.phonenum ++ c ∷ []; seenplus = true }
        else record v {
          bad = some (codes "Error: + can only be the first character in a phone number");
        })
    else if is_filler c
    then v
    else if c == b'!'
    then record v { exclaim = v.exclaim + 1 }
    else record v {
      bad = some (codes "Error: invalid character '" ++ (c ∷ codes "' in requested number"));
    }

abbrev is_bad : Option Str → Bool
is_bad none = false
is_bad (some e) = true

-- The loop, which ends at an error.
unfoldable pub parse_phone : Phone → Str → Phone
unfolding phone_step
parse_phone v [] = v
parse_phone v (c ∷ s) =
    let rest = parse_phone (phone_step v c) s in if is_bad v.bad then v else rest

-- The error of the loop, or that of the number of digits, which three "!" can override.
unfoldable pub phone_error : World → Phone → Option Str
phone_error w v = elim v.bad [
  | some e ↦ some e
  | none ↦
      if not (w.config.register_digits_override && v.exclaim == 3)
        && (ltb w.config.register_digits_max v.seendig
            || ltb v.seendig w.config.register_digits_min)
      then some (
          v.phonenum
          ++ (codes " not valid with "
              ++ (decimal v.seendig
                  ++ (codes " digits. Must be "
                      ++ (decimal w.config.register_digits_min
                          ++ (codes " to "
                              ++ (decimal w.config.register_digits_max ++ codes " digits.")))))))
      else none
]

abbrev pub around : Str × Str → Str → Str
around msg s = msg.0 ++ (codes " " ++ (s ++ (codes " " ++ msg.1)))

-- Neither the IMSI nor the number is in use.
unfoldable pub add_user : World → Smq → Str → Str → Outcome
add_user w s imsi phone = outcome (w.hlr.add_user imsi phone)
  where
    outcome : AddStatus → Outcome
    outcome success = acts s register
    outcome delayed = acts s await_register
    outcome failure = replies s (around w.config.msg_error phone ++ (imsi ++ codes "."))
    outcome tryagain = acts s retry_after_delay

unfoldable pub register_phone : World → Smq → Str → Str → Outcome
unfolding add_user
register_phone w s imsi phone = elim (w.hlr.get_clid_local imsi) [
  | some existing ↦
      if str_eq existing phone
      then replies s (around w.config.msg_welcome phone)
      else replies s (around w.config.msg_already existing)
  | none ↦ elim (w.hlr.get_imsi2 phone) [
    | some other ↦ replies s (around w.config.msg_taken phone)
    | none ↦ add_user w s imsi phone
  ]
]

unfoldable pub run_register : World → Smq → Str → Str → Outcome
unfolding parse_phone phone_error register_phone
run_register w s imsi text =
    let v = parse_phone no_phone text in
    elim (phone_error w v) [ some e ↦ replies s e | none ↦ register_phone w s imsi v.phonenum ]
