-- ===== src/Message/Carried.antt =====
-- What validate_short_msg of smqueue/smqueue.cpp leaves alone in a message of smqueue/smqueue.h.
use smqueue.Prelude.{
  ap, ℕ, zero, suc, ◌≡◌, refl, ◌∙◌, Bool, true, false, Option, none, some, Str, ok, deref, arith,
  Holds, >>=-Holds, >>=-Holds_eq, if-Holds, eq_ok-Holds, Holds-map, Option-cases, inl, inr, codes,
}
use smqueue.Sip.{Sip, Outside}
use smqueue.Message.{
  vnd_3gpp_sms, Msg, make_text_valid, unparse, parse_rp_data, parse_content, parse, media_is,
}
use smqueue.Message.Tag.{store_qtag, qtag_of_parsed, set_qtag}
use smqueue.Message.Validate.{
  structure_check, Manager, relay_check, validate_parsed, validate_short_msg,
}

-- The text, the address, the direction, the mark for packing, and whether the text is out of date.
abbrev pub carried : Msg → Option Str × Str × Bool × Bool × Bool
carried m = (m.text, m.srcaddr, m.ms_to_sc, m.need_repack, m.parsed_is_better)

abbrev pub Carries {κ} : {A : Type κ} → Msg → Msg × A → Type 0
Carries m r = carried r.0 ≡ carried m

parse_rp_data-Carries : (o : Outside) (p : Sip) (m : Msg) → Holds (Carries m) (parse_rp_data o p m)
unfolding parse_rp_data
parse_rp_data-Carries o p m = eq_ok-Holds (Carries m) _ (λ r h. ground arith)

parse_content-Carries : (o : Outside) (p : Sip) (m : Msg) → Holds (Carries m) (parse_content o p m)
unfolding parse_content
parse_content-Carries o p m = elim (Option-cases p.content_type) [
  | inl e ↦ rw e refl
  | inr (t, e) ↦ rw e (
      >>=-Holds_eq (Carries m) (media_is t (codes "text") (codes "plain")) _ (λ plain _.
        if-Holds (Carries m) plain _ _ (λ _. refl)
          (λ _.
            >>=-Holds_eq (Carries m) (media_is t (codes "application") (codes "vnd.3gpp.sms")) _
              (λ sms _.
                if-Holds (Carries m) sms _ _
                  (λ _. parse_rp_data-Carries o p (record m { content_type = vnd_3gpp_sms }))
                  (λ _. refl)))))
]

-- A text that is up to date is not printed again.
unparse-carried :
    (o : Outside) (m : Msg)
    → m.parsed_is_better ≡ false
    → Holds (λ r. carried r ≡ carried m) (unparse o m)
unfolding unparse make_text_valid
unparse-carried o m h = rw h refl

parse-Carries : (o : Outside) (m : Msg) → m.parsed_is_better ≡ false → Holds (Carries m) (parse o m)
unfolding parse
parse-Carries o m b =
    if-Holds (Carries m) m.parsed_is_valid _ _ (λ _. refl)
      (λ _.
        >>=-Holds (λ r. carried r ≡ carried m) (Carries m) (unparse o m) _ (unparse-carried o m b)
          (λ r h. read r h (o.osip_parse _)))
  where
    read :
        (r : Msg)
        → carried r ≡ carried m
        → (p : Option Sip)
        → Holds (Carries {A = Bool} m) (elim p [
          | none ↦ ok (r, false)
          | some p ↦
              parse_content o p
                (record r { parsed = some p; parsed_is_valid = true; parsed_is_better = false })
        ])
    read r h none = h
    read r h (some p) =
        Holds-map
          (Carries (record r { parsed = some p; parsed_is_valid = true; parsed_is_better = false }))
          (Carries m) _ (λ a k. k ∙ ground (arith, h, b)) (parse_content-Carries o p _)

qtag_of_parsed-Carries : (m : Msg) (p : Sip) → Holds (Carries m) (qtag_of_parsed m p)
unfolding qtag_of_parsed store_qtag
qtag_of_parsed-Carries m p = eq_ok-Holds (Carries m) _ (λ r h. ground arith)

is_better : (m r : Msg) → carried r ≡ carried m → r.parsed_is_better ≡ m.parsed_is_better
is_better m r e = ap (λ (c : Option Str × Str × Bool × Bool × Bool). c.4) e

set_qtag-Carries :
    (o : Outside) (m : Msg) → m.parsed_is_better ≡ false → Holds (Carries m) (set_qtag o m)
unfolding set_qtag
set_qtag-Carries o m b =
    if-Holds (Carries m) m.parsed_is_valid _ _
      (λ _. >>=-Holds_eq (Carries m) (deref m.parsed) _ (λ p _. qtag_of_parsed-Carries m p))
      (λ _. >>=-Holds (Carries m) (Carries m) (parse o m) _ (parse-Carries o m b) (λ a h.
        if-Holds (Carries m) a.1 _ _
          (λ _. >>=-Holds_eq (Carries m) (deref a.0.parsed) _ (λ p _.
            Holds-map (Carries a.0) (Carries m) _ (λ b k. k ∙ h) (qtag_of_parsed-Carries a.0 p)))
          (λ _. h)))

validate_parsed-Carries :
    (o : Outside) (w : Manager) (m : Msg)
    → m.parsed_is_better ≡ false
    → Holds (Carries m) (validate_parsed o w false m)
unfolding validate_parsed relay_check
validate_parsed-Carries o w m b = parsed m.parsed
  where
    checked :
        (p : Sip) (n : ℕ)
        → Holds
            (Carries {A = ℕ} m)
            (elim n [ zero ↦ relay_check o w false m p | suc code ↦ ok (m, suc code) ])
    checked p zero = set_qtag-Carries o m b
    checked p (suc n) = refl

    parsed :
        (p : Option Sip)
        → Holds (Carries {A = ℕ} m) (elim p [
          | none ↦ ok (m, 400)
          | some p ↦ elim (structure_check p) [
            | zero ↦ relay_check o w false m p
            | suc code ↦ ok (m, suc code)
          ]
        ])
    parsed none = refl
    parsed (some p) = checked p (structure_check p)

-- A message whose text is up to date keeps it, its address, its direction and its mark for packing.
pub validate_short_msg-Carries :
    (o : Outside) (w : Manager) (m : Msg)
    → m.parsed_is_better ≡ false
    → Holds (Carries m) (validate_short_msg o w false m)
unfolding validate_short_msg
validate_short_msg-Carries o w m b =
    >>=-Holds (Carries m) (Carries m) (parse o m) _ (parse-Carries o m b) (λ a h.
      if-Holds (Carries m) a.1 _ _
        (λ _.
          Holds-map (Carries a.0) (Carries m) _ (λ c k. k ∙ h)
            (validate_parsed-Carries o w a.0 (is_better m a.0 h ∙ b)))
        (λ _. h))
