-- ===== src/Message/Node.antt =====
-- Parsing, printing, tagging and validating a message of smqueue/smqueue.h keep it in its list node and its state.
use smqueue.Prelude.{
  ap, ℕ, zero, suc, ◌≡◌, refl, ◌∙◌, Bool, true, false, ◌&&◌, Option, none, some, ok, deref, arith,
  Holds, >>=-Holds, >>=-Holds_eq, if-Holds, eq_ok-Holds, Holds-map, Option-cases, inl, inr, codes,
}
use smqueue.State.{SmState}
use smqueue.Sip.{Sip, Outside}
use smqueue.Message.{
  vnd_3gpp_sms, Msg, make_text_valid, unparse, parse_rp_data, parse_content, parse, media_is,
}
use smqueue.Message.Tag.{store_qtag, qtag_of_parsed, set_qtag}
use smqueue.Message.Validate.{
  is_relayed, to_user, structure_check, Manager, relay_check, validate_parsed, validate_short_msg,
}

-- What the list knows of a message: where it is, and in which state.
abbrev pub place : Msg → ℕ × SmState
place m = (m.node, m.state)

-- A message in the node and in the state of another one.
abbrev pub SameNode : Msg → Msg → Type 0
SameNode m r = place r ≡ place m

abbrev pub SameNode1 {κ} : {A : Type κ} → Msg → Msg × A → Type 0
SameNode1 m r = place r.0 ≡ place m

pub node_of : {p q : ℕ × SmState} → p ≡ q → p.0 ≡ q.0
node_of e = ap (λ (p : ℕ × SmState). p.0) e

pub make_text_valid-SameNode : (o : Outside) (m : Msg) → Holds (SameNode m) (make_text_valid o m)
unfolding make_text_valid
make_text_valid-SameNode o m = eq_ok-Holds (SameNode m) _ (λ r h. ground arith)

pub unparse-SameNode : (o : Outside) (m : Msg) → Holds (SameNode m) (unparse o m)
unfolding unparse make_text_valid
unparse-SameNode o m = eq_ok-Holds (SameNode m) _ (λ r h. ground arith)

parse_rp_data-SameNode :
    (o : Outside) (p : Sip) (m : Msg) → Holds (SameNode1 m) (parse_rp_data o p m)
unfolding parse_rp_data
parse_rp_data-SameNode o p m = eq_ok-Holds (SameNode1 m) _ (λ r h. ground arith)

parse_content-SameNode :
    (o : Outside) (p : Sip) (m : Msg) → Holds (SameNode1 m) (parse_content o p m)
unfolding parse_content
parse_content-SameNode o p m = elim (Option-cases p.content_type) [
  | inl e ↦ rw e refl
  | inr (t, e) ↦ rw e (
      >>=-Holds_eq (SameNode1 m) (media_is t (codes "text") (codes "plain")) _ (λ plain _.
        if-Holds (SameNode1 m) plain _ _ (λ _. refl)
          (λ _.
            >>=-Holds_eq (SameNode1 m) (media_is t (codes "application") (codes "vnd.3gpp.sms")) _
              (λ sms _.
                if-Holds (SameNode1 m) sms _ _
                  (λ _. parse_rp_data-SameNode o p (record m { content_type = vnd_3gpp_sms }))
                  (λ _. refl)))))
]

read-SameNode :
    (o : Outside) (m r : Msg) (p : Option Sip)
    → SameNode m r
    → Holds (SameNode1 {A = Bool} m) (elim p [
      | none ↦ ok (r, false)
      | some p ↦
          parse_content o p
            (record r { parsed = some p; parsed_is_valid = true; parsed_is_better = false })
    ])
read-SameNode o m r none h = h
read-SameNode o m r (some p) h =
    Holds-map (SameNode1 r) (SameNode1 m) _ (λ a k. k ∙ h) (parse_content-SameNode o p _)

pub parse-SameNode : (o : Outside) (m : Msg) → Holds (SameNode1 m) (parse o m)
unfolding parse
parse-SameNode o m =
    if-Holds (SameNode1 m) m.parsed_is_valid _ _ (λ _. refl)
      (λ _.
        >>=-Holds (SameNode m) (SameNode1 m) (unparse o m) _ (unparse-SameNode o m)
          (λ r h. read-SameNode o m r (o.osip_parse _) h))

qtag_of_parsed-SameNode : (m : Msg) (p : Sip) → Holds (SameNode1 m) (qtag_of_parsed m p)
unfolding qtag_of_parsed store_qtag
qtag_of_parsed-SameNode m p = eq_ok-Holds (SameNode1 m) _ (λ r h. ground arith)

pub set_qtag-SameNode : (o : Outside) (m : Msg) → Holds (SameNode1 m) (set_qtag o m)
unfolding set_qtag
set_qtag-SameNode o m =
    if-Holds (SameNode1 m) m.parsed_is_valid _ _
      (λ _. >>=-Holds_eq (SameNode1 m) (deref m.parsed) _ (λ p _. qtag_of_parsed-SameNode m p))
      (λ _. >>=-Holds (SameNode1 m) (SameNode1 m) (parse o m) _ (parse-SameNode o m) (λ a h.
        if-Holds (SameNode1 m) a.1 _ _
          (λ _. >>=-Holds_eq (SameNode1 m) (deref a.0.parsed) _ (λ p _.
            Holds-map (SameNode1 a.0) (SameNode1 m) _ (λ b k. k ∙ h)
              (qtag_of_parsed-SameNode a.0 p)))
          (λ _. h)))

relay_check-SameNode :
    (o : Outside) (w : Manager) (early : Bool) (m : Msg) (p : Sip)
    → Holds (SameNode1 m) (relay_check o w early m p)
unfolding relay_check
relay_check-SameNode o w early m p =
    if-Holds (SameNode1 m) (early && is_relayed w m p) _ _
      (λ _. >>=-Holds_eq (SameNode1 m) (to_user p) _ (λ user _.
        if-Holds (SameNode1 m) (w.to_is_deliverable user) _ _
          (λ _. set_qtag-SameNode o (record m { from_relay = true })) (λ _. refl)))
      (λ _. set_qtag-SameNode o m)

validate_parsed-SameNode :
    (o : Outside) (w : Manager) (early : Bool) (m : Msg)
    → Holds (SameNode1 m) (validate_parsed o w early m)
unfolding validate_parsed
validate_parsed-SameNode o w early m = parsed m.parsed
  where
    checked :
        (p : Sip) (n : ℕ)
        → Holds
            (SameNode1 {A = ℕ} m)
            (elim n [ zero ↦ relay_check o w early m p | suc code ↦ ok (m, suc code) ])
    checked p zero = relay_check-SameNode o w early m p
    checked p (suc n) = refl

    parsed :
        (p : Option Sip)
        → Holds (SameNode1 {A = ℕ} m) (elim p [
          | none ↦ ok (m, 400)
          | some p ↦ elim (structure_check p) [
            | zero ↦ relay_check o w early m p
            | suc code ↦ ok (m, suc code)
          ]
        ])
    parsed none = refl
    parsed (some p) = checked p (structure_check p)

pub validate_short_msg-SameNode :
    (o : Outside) (w : Manager) (early : Bool) (m : Msg)
    → Holds (SameNode1 m) (validate_short_msg o w early m)
unfolding validate_short_msg
validate_short_msg-SameNode o w early m =
    >>=-Holds (SameNode1 m) (SameNode1 m) (parse o m) _ (parse-SameNode o m) (λ a h.
      if-Holds (SameNode1 m) a.1 _ _
        (λ _.
          Holds-map (SameNode1 a.0) (SameNode1 m) _ (λ b k. k ∙ h)
            (validate_parsed-SameNode o w early a.0))
        (λ _. h))
