-- ===== src/Examples/Messages.antt =====
-- The theorems on single messages and on the list, at the messages of the parent module.
use mathlib.Core.List.{Perm}
use smqueue.Prelude.{
  str_eq, is_zero, ◌≡◌, ◌↔◌, refl, false, [], ◌∷◌, none, some, codes, ok, fault, Ensures, arith,
}
use smqueue.Sip.{Sip}
use smqueue.State.{request_msg_delivery}
use smqueue.Message.{new_msg, parse, set_msg_state}
use smqueue.Message.Tag.{find_tag, make_qtag, set_qtag, taghash_of, IsTagged}
use smqueue.Message.Checks.{set_qtag_lem}
use smqueue.Message.Validate.{
  validate_parsed, is_text, request_check, has_url, mime_check, to_check, relay_check,
  structure_check, validate_short_msg, Manager,
}
use smqueue.Message.Accept.{IsAcceptable, IsAccepted, validate-accepts}
use smqueue.Message.Complete.{structure_check-iff-IsAcceptable, validate-faults_without_tag}
use smqueue.Queue.{get, remove, set_state, find_queued_msg}
use smqueue.Queue.Order.{IsSorted, set_state_lem}
use smqueue.Queue.Find.{first_tagged, find_queued_msg-eq-first_tagged}
use smqueue.Smq.{manager}
use smqueue.Smq.Phrases.{Known, structure_check-Known}
use smqueue.Examples.{
  alice, address_of, from_tag, message_sip, reading, world, manager_of, parsed_msg, tagged_msg,
}

abbrev hello : Sip
hello = message_sip alice from_tag (codes "411")

abbrev hello_untagged : Sip
hello_untagged = message_sip alice [] (codes "411")

abbrev asks : Manager
asks = manager (world none 0) (manager_of [] 0)

structure_check-iff-IsAcceptable_example : (structure_check hello ≡ 0) ↔ IsAcceptable hello
structure_check-iff-IsAcceptable_example = structure_check-iff-IsAcceptable hello

validate-accepts_example : IsAccepted (some hello) × IsTagged (tagged_msg 0 hello)
unfolding validate_short_msg parse validate_parsed structure_check is_text str_eq is_zero
    request_check has_url mime_check to_check relay_check set_qtag
validate-accepts_example =
    validate-accepts (reading (some hello)) asks false (parsed_msg 0 hello) (tagged_msg 0 hello)
      refl

set_qtag_lem_example :
    set_qtag (reading none) (parsed_msg 0 hello)
    ≡ ok (
      record (parsed_msg 0 hello) {
        qtag = some (make_qtag (codes "12") (codes "a1"));
        qtaghash = taghash_of (make_qtag (codes "12") (codes "a1"));
      },
      0,
    )
unfolding find_tag str_eq
set_qtag_lem_example =
    set_qtag_lem (reading none) (parsed_msg 0 hello) hello (address_of alice from_tag) _ _
      (codes "12") (codes "a1") refl refl refl refl refl refl refl (omega arith, (omega arith, tt))
      (omega arith, (omega arith, tt))

validate-faults_without_tag_example :
    validate_short_msg (reading none) asks false (parsed_msg 0 hello_untagged) ≡ fault
unfolding find_tag structure_check is_text str_eq is_zero request_check has_url mime_check to_check
validate-faults_without_tag_example =
    validate-faults_without_tag (reading none) asks (parsed_msg 0 hello_untagged) hello_untagged
      (address_of alice []) refl refl ((structure_check-iff-IsAcceptable hello_untagged).0 refl)
      (λ e. cc) refl refl

set_state_lem_example :
    Ensures
      (λ r.
        IsSorted r
        × Perm r
            (set_msg_state 7 (tagged_msg 0 hello) request_msg_delivery ∷ parsed_msg 1 hello ∷ []))
      (set_state 7 0 request_msg_delivery (tagged_msg 0 hello ∷ parsed_msg 1 hello ∷ []))
unfolding get remove new_msg
set_state_lem_example =
    set_state_lem 7 0 request_msg_delivery (tagged_msg 0 hello ∷ parsed_msg 1 hello ∷ [])
      (tagged_msg 0 hello) refl (tt, tt)

find_queued_msg-eq-first_tagged_example :
    find_queued_msg (codes "12--a1") (tagged_msg 3 hello ∷ [])
    ≡ ok (first_tagged (codes "12--a1") (tagged_msg 3 hello ∷ []))
unfolding taghash_of
find_queued_msg-eq-first_tagged_example =
    find_queued_msg-eq-first_tagged (codes "12--a1") (tagged_msg 3 hello ∷ []) (refl, tt)

structure_check-Known_example : Known (structure_check hello)
structure_check-Known_example = structure_check-Known hello
