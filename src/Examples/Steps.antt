-- ===== src/Examples/Steps.antt =====
-- The theorems on the steps of the manager, at the states of the parent module.
use smqueue.Prelude.{
  ◌<◌, ℤ, ◌≡◌, ◌⊎◌, ◌≤◌, refl, inl, true, false, [], ◌∷◌, none, some, codes, ok, fault, arith,
  Holds, Ensures, is_digit, ◌==◌, ◌>>=◌, str_eq, is_zero,
}
use smqueue.Sip.{Sip}
use smqueue.State.{
  initial_state, delete_me_state, request_destination_imsi, request_msg_delivery,
  asked_for_msg_delivery,
}
use smqueue.Message.{make_text_valid, Msg, set_msg_state, parse, new_msg}
use smqueue.Message.Tag.{taghash_of, set_qtag}
use smqueue.Message.Validate.{
  validate_parsed, structure_check, is_text, request_check, has_url, mime_check, to_check,
  relay_check, validate_short_msg,
}
use smqueue.Queue.{get, remove, insert_by_time}
use smqueue.Queue.Find.{first_tagged}
use smqueue.Smq.{World, Smq, process_incoming, sip_ack, manager}
use smqueue.Smq.Originate.{bounce_message}
use smqueue.Smq.Originate.Bounce.{Bounced, bounce_message-queue}
use smqueue.Smq.Lookup.{lookup_uri_imsi}
use smqueue.Smq.Lookup.States.{Routed, lookup_uri_imsi-Routed}
use smqueue.Smq.Pack.{pack_sms_for_delivery}
use smqueue.Smq.Commands.{run_whiplash_quit}
use smqueue.Smq.Commands.Faults.{whiplash_quit-password}
use smqueue.Smq.Commands.Register.{run_register}
use smqueue.Smq.Commands.Register.Digits.{number_of, count, run_register-Adds}
use smqueue.Smq.Response.{interim, answer, handle_response, handle_success, resend_timeout}
use smqueue.Smq.Response.InPlace.{handle_response-unknown, answer-blocks_head}
use smqueue.Smq.Timeout.{process_timeout, step_delivery}
use smqueue.Smq.Timeout.Limits.{unlimited, step_delivery-limit}
use smqueue.Smq.Threads.{receive, writer_step}
use smqueue.Smq.Held.{IsHeld}
use smqueue.Smq.Held.Threads.{starts, reads, Runs-IsHeld, receive-refused, received}
use smqueue.Smq.Held.Received.{Received, receive-Received}
use smqueue.Smq.Held.Acks.{handle_success-removes, writer_step-faults_after_response}
use smqueue.Smq.Moves.{Moved, state_in}
use smqueue.Smq.Moves.Stages.{Onward, process_timeout-Onward}
use smqueue.Smq.Moves.Steps.{process_timeout-Moved}
use smqueue.Examples.{alice, from_tag, message_sip, world, manager_of, value, tagged_msg}

abbrev hello : Sip
hello = message_sip alice from_tag (codes "411")

abbrev answered : Sip
answered = record hello { status_code = ℤ.pos 180; sip_method = none }

-- A message that waits for its answer, and the answer.
abbrev waiting : Msg
waiting = record (tagged_msg 0 hello) { state = asked_for_msg_delivery }

abbrev with_answer : Smq
with_answer = manager_of (tagged_msg 1 answered ∷ waiting ∷ []) 2

abbrev now : World
now = world (some hello) 100

abbrev after_hello : Smq
after_hello = value (receive now (manager_of [] 0) (codes "SIP") []) (manager_of [] 0)

Runs-IsHeld_example : IsHeld after_hello
unfolding receive validate_short_msg parse str_eq validate_parsed structure_check is_text is_zero
    request_check has_url mime_check to_check relay_check set_qtag
Runs-IsHeld_example =
    Runs-IsHeld (manager_of [] 0) after_hello (record { allocated = tt; distinct = tt })
      (reads (manager_of [] 0) after_hello now (codes "SIP") [] starts refl)

handle_response-unknown_example :
    handle_response now (manager_of (tagged_msg 1 answered ∷ []) 2) 1 ≡ ok (manager_of [] 2)
unfolding get remove taghash_of first_tagged new_msg
handle_response-unknown_example =
    handle_response-unknown now (manager_of (tagged_msg 1 answered ∷ []) 2) 1
      (tagged_msg 1 answered) (codes "12--a1") refl refl refl tt refl

answer-blocks_head_example :
    process_timeout
      (world none 60000)
      (value (answer now (manager_of (waiting ∷ []) 1) 0 answered interim) (manager_of [] 1))
    ≡ ok (value (answer now (manager_of (waiting ∷ []) 1) 0 answered interim) (manager_of [] 1))
unfolding answer resend_timeout new_msg
answer-blocks_head_example =
    answer-blocks_head now (world none 60000) (manager_of (waiting ∷ []) 1) waiting [] answered refl
      (omega arith) _ refl

lookup_uri_imsi-Routed_example :
    Holds (Routed (manager_of [] 1)) (lookup_uri_imsi now (manager_of [] 1) (tagged_msg 0 hello))
lookup_uri_imsi-Routed_example = lookup_uri_imsi-Routed now (manager_of [] 1) (tagged_msg 0 hello)

bounce_message-queue_example :
    Holds
      (Bounced (manager_of [] 1))
      (bounce_message now (manager_of [] 1) (tagged_msg 0 hello) (codes "no"))
bounce_message-queue_example =
    bounce_message-queue now (manager_of [] 1) (tagged_msg 0 hello) (codes "no")

run_register-Adds_example :
    (now.hlr.get_clid_local alice ≡ none)
    × (now.hlr.get_imsi2 (number_of (codes "5551234")) ≡ none)
    × (((now.config.register_digits_override ≡ true)
          × (count (λ c. c == b'!') (codes "5551234") ≡ 3))
        ⊎ ((7 ≤ count is_digit (codes "5551234")) × (count is_digit (codes "5551234") ≤ 10)))
unfolding run_register
run_register-Adds_example =
    run_register-Adds now (manager_of [] 1) alice (codes "5551234") (inl refl)

abbrev tried : Msg
tried = record (tagged_msg 0 hello) {
  state = request_msg_delivery;
  retries = 3;
  need_repack = false;
}

step_delivery-limit_example :
    ((0 < now.config.max_retries)
      × (now.config.max_retries < 4)
      × (step_delivery now (manager_of (tried ∷ []) 1) 0
          ≡ ok (
              manager_of
                (set_msg_state 100 (record tried { retries = 4 }) delete_me_state ∷ [])
                1)))
    ⊎ (((now.config.max_retries ≡ 0) ⊎ (4 ≤ now.config.max_retries))
        × (step_delivery now (manager_of (tried ∷ []) 1) 0
            ≡ step_delivery (unlimited now) (manager_of (tried ∷ []) 1) 0))
unfolding get new_msg pack_sms_for_delivery insert_by_time remove
step_delivery-limit_example =
    step_delivery-limit now (manager_of (tried ∷ []) 1) 0 tried (record tried { retries = 4 }) refl
      refl

receive-refused_example :
    (receive (world none 100) (manager_of [] 0) (codes "x") [] >>= writer_step now) ≡ fault
unfolding validate_short_msg parse received
receive-refused_example =
    receive-refused (world none 100) now (manager_of [] 0) (codes "x") [] _ 399
      (record { allocated = tt; distinct = tt }) refl refl

whiplash_quit-password_example : run_whiplash_quit now (manager_of [] 0) (codes "Snuggles") ≡ fault
whiplash_quit-password_example = whiplash_quit-password now (manager_of [] 0)

-- A message that is looked up.
abbrev looked_up : Msg
looked_up = record (tagged_msg 0 hello) { state = request_destination_imsi }

process_timeout-Moved_example :
    Holds (Moved request_destination_imsi 0) (process_timeout now (manager_of (looked_up ∷ []) 1))
unfolding new_msg
process_timeout-Moved_example =
    process_timeout-Moved now (manager_of (looked_up ∷ []) 1) looked_up [] refl (omega arith)
      (λ e. cc) (record { allocated = (omega arith, tt); distinct = (tt, tt) })

handle_success-removes_example :
    Holds (λ r. get 0 r.queue ≡ none) (handle_success now (manager_of (waiting ∷ []) 1) 0)
unfolding new_msg
handle_success-removes_example =
    handle_success-removes now (manager_of (waiting ∷ []) 1) 0
      (record { allocated = (omega arith, tt); distinct = (tt, tt) })

-- A response was received: it is to be processed, and then to be acknowledged.
abbrev response : Msg
response = record (tagged_msg 1 answered) { state = initial_state }

abbrev unknown_response : Smq
unknown_response = record (manager_of (response ∷ []) 2) {
  writer_queue = process_incoming ∷ sip_ack 202 1 ∷ [];
}

writer_step-faults_after_response_example :
    (writer_step now unknown_response >>= λ r. writer_step now r.0) ≡ fault
unfolding taghash_of first_tagged new_msg is_zero
writer_step-faults_after_response_example =
    writer_step-faults_after_response now now unknown_response response [] answered (codes "12--a1")
      202 [] (record { allocated = (omega arith, tt); distinct = (tt, tt) }) refl refl refl
      (omega arith) refl refl refl refl tt refl

process_timeout-Onward_example :
    Holds
      (λ r. Onward request_destination_imsi (state_in 0 r))
      (process_timeout now (manager_of (looked_up ∷ []) 1))
unfolding new_msg
process_timeout-Onward_example =
    process_timeout-Onward now (manager_of (looked_up ∷ []) 1) looked_up [] refl (omega arith)
      (λ e. cc) (record { allocated = (omega arith, tt); distinct = (tt, tt) })

receive-Received_example :
    Ensures (Received 0 (manager_of [] 0)) (receive now (manager_of [] 0) (codes "SIP") [])
unfolding validate_short_msg parse str_eq validate_parsed structure_check is_text is_zero
    request_check has_url mime_check to_check relay_check set_qtag received manager make_text_valid
receive-Received_example =
    receive-Received now (manager_of [] 0) (codes "SIP") [] _ 0 refl (λ e. (λ k. cc, tt))
