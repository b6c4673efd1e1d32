-- ===== src/Smq/Moves/Stages.antt =====
-- The stages of a message under process_timeout of smqueue/smqueue.cpp.
use smqueue.Prelude.{
  ℕ, ◌≤◌, ◌≡◌, refl, ap, ◌∙◌, ◌⊎◌, inl, inr, List, ◌∷◌, Option, none, some, arith, Holds, Holds-map,
}
use smqueue.State.{
  SmState, no_state, initial_state, request_from_address_lookup, asked_for_from_address_lookup,
  awaiting_try_destination_imsi, request_destination_imsi, asked_for_destination_imsi,
  awaiting_try_destination_sipurl, request_destination_sipurl, asked_for_destination_sipurl,
  awaiting_try_msg_delivery, request_msg_delivery, asked_for_msg_delivery, delete_me_state,
  awaiting_register_handset, register_handset, asked_to_register_handset,
}
use smqueue.Message.{Msg}
use smqueue.Smq.{World, Smq}
use smqueue.Smq.Timeout.{process_timeout}
use smqueue.Smq.Held.{IsHeld}
use smqueue.Smq.Moves.{
  Next, Moved, state_in, ordinary, restarted, obeyed, must_wait, registering, refused, dropped,
  deleted, from_found, from_refused, imsi_found, imsi_bounced, imsi_refused, host_found,
  host_refused, sent, delayed, given_up, unpackable, unanswered, retried, asked, not_asked,
  not_ready, ready, not_registered, from_start,
}
use smqueue.Smq.Moves.Steps.{IsRequest, process_timeout-Moved}

-- How far a message has come: it is new, its sender, its recipient and the host of the recipient are
-- looked up, it is delivered or its handset is registered, and it is done with.
unfoldable pub stage : SmState → ℕ
stage initial_state = 0
stage request_from_address_lookup = 1
stage asked_for_from_address_lookup = 1
stage awaiting_try_destination_imsi = 1
stage asked_for_destination_imsi = 1
stage awaiting_try_destination_sipurl = 1
stage asked_for_destination_sipurl = 1
stage request_destination_imsi = 2
stage request_destination_sipurl = 3
stage awaiting_try_msg_delivery = 4
stage request_msg_delivery = 4
stage asked_for_msg_delivery = 4
stage awaiting_register_handset = 4
stage register_handset = 4
stage asked_to_register_handset = 4
stage no_state = 5
stage delete_me_state = 5

-- Behind the last stage a message has left the list.
unfoldable pub stage_of : Option SmState → ℕ
unfolding stage
stage_of none = 6
stage_of (some st) = stage st

-- From a state on, a message comes to no earlier stage, and stays in its stage only where it is new, or
-- waits for its delivery or its registration.
abbrev pub Onward : SmState → Option SmState → Type 0
Onward from st =
    (stage from ≤ stage_of st) × (stage_of st ≡ stage from → (stage from ≡ 0) ⊎ (stage from ≡ 4))

looked_up-stage :
    (from : SmState)
    → (from ≡ asked_for_from_address_lookup)
      ⊎ (from ≡ awaiting_try_destination_imsi)
      ⊎ (from ≡ asked_for_destination_imsi)
      ⊎ (from ≡ awaiting_try_destination_sipurl)
      ⊎ (from ≡ asked_for_destination_sipurl)
    → stage from ≡ stage request_from_address_lookup
unfolding stage
looked_up-stage from (inl e) = ap stage e
looked_up-stage from (inr (inl e)) = ap stage e
looked_up-stage from (inr (inr (inl e))) = ap stage e
looked_up-stage from (inr (inr (inr (inl e)))) = ap stage e
looked_up-stage from (inr (inr (inr (inr e)))) = ap stage e

Next-Onward : (from : SmState) (st : Option SmState) → Next from st → Onward from st
unfolding stage stage_of
Next-Onward _ _ ordinary = (omega arith, λ e. inl refl)
Next-Onward _ _ restarted = (omega arith, λ e. inl refl)
Next-Onward _ _ obeyed = (omega arith, λ e. inl refl)
Next-Onward _ _ must_wait = (omega arith, λ e. inl refl)
Next-Onward _ _ registering = (omega arith, λ e. inl refl)
Next-Onward _ _ refused = (omega arith, λ e. inl refl)
Next-Onward _ _ dropped = (omega arith, λ e. absurd (omega arith))
Next-Onward _ _ deleted = (omega arith, λ e. absurd (omega arith))
Next-Onward _ _ from_found = (omega arith, λ e. absurd (omega arith))
Next-Onward _ _ from_refused = (omega arith, λ e. absurd (omega arith))
Next-Onward _ _ imsi_found = (omega arith, λ e. absurd (omega arith))
Next-Onward _ _ imsi_bounced = (omega arith, λ e. absurd (omega arith))
Next-Onward _ _ imsi_refused = (omega arith, λ e. absurd (omega arith))
Next-Onward _ _ host_found = (omega arith, λ e. absurd (omega arith))
Next-Onward _ _ host_refused = (omega arith, λ e. absurd (omega arith))
Next-Onward _ _ sent = (omega arith, λ e. inr refl)
Next-Onward _ _ delayed = (omega arith, λ e. inr refl)
Next-Onward _ _ given_up = (omega arith, λ e. inr refl)
Next-Onward _ _ unpackable = (omega arith, λ e. inr refl)
Next-Onward _ _ unanswered = (omega arith, λ e. inr refl)
Next-Onward _ _ (retried st k) = Next-Onward request_msg_delivery st k
Next-Onward _ _ asked = (omega arith, λ e. inr refl)
Next-Onward _ _ not_asked = (omega arith, λ e. inr refl)
Next-Onward _ _ not_ready = (omega arith, λ e. inr refl)
Next-Onward _ _ (ready st k) = Next-Onward register_handset st k
Next-Onward _ _ not_registered = (omega arith, λ e. inr refl)
Next-Onward _ _ (from_start from st k o) =
    let (i, j) = Next-Onward request_from_address_lookup st k in
    let e = looked_up-stage from o in (ground (arith, e, i), λ q. ground (arith, e, j (q ∙ e)))

-- Where process_timeout returns, for a message at the head that is due, and that is a request if it is
-- in the initial state: this message is in no earlier stage than before, and in the same stage only if it
-- is new, or if it waits for its delivery or its registration. Of the other messages of the queue, which
-- a response may send back, nothing is said. No two messages share a list node at the start.
pub process_timeout-Onward :
    (w : World) (s : Smq) (m : Msg) (q : List Msg)
    → s.queue ≡ m ∷ q
    → m.next_action_time ≤ w.now
    → (m.state ≡ initial_state → IsRequest m)
    → IsHeld s
    → Holds (λ r. Onward m.state (state_in m.node r)) (process_timeout w s)
process_timeout-Onward w s m q e due r h =
    Holds-map (Moved m.state m.node) (λ t. Onward m.state (state_in m.node t)) (process_timeout w s)
      (λ t k. Next-Onward m.state (state_in m.node t) k) (process_timeout-Moved w s m q e due r h)
