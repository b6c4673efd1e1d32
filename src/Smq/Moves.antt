-- ===== src/Smq/Moves.antt =====
-- The state machine of a message: which states process_timeout of smqueue/smqueue.cpp moves it to.
pub mod Delivery
pub mod ShortCodes
pub mod Steps
pub mod Stages
use smqueue.Prelude.{
  ℕ, ◌+◌, ◌*◌, ◌-◌, ◌≡◌, ◌≢◌, refl, ap, sym, ◌∙◌, subst, ◌⊎◌, inl, inr, Bool, true, false, ◌&&◌,
  List, [], ◌∷◌, Option, none, some, Str, Res, ok, fault, deref, ◌>>=◌, arith, Holds, >>=-Holds,
  >>=-Holds_eq, if-Holds, Holds-map, deref-eq_ok, ltb, leb,
}
use smqueue.State.{
  SmState, no_state, initial_state, request_from_address_lookup, asked_for_from_address_lookup,
  awaiting_try_destination_imsi, request_destination_imsi, asked_for_destination_imsi,
  awaiting_try_destination_sipurl, request_destination_sipurl, asked_for_destination_sipurl,
  awaiting_try_msg_delivery, request_msg_delivery, asked_for_msg_delivery, delete_me_state,
  awaiting_register_handset, register_handset, asked_to_register_handset,
}
use smqueue.Message.{Msg}
use smqueue.Queue.{get, remove, set_state}
use smqueue.Queue.Nodes.{get-set_state, get-remove}
use smqueue.Smq.{World, Smq}
use smqueue.Smq.Timeout.{move}
use smqueue.Smq.Held.{IsHeld}

-- The moves of a message; `none` is a message that has left the list.
pub data Next : SmState → Option SmState → Type 0 where
  -- A request: an ordinary message, and what short codes ask for.
  ordinary : Next initial_state (some request_from_address_lookup)
  restarted : Next initial_state (some initial_state)
  obeyed : Next initial_state (some delete_me_state)
  must_wait : Next initial_state (some awaiting_register_handset)
  registering : Next initial_state (some asked_to_register_handset)
  refused : Next initial_state (some no_state)
  -- The end.
  dropped : Next no_state none
  deleted : Next delete_me_state none
  -- The lookups.
  from_found : Next request_from_address_lookup (some request_destination_imsi)
  from_refused : Next request_from_address_lookup (some no_state)
  imsi_found : Next request_destination_imsi (some request_destination_sipurl)
  imsi_bounced : Next request_destination_imsi (some delete_me_state)
  imsi_refused : Next request_destination_imsi (some no_state)
  host_found : Next request_destination_sipurl (some request_msg_delivery)
  host_refused : Next request_destination_sipurl (some no_state)
  -- The delivery.
  sent : Next request_msg_delivery (some asked_for_msg_delivery)
  delayed : Next request_msg_delivery (some request_msg_delivery)
  given_up : Next request_msg_delivery (some delete_me_state)
  unpackable : Next request_msg_delivery (some no_state)
  unanswered : Next asked_for_msg_delivery (some awaiting_try_msg_delivery)
  retried : (st : Option SmState) → Next request_msg_delivery st → Next awaiting_try_msg_delivery st
  -- The registration.
  asked : Next register_handset (some asked_to_register_handset)
  not_asked : Next register_handset (some delete_me_state)
  not_ready : Next awaiting_register_handset (some awaiting_register_handset)
  ready : (st : Option SmState) → Next register_handset st → Next awaiting_register_handset st
  not_registered : Next asked_to_register_handset (some awaiting_register_handset)
  -- The states without a case of their own.
  from_start :
      (from : SmState) (st : Option SmState)
      → Next request_from_address_lookup st
      → (from ≡ asked_for_from_address_lookup)
        ⊎ (from ≡ awaiting_try_destination_imsi)
        ⊎ (from ≡ asked_for_destination_imsi)
        ⊎ (from ≡ awaiting_try_destination_sipurl)
        ⊎ (from ≡ asked_for_destination_sipurl)
      → Next from st

-- The state of the message in a node.
abbrev pub state_of : Option Msg → Option SmState
state_of none = none
state_of (some m) = some m.state

abbrev pub state_in : ℕ → Smq → Option SmState
state_in n s = state_of (get n s.queue)

-- A message that was in a state made one of the moves.
abbrev pub Moved : SmState → ℕ → Smq → Type 0
Moved from n r = Next from (state_in n r)

pub move-state_in :
    (w : World) (s : Smq) (n : ℕ) (st : SmState)
    → IsHeld s
    → Holds (λ r. state_in n r ≡ some st) (move w s n st)
unfolding move
move-state_in w s n st h =
    >>=-Holds_eq (λ r. state_in n r ≡ some st) (set_state w.now n st s.queue) _
      (λ q e.
        let (m, g, k) = get-set_state w.now n st s.queue q h.distinct e in
        ap state_of g ∙ ap some k)

pub move-Moved :
    (w : World) (s : Smq) (from : SmState) (n : ℕ) (st : SmState)
    → IsHeld s
    → Next from (some st)
    → Holds (Moved from n) (move w s n st)
move-Moved w s from n st h k =
    Holds-map (λ r. state_in n r ≡ some st) (Moved from n) (move w s n st)
      (λ r e. subst (Next from) (sym e) k) (move-state_in w s n st h)

pub remove-Moved :
    (s : Smq) (from : SmState) (n : ℕ)
    → IsHeld s
    → Next from none
    → Moved from n (record s { queue = remove n s.queue })
remove-Moved s from n h k =
    subst (Next from) (sym (ap state_of (get-remove n s.queue h.distinct))) k

-- The state that a lookup gives is one of two.
pub either-Next :
    (from st a b : SmState)
    → (st ≡ a) ⊎ (st ≡ b)
    → Next from (some a)
    → Next from (some b)
    → Next from (some st)
either-Next from st a b (inl e) h k = subst (λ t. Next from (some t)) (sym e) h
either-Next from st a b (inr e) h k = subst (λ t. Next from (some t)) (sym e) k
