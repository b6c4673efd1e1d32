-- ===== src/Smq/Moves/Steps.antt =====
-- Every step of process_timeout of smqueue/smqueue.cpp makes one of the moves.
use smqueue.Prelude.{
  ℕ, ◌≡◌, refl, ap, sym, ◌∙◌, subst, ◌⊎◌, inl, inr, false, List, ◌∷◌, some, codes, deref, arith,
  Holds, >>=-Holds, >>=-Holds_eq, if-Holds, Holds-map, Holds-both, deref-eq_ok, str_eq, ◌≤◌,
}
use smqueue.Sip.{Sip, is_response}
use smqueue.State.{
  SmState, no_state, initial_state, request_from_address_lookup, asked_for_from_address_lookup,
  awaiting_try_destination_imsi, request_destination_imsi, asked_for_destination_imsi,
  awaiting_try_destination_sipurl, request_destination_sipurl, asked_for_destination_sipurl,
  awaiting_try_msg_delivery, request_msg_delivery, asked_for_msg_delivery, delete_me_state,
  awaiting_register_handset, register_handset, asked_to_register_handset,
}
use smqueue.Message.{Msg, make_text_valid}
use smqueue.Message.Node.{SameNode1, node_of}
use smqueue.Queue.{get}
use smqueue.Queue.Nodes.{get-node}
use smqueue.Smq.{World, Smq, put_msg}
use smqueue.Smq.Originate.{ready_to_register}
use smqueue.Smq.Lookup.{lookup_from_address, lookup_uri_imsi, lookup_uri_hostport}
use smqueue.Smq.Lookup.States.{Routed, lookup_from_address-states, lookup_uri_imsi-Routed}
use smqueue.Smq.ShortCode.{handle_short_code}
use smqueue.Smq.Timeout.{
  move, or_address_lookup, step_initial, step_from_address, step_imsi, step_sipurl, step_delivery,
  step_register, step_await_register, step_other, dispatch, process_head, process_timeout,
}
use smqueue.Smq.Held.{IsHeld, IsHeld1}
use smqueue.Smq.Held.Changes.{
  lookup_from_address-SameNode, lookup_uri_hostport-SameNode, ready_to_register-SameNode,
}
use smqueue.Smq.Held.Commands.{put_msg-IsHeld}
use smqueue.Smq.Held.ShortCodes.{handle_short_code-IsHeld}
use smqueue.Smq.Held.Routes.{move-IsHeld, HeldWith, lookup_uri_imsi-HeldWith}
use smqueue.Smq.Moves
use smqueue.Smq.Moves.{
  Next, Moved, state_in, state_of, move-state_in, move-Moved, remove-Moved, either-Next,
}
use smqueue.Smq.Moves.ShortCodes.{Obeyed, handle_short_code-Obeyed}
use smqueue.Smq.Moves.Delivery.{
  OneOf, lookup_uri_hostport-OneOf, step_register-Moved, step_delivery-Moved,
}

-- The message has been parsed, and is a request.
abbrev pub IsRequest : Msg → Type 0
IsRequest m = (p : Sip) × (m.parsed ≡ some p) × (is_response p ≡ false)

step_initial-Moved :
    (w : World) (s : Smq) (n : ℕ) (m : Msg)
    → IsRequest m
    → IsHeld s
    → Holds (Moved initial_state n) (step_initial w s n m)
unfolding step_initial
step_initial-Moved w s n m (p, e, q) h =
    let P = Moved initial_state n in
    >>=-Holds_eq P (deref m.parsed) _ (λ k g.
      let same : k ≡ p = ground arith in
      if-Holds P (is_response k) _ _ (λ b. absurd (ground arith))
        (λ _. >>=-Holds_eq P (deref k.sip_method) _ (λ method _.
          if-Holds P (str_eq method (codes "MESSAGE")) _ _
            (λ _.
              >>=-Holds _ P (handle_short_code w s n) _
                (Holds-both IsHeld1 Obeyed (handle_short_code w s n)
                  (handle_short_code-IsHeld w s n h) (handle_short_code-Obeyed w s n))
                (λ r i. move-Moved w r.0 initial_state n (or_address_lookup r.1) i.0 i.1))
            (λ _. move-Moved w s initial_state n no_state h Moves.refused))))

step_from_address-Moved :
    (w : World) (s : Smq) (n : ℕ) (m : Msg)
    → m.node ≡ n
    → IsHeld s
    → Holds (Moved request_from_address_lookup n) (step_from_address w s n m)
unfolding step_from_address
step_from_address-Moved w s n m e h =
    >>=-Holds _ (Moved request_from_address_lookup n) (lookup_from_address w s m) _
      (Holds-both (SameNode1 m) (OneOf no_state request_destination_imsi)
        (lookup_from_address w s m) (lookup_from_address-SameNode w s m)
        (lookup_from_address-states w s m))
      (λ r k.
        move-Moved w (put_msg s n r.0) request_from_address_lookup n r.1
          (put_msg-IsHeld s n r.0 (node_of k.0 ∙ e) h)
          (either-Next request_from_address_lookup r.1 no_state request_destination_imsi k.1
            Moves.from_refused Moves.from_found))

step_sipurl-Moved :
    (w : World) (s : Smq) (n : ℕ) (m : Msg)
    → m.node ≡ n
    → IsHeld s
    → Holds (Moved request_destination_sipurl n) (step_sipurl w s n m)
unfolding step_sipurl
step_sipurl-Moved w s n m e h =
    >>=-Holds _ (Moved request_destination_sipurl n) (lookup_uri_hostport w s m) _
      (Holds-both (SameNode1 m) (OneOf no_state request_msg_delivery) (lookup_uri_hostport w s m)
        (lookup_uri_hostport-SameNode w s m) (lookup_uri_hostport-OneOf w s m))
      (λ r k.
        move-Moved w (put_msg s n r.0) request_destination_sipurl n r.1
          (put_msg-IsHeld s n r.0 (node_of k.0 ∙ e) h)
          (either-Next request_destination_sipurl r.1 no_state request_msg_delivery k.1
            Moves.host_refused Moves.host_found))

Routed-Next :
    (s r : Smq) (m : Msg) (st : SmState)
    → Routed s (r, m, st)
    → Next request_destination_imsi (some st)
Routed-Next s r m st (inl e) =
    subst (λ t. Next request_destination_imsi (some t)) (sym e) Moves.imsi_refused
Routed-Next s r m st (inr (inl k)) =
    subst (λ t. Next request_destination_imsi (some t)) (sym k.0) Moves.imsi_bounced
Routed-Next s r m st (inr (inr k)) =
    subst (λ t. Next request_destination_imsi (some t)) (sym k.0) Moves.imsi_found

step_imsi-Moved :
    (w : World) (s : Smq) (n : ℕ) (m : Msg)
    → m.node ≡ n
    → IsHeld s
    → Holds (Moved request_destination_imsi n) (step_imsi w s n m)
unfolding step_imsi
step_imsi-Moved w s n m e h =
    >>=-Holds _ (Moved request_destination_imsi n) (lookup_uri_imsi w s m) _
      (Holds-both (HeldWith m) (Routed s) (lookup_uri_imsi w s m) (lookup_uri_imsi-HeldWith w s m h)
        (lookup_uri_imsi-Routed w s m))
      (λ r k.
        move-Moved w (put_msg r.0 n r.1) request_destination_imsi n r.2
          (put_msg-IsHeld r.0 n r.1 (k.0.1 ∙ e) k.0.0) (Routed-Next s r.0 r.1 r.2 k.1))

step_await_register-Moved :
    (w : World) (s : Smq) (n : ℕ) (m : Msg)
    → m.node ≡ n
    → IsHeld s
    → Holds (Moved awaiting_register_handset n) (step_await_register w s n m)
unfolding step_await_register
step_await_register-Moved w s n m e h =
    let P = Moved awaiting_register_handset n in
    >>=-Holds (SameNode1 m) P (ready_to_register w m) _ (ready_to_register-SameNode w m) (λ r k.
      let t : Smq = put_msg s n r.0 in
      let i : IsHeld t = put_msg-IsHeld s n r.0 (node_of k ∙ e) h in
      if-Holds P r.1 _ _
        (λ _.
          >>=-Holds IsHeld P (move w t n register_handset) _ (move-IsHeld w t n register_handset i)
            (λ u j.
              Holds-map (Moved register_handset n) P (step_register w u n)
                (λ v l. Moves.ready (state_in n v) l) (step_register-Moved w u n j)))
        (λ _.
          move-Moved w t awaiting_register_handset n awaiting_register_handset i Moves.not_ready))

-- The states without a case of their own.
abbrev IsOther : SmState → Type 0
IsOther from =
    (from ≡ asked_for_from_address_lookup)
    ⊎ (from ≡ awaiting_try_destination_imsi)
    ⊎ (from ≡ asked_for_destination_imsi)
    ⊎ (from ≡ awaiting_try_destination_sipurl)
    ⊎ (from ≡ asked_for_destination_sipurl)

step_other-Moved :
    (w : World) (s : Smq) (from : SmState) (n : ℕ) (m : Msg)
    → IsOther from
    → IsHeld s
    → Holds (Moved from n) (step_other w s n m)
unfolding step_other
step_other-Moved w s from n m o h =
    >>=-Holds IsHeld (Moved from n) (move w s n initial_state) _ (move-IsHeld w s n initial_state h)
      (λ t i. >>=-Holds_eq (Moved from n) (deref (get n t.queue)) _ (λ k g.
        Holds-map (Moved request_from_address_lookup n) (Moved from n) (step_from_address w t n k)
          (λ r l. Moves.from_start from (state_in n r) l o)
          (step_from_address-Moved w t n k (get-node n t.queue (deref-eq_ok g)) i)))

pub dispatch-Moved :
    (w : World) (s : Smq) (n : ℕ) (m : Msg) (from : SmState)
    → m.node ≡ n
    → state_in n s ≡ some from
    → (from ≡ initial_state → IsRequest m)
    → IsHeld s
    → Holds (Moved from n) (dispatch w s n m from)
unfolding dispatch
dispatch-Moved w s n m initial_state e st q h = step_initial-Moved w s n m (q refl) h
dispatch-Moved w s n m no_state e st q h =
    >>=-Holds_eq (Moved no_state n) (make_text_valid w.outside m) _
      (λ k _. remove-Moved s no_state n h Moves.dropped)
dispatch-Moved w s n m delete_me_state e st q h = remove-Moved s delete_me_state n h Moves.deleted
dispatch-Moved w s n m request_from_address_lookup e st q h = step_from_address-Moved w s n m e h
dispatch-Moved w s n m request_destination_imsi e st q h = step_imsi-Moved w s n m e h
dispatch-Moved w s n m request_destination_sipurl e st q h = step_sipurl-Moved w s n m e h
dispatch-Moved w s n m awaiting_try_msg_delivery e st q h =
    >>=-Holds _ (Moved awaiting_try_msg_delivery n) (move w s n request_msg_delivery) _
      (Holds-both IsHeld (λ r. state_in n r ≡ some request_msg_delivery)
        (move w s n request_msg_delivery) (move-IsHeld w s n request_msg_delivery h)
        (move-state_in w s n request_msg_delivery h))
      (λ t i.
        Holds-map (Moved request_msg_delivery n) (Moved awaiting_try_msg_delivery n)
          (step_delivery w t n) (λ r l. Moves.retried (state_in n r) l)
          (step_delivery-Moved w t n i.1 i.0))
dispatch-Moved w s n m request_msg_delivery e st q h = step_delivery-Moved w s n st h
dispatch-Moved w s n m asked_for_msg_delivery e st q h =
    move-Moved w s asked_for_msg_delivery n awaiting_try_msg_delivery h Moves.unanswered
dispatch-Moved w s n m awaiting_register_handset e st q h = step_await_register-Moved w s n m e h
dispatch-Moved w s n m register_handset e st q h = step_register-Moved w s n h
dispatch-Moved w s n m asked_to_register_handset e st q h =
    move-Moved w s asked_to_register_handset n awaiting_register_handset h Moves.not_registered
dispatch-Moved w s n m asked_for_from_address_lookup e st q h =
    step_other-Moved w s asked_for_from_address_lookup n m (inl refl) h
dispatch-Moved w s n m awaiting_try_destination_imsi e st q h =
    step_other-Moved w s awaiting_try_destination_imsi n m (inr (inl refl)) h
dispatch-Moved w s n m asked_for_destination_imsi e st q h =
    step_other-Moved w s asked_for_destination_imsi n m (inr (inr (inl refl))) h
dispatch-Moved w s n m awaiting_try_destination_sipurl e st q h =
    step_other-Moved w s awaiting_try_destination_sipurl n m (inr (inr (inr (inl refl)))) h
dispatch-Moved w s n m asked_for_destination_sipurl e st q h =
    step_other-Moved w s asked_for_destination_sipurl n m (inr (inr (inr (inr refl)))) h

pub get-head : (m : Msg) (q : List Msg) → get m.node (m ∷ q) ≡ some m
unfolding get
get-head m q = ground arith

pub due-dispatch :
    (w : World) (s : Smq) (m : Msg) (q : List Msg)
    → s.queue ≡ m ∷ q
    → m.next_action_time ≤ w.now
    → process_timeout w s ≡ dispatch w s m.node m m.state
unfolding process_timeout process_head
due-dispatch w s m q e due = ground arith

-- Where process_timeout returns, for a message at the head that is due, and that is a request if it is
-- in the initial state: the message made one of the moves of the state machine, in its own node, or it
-- left the list where the machine says so. No two messages share a list node at the start.
pub process_timeout-Moved :
    (w : World) (s : Smq) (m : Msg) (q : List Msg)
    → s.queue ≡ m ∷ q
    → m.next_action_time ≤ w.now
    → (m.state ≡ initial_state → IsRequest m)
    → IsHeld s
    → Holds (Moved m.state m.node) (process_timeout w s)
process_timeout-Moved w s m q e due r h =
    let at : state_in m.node s ≡ some m.state =
      ap (λ (l : List Msg). state_of (get m.node l)) e ∙ ap state_of (get-head m q) in
    subst (Holds (Moved m.state m.node)) (sym (due-dispatch w s m q e due))
      (dispatch-Moved w s m.node m m.state refl at r h)
