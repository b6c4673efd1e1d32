-- ===== src/Smq/Held/Steps.antt =====
-- Every step of the state machine of smqueue/smqueue.cpp keeps every message in a list node of its own.
use smqueue.Prelude.{
  ℕ, ◌+◌, ◌*◌, ◌-◌, ◌≡◌, ◌∙◌, codes, deref, Holds, >>=-Holds, >>=-Holds_eq, if-Holds, deref-eq_ok,
  ◌&&◌, str_eq, ltb, leb,
}
use smqueue.Sip.{is_response}
use smqueue.State.{
  SmState, no_state, initial_state, request_from_address_lookup, asked_for_from_address_lookup,
  awaiting_try_destination_imsi, request_destination_imsi, asked_for_destination_imsi,
  awaiting_try_destination_sipurl, request_destination_sipurl, asked_for_destination_sipurl,
  awaiting_try_msg_delivery, request_msg_delivery, asked_for_msg_delivery, delete_me_state,
  awaiting_register_handset, register_handset, asked_to_register_handset,
}
use smqueue.Message.{Msg, make_text_valid}
use smqueue.Message.Node.{node_of, SameNode, SameNode1}
use smqueue.Queue.{get}
use smqueue.Queue.Nodes.{get-node}
use smqueue.Smq.{World, Smq, put_msg}
use smqueue.Smq.Originate.{register_handset_msg, ready_to_register}
use smqueue.Smq.Lookup.{lookup_uri_imsi, lookup_from_address, lookup_uri_hostport}
use smqueue.Smq.Pack.{pack_sms_for_delivery}
use smqueue.Smq.ShortCode.{handle_short_code}
use smqueue.Smq.Timeout.{
  move, or_address_lookup, step_initial, step_from_address, step_imsi, step_sipurl,
  deliver_msg_datagram, send_datagram, limited_delivery, step_delivery, step_register,
  step_await_register, step_other, dispatch,
}
use smqueue.Smq.Held.{IsHeld, IsHeld1}
use smqueue.Smq.Held.Changes.{
  lookup_from_address-SameNode, lookup_uri_hostport-SameNode, pack_sms_for_delivery-SameNode,
  deliver_msg_datagram-SameNode, ready_to_register-SameNode,
}
use smqueue.Smq.Held.Commands.{put_msg-IsHeld, remove-IsHeld, register_handset_msg-IsHeld}
use smqueue.Smq.Held.ShortCodes.{handle_short_code-IsHeld}
use smqueue.Smq.Held.Routes.{move-IsHeld, HeldWith, lookup_uri_imsi-HeldWith}
use smqueue.Smq.Held.Responses.{handle_response-IsHeld}

step_initial-IsHeld :
    (w : World) (s : Smq) (n : ℕ) (m : Msg) → IsHeld s → Holds IsHeld (step_initial w s n m)
unfolding step_initial
step_initial-IsHeld w s n m h = >>=-Holds_eq IsHeld (deref m.parsed) _ (λ p _.
    if-Holds IsHeld (is_response p) _ _ (λ _. handle_response-IsHeld w s n h)
      (λ _. >>=-Holds_eq IsHeld (deref p.sip_method) _ (λ method _.
        if-Holds IsHeld (str_eq method (codes "MESSAGE")) _ _
          (λ _.
            >>=-Holds IsHeld1 IsHeld (handle_short_code w s n) _ (handle_short_code-IsHeld w s n h)
              (λ r i. move-IsHeld w r.0 n (or_address_lookup r.1) i))
          (λ _. move-IsHeld w s n no_state h))))

step_from_address-IsHeld :
    (w : World) (s : Smq) (n : ℕ) (m : Msg)
    → m.node ≡ n
    → IsHeld s
    → Holds IsHeld (step_from_address w s n m)
unfolding step_from_address
step_from_address-IsHeld w s n m e h =
    >>=-Holds (SameNode1 m) IsHeld (lookup_from_address w s m) _
      (lookup_from_address-SameNode w s m)
      (λ r k. move-IsHeld w (put_msg s n r.0) n r.1 (put_msg-IsHeld s n r.0 (node_of k ∙ e) h))

step_imsi-IsHeld :
    (w : World) (s : Smq) (n : ℕ) (m : Msg)
    → m.node ≡ n
    → IsHeld s
    → Holds IsHeld (step_imsi w s n m)
unfolding step_imsi
step_imsi-IsHeld w s n m e h =
    >>=-Holds (HeldWith m) IsHeld (lookup_uri_imsi w s m) _ (lookup_uri_imsi-HeldWith w s m h)
      (λ r k. move-IsHeld w (put_msg r.0 n r.1) n r.2 (put_msg-IsHeld r.0 n r.1 (k.1 ∙ e) k.0))

step_sipurl-IsHeld :
    (w : World) (s : Smq) (n : ℕ) (m : Msg)
    → m.node ≡ n
    → IsHeld s
    → Holds IsHeld (step_sipurl w s n m)
unfolding step_sipurl
step_sipurl-IsHeld w s n m e h =
    >>=-Holds (SameNode1 m) IsHeld (lookup_uri_hostport w s m) _
      (lookup_uri_hostport-SameNode w s m)
      (λ r k. move-IsHeld w (put_msg s n r.0) n r.1 (put_msg-IsHeld s n r.0 (node_of k ∙ e) h))

send_datagram-IsHeld :
    (w : World) (s : Smq) (n : ℕ) (m : Msg)
    → m.node ≡ n
    → IsHeld s
    → Holds IsHeld (send_datagram w s n m)
unfolding send_datagram
send_datagram-IsHeld w s n m e h =
    >>=-Holds (SameNode m) IsHeld (deliver_msg_datagram w m) _ (deliver_msg_datagram-SameNode w m)
      (λ r k.
        move-IsHeld w (put_msg s n r) n asked_for_msg_delivery
          (put_msg-IsHeld s n r (node_of k ∙ e) h))

limited_delivery-IsHeld :
    (w : World) (s : Smq) (n : ℕ) (m : Msg)
    → m.node ≡ n
    → IsHeld s
    → Holds IsHeld (limited_delivery w s n m)
unfolding limited_delivery
limited_delivery-IsHeld w s n m e h =
    if-Holds IsHeld (ltb 0 w.config.max_retries && ltb w.config.max_retries m.retries) _ _
      (λ _. move-IsHeld w (put_msg s n m) n delete_me_state (put_msg-IsHeld s n m e h))
      (λ _.
        if-Holds IsHeld (ltb 0 (w.config.rate_limit * 1000)) _ _
          (λ _.
            if-Holds IsHeld (leb (w.now - s.spacing_timer) (w.config.rate_limit * 1000)) _ _
              (λ _.
                put_msg-IsHeld s n
                  (record m { next_action_time = m.next_action_time + w.config.rate_limit * 1000 })
                  e h)
              (λ _. send_datagram-IsHeld w (record s { spacing_timer = w.now }) n m e h))
          (λ _. send_datagram-IsHeld w s n m e h))

step_delivery-IsHeld : (w : World) (s : Smq) (n : ℕ) → IsHeld s → Holds IsHeld (step_delivery w s n)
unfolding step_delivery
step_delivery-IsHeld w s n h = >>=-Holds_eq IsHeld (deref (get n s.queue)) _ (λ m g.
    let k : Msg = record m { retries = m.retries + 1 } in
    >>=-Holds (SameNode1 k) IsHeld (pack_sms_for_delivery w.outside k) _
      (pack_sms_for_delivery-SameNode w.outside k)
      (λ r l.
        let e = node_of l ∙ get-node n s.queue (deref-eq_ok g) in
        if-Holds IsHeld r.1 _ _ (λ _. limited_delivery-IsHeld w s n r.0 e h)
          (λ _. move-IsHeld w (put_msg s n r.0) n no_state (put_msg-IsHeld s n r.0 e h))))

step_register-IsHeld : (w : World) (s : Smq) (n : ℕ) → IsHeld s → Holds IsHeld (step_register w s n)
unfolding step_register
step_register-IsHeld w s n h =
    >>=-Holds IsHeld1 IsHeld (register_handset_msg w s n) _ (register_handset_msg-IsHeld w s n h)
      (λ r i. move-IsHeld w r.0 n r.1 i)

step_await_register-IsHeld :
    (w : World) (s : Smq) (n : ℕ) (m : Msg)
    → m.node ≡ n
    → IsHeld s
    → Holds IsHeld (step_await_register w s n m)
unfolding step_await_register
step_await_register-IsHeld w s n m e h =
    >>=-Holds (SameNode1 m) IsHeld (ready_to_register w m) _ (ready_to_register-SameNode w m)
      (λ r k.
        let t : Smq = put_msg s n r.0 in
        let i : IsHeld t = put_msg-IsHeld s n r.0 (node_of k ∙ e) h in
        if-Holds IsHeld r.1 _ _
          (λ _.
            >>=-Holds IsHeld IsHeld (move w t n register_handset) _
              (move-IsHeld w t n register_handset i) (λ u j. step_register-IsHeld w u n j))
          (λ _. move-IsHeld w t n awaiting_register_handset i))

step_other-IsHeld :
    (w : World) (s : Smq) (n : ℕ) (m : Msg) → IsHeld s → Holds IsHeld (step_other w s n m)
unfolding step_other
step_other-IsHeld w s n m h =
    >>=-Holds IsHeld IsHeld (move w s n initial_state) _ (move-IsHeld w s n initial_state h) (λ t i.
      >>=-Holds_eq IsHeld (deref (get n t.queue)) _
        (λ k g. step_from_address-IsHeld w t n k (get-node n t.queue (deref-eq_ok g)) i))

pub dispatch-IsHeld :
    (w : World) (s : Smq) (n : ℕ) (m : Msg) (st : SmState)
    → m.node ≡ n
    → IsHeld s
    → Holds IsHeld (dispatch w s n m st)
unfolding dispatch
dispatch-IsHeld w s n m initial_state e h = step_initial-IsHeld w s n m h
dispatch-IsHeld w s n m no_state e h =
    >>=-Holds_eq IsHeld (make_text_valid w.outside m) _ (λ k _. remove-IsHeld s n h)
dispatch-IsHeld w s n m delete_me_state e h = remove-IsHeld s n h
dispatch-IsHeld w s n m request_from_address_lookup e h = step_from_address-IsHeld w s n m e h
dispatch-IsHeld w s n m request_destination_imsi e h = step_imsi-IsHeld w s n m e h
dispatch-IsHeld w s n m request_destination_sipurl e h = step_sipurl-IsHeld w s n m e h
dispatch-IsHeld w s n m awaiting_try_msg_delivery e h =
    >>=-Holds IsHeld IsHeld (move w s n request_msg_delivery) _
      (move-IsHeld w s n request_msg_delivery h) (λ t i. step_delivery-IsHeld w t n i)
dispatch-IsHeld w s n m request_msg_delivery e h = step_delivery-IsHeld w s n h
dispatch-IsHeld w s n m asked_for_msg_delivery e h = move-IsHeld w s n awaiting_try_msg_delivery h
dispatch-IsHeld w s n m awaiting_register_handset e h = step_await_register-IsHeld w s n m e h
dispatch-IsHeld w s n m register_handset e h = step_register-IsHeld w s n h
dispatch-IsHeld w s n m asked_to_register_handset e h =
    move-IsHeld w s n awaiting_register_handset h
dispatch-IsHeld w s n m asked_for_from_address_lookup e h = step_other-IsHeld w s n m h
dispatch-IsHeld w s n m awaiting_try_destination_imsi e h = step_other-IsHeld w s n m h
dispatch-IsHeld w s n m asked_for_destination_imsi e h = step_other-IsHeld w s n m h
dispatch-IsHeld w s n m awaiting_try_destination_sipurl e h = step_other-IsHeld w s n m h
dispatch-IsHeld w s n m asked_for_destination_sipurl e h = step_other-IsHeld w s n m h
