-- ===== src/Smq/Moves/Delivery.antt =====
-- The states after the lookup of a host, a registration and a delivery, for smqueue/smqueue.cpp.
use smqueue.Prelude.{
  ℕ, ◌+◌, ◌*◌, ◌-◌, ◌≡◌, refl, ap, sym, ◌∙◌, subst, ◌⊎◌, inl, inr, true, ◌&&◌, some, ok, deref,
  arith, Holds, >>=-Holds, >>=-Holds_eq, if-Holds, Holds-both, Option-Holds, deref-eq_ok, ltb, leb,
  ◌==◌,
}
use smqueue.State.{
  SmState, no_state, request_msg_delivery, asked_for_msg_delivery, delete_me_state,
  register_handset, asked_to_register_handset,
}
use smqueue.Message.{Msg, parse}
use smqueue.Message.Node.{SameNode, SameNode1, node_of}
use smqueue.Message.Tag.{set_qtag}
use smqueue.Queue.{get, update}
use smqueue.Queue.Nodes.{get-node, get-put}
use smqueue.Smq.{World, Smq, put_msg, insert_new_message}
use smqueue.Smq.Originate.{
  originate_half_sm, fill_register, finish_message, set_linktag, register_handset_msg, url_username,
}
use smqueue.Smq.Lookup.{readdress, relay_type, lookup_uri_hostport}
use smqueue.Smq.Pack.{pack_sms_for_delivery}
use smqueue.Smq.Timeout.{
  deliver_msg_datagram, send_datagram, limited_delivery, step_delivery, step_register,
}
use smqueue.Smq.Held.{IsHeld, IsHeld1}
use smqueue.Smq.Held.Changes.{pack_sms_for_delivery-SameNode, deliver_msg_datagram-SameNode}
use smqueue.Smq.Held.Commands.{put_msg-IsHeld, register_handset_msg-IsHeld}
use smqueue.Smq.Moves.{
  Next, Moved, state_in, state_of, move-Moved, either-Next, sent, delayed, given_up, unpackable,
  asked, not_asked,
}

-- The state in a result is one of two.
abbrev pub OneOf {κ} : {A : Type κ} → SmState → SmState → A × SmState → Type 0
OneOf a b r = (r.1 ≡ a) ⊎ (r.1 ≡ b)

pub lookup_uri_hostport-OneOf :
    (w : World) (s : Smq) (m : Msg)
    → Holds (OneOf no_state request_msg_delivery) (lookup_uri_hostport w s m)
unfolding lookup_uri_hostport
lookup_uri_hostport-OneOf w s m =
    >>=-Holds_eq (OneOf no_state request_msg_delivery) (parse w.outside m) _ (λ a _.
      >>=-Holds_eq (OneOf no_state request_msg_delivery) (deref a.0.parsed) _ (λ p _.
        >>=-Holds_eq (OneOf no_state request_msg_delivery) (deref p.req_uri) _ (λ uri _.
          Option-Holds (OneOf no_state request_msg_delivery) uri.username (ok (a.0, no_state)) _
            (λ _. inl refl)
            (λ user _.
              >>=-Holds_eq (OneOf no_state request_msg_delivery)
                (readdress w s (relay_type s a.0 user) p uri user) _
                (λ b _.
                  >>=-Holds_eq (OneOf no_state request_msg_delivery) (set_qtag w.outside b) _
                    (λ r _. inr refl))))))

pub register_handset_msg-OneOf :
    (w : World) (s : Smq) (n : ℕ)
    → Holds (OneOf asked_to_register_handset delete_me_state) (register_handset_msg w s n)
unfolding register_handset_msg
register_handset_msg-OneOf w s n =
    let half = originate_half_sm w s true in
    >>=-Holds_eq (OneOf asked_to_register_handset delete_me_state) (deref (get n half.0.queue)) _
      (λ old _.
        >>=-Holds_eq (OneOf asked_to_register_handset delete_me_state) (deref old.parsed) _ (λ q _.
          >>=-Holds_eq (OneOf asked_to_register_handset delete_me_state) (url_username q.from) _
            (λ imsi _.
              >>=-Holds_eq (OneOf asked_to_register_handset delete_me_state)
                (set_qtag w.outside (fill_register w half.0 half.1 half.2 half.3 imsi old.srcaddr))
                _
                (λ tagged _.
                  >>=-Holds_eq (OneOf asked_to_register_handset delete_me_state)
                    (set_linktag w tagged.0 old) _
                    (λ linked _.
                      let t : Smq = record half.0 { queue = update n linked.1 half.0.queue } in
                      >>=-Holds_eq (OneOf asked_to_register_handset delete_me_state)
                        (finish_message w t linked.0) _
                        (λ checked _.
                          if-Holds (OneOf asked_to_register_handset delete_me_state)
                            (checked.1 == 0) _ _
                            (λ _.
                              >>=-Holds_eq (OneOf asked_to_register_handset delete_me_state)
                                (insert_new_message w t checked.0 request_msg_delivery) _
                                (λ r _. inl refl))
                            (λ _. inr refl)))))))

pub step_register-Moved :
    (w : World) (s : Smq) (n : ℕ)
    → IsHeld s
    → Holds (Moved register_handset n) (step_register w s n)
unfolding step_register
step_register-Moved w s n h =
    >>=-Holds _ (Moved register_handset n) (register_handset_msg w s n) _
      (Holds-both IsHeld1 (OneOf asked_to_register_handset delete_me_state)
        (register_handset_msg w s n) (register_handset_msg-IsHeld w s n h)
        (register_handset_msg-OneOf w s n))
      (λ r k. move-Moved w r.0 register_handset n r.1 k.0 (
        either-Next register_handset r.1 asked_to_register_handset delete_me_state k.1 asked
          not_asked))

send_datagram-Moved :
    (w : World) (s : Smq) (n : ℕ) (m : Msg)
    → m.node ≡ n
    → IsHeld s
    → Holds (Moved request_msg_delivery n) (send_datagram w s n m)
unfolding send_datagram
send_datagram-Moved w s n m e h =
    >>=-Holds (SameNode m) (Moved request_msg_delivery n) (deliver_msg_datagram w m) _
      (deliver_msg_datagram-SameNode w m)
      (λ r k.
        move-Moved w (put_msg s n r) request_msg_delivery n asked_for_msg_delivery
          (put_msg-IsHeld s n r (node_of k ∙ e) h) sent)

limited_delivery-Moved :
    (w : World) (s : Smq) (n : ℕ) (m old : Msg)
    → m.node ≡ n
    → get n s.queue ≡ some old
    → m.state ≡ request_msg_delivery
    → IsHeld s
    → Holds (Moved request_msg_delivery n) (limited_delivery w s n m)
unfolding limited_delivery
limited_delivery-Moved w s n m old e g st h =
    let P = Moved request_msg_delivery n in
    if-Holds P (ltb 0 w.config.max_retries && ltb w.config.max_retries m.retries) _ _
      (λ _.
        move-Moved w (put_msg s n m) request_msg_delivery n delete_me_state
          (put_msg-IsHeld s n m e h) given_up)
      (λ _.
        if-Holds P (ltb 0 (w.config.rate_limit * 1000)) _ _
          (λ _.
            if-Holds P (leb (w.now - s.spacing_timer) (w.config.rate_limit * 1000)) _ _
              (λ _.
                let k : Msg = record m {
                  next_action_time = m.next_action_time + w.config.rate_limit * 1000;
                } in
                subst (Next request_msg_delivery)
                  (sym (ap state_of (get-put n k old s.queue e g) ∙ ap some st)) delayed)
              (λ _. send_datagram-Moved w (record s { spacing_timer = w.now }) n m e h))
          (λ _. send_datagram-Moved w s n m e h))

pub step_delivery-Moved :
    (w : World) (s : Smq) (n : ℕ)
    → state_in n s ≡ some request_msg_delivery
    → IsHeld s
    → Holds (Moved request_msg_delivery n) (step_delivery w s n)
unfolding step_delivery
step_delivery-Moved w s n st h =
    >>=-Holds_eq (Moved request_msg_delivery n) (deref (get n s.queue)) _ (λ m g.
      let k : Msg = record m { retries = m.retries + 1 } in
      let old : get n s.queue ≡ some m = deref-eq_ok g in
      let in_state : m.state ≡ request_msg_delivery = ground arith in
      >>=-Holds (SameNode1 k) (Moved request_msg_delivery n) (pack_sms_for_delivery w.outside k) _
        (pack_sms_for_delivery-SameNode w.outside k)
        (λ r l.
          let e = node_of l ∙ get-node n s.queue old in
          if-Holds (Moved request_msg_delivery n) r.1 _ _
            (λ _.
              limited_delivery-Moved w s n r.0 m e old (ap (λ (p : ℕ × SmState). p.1) l ∙ in_state)
                h)
            (λ _.
              move-Moved w (put_msg s n r.0) request_msg_delivery n no_state
                (put_msg-IsHeld s n r.0 e h) unpackable)))
