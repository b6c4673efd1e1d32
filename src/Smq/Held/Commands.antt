-- ===== src/Smq/Held/Commands.antt =====
-- The short codes of smqueue/smqueue.cpp, smqueue/smcommands.cpp and smqueue/smsc.cpp keep every
-- message in a list node of its own.
use smqueue.Prelude.{
  ℕ, ◌≡◌, refl, ◌∙◌, sym, subst, true, List, [], ◌∷◌, Str, deref, arith, Holds, >>=-Holds,
  >>=-Holds_eq, if-Holds, ◌==◌, deref-eq_ok,
}
use smqueue.Sip.{Sip}
use smqueue.State.{
  SmState, no_state, delete_me_state, request_msg_delivery, request_destination_sipurl,
}
use smqueue.State
use smqueue.Message.{Msg, make_text_valid, put_parsed, parsed_was_changed}
use smqueue.Message.Node.{node_of, SameNode, SameNode1, set_qtag-SameNode, make_text_valid-SameNode}
use smqueue.Message.Tag.{set_qtag}
use smqueue.Queue.{get, update, modify, remove}
use smqueue.Queue.Nodes.{
  nodes, AreNodes, nodes-modify, nodes-put, nodes-update, get-node, remove-AreNodes,
}
use smqueue.Smq.{World, Smq, put_msg, insert_new_message}
use smqueue.Smq.Originate.{
  originate_half_sm, fill_register, finish_message, set_linktag, register_handset_msg, url_username,
}
use smqueue.Smq.Held.{
  IsHeld, IsHeld1, originate_half_sm-IsFresh, finish_message-SameNode, insert_fresh-IsHeld,
  skip-IsHeld,
}
use smqueue.Smq.Held.Changes.{set_linktag-SameNode}
use smqueue.Smq.Commands.{
  Outcome, Counts, count_travelling, count_message, count_queue, last_three, run_four_one_one,
}
use smqueue.Smq.Commands.Register.{run_register, register_phone, add_user}

pub modify-IsHeld :
    (s : Smq) (n : ℕ) (f : Msg → Msg)
    → ((m : Msg) → (f m).node ≡ m.node)
    → IsHeld s
    → IsHeld (record s { queue = modify n f s.queue })
modify-IsHeld s n f k h = subst (AreNodes s.next_node) (sym (nodes-modify n f s.queue k)) h

pub put_msg-IsHeld : (s : Smq) (n : ℕ) (m : Msg) → m.node ≡ n → IsHeld s → IsHeld (put_msg s n m)
put_msg-IsHeld s n m k h = subst (AreNodes s.next_node) (sym (nodes-put n m s.queue k)) h

pub remove-IsHeld : (s : Smq) (n : ℕ) → IsHeld s → IsHeld (record s { queue = remove n s.queue })
remove-IsHeld s n h = remove-AreNodes s.next_node n s.queue h

fill_register-SameNode :
    (w : World) (s : Smq) (m : Msg) (p : Sip) (number imsi addr : Str)
    → SameNode m (fill_register w s m p number imsi addr)
unfolding fill_register put_parsed parsed_was_changed
fill_register-SameNode w s m p number imsi addr = refl

pub register_handset_msg-IsHeld :
    (w : World) (s : Smq) (n : ℕ) → IsHeld s → Holds IsHeld1 (register_handset_msg w s n)
unfolding register_handset_msg
register_handset_msg-IsHeld w s n h =
    let half = originate_half_sm w s true in
    let f = originate_half_sm-IsFresh w s true in
    >>=-Holds_eq IsHeld1 (deref (get n half.0.queue)) _ (λ old g.
      >>=-Holds_eq IsHeld1 (deref old.parsed) _ (λ q _.
        >>=-Holds_eq IsHeld1 (url_username q.from) _ (λ imsi _.
          let filled = fill_register w half.0 half.1 half.2 half.3 imsi old.srcaddr in
          let e = fill_register-SameNode w half.0 half.1 half.2 half.3 imsi old.srcaddr in
          >>=-Holds (SameNode1 filled) IsHeld1 (set_qtag w.outside filled) _
            (set_qtag-SameNode w.outside filled)
            (λ tagged k.
              >>=-Holds _ IsHeld1 (set_linktag w tagged.0 old) _
                (set_linktag-SameNode w tagged.0 old)
                (λ linked l.
                  let t : Smq = record half.0 { queue = update n linked.1 half.0.queue } in
                  let u =
                    nodes-update n linked.1 half.0.queue
                      (l.1 ∙ get-node n half.0.queue (deref-eq_ok g)) in
                  >>=-Holds (SameNode1 linked.0) IsHeld1 (finish_message w t linked.0) _
                    (finish_message-SameNode w t linked.0)
                    (λ checked c.
                      if-Holds IsHeld1 (checked.1 == 0) _ _
                        (λ _.
                          >>=-Holds IsHeld IsHeld1
                            (insert_new_message w t checked.0 request_msg_delivery) _
                            (insert_fresh-IsHeld w s t half.1 checked.0 request_msg_delivery h
                              (u ∙ f.0, f.1, f.2) (node_of c ∙ l.0 ∙ node_of (k ∙ e)))
                            (λ r i. i))
                        (λ _. skip-IsHeld s t h (u ∙ f.0) f.1)))))))

-- The state of the manager in the outcome of a command.
abbrev pub HeldOutcome : Outcome → Type 0
HeldOutcome r = IsHeld r.smq

pub run_register-smq :
    (w : World) (s : Smq) (imsi text : Str) → (run_register w s imsi text).smq ≡ s
unfolding run_register register_phone add_user
run_register-smq w s imsi text = ground arith

count_travelling-SameNode :
    (w : World) (m : Msg) (c : Counts) → Holds (SameNode1 m) (count_travelling w m c)
unfolding count_travelling
count_travelling-SameNode w m c =
    >>=-Holds (SameNode m) (SameNode1 m) (make_text_valid w.outside m) _
      (make_text_valid-SameNode w.outside m)
      (λ x h. >>=-Holds_eq (SameNode1 m) (deref x.parsed) _ (λ p _.
        >>=-Holds_eq (SameNode1 m) (deref p.req_uri) _ (λ uri _.
          >>=-Holds_eq (SameNode1 m) (deref uri.host) _ (λ host _.
            >>=-Holds_eq (SameNode1 m) (url_username p.from) _
              (λ from _. >>=-Holds_eq (SameNode1 m) (deref uri.username) _ (λ to _. h))))))

count_message-SameNode :
    (w : World) (st : SmState) (m : Msg) (c : Counts) → Holds (SameNode1 m) (count_message w st m c)
unfolding count_message
count_message-SameNode w State.request_destination_sipurl m c = count_travelling-SameNode w m c
count_message-SameNode w State.request_msg_delivery m c = count_travelling-SameNode w m c
count_message-SameNode w State.asked_for_msg_delivery m c = count_travelling-SameNode w m c
count_message-SameNode w State.awaiting_try_msg_delivery m c = count_travelling-SameNode w m c
count_message-SameNode w st m c = refl

count_queue-nodes :
    (w : World) (q : List Msg) (c : Counts) → Holds (λ r. nodes r.0 ≡ nodes q) (count_queue w q c)
unfolding count_queue
count_queue-nodes w [] c = refl
count_queue-nodes w (x ∷ xs) c =
    >>=-Holds (SameNode1 x) (λ r. nodes r.0 ≡ nodes (x ∷ xs)) (count_message w x.state x c) _
      (count_message-SameNode w x.state x c)
      (λ r h.
        >>=-Holds _ (λ r. nodes r.0 ≡ nodes (x ∷ xs)) (count_queue w xs r.1) _
          (count_queue-nodes w xs r.1) (λ rest k. ground arith))

pub run_four_one_one-IsHeld :
    (w : World) (s : Smq) (n : ℕ) (text : Str)
    → IsHeld s
    → Holds HeldOutcome (run_four_one_one w s n text)
unfolding run_four_one_one
run_four_one_one-IsHeld w s n text h =
    let zero_counts : Counts = record { missing = 0; registering = 0; bouncing = 0 } in
    >>=-Holds _ HeldOutcome (count_queue w s.queue zero_counts) _
      (count_queue-nodes w s.queue zero_counts)
      (λ r e. >>=-Holds_eq HeldOutcome (deref (get n r.0)) _ (λ m _.
        >>=-Holds_eq HeldOutcome (last_three (w.string_host m.srcaddr)) _ (λ cell _.
          >>=-Holds_eq HeldOutcome (deref m.parsed) _ (λ p _.
            >>=-Holds_eq HeldOutcome (url_username p.from) _ (λ user _.
              >>=-Holds_eq HeldOutcome (deref (w.hlr.get_clid_local user)) _
                (λ phone _. subst (AreNodes s.next_node) (sym e) h))))))
