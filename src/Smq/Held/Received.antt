-- ===== src/Smq/Held/Received.antt =====
-- What the reader thread of smqueue/smqueue.cpp leaves to the writer for each datagram.
use smqueue.Prelude.{
  ℕ, zero, suc, ◌≡◌, refl, ap, subst, true, List, [], ◌∷◌, ◌++◌, Str, ok, arith, Holds, >>=-Holds,
  if-Holds, Holds-eq_ok, ◌≢◌, fault, All, >>=-returns, ok-returns, Ensures, Holds-Ensures, ◌==◌,
}
use smqueue.Sip.{Outside}
use smqueue.State.{SmState, initial_state}
use smqueue.Message.{Msg, make_text_valid, set_msg_state}
use smqueue.Message.Node.{
  place, node_of, SameNode, SameNode1, make_text_valid-SameNode, validate_short_msg-SameNode,
}
use smqueue.Message.Validate.{validate_short_msg}
use smqueue.Smq.{
  World, Smq, WriterMsg, process_incoming, sip_ack, dump_list, debug_dump, signal_writer,
  insert_new_message, new_node, manager,
}
use smqueue.Smq.Threads.{receive}
use smqueue.Smq.Held.Threads.{received}

-- The list nodes of the messages and their states, in the order of the list.
unfoldable pub places : List Msg → List (ℕ × SmState)
places [] = []
places (m ∷ q) = place m ∷ places q

dump_list-places : (o : Outside) (q : List Msg) → Holds (λ r. places r ≡ places q) (dump_list o q)
unfolding dump_list places
dump_list-places o [] = refl
dump_list-places o (x ∷ xs) =
    >>=-Holds (SameNode x) (λ r. places r ≡ places (x ∷ xs)) (make_text_valid o x) _
      (make_text_valid-SameNode o x)
      (λ y h.
        >>=-Holds (λ r. places r ≡ places xs) (λ r. places r ≡ places (x ∷ xs)) (dump_list o xs) _
          (dump_list-places o xs) (λ ys k. ground arith))

-- What is in the list, and what the writer is asked for.
abbrev pub Holding : List (ℕ × SmState) → List WriterMsg → Smq → Type 0
Holding ps ws r = (places r.queue ≡ ps) × (r.writer_queue ≡ ws)

signal_writer-Holding :
    (w : World) (s : Smq)
    → Holds (Holding (places s.queue) (s.writer_queue ++ process_incoming ∷ [])) (signal_writer w s)
unfolding signal_writer debug_dump
signal_writer-Holding w s =
    let P = Holding (places s.queue) (s.writer_queue ++ process_incoming ∷ []) in
    let D : Smq → Type 0 = Holding (places s.queue) s.writer_queue in
    >>=-Holds D P (debug_dump w s) _
      (>>=-Holds (λ q. places q ≡ places s.queue) D (dump_list w.outside s.queue) _
        (dump_list-places w.outside s.queue) (λ q e. (e, refl)))
      (λ r e. (e.0, ap (λ (q : List WriterMsg). q ++ process_incoming ∷ []) e.1))

insert_new_message-Holding :
    (w : World) (s : Smq) (m : Msg) (st : SmState)
    → Holds
        (Holding ((m.node, st) ∷ places s.queue) (s.writer_queue ++ process_incoming ∷ []))
        (insert_new_message w s m st)
unfolding insert_new_message set_msg_state places
insert_new_message-Holding w s m st =
    signal_writer-Holding w (record s { queue = set_msg_state w.now m st ∷ s.queue })

-- The text of a message can be made valid: where it is to be made again there is a parsed copy.
abbrev pub IsPrintable : Outside → Msg → Type 0
IsPrintable o m = make_text_valid o m ≢ fault

set_msg_state-IsPrintable :
    (o : Outside) (now : ℕ) (m : Msg) (st : SmState)
    → IsPrintable o m
    → IsPrintable o (set_msg_state now m st)
unfolding make_text_valid set_msg_state
set_msg_state-IsPrintable o now m st h e = ground arith

dump_list-returns : (o : Outside) (q : List Msg) → All (IsPrintable o) q → dump_list o q ≢ fault
unfolding dump_list
dump_list-returns o [] h = ok-returns _
dump_list-returns o (x ∷ xs) h =
    >>=-returns (make_text_valid o x) _ h.0
      (λ y e. >>=-returns (dump_list o xs) _ (dump_list-returns o xs h.1) (λ ys k. ok-returns _))

insert_new_message-returns :
    (w : World) (s : Smq) (m : Msg) (st : SmState)
    → All (IsPrintable w.outside) (m ∷ s.queue)
    → insert_new_message w s m st ≢ fault
unfolding insert_new_message signal_writer debug_dump
insert_new_message-returns w s m st h =
    let q = set_msg_state w.now m st ∷ s.queue in
    >>=-returns (debug_dump w (record s { queue = q })) _
      (>>=-returns (dump_list w.outside q) _
        (dump_list-returns w.outside q (set_msg_state-IsPrintable w.outside w.now m st h.0, h.1))
        (λ r e. ok-returns _))
      (λ r e. ok-returns _)

receive-returns :
    (w : World) (s : Smq) (text address : Str) (m : Msg) (code : ℕ)
    → validate_short_msg w.outside
        (manager w (record s { next_node = suc s.next_node }))
        true
        (received s text address)
      ≡ ok (m, code)
    → (code ≡ 0 → All (IsPrintable w.outside) (m ∷ s.queue))
    → receive w s text address ≢ fault
unfolding receive new_node received
receive-returns w s text address m zero v h = rw v (
    >>=-returns (insert_new_message w (record s { next_node = suc s.next_node }) m initial_state) _
      (insert_new_message-returns w (record s { next_node = suc s.next_node }) m initial_state
        (h refl))
      (λ r e. ok-returns _))
receive-returns w s text address m (suc code) v h = rw v (λ e. ground arith)

-- The list and the requests after a datagram that was validated with a result.
abbrev pub Received : ℕ → Smq → Smq → Type 0
Received zero s =
    Holding ((s.next_node, initial_state) ∷ places s.queue)
      ((s.writer_queue ++ process_incoming ∷ []) ++ sip_ack 202 s.next_node ∷ [])
Received (suc code) s =
    Holding (places s.queue) (s.writer_queue ++ sip_ack (suc code) s.next_node ∷ [])

receive-Holding :
    (w : World) (s : Smq) (text address : Str) (m : Msg) (code : ℕ)
    → validate_short_msg w.outside
        (manager w (record s { next_node = suc s.next_node }))
        true
        (received s text address)
      ≡ ok (m, code)
    → Holds (Received code s) (receive w s text address)
unfolding receive new_node received
receive-Holding w s text address m zero v =
    let t : Smq = record s { next_node = suc s.next_node } in
    let at : m.node ≡ s.next_node = node_of (
      Holds-eq_ok (SameNode1 (received s text address)) _
        (validate_short_msg-SameNode w.outside (manager w t) true (received s text address)) v) in
    let ps = (s.next_node, initial_state) ∷ places s.queue in
    let ws = s.writer_queue ++ process_incoming ∷ [] in
    rw v (
      >>=-Holds (Holding ps ws) (Received zero s) (insert_new_message w t m initial_state) _
        (subst
          (λ n.
            Holds (Holding ((n, initial_state) ∷ places s.queue) ws)
              (insert_new_message w t m initial_state))
          at (insert_new_message-Holding w t m initial_state))
        (λ r e. (e.0, ap (λ (q : List WriterMsg). q ++ sip_ack 202 s.next_node ∷ []) e.1)))
receive-Holding w s text address m (suc code) v = rw v (
    if-Holds (Received (suc code) s) (suc code == 0) _ _ (λ b. absurd (ground arith))
      (λ b. (refl, refl)))

-- A datagram that is validated with the result 0, where the text of it and of each message of the list
-- can be made valid: receive returns, a message in a new node stands in front of the list in the initial state, and the
-- writer is asked to process the list and then for the acknowledgement 202 of this message. One that is
-- validated with an error: receive returns, and the writer is asked for an acknowledgement with it. The
-- nodes, the states and the order of the other messages, and the earlier requests, are as they were.
pub receive-Received :
    (w : World) (s : Smq) (text address : Str) (m : Msg) (code : ℕ)
    → validate_short_msg w.outside
        (manager w (record s { next_node = suc s.next_node }))
        true
        (received s text address)
      ≡ ok (m, code)
    → (code ≡ 0 → All (IsPrintable w.outside) (m ∷ s.queue))
    → Ensures (Received code s) (receive w s text address)
receive-Received w s text address m code v h =
    Holds-Ensures (Received code s) (receive w s text address)
      (receive-Holding w s text address m code v) (receive-returns w s text address m code v h)
