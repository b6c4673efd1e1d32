-- ===== src/Smq/Held/Threads.antt =====
-- Whatever the two threads of smqueue/smqueue.cpp do, every message has a list node of its own. What
-- a refused datagram leaves behind is a pointer to a node that is in no list.
use smqueue.Prelude.{
  ◌<◌, Holds-eq_ok, ℕ, suc, ◌≡◌, refl, ◌∙◌, true, List, [], ◌∷◌, Option, none, Str, ok, fault,
  deref, ◌>>=◌, arith, All, Holds, >>=-Holds, >>=-Holds_eq, if-Holds, ◌==◌, deref-eq_ok, ltb,
}
use smqueue.Sip.{Sip}
use smqueue.State.{initial_state}
use smqueue.Message.{Msg, new_msg, initialize, parse}
use smqueue.Message.Node.{node_of, SameNode1, parse-SameNode, validate_short_msg-SameNode}
use smqueue.Message.Validate.{validate_short_msg}
use smqueue.Queue.{get}
use smqueue.Queue.Nodes.{nodes, get-node}
use smqueue.Smq.{
  World, Smq, WriterMsg, process_incoming, sip_ack, put_msg, insert_new_message, new_node, manager,
}
use smqueue.Smq.Timeout.{process_head, process_timeout}
use smqueue.Smq.Threads.{receive, respond, respond_sip_ack, writer_next, writer_step, keep_address}
use smqueue.Smq.Held.{IsHeld, IsHeld1, insert_fresh-IsHeld, skip-IsHeld}
use smqueue.Smq.Held.Commands.{put_msg-IsHeld}
use smqueue.Smq.Held.Steps.{dispatch-IsHeld}

process_head-IsHeld :
    (w : World) (s : Smq) (q : List Msg) → IsHeld s → Holds IsHeld (process_head w s q)
unfolding process_head
process_head-IsHeld w s [] h = h
process_head-IsHeld w s (m ∷ q) h =
    if-Holds IsHeld (ltb w.now m.next_action_time) _ _ (λ _. h)
      (λ _. dispatch-IsHeld w s m.node m m.state refl h)

pub process_timeout-IsHeld : (w : World) (s : Smq) → IsHeld s → Holds IsHeld (process_timeout w s)
unfolding process_timeout
process_timeout-IsHeld w s h = process_head-IsHeld w s s.queue h

-- The message that the reader makes of a datagram.
unfoldable pub received : Smq → Str → Str → Msg
unfolding new_msg initialize
received s text address = record (initialize (new_msg s.next_node) text) {
  ms_to_sc = true;
  srcaddr = keep_address address;
}

pub receive-IsHeld :
    (w : World) (s : Smq) (text address : Str) → IsHeld s → Holds IsHeld (receive w s text address)
unfolding receive new_node received
receive-IsHeld w s text address h =
    let t : Smq = record s { next_node = suc s.next_node } in
    let m : Msg = received s text address in
    >>=-Holds (SameNode1 m) IsHeld (validate_short_msg w.outside (manager w t) true m) _
      (validate_short_msg-SameNode w.outside (manager w t) true m)
      (λ r e.
        if-Holds IsHeld (r.1 == 0) _ _
          (λ _.
            >>=-Holds IsHeld IsHeld (insert_new_message w t r.0 initial_state) _
              (insert_fresh-IsHeld w s t m r.0 initial_state h (refl, refl, refl) (node_of e))
              (λ u i. i))
          (λ _. skip-IsHeld s t h refl refl))

respond-smq : (w : World) (s : Smq) (code : ℕ) (p : Sip) → (respond w s code p).0 ≡ s
unfolding respond
respond-smq w s code p = ground arith

respond_sip_ack-IsHeld :
    (w : World) (s : Smq) (code node : ℕ) → IsHeld s → Holds IsHeld1 (respond_sip_ack w s code node)
unfolding respond_sip_ack
respond_sip_ack-IsHeld w s code node h = >>=-Holds_eq IsHeld1 (deref (get node s.queue)) _ (λ m g.
    >>=-Holds (SameNode1 m) IsHeld1 (parse w.outside m) _ (parse-SameNode w.outside m) (λ a e.
      let t : Smq = put_msg s node a.0 in
      let i : IsHeld t =
        put_msg-IsHeld s node a.0 (node_of e ∙ get-node node s.queue (deref-eq_ok g)) h in
      if-Holds IsHeld1 a.1 _ _
        (λ _. >>=-Holds_eq IsHeld1 (deref a.0.parsed) _ (λ p _. rw (respond-smq w t code p) i))
        (λ _. i)))

writer_next-IsHeld :
    (w : World) (s : Smq) (q : List WriterMsg) → IsHeld s → Holds IsHeld1 (writer_next w s q)
unfolding writer_next
writer_next-IsHeld w s [] h =
    >>=-Holds IsHeld IsHeld1 (process_timeout w s) _ (process_timeout-IsHeld w s h) (λ t i. i)
writer_next-IsHeld w s (process_incoming ∷ rest) h =
    >>=-Holds IsHeld IsHeld1 (process_timeout w (record s { writer_queue = rest })) _
      (process_timeout-IsHeld w (record s { writer_queue = rest }) h) (λ t i. i)
writer_next-IsHeld w s (sip_ack code node ∷ rest) h =
    respond_sip_ack-IsHeld w (record s { writer_queue = rest }) code node h

pub writer_step-IsHeld : (w : World) (s : Smq) → IsHeld s → Holds IsHeld1 (writer_step w s)
unfolding writer_step
writer_step-IsHeld w s h = writer_next-IsHeld w s s.writer_queue h

-- The interleavings of the two threads from a state on, at any clock, registry and configuration. A
-- step is taken as a whole.
pub data Runs (s : Smq) : Smq → Type 0 where
  starts : Runs s s
  reads :
      (r t : Smq) (w : World) (text address : Str)
      → Runs s r
      → receive w r text address ≡ ok t
      → Runs s t
  writes :
      (r t : Smq) (w : World) (datagram : Option Str)
      → Runs s r
      → writer_step w r ≡ ok (t, datagram)
      → Runs s t

-- Whatever datagrams the reader takes and however often the writer steps, in any order and at any clock,
-- registry and configuration: if at the start no two messages share a list node and the next node is
-- free, then so it is in every state that is reached.
pub Runs-IsHeld : (s t : Smq) → IsHeld s → Runs s t → IsHeld t
Runs-IsHeld s _ h starts = h
Runs-IsHeld s _ h (reads r t w text address k e) =
    Holds-eq_ok IsHeld (receive w r text address)
      (receive-IsHeld w r text address (Runs-IsHeld s r h k)) e
Runs-IsHeld s _ h (writes r t w datagram k e) =
    Holds-eq_ok IsHeld1 (writer_step w r) (writer_step-IsHeld w r (Runs-IsHeld s r h k)) e

-- A node that is in no list.
get-absent : (n : ℕ) (q : List Msg) → All (λ k. k < n) (nodes q) → get n q ≡ none
unfolding get
get-absent n [] h = refl
get-absent n (x ∷ xs) h = ground (arith, get-absent n xs h.1)

-- A datagram that validate_short_msg refuses, with an empty writer queue and no two messages in one
-- node, leaves an acknowledgement whose message is in no list, so that the next step of the writer uses a
-- freed message.
pub receive-refused :
    (w later : World) (s : Smq) (text address : Str) (m : Msg) (code : ℕ)
    → IsHeld s
    → s.writer_queue ≡ []
    → validate_short_msg w.outside
        (manager w (record s { next_node = suc s.next_node }))
        true
        (received s text address)
      ≡ ok (m, suc code)
    → (receive w s text address >>= writer_step later) ≡ fault
unfolding receive writer_step writer_next respond_sip_ack new_node received
receive-refused w later s text address m code h e v =
    let a = get-absent s.next_node s.queue h.allocated in ground arith
