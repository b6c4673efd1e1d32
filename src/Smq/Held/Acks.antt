-- ===== src/Smq/Held/Acks.antt =====
-- What becomes of the acknowledgement of a SIP response, and of a message that was accepted, in the
-- threads of smqueue/smqueue.cpp.
use smqueue.Prelude.{
  ℕ, ◌≤◌, ◌≡◌, ap, sym, ◌∙◌, subst, true, List, ◌∷◌, none, some, Str, codes, ok, fault, deref,
  ◌>>=◌, arith, All, Holds, >>=-Holds, >>=-Holds_eq, if-Holds, if◌then◌else◌, deref-eq_ok,
}
use smqueue.Sip.{Sip, is_response}
use smqueue.State.{initial_state}
use smqueue.Message.{Msg, parse}
use smqueue.Message.Node.{SameNode1, node_of, parse-SameNode}
use smqueue.Message.Tag.{IsTagged, taghash_of}
use smqueue.Queue.{get, remove}
use smqueue.Queue.Find.{first_tagged}
use smqueue.Queue.Nodes.{get-node, get-remove}
use smqueue.Smq.{World, Smq, WriterMsg, process_incoming, sip_ack}
use smqueue.Smq.Response.{
  in_place, method_is, restart_linked, write_cdr, handle_success, handle_response,
}
use smqueue.Smq.Response.InPlace.{handle_response-unknown}
use smqueue.Smq.Timeout.{dispatch, step_initial, process_timeout}
use smqueue.Smq.Threads.{respond_sip_ack, writer_next, writer_step}
use smqueue.Smq.Moves.Steps.{get-head, due-dispatch}
use smqueue.Smq.Held.{IsHeld}
use smqueue.Smq.Held.Commands.{put_msg-IsHeld}
use smqueue.Smq.Held.Responses.{restart_linked-IsHeld, write_cdr-IsHeld}

-- Where the handling of a 2xx response returns, the message that was answered is in no list node any
-- more. No two messages share a list node at the start.
pub handle_success-removes :
    (w : World) (s : Smq) (k : ℕ)
    → IsHeld s
    → Holds (λ r. get k r.queue ≡ none) (handle_success w s k)
unfolding handle_success
handle_success-removes w s k h =
    let P : Smq → Type 0 = λ r. get k r.queue ≡ none in
    >>=-Holds_eq P (deref (get k s.queue)) _ (λ x g.
      >>=-Holds (SameNode1 x) P (parse w.outside x) _ (parse-SameNode w.outside x) (λ a e.
        let t : Smq = in_place s k (λ m. a.0) in
        let i : IsHeld t =
          put_msg-IsHeld s k a.0 (node_of e ∙ get-node k s.queue (deref-eq_ok g)) h in
        >>=-Holds IsHeld P
          (if method_is a.0.parsed (codes "REGISTER") then restart_linked w t a.0 else ok t) _
          (if-Holds IsHeld (method_is a.0.parsed (codes "REGISTER")) _ _
            (λ _. restart_linked-IsHeld w t a.0 i) (λ _. i))
          (λ u j.
            >>=-Holds IsHeld P
              (if method_is a.0.parsed (codes "MESSAGE")
                then (do p ← deref a.0.parsed; write_cdr w u p)
                else ok u)
              _
              (if-Holds IsHeld (method_is a.0.parsed (codes "MESSAGE")) _ _
                (λ _. >>=-Holds_eq IsHeld (deref a.0.parsed) _ (λ p _. write_cdr-IsHeld w u p j))
                (λ _. j))
              (λ v l. get-remove k v.queue l.distinct))))

remove-head : (m : Msg) (q : List Msg) → remove m.node (m ∷ q) ≡ q
unfolding remove
remove-head m q = ground arith

step_initial-response :
    (w : World) (s : Smq) (n : ℕ) (m : Msg) (p : Sip)
    → m.parsed ≡ some p
    → is_response p ≡ true
    → step_initial w s n m ≡ handle_response w s n
unfolding step_initial
step_initial-response w s n m p hp hr = ground arith

process_timeout-leaves :
    (w : World) (s : Smq) (x : Msg) (q : List Msg) (p : Sip) (tag : Str)
    → s.queue ≡ x ∷ q
    → x.state ≡ initial_state
    → x.next_action_time ≤ w.now
    → x.parsed ≡ some p
    → is_response p ≡ true
    → x.qtag ≡ some tag
    → x.qtaghash ≡ taghash_of tag
    → All IsTagged q
    → first_tagged tag q ≡ none
    → process_timeout w s ≡ ok (record s { queue = q })
unfolding dispatch
process_timeout-leaves w s x q p tag e st due hp hr ht hh hq hf =
    let taken : remove x.node s.queue ≡ q = ap (remove x.node) e ∙ remove-head x q in
    due-dispatch w s x q e due
    ∙ ap (dispatch w s x.node x) st
    ∙ step_initial-response w s x.node x p hp hr
    ∙ handle_response-unknown w s x.node x tag (ap (get x.node) e ∙ get-head x q) ht hh
        (subst (All IsTagged) (sym taken) hq) (ap (first_tagged tag) taken ∙ hf)
    ∙ ap (λ (l : List Msg). ok (record s { queue = l })) taken

-- The writer thread processes a response at the head of the list, which is due, was parsed and has a
-- tag that none of the other messages has, where each message has its tag with its hash and a list node
-- of its own. Where the acknowledgement of the response is the next request of the writer, that request
-- refers to a message that is in no list, and faults.
pub writer_step-faults_after_response :
    (w later : World) (s : Smq) (x : Msg) (q : List Msg) (p : Sip) (tag : Str) (code : ℕ)
    (rest : List WriterMsg)
    → IsHeld s
    → s.writer_queue ≡ process_incoming ∷ sip_ack code x.node ∷ rest
    → s.queue ≡ x ∷ q
    → x.state ≡ initial_state
    → x.next_action_time ≤ w.now
    → x.parsed ≡ some p
    → is_response p ≡ true
    → x.qtag ≡ some tag
    → x.qtaghash ≡ taghash_of tag
    → All IsTagged q
    → first_tagged tag q ≡ none
    → (writer_step w s >>= λ r. writer_step later r.0) ≡ fault
unfolding writer_step writer_next respond_sip_ack
writer_step-faults_after_response w later s x q p tag code rest h hw e st due hp hr ht hh hq hf =
    let left =
      process_timeout-leaves w (record s { writer_queue = sip_ack code x.node ∷ rest }) x q p tag e
        st due hp hr ht hh hq hf in
    let gone : get x.node q ≡ none =
      subst (λ (l : List Msg). get x.node l ≡ none) (ap (remove x.node) e ∙ remove-head x q)
        (get-remove x.node s.queue h.distinct) in
    rw (hw, left) (ground (arith, gone))
