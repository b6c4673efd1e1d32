-- ===== src/Smq/Held.antt =====
-- Every message of the manager of smqueue/smqueue.h is held in a list node of its own: the steps that
-- make, queue and bounce messages.
pub mod Changes
pub mod Commands
pub mod ShortCodes
pub mod Routes
pub mod Responses
pub mod Steps
pub mod Threads
pub mod Acks
pub mod Answers
pub mod Received
use smqueue.Prelude.{
  ℕ, zero, suc, ◌<◌, ◌≡◌, ◌≢◌, refl, ap, sym, ◌∙◌, subst, Bool, true, false, List, [], ◌∷◌, Option,
  none, some, Str, Res, ok, fault, deref, ◌>>=◌, arith, All, All-map, Holds, >>=-Holds,
  >>=-Holds_eq, if-Holds, eq_ok-Holds, Holds-map, ◌==◌, if◌then◌else◌, str_eq,
}
use smqueue.Sip.{Sip, Outside}
use smqueue.State.{SmState, no_state, delete_me_state}
use smqueue.Message.{
  Msg, make_text_valid, set_msg_state, get_text, put_parsed, parsed_was_changed, new_msg, unparse,
}
use smqueue.Message.Node.{
  node_of, SameNode, SameNode1, make_text_valid-SameNode, set_qtag-SameNode, unparse-SameNode,
  validate_short_msg-SameNode,
}
use smqueue.Message.Tag.{set_qtag}
use smqueue.Message.Validate.{validate_short_msg}
use smqueue.Queue.Nodes.{nodes, IsDistinct, AreNodes}
use smqueue.Smq.{
  World, Smq, dump_list, debug_dump, signal_writer, insert_new_message, new_node, manager,
}
use smqueue.Smq.Originate.{
  originate_half_sm, choose_call_id, choose_cseq, fill_message, finish_message, originate_sm,
  bounce_message, url_username,
}

-- No two messages share a node, and the node that is allocated next is free.
abbrev pub IsHeld : Smq → Type 0
IsHeld s = AreNodes s.next_node (nodes s.queue)

abbrev pub IsHeld1 {κ} : {A : Type κ} → Smq × A → Type 0
IsHeld1 r = IsHeld r.0

pub dump_list-nodes : (o : Outside) (q : List Msg) → Holds (λ r. nodes r ≡ nodes q) (dump_list o q)
unfolding dump_list
dump_list-nodes o [] = refl
dump_list-nodes o (x ∷ xs) =
    >>=-Holds (SameNode x) (λ r. nodes r ≡ nodes (x ∷ xs)) (make_text_valid o x) _
      (make_text_valid-SameNode o x)
      (λ y h.
        >>=-Holds (λ r. nodes r ≡ nodes xs) (λ r. nodes r ≡ nodes (x ∷ xs)) (dump_list o xs) _
          (dump_list-nodes o xs) (λ ys k. ground arith))

pub debug_dump-IsHeld : (w : World) (s : Smq) → IsHeld s → Holds IsHeld (debug_dump w s)
unfolding debug_dump
debug_dump-IsHeld w s h =
    >>=-Holds (λ r. nodes r ≡ nodes s.queue) IsHeld (dump_list w.outside s.queue) _
      (dump_list-nodes w.outside s.queue) (λ q e. rw e h)

-- The node that was allocated last, in front of the list as it was before.
fresh-AreNodes : (n : ℕ) (ns : List ℕ) → AreNodes n ns → AreNodes (suc n) (n ∷ ns)
fresh-AreNodes n ns h = record {
  allocated = (omega arith, All-map _ _ (λ k l. omega arith) ns h.allocated);
  distinct = (All-map _ _ (λ k l e. omega arith) ns h.allocated, h.distinct);
}

pub insert_new_message-IsHeld :
    (w : World) (s : Smq) (m : Msg) (st : SmState)
    → AreNodes m.node (nodes s.queue)
    → s.next_node ≡ suc m.node
    → Holds IsHeld (insert_new_message w s m st)
unfolding insert_new_message signal_writer set_msg_state
insert_new_message-IsHeld w s m st h e =
    let t : Smq = record s { queue = set_msg_state w.now m st ∷ s.queue } in
    >>=-Holds IsHeld IsHeld (debug_dump w t) _
      (debug_dump-IsHeld w t (rw e (fresh-AreNodes m.node (nodes s.queue) h))) (λ r k. k)

-- A new message that is in no list yet: the node allocated last is its own.
abbrev pub IsFresh : Smq → Smq × Msg → Type 0
IsFresh s (r, m) =
    (nodes r.queue ≡ nodes s.queue) × (r.next_node ≡ suc s.next_node) × (m.node ≡ s.next_node)

pub originate_half_sm-IsFresh :
    (w : World) (s : Smq) (b : Bool)
    → let half = originate_half_sm w s b in IsFresh s (half.0, half.1)
unfolding originate_half_sm choose_call_id choose_cseq new_node new_msg
originate_half_sm-IsFresh w s b = ground arith

pub finish_message-SameNode :
    (w : World) (s : Smq) (m : Msg) → Holds (SameNode1 m) (finish_message w s m)
unfolding finish_message
finish_message-SameNode w s m =
    >>=-Holds (SameNode m) (SameNode1 m) (make_text_valid w.outside m) _
      (make_text_valid-SameNode w.outside m)
      (λ a h.
        >>=-Holds (SameNode a) (SameNode1 m) (unparse w.outside a) _ (unparse-SameNode w.outside a)
          (λ c k.
            Holds-map (SameNode1 c) (SameNode1 m) _ (λ d l. l ∙ k ∙ h)
              (validate_short_msg-SameNode w.outside (manager w s) false c)))

-- The new message is queued, where its node is the one that was allocated last.
pub insert_fresh-IsHeld :
    (w : World) (s t : Smq) (m k : Msg) (st : SmState)
    → IsHeld s
    → IsFresh s (t, m)
    → k.node ≡ m.node
    → Holds IsHeld (insert_new_message w t k st)
insert_fresh-IsHeld w s t m k st h f e =
    let n : k.node ≡ s.next_node = e ∙ f.2 in
    insert_new_message-IsHeld w t k st
      (subst (λ j. AreNodes j (nodes t.queue)) (sym n) (subst (AreNodes s.next_node) (sym f.0) h))
      (f.1 ∙ ap suc (sym n))

-- A node was allocated, and may be lost.
pub skip-IsHeld :
    (s r : Smq)
    → IsHeld s
    → nodes r.queue ≡ nodes s.queue
    → r.next_node ≡ suc s.next_node
    → IsHeld r
skip-IsHeld s r h q e = record {
  allocated = rw (q, e) (All-map _ _ (λ k l. omega arith) (nodes s.queue) h.allocated);
  distinct = rw q h.distinct;
}

fill_message-SameNode :
    (w : World) (s : Smq) (m : Msg) (p : Sip) (number from to text : Str)
    → SameNode m (fill_message w s m p number from to text)
unfolding fill_message put_parsed parsed_was_changed
fill_message-SameNode w s m p number from to text = refl

pub originate_sm-IsHeld :
    (w : World) (s : Smq) (from to text : Str) (st : SmState)
    → IsHeld s
    → Holds IsHeld1 (originate_sm w s from to text st)
unfolding originate_sm
originate_sm-IsHeld w s from to text st h =
    let half = originate_half_sm w s false in
    let f = originate_half_sm-IsFresh w s false in
    let filled = fill_message w half.0 half.1 half.2 half.3 from to text in
    let e = fill_message-SameNode w half.0 half.1 half.2 half.3 from to text in
    >>=-Holds (SameNode1 filled) IsHeld1 (set_qtag w.outside filled) _
      (set_qtag-SameNode w.outside filled)
      (λ tagged k.
        >>=-Holds (SameNode1 tagged.0) IsHeld1 (finish_message w half.0 tagged.0) _
          (finish_message-SameNode w half.0 tagged.0)
          (λ checked l.
            if-Holds IsHeld1 (checked.1 == 0) _ _
              (λ _.
                >>=-Holds IsHeld IsHeld1 (insert_new_message w half.0 checked.0 st) _
                  (insert_fresh-IsHeld w s half.0 half.1 checked.0 st h f (node_of (l ∙ k ∙ e)))
                  (λ r i. i))
              (λ _. skip-IsHeld s half.0 h f.0 f.1)))

pub bounce_message-IsHeld :
    (w : World) (s : Smq) (m : Msg) (err : Str)
    → IsHeld s
    → Holds IsHeld1 (bounce_message w s m err)
unfolding bounce_message
bounce_message-IsHeld w s m err h = >>=-Holds_eq IsHeld1 (deref m.parsed) _ (λ p _.
    >>=-Holds_eq IsHeld1 (url_username p.to) _ (λ username _.
      >>=-Holds_eq IsHeld1 (get_text w.outside m) _ (λ text _.
        >>=-Holds_eq IsHeld1 (url_username p.from) _ (λ from _.
          if-Holds IsHeld1 (str_eq w.config.bounce_code from) _ _ (λ _. h)
            (λ _.
              >>=-Holds IsHeld1 IsHeld1 (originate_sm w s w.config.bounce_code from _ _) _
                (originate_sm-IsHeld w s w.config.bounce_code from _ _ h) (λ a i. i))))))
