-- ===== src/Smq/Originate/Bounce.antt =====
-- What bounce_message of smqueue/smqueue.cpp does to the queue.
use smqueue.Prelude.{
  deref, Holds, >>=-Holds, >>=-Holds_eq, if-Holds, str_eq, inl, inr, ◌==◌, if◌then◌else◌, >>=-eq-ok,
  ◌>>=◌, suc, ◌≡◌, refl, ◌⊎◌, List, [], ◌∷◌, Str, Res, ok, fault, arith, length, true, false, Bool,
}
use smqueue.Sip.{Outside}
use smqueue.State.{SmState, no_state, delete_me_state}
use smqueue.Message.{Msg, get_text, make_text_valid, set_msg_state}
use smqueue.Message.Tag.{set_qtag}
use smqueue.Smq.{World, Smq, dump_list, debug_dump, signal_writer, insert_new_message}
use smqueue.Smq.Originate.{
  fill_message, finish_message, originate_half_sm, choose_call_id, choose_cseq, new_node,
  originate_sm, url_username, bounce_message,
}

pub dump_list-length : (o : Outside) (q r : List Msg) → dump_list o q ≡ ok r → length r ≡ length q
unfolding dump_list
dump_list-length o [] r h = ground arith
dump_list-length o (x ∷ xs) r h =
    let (y, _, k) = >>=-eq-ok (make_text_valid o x) _ h in
    let (ys, e, k) = >>=-eq-ok (dump_list o xs) _ k in ground (arith, dump_list-length o xs ys e)

abbrev pub Longer : Smq → Smq → Type 0
Longer s r = length r.queue ≡ suc (length s.queue)

pub insert_new_message-length :
    (w : World) (s : Smq) (m : Msg) (st : SmState) → Holds (Longer s) (insert_new_message w s m st)
unfolding insert_new_message signal_writer debug_dump
insert_new_message-length w s m st =
    >>=-Holds (Longer s) (Longer s)
      (debug_dump w (record s { queue = set_msg_state w.now m st ∷ s.queue })) _
      (>>=-Holds_eq (Longer s) (dump_list w.outside (set_msg_state w.now m st ∷ s.queue)) _
        (λ q e. dump_list-length w.outside (set_msg_state w.now m st ∷ s.queue) q e))
      (λ a h. h)

originate_half_sm-queue :
    (w : World) (s : Smq) (b : Bool) → (originate_half_sm w s b).0.queue ≡ s.queue
unfolding originate_half_sm choose_call_id choose_cseq new_node
originate_half_sm-queue w s b = ground arith

-- Either the message was queued, and the queue has one message more, or the queue is what it was.
abbrev Queued : Smq → Smq × Bool → Type 0
Queued s (r, true) = Longer s r
Queued s (r, false) = r.queue ≡ s.queue

originate_sm-queue :
    (w : World) (s : Smq) (from to text : Str) (st : SmState)
    → Holds (Queued s) (originate_sm w s from to text st)
unfolding originate_sm
originate_sm-queue w s from to text st =
    let e = originate_half_sm-queue w s false in
    let half = originate_half_sm w s false in
    >>=-Holds_eq (Queued s)
      (set_qtag w.outside (fill_message w half.0 half.1 half.2 half.3 from to text)) _
      (λ tagged _. >>=-Holds_eq (Queued s) (finish_message w half.0 tagged.0) _ (λ checked _.
        if-Holds (Queued s) (checked.1 == 0) _ _
          (λ _.
            >>=-Holds (Longer half.0) (Queued s) (insert_new_message w half.0 checked.0 st) _
              (insert_new_message-length w half.0 checked.0 st) (λ a l. ground (arith, e)))
          (λ _. e)))

abbrev pub Bounced : Smq → Smq × SmState → Type 0
Bounced s (r, st) =
    ((st ≡ delete_me_state) × (length r.queue ≡ suc (length s.queue)))
    ⊎ ((st ≡ no_state) × (r.queue ≡ s.queue))

-- Where bounce_message returns, either the bounce was queued, the queue has one message more and the
-- message that bounces is to be deleted; or nothing was queued and its state is no_state.
pub bounce_message-queue :
    (w : World) (s : Smq) (m : Msg) (err : Str) → Holds (Bounced s) (bounce_message w s m err)
unfolding bounce_message
bounce_message-queue w s m err = >>=-Holds_eq (Bounced s) (deref m.parsed) _ (λ p _.
    >>=-Holds_eq (Bounced s) (url_username p.to) _ (λ username _.
      >>=-Holds_eq (Bounced s) (get_text w.outside m) _ (λ text _.
        >>=-Holds_eq (Bounced s) (url_username p.from) _ (λ from _.
          if-Holds (Bounced s) (str_eq w.config.bounce_code from) _ _ (λ _. inr (refl, refl))
            (λ _. sent _ (originate_sm-queue w s w.config.bounce_code from _ _))))))
  where
    result :
        (a : Smq × Bool) → Queued s a → Bounced s (a.0, if a.1 then delete_me_state else no_state)
    result (r, true) h = inl (refl, h)
    result (r, false) h = inr (refl, h)

    sent :
        (m : Res (Smq × Bool))
        → Holds (Queued s) m
        → Holds (Bounced s) (do sent ← m; ok (sent.0, if sent.1 then delete_me_state else no_state))
    sent (ok a) h = result a h
    sent fault h = tt
