-- ===== src/Smq/Response/InPlace.antt =====
-- What handle_response of smqueue/smqueue.cpp does to the list and to its order.
use smqueue.Prelude.{ℕ, ◌+◌, ◌<◌, ◌≡◌, ◌∷◌, List, none, some, Str, ok, arith}
use smqueue.Sip.{Sip}
use smqueue.Message.{Msg}
use smqueue.Message.Tag.{IsTagged, taghash_of}
use smqueue.Queue.{get, remove, modify, find_queued_msg}
use smqueue.Queue.Find.{first_tagged, find_queued_msg-eq-first_tagged}
use smqueue.Smq.{World, Smq}
use smqueue.Smq.Response.{
  answer, interim, resend_timeout, handle_response, answer_found, increase_acked_msg_timeout, kind,
}
use smqueue.Smq.Timeout.{process_timeout}
use smqueue.Prelude.{All}

-- A response whose tag is that of no other message, in a queue whose other messages all have a tag with
-- its hash, leaves the queue, and nothing else changes.
pub handle_response-unknown :
    (w : World) (s : Smq) (n : ℕ) (m : Msg) (tag : Str)
    → get n s.queue ≡ some m
    → m.qtag ≡ some tag
    → m.qtaghash ≡ taghash_of tag
    → All IsTagged (remove n s.queue)
    → first_tagged tag (remove n s.queue) ≡ none
    → handle_response w s n ≡ ok (record s { queue = remove n s.queue })
unfolding handle_response answer_found find_queued_msg
handle_response-unknown w s n m tag hg ht hh ha hf =
    ground (arith, find_queued_msg-eq-first_tagged tag (remove n s.queue) ha)

-- A parsed response, in a queue whose other messages all have a tag with its hash, leaves the queue and
-- is answered by the first of the others that has its tag.
pub handle_response-meets :
    (w : World) (s : Smq) (n k : ℕ) (m : Msg) (p : Sip) (tag : Str)
    → get n s.queue ≡ some m
    → m.qtag ≡ some tag
    → m.qtaghash ≡ taghash_of tag
    → m.parsed ≡ some p
    → All IsTagged (remove n s.queue)
    → first_tagged tag (remove n s.queue) ≡ some k
    → handle_response w s n
      ≡ answer w (record s { queue = remove n s.queue }) k p (kind p.status_code)
unfolding handle_response answer_found find_queued_msg
handle_response-meets w s n k m p tag hg ht hh hp ha hf =
    ground (arith, find_queued_msg-eq-first_tagged tag (remove n s.queue) ha)

-- After an interim response to the message at the head of the queue, process_timeout does nothing until
-- that message is due again, whatever the messages behind it are due for: it was put off where it stood.
pub answer-blocks_head :
    (w later : World) (s : Smq) (m : Msg) (q : List Msg) (p : Sip)
    → s.queue ≡ m ∷ q
    → later.now < w.now + resend_timeout w.config
    → (r : Smq) → answer w s m.node p interim ≡ ok r
    → process_timeout later r ≡ ok r
unfolding answer increase_acked_msg_timeout process_timeout modify
answer-blocks_head w later s m q p e l r h = ground arith
