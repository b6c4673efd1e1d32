-- ===== src/Smq/Threads.antt =====
-- The two threads. The reader takes a datagram from the network, main_loop of smqueue/smqueue.cpp;
-- the writer takes what is queued for it, smqueue/QueuedMsgHdrs.h and smqueue/SmqWriter.cpp, and
-- answers with respond_sip_ack.
use smqueue.Prelude.{
  ℕ, true, List, [], ◌∷◌, ◌++◌, Option, none, some, Str, codes, Res, ok, deref, ◌>>=◌, pos, length,
  leb, ◌==◌, if◌then◌else◌,
}
use smqueue.Sip.{Sip, is_response}
use smqueue.State.{initial_state}
use smqueue.Message.{printed, Msg, new_msg, initialize, parse}
use smqueue.Message.Validate.{validate_short_msg}
use smqueue.Queue.{get, modify}
use smqueue.Smq.{
  World, Smq, WriterMsg, process_incoming, sip_ack, put_msg, new_node, insert_new_message, manager,
}
use smqueue.Smq.Originate.{empty_sip}
use smqueue.Smq.Timeout.{process_timeout}

-- queue_respond_sip_ack: the node stands for the pointer.
abbrev pub queue_respond_sip_ack : Smq → ℕ → ℕ → Smq
queue_respond_sip_ack s errcode node = record s {
  writer_queue = s.writer_queue ++ sip_ack errcode node ∷ [];
}

-- The address that is copied where it fits into sixteen bytes.
unfoldable pub keep_address : Str → Str
keep_address a = if leb (length a) 16 then a else []

-- The part of main_loop behind get_next_dgram. A message that is refused is deleted with its list,
-- after its acknowledgement was queued.
unfoldable pub receive : World → Smq → Str → Str → Res Smq
unfolding new_node new_msg initialize keep_address manager insert_new_message
receive w s text address =
    let (s, node) = new_node s in
    let m : Msg = record (initialize (new_msg node) text) {
      ms_to_sc = true;
      srcaddr = keep_address address;
    } in
    do
      r ← validate_short_msg w.outside (manager w s) true m
      if r.1 == 0
          then (do
            s ← insert_new_message w s r.0 initial_state
            ok (queue_respond_sip_ack s 202 node))
          else ok (queue_respond_sip_ack s r.1 node)

-- The reason phrase of an answer.
unfoldable pub ack_phrase : ℕ → Str
ack_phrase code =
    if code == 100
    then codes "Trying..."
    else if code == 200
    then codes "Okay!"
    else if code == 202
    then codes "Queued"
    else if code == 400
    then codes "Bad Request"
    else if code == 401
    then codes "Unauthorized"
    else if code == 403
    then codes "Forbidden - first register, by texting your 10-digit phone number to 101."
    else if code == 404
    then codes "Phone Number Not Registered"
    else if code == 405
    then codes "Method Not Allowed"
    else if code == 413
    then codes "Message Body Size Error"
    else if code == 415
    then codes "Unsupported Content Type"
    else if code == 416
    then codes "Unsupported URI scheme (not SIP)"
    else if code == 480
    then codes "Recipient Temporarily Unavailable"
    else if code == 484
    then codes "Address Incomplete"
    else codes "Error Message Table Needs Updating"

-- The answer to a message: its From, To, CSeq, Call-ID and Via lines, and the code.
unfoldable pub ack_sip : ℕ → Sip → Sip
unfolding ack_phrase
ack_sip code p = record empty_sip {
  status_code = pos code;
  reason_phrase = some (ack_phrase code);
  to = p.to;
  from = p.from;
  cseq = p.cseq;
  call_id = p.call_id;
  vias = p.vias;
  allow = if code == 405 then some (codes "MESSAGE") else none;
  accept = if code == 415 then some (codes "text/plain, application/vnd.3gpp.sms") else none;
}

unfoldable pub respond : World → Smq → ℕ → Sip → Smq × Option Str
unfolding ack_sip printed
respond w s errcode p =
    if is_response p then (s, none) else (s, some (printed w.outside (ack_sip errcode p)))

-- respond_sip_ack: the datagram that is sent, if any. A message that does not parse and a response
-- get no answer.
unfoldable pub respond_sip_ack : World → Smq → ℕ → ℕ → Res (Smq × Option Str)
unfolding respond get modify
respond_sip_ack w s errcode node = do
  m ← deref (get node s.queue)
  parsed ← parse w.outside m
  let s = put_msg s node parsed.0
  if parsed.1 then (do p ← deref parsed.0.parsed; ok (respond w s errcode p)) else ok (s, none)

unfoldable pub writer_next : World → Smq → List WriterMsg → Res (Smq × Option Str)
unfolding respond_sip_ack
writer_next w s [] = do s ← process_timeout w s; ok (s, none)
writer_next w s (process_incoming ∷ rest) = do
  s ← process_timeout w (record s { writer_queue = rest })
  ok (s, none)
writer_next w s (sip_ack errcode node ∷ rest) =
    respond_sip_ack w (record s { writer_queue = rest }) errcode node

-- The writer thread takes the next request, or after 200 ms without one looks at the queue.
unfoldable pub writer_step : World → Smq → Res (Smq × Option Str)
unfolding writer_next
writer_step w s = writer_next w s s.writer_queue
