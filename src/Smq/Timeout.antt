-- ===== src/Smq/Timeout.antt =====
-- process_timeout of smqueue/smqueue.cpp: one step of the message at the head of the queue.
pub mod Limits
use smqueue.Prelude.{
  Bool, true, false, ℕ, ◌+◌, ◌-◌, ◌*◌, ◌&&◌, List, [], ◌∷◌, Option, none, some, codes, str_eq, Res,
  ok, deref, ◌>>=◌, ltb, leb, if◌then◌else◌,
}
use smqueue.Sip.{is_response}
use smqueue.State.{
  SmState, no_state, initial_state, request_from_address_lookup, asked_for_from_address_lookup,
  awaiting_try_destination_imsi, request_destination_imsi, asked_for_destination_imsi,
  awaiting_try_destination_sipurl, request_destination_sipurl, asked_for_destination_sipurl,
  awaiting_try_msg_delivery, request_msg_delivery, asked_for_msg_delivery, delete_me_state,
  awaiting_register_handset, register_handset, asked_to_register_handset,
}
use smqueue.Message.{Msg, parse, make_text_valid}
use smqueue.Queue.{get, remove, modify, set_state}
use smqueue.Smq.{World, Smq, put_msg}
use smqueue.Smq.Originate.{ready_to_register, register_handset_msg}
use smqueue.Smq.Lookup.{lookup_from_address, lookup_uri_imsi, lookup_uri_hostport}
use smqueue.Smq.Pack.{pack_sms_for_delivery}
use smqueue.Smq.ShortCode.{handle_short_code}
use smqueue.Smq.Response.{handle_response}

-- SMq::set_state on the queue of the manager.
unfoldable pub move : World → Smq → ℕ → SmState → Res Smq
move w s n state = do q ← set_state w.now n state s.queue; ok (record s { queue = q })

abbrev pub or_address_lookup : Option SmState → SmState
or_address_lookup none = request_from_address_lookup
or_address_lookup (some state) = state

-- INITIAL_STATE: a response is handled and gone; of requests only MESSAGE is taken.
unfoldable pub step_initial : World → Smq → ℕ → Msg → Res Smq
unfolding move
step_initial w s n m = do
  p ← deref m.parsed
  if is_response p then handle_response w s n else (do
    method ← deref p.sip_method
    if str_eq method (codes "MESSAGE")
        then (do r ← handle_short_code w s n; move w r.0 n (or_address_lookup r.1))
        else move w s n no_state)

unfoldable pub step_from_address : World → Smq → ℕ → Msg → Res Smq
unfolding move modify
step_from_address w s n m = do r ← lookup_from_address w s m; move w (put_msg s n r.0) n r.1

-- lookup_uri_imsi may put a bounce message into the queue; the message itself keeps its node.
unfoldable pub step_imsi : World → Smq → ℕ → Msg → Res Smq
unfolding move modify
step_imsi w s n m = do r ← lookup_uri_imsi w s m; move w (put_msg r.0 n r.1) n r.2

unfoldable pub step_sipurl : World → Smq → ℕ → Msg → Res Smq
unfolding move modify
step_sipurl w s n m = do r ← lookup_uri_hostport w s m; move w (put_msg s n r.0) n r.1

-- The address of a message that parsed.
unfoldable pub read_address : Msg × Bool → Res Msg
read_address (m, false) = ok m
read_address (m, true) = do p ← deref m.parsed; uri ← deref p.req_uri; ok m

-- deliver_msg_datagram: it makes the text valid, and with a socket it parses the message if need be
-- and reads the address. Either result leads to the same state.
unfoldable pub deliver_msg_datagram : World → Msg → Res Msg
unfolding read_address
deliver_msg_datagram w m = do
  m ← make_text_valid w.outside m
  if w.has_socket then (do parsed ← parse w.outside m; read_address parsed) else ok m

unfoldable pub send_datagram : World → Smq → ℕ → Msg → Res Smq
unfolding move modify deliver_msg_datagram
send_datagram w s n m = do
  m ← deliver_msg_datagram w m
  move w (put_msg s n m) n asked_for_msg_delivery

-- The limit on retries, then the limit on the rate, then the datagram.
unfoldable pub limited_delivery : World → Smq → ℕ → Msg → Res Smq
unfolding send_datagram move modify
limited_delivery w s n m =
    if ltb 0 w.config.max_retries && ltb w.config.max_retries m.retries
    then move w (put_msg s n m) n delete_me_state
    else if ltb 0 (w.config.rate_limit * 1000)
    then (if leb (w.now - s.spacing_timer) (w.config.rate_limit * 1000)
        then ok (
            put_msg s n
              (record m { next_action_time = m.next_action_time + w.config.rate_limit * 1000 }))
        else send_datagram w (record s { spacing_timer = w.now }) n m)
    else send_datagram w s n m

-- REQUEST_MSG_DELIVERY, for the message as it stands in the queue.
unfoldable pub step_delivery : World → Smq → ℕ → Res Smq
unfolding limited_delivery get move modify
step_delivery w s n = do
  m ← deref (get n s.queue)
  packed ← pack_sms_for_delivery w.outside (record m { retries = m.retries + 1 })
  if packed.1 then limited_delivery w s n packed.0 else move w (put_msg s n packed.0) n no_state

unfoldable pub step_register : World → Smq → ℕ → Res Smq
unfolding move
step_register w s n = do r ← register_handset_msg w s n; move w r.0 n r.1

unfoldable pub step_await_register : World → Smq → ℕ → Msg → Res Smq
unfolding move step_register modify
step_await_register w s n m = do
  ready ← ready_to_register w m
  let s = put_msg s n ready.0
  if ready.1
      then (do s ← move w s n register_handset; step_register w s n)
      else move w s n awaiting_register_handset

-- The states that time out without a case of their own: the message starts again, and is looked up
-- at once.
unfoldable pub step_other : World → Smq → ℕ → Msg → Res Smq
unfolding move step_from_address get
step_other w s n m = do
  s ← move w s n initial_state
  m ← deref (get n s.queue)
  step_from_address w s n m

-- The switch over the state of the message.
unfoldable pub dispatch : World → Smq → ℕ → Msg → SmState → Res Smq
unfolding step_initial step_from_address step_imsi step_sipurl step_delivery step_await_register
    step_register step_other move remove
dispatch w s n m initial_state = step_initial w s n m
dispatch w s n m no_state = do
  m ← make_text_valid w.outside m
  ok (record s { queue = remove n s.queue })
dispatch w s n m delete_me_state = ok (record s { queue = remove n s.queue })
dispatch w s n m request_from_address_lookup = step_from_address w s n m
dispatch w s n m request_destination_imsi = step_imsi w s n m
dispatch w s n m request_destination_sipurl = step_sipurl w s n m
dispatch w s n m awaiting_try_msg_delivery = do
  s ← move w s n request_msg_delivery
  step_delivery w s n
dispatch w s n m request_msg_delivery = step_delivery w s n
dispatch w s n m asked_for_msg_delivery = move w s n awaiting_try_msg_delivery
dispatch w s n m awaiting_register_handset = step_await_register w s n m
dispatch w s n m register_handset = step_register w s n
dispatch w s n m asked_to_register_handset = move w s n awaiting_register_handset
dispatch w s n m asked_for_from_address_lookup = step_other w s n m
dispatch w s n m awaiting_try_destination_imsi = step_other w s n m
dispatch w s n m asked_for_destination_imsi = step_other w s n m
dispatch w s n m awaiting_try_destination_sipurl = step_other w s n m
dispatch w s n m asked_for_destination_sipurl = step_other w s n m

-- The message at the head of the queue, if it is due.
unfoldable pub process_head : World → Smq → List Msg → Res Smq
unfolding dispatch
process_head w s [] = ok s
process_head w s (m ∷ q) =
    if ltb w.now m.next_action_time then ok s else dispatch w s m.node m m.state

-- process_timeout: nothing is done for an empty queue, or while the head of the queue is not due.
unfoldable pub process_timeout : World → Smq → Res Smq
unfolding process_head
process_timeout w s = process_head w s s.queue
