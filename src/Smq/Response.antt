-- ===== src/Smq/Response.antt =====
-- handle_response of smqueue/smqueue.cpp: a SIP response meets the message that it answers. The
-- message is changed where it stands in the list.
pub mod InPlace
use smqueue.Prelude.{
  ℕ, ◌+◌, ◌/◌, Bool, true, false, ◌||◌, [], ◌∷◌, ◌++◌, Option, none, some, Str, codes, str_eq,
  decimal, ℤ, pos, negsuc, Res, ok, deref, ◌>>=◌, ◌==◌, if◌then◌else◌,
}
use smqueue.Sip.{Sip}
use smqueue.State.{
  SmState, initial_state, request_destination_imsi, awaiting_register_handset, register_handset,
  asked_to_register_handset,
}
use smqueue.Message.{Msg, parse, set_msg_state, set_msg_state_at}
use smqueue.Queue.{get, remove, modify, find_queued_msg_by_tag, get_link}
use smqueue.Smq.{World, Smq, Config}
use smqueue.Smq.Originate.{url_username, bounce_message}

-- The first digit of a status code.
pub data Kind : Type 0 where
  interim success redirect client_error server_error reject unknown : Kind

unfoldable pub kind : ℤ → Kind
kind (negsuc n) = unknown
kind (pos n) =
    if n / 100 == 1
    then interim
    else if n / 100 == 2
    then success
    else if n / 100 == 3
    then redirect
    else if n / 100 == 4
    then client_error
    else if n / 100 == 5
    then server_error
    else if n / 100 == 6
    then reject
    else unknown

-- The timeout of increase_acked_msg_timeout: the configured one, or a minute.
unfoldable pub resend_timeout : Config → ℕ
resend_timeout c = elim c.acked_message_resend [ none ↦ 60000 | some t ↦ t ]

-- increase_acked_msg_timeout.
unfoldable pub increase_acked_msg_timeout : World → Msg → Msg
unfolding resend_timeout set_msg_state_at
increase_acked_msg_timeout w m = set_msg_state_at m m.state (w.now + resend_timeout w.config)

abbrev pub in_place : Smq → ℕ → (Msg → Msg) → Smq
in_place s k f = record s { queue = modify k f s.queue }

-- write_cdr.
unfoldable pub write_cdr : World → Smq → Sip → Res Smq
unfolding url_username
write_cdr w s p = do
  from ← deref p.from
  from_url ← deref from.url
  to ← deref p.to
  to_url ← deref to.url
  if w.cdr_open
      then (do
        source ← deref from_url.username
        dest ← deref to_url.username
        ok (record s {
          cdr =
              s.cdr
              ++ record { source = source; source_imsi = w.hlr.get_imsi2 source; dest = dest } ∷ [];
        }))
      else ok s

unfoldable pub is_registering : SmState → Bool
is_registering asked_to_register_handset = true
is_registering register_handset = true
is_registering awaiting_register_handset = true
is_registering _ = false

unfoldable pub restart_if_waiting : World → Smq → Option ℕ → Res Smq
unfolding get modify is_registering set_msg_state
restart_if_waiting w s none = ok s
restart_if_waiting w s (some j) = do
  old ← deref (get j s.queue)
  ok (
      if is_registering old.state
      then in_place s j (λ m. set_msg_state w.now m initial_state)
      else s)

-- A REGISTER was accepted: the message that asked for it starts again, if it still waits.
unfoldable pub restart_linked : World → Smq → Msg → Res Smq
unfolding get_link restart_if_waiting
restart_linked w s sent = do link ← get_link sent s.queue; restart_if_waiting w s link

abbrev pub method_is : Option Sip → Str → Bool
method_is none name = false
method_is (some p) name = elim p.sip_method [ none ↦ false | some m ↦ str_eq name m ]

-- 2xx: what the message asked for is done, and the message is deleted.
unfoldable pub handle_success : World → Smq → ℕ → Res Smq
unfolding get modify remove restart_linked write_cdr
handle_success w s k = do
  sent ← deref (get k s.queue)
  parsed ← parse w.outside sent
  let sent = parsed.0
  let s = in_place s k (λ m. sent)
  s ← (if method_is sent.parsed (codes "REGISTER") then restart_linked w s sent else ok s)
  s ←
      (if method_is sent.parsed (codes "MESSAGE")
        then (do p ← deref sent.parsed; write_cdr w s p)
        else ok s)
  ok (record s { queue = remove k s.queue })

-- 4xx: busy and unavailable recipients are tried again, other messages are bounced.
unfoldable pub handle_client_error : World → Smq → ℕ → ℕ → Option Str → Res Smq
unfolding get modify increase_acked_msg_timeout set_msg_state
handle_client_error w s k code reason =
    if code == 480 || code == 486 then ok (in_place s k (increase_acked_msg_timeout w)) else (do
      sent ← deref (get k s.queue)
      reason ← deref reason
      r ← bounce_message w s sent (decimal code ++ (codes " " ++ reason))
      ok (in_place r.0 k (λ m. set_msg_state w.now m r.1)))

abbrev pub code_of : ℤ → ℕ
code_of (pos n) = n
code_of (negsuc n) = 0

-- The switch over the status code of a response, for the message in node `k`.
unfoldable pub answer : World → Smq → ℕ → Sip → Kind → Res Smq
unfolding modify increase_acked_msg_timeout set_msg_state handle_success handle_client_error
answer w s k p interim = ok (in_place s k (increase_acked_msg_timeout w))
answer w s k p success = handle_success w s k
answer w s k p client_error = handle_client_error w s k (code_of p.status_code) p.reason_phrase
answer w s k p server_error = ok (in_place s k (increase_acked_msg_timeout w))
answer w s k p redirect = ok (in_place s k (λ m. set_msg_state w.now m request_destination_imsi))
answer w s k p reject = ok (in_place s k (λ m. set_msg_state w.now m request_destination_imsi))
answer w s k p unknown = ok s

unfoldable pub answer_found : World → Smq → Option Sip → Option ℕ → Res Smq
unfolding answer kind
answer_found w s parsed none = ok s
answer_found w s parsed (some k) = do p ← deref parsed; answer w s k p (kind p.status_code)

-- handle_response, for the response in a node. The response leaves the queue in any case.
unfoldable pub handle_response : World → Smq → ℕ → Res Smq
unfolding get remove find_queued_msg_by_tag answer_found
handle_response w s n = do
  r ← deref (get n s.queue)
  tag ← deref r.qtag
  let s = record s { queue = remove n s.queue }
  found ← find_queued_msg_by_tag tag r.qtaghash s.queue
  answer_found w s r.parsed found
