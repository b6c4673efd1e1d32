-- ===== src/Smq/ShortCode.antt =====
-- handle_short_code of smqueue/smqueue.cpp.
use smqueue.Prelude.{ℕ, ◌+◌, true, Option, none, some, Str, Res, ok, deref, ◌>>=◌, if◌then◌else◌}
use smqueue.Sip.{Sip}
use smqueue.State.{
  SmState, no_state, initial_state, request_from_address_lookup, request_destination_sipurl,
  delete_me_state, awaiting_register_handset,
}
use smqueue.Message.{Msg, get_text}
use smqueue.Queue.{get, modify}
use smqueue.Smq.{
  World, Smq, ShortFunc, shortcode_register, shortcode_four_one_one, shortcode_debug_dump,
  shortcode_quick_chk, shortcode_zap_queued, whiplash_quit, shortcode_smsc, lookup_short_code,
  debug_dump,
}
use smqueue.Smq.Originate.{url_username, originate_sm, register_handset_msg}
use smqueue.Smq.Commands.{
  Outcome, Action, done, internal_error, reply, retry_after_delay, quit_smqueue, await_register,
  register, treat_as_ordinary, exec_smqueue, restart_processing, acts, run_whiplash_quit,
  run_quick_chk, run_four_one_one, run_zap_queued,
}
use smqueue.Smq.Commands.Register.{run_register}
use smqueue.Smq.Commands.Smsc.{run_smsc}

-- The call through the function pointer, with the sender's user and the text of the message.
unfoldable pub run_short_func : World → Smq → ℕ → ShortFunc → Option Str → Str → Res Outcome
unfolding run_whiplash_quit run_quick_chk run_four_one_one run_zap_queued run_register run_smsc
    debug_dump
run_short_func w s n shortcode_register imsi text = do
  imsi ← deref imsi
  ok (run_register w s imsi text)
run_short_func w s n shortcode_four_one_one imsi text = run_four_one_one w s n text
run_short_func w s n shortcode_debug_dump imsi text = do s ← debug_dump w s; ok (acts s done)
run_short_func w s n shortcode_quick_chk imsi text = ok (run_quick_chk s)
run_short_func w s n shortcode_zap_queued imsi text = run_zap_queued w s text
run_short_func w s n whiplash_quit imsi text = run_whiplash_quit w s text
run_short_func w s n shortcode_smsc imsi text = run_smsc w s n text

-- SCA_REPLY: the reply goes from the short code to the sender's IMSI, which are read again. A reply
-- that is not queued falls through into SCA_INTERNAL_ERROR.
unfoldable pub send_reply : World → Smq → ℕ → Option Str → Res (Smq × Option SmState)
unfolding get url_username
send_reply w s n answer = do
  m ← deref (get n s.queue)
  p ← deref m.parsed
  uri ← deref p.req_uri
  code ← deref uri.username
  imsi ← url_username p.from
  text ← deref answer
  sent ← originate_sm w s code imsi text request_destination_sipurl
  ok (sent.0, some (if sent.1 then delete_me_state else no_state))

-- What the function asks for. `none` means that the message is handled like any other.
unfoldable pub obey : World → Smq → ℕ → Action → Option Str → Res (Smq × Option SmState)
unfolding send_reply modify
obey w s n reply answer = send_reply w s n answer
obey w s n internal_error answer = ok (s, some no_state)
obey w s n exec_smqueue answer =
    ok (record s { reexec_smqueue = true; stop_main_loop = true }, some delete_me_state)
obey w s n quit_smqueue answer = ok (record s { stop_main_loop = true }, some delete_me_state)
obey w s n done answer = ok (s, some delete_me_state)
obey w s n retry_after_delay answer = ok (
  record s { queue = modify n (λ m. record m { retries = m.retries + 1 }) s.queue },
  some request_from_address_lookup,
)
obey w s n await_register answer = ok (s, some awaiting_register_handset)
obey w s n register answer = do r ← register_handset_msg w s n; ok (r.0, some r.1)
obey w s n treat_as_ordinary answer = ok (s, none)
obey w s n restart_processing answer = ok (s, some initial_state)

-- The call of what the short code stands for, with the text and the sender of the message.
unfoldable pub call_short_code :
    World → Smq → ℕ → Msg → Sip → Option ShortFunc → Res (Smq × Option SmState)
unfolding run_short_func obey
call_short_code w s n m p none = ok (s, none)
call_short_code w s n m p (some f) = do
  text ← get_text w.outside m
  from ← deref p.from
  url ← deref from.url
  r ← run_short_func w s n f url.username text
  obey w r.smq n r.action r.answer

-- handle_short_code, for the message in a node.
unfoldable pub handle_short_code : World → Smq → ℕ → Res (Smq × Option SmState)
unfolding get lookup_short_code call_short_code
handle_short_code w s n = do
  m ← deref (get n s.queue)
  p ← deref m.parsed
  uri ← deref p.req_uri
  code ← deref uri.username
  call_short_code w s n m p (lookup_short_code code s.short_code_map)
