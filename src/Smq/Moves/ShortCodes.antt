-- ===== src/Smq/Moves/ShortCodes.antt =====
-- The states that handle_short_code of smqueue/smqueue.cpp asks for are moves from the initial state.
use smqueue.Prelude.{
  ℕ, Bool, true, false, Option, none, some, Str, deref, Holds, >>=-Holds, >>=-Holds_eq,
  if◌then◌else◌,
}
use smqueue.Sip.{Sip}
use smqueue.State.{
  SmState, no_state, initial_state, request_destination_sipurl, delete_me_state,
  asked_to_register_handset,
}
use smqueue.Message.{Msg, get_text}
use smqueue.Queue.{get}
use smqueue.Smq.{World, Smq, ShortFunc, lookup_short_code}
use smqueue.Smq.Originate.{url_username, originate_sm, register_handset_msg}
use smqueue.Smq.Commands.{
  Action, done, internal_error, reply, retry_after_delay, quit_smqueue, await_register, register,
  treat_as_ordinary, exec_smqueue, restart_processing,
}
use smqueue.Smq.ShortCode.{run_short_func, send_reply, obey, call_short_code, handle_short_code}
use smqueue.Smq.Timeout.{or_address_lookup}
use smqueue.Smq.Moves
use smqueue.Smq.Moves.{
  Next, Moved, state_in, state_of, move-state_in, move-Moved, remove-Moved, either-Next,
}
use smqueue.Smq.Moves.Delivery.{OneOf, register_handset_msg-OneOf}

-- What is asked of a message after its short code was obeyed.
abbrev pub Obeyed : Smq × Option SmState → Type 0
Obeyed r = Next initial_state (some (or_address_lookup r.1))

replied : (b : Bool) → Next initial_state (some (if b then delete_me_state else no_state))
replied true = Moves.obeyed
replied false = Moves.refused

send_reply-Obeyed :
    (w : World) (s : Smq) (n : ℕ) (answer : Option Str) → Holds Obeyed (send_reply w s n answer)
unfolding send_reply
send_reply-Obeyed w s n answer = >>=-Holds_eq Obeyed (deref (get n s.queue)) _ (λ m _.
    >>=-Holds_eq Obeyed (deref m.parsed) _ (λ p _. >>=-Holds_eq Obeyed (deref p.req_uri) _ (λ uri _.
      >>=-Holds_eq Obeyed (deref uri.username) _ (λ code _.
        >>=-Holds_eq Obeyed (url_username p.from) _ (λ imsi _.
          >>=-Holds_eq Obeyed (deref answer) _ (λ text _.
            >>=-Holds_eq Obeyed (originate_sm w s code imsi text request_destination_sipurl) _
              (λ r _. replied r.1)))))))

obey-Obeyed :
    (w : World) (s : Smq) (n : ℕ) (a : Action) (answer : Option Str)
    → Holds Obeyed (obey w s n a answer)
unfolding obey
obey-Obeyed w s n reply answer = send_reply-Obeyed w s n answer
obey-Obeyed w s n internal_error answer = Moves.refused
obey-Obeyed w s n exec_smqueue answer = Moves.obeyed
obey-Obeyed w s n quit_smqueue answer = Moves.obeyed
obey-Obeyed w s n done answer = Moves.obeyed
obey-Obeyed w s n retry_after_delay answer = Moves.ordinary
obey-Obeyed w s n await_register answer = Moves.must_wait
obey-Obeyed w s n register answer =
    >>=-Holds (OneOf asked_to_register_handset delete_me_state) Obeyed (register_handset_msg w s n)
      _ (register_handset_msg-OneOf w s n)
      (λ r k.
        either-Next initial_state r.1 asked_to_register_handset delete_me_state k Moves.registering
          Moves.obeyed)
obey-Obeyed w s n treat_as_ordinary answer = Moves.ordinary
obey-Obeyed w s n restart_processing answer = Moves.restarted

call_short_code-Obeyed :
    (w : World) (s : Smq) (n : ℕ) (m : Msg) (p : Sip) (f : Option ShortFunc)
    → Holds Obeyed (call_short_code w s n m p f)
unfolding call_short_code
call_short_code-Obeyed w s n m p none = Moves.ordinary
call_short_code-Obeyed w s n m p (some f) = >>=-Holds_eq Obeyed (get_text w.outside m) _ (λ text _.
    >>=-Holds_eq Obeyed (deref p.from) _ (λ from _. >>=-Holds_eq Obeyed (deref from.url) _ (λ url _.
      >>=-Holds_eq Obeyed (run_short_func w s n f url.username text) _
        (λ r _. obey-Obeyed w r.smq n r.action r.answer))))

pub handle_short_code-Obeyed :
    (w : World) (s : Smq) (n : ℕ) → Holds Obeyed (handle_short_code w s n)
unfolding handle_short_code
handle_short_code-Obeyed w s n = >>=-Holds_eq Obeyed (deref (get n s.queue)) _ (λ m _.
    >>=-Holds_eq Obeyed (deref m.parsed) _ (λ p _. >>=-Holds_eq Obeyed (deref p.req_uri) _ (λ uri _.
      >>=-Holds_eq Obeyed (deref uri.username) _
        (λ code _. call_short_code-Obeyed w s n m p (lookup_short_code code s.short_code_map)))))
