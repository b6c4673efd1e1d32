-- ===== src/Smq/Held/Responses.antt =====
-- handle_response of smqueue/smqueue.cpp keeps every message in a list node of its own.
use smqueue.Prelude.{
  if◌then◌else◌, ℕ, refl, ◌∙◌, Bool, true, false, Option, none, some, Str, codes, ok, deref, ◌>>=◌,
  Holds, >>=-Holds, >>=-Holds_eq, if-Holds, ◌==◌, deref-eq_ok, ◌||◌, decimal, ◌++◌,
}
use smqueue.Sip.{Sip}
use smqueue.State.{SmState, initial_state, request_destination_imsi}
use smqueue.Message.{Msg, parse, set_msg_state, set_msg_state_at}
use smqueue.Message.Node.{node_of, SameNode1, parse-SameNode}
use smqueue.Queue.{get, remove, find_queued_msg_by_tag, get_link}
use smqueue.Queue.Nodes.{get-node}
use smqueue.Smq.{World, Smq}
use smqueue.Smq.Originate.{bounce_message}
use smqueue.Smq.Response.{
  code_of, Kind, interim, success, redirect, client_error, server_error, reject, unknown,
  increase_acked_msg_timeout, write_cdr, restart_if_waiting, restart_linked, handle_success,
  handle_client_error, answer, answer_found, handle_response, in_place, is_registering, method_is,
  kind,
}
use smqueue.Smq.Held.{IsHeld, IsHeld1, bounce_message-IsHeld}
use smqueue.Smq.Held.Commands.{modify-IsHeld, put_msg-IsHeld, remove-IsHeld}

in_place_state-IsHeld :
    (w : World) (s : Smq) (k : ℕ) (st : SmState)
    → IsHeld s
    → IsHeld (in_place s k (λ m. set_msg_state w.now m st))
unfolding set_msg_state
in_place_state-IsHeld w s k st h = modify-IsHeld s k _ (λ m. refl) h

in_place_acked-IsHeld :
    (w : World) (s : Smq) (k : ℕ) → IsHeld s → IsHeld (in_place s k (increase_acked_msg_timeout w))
unfolding increase_acked_msg_timeout set_msg_state_at
in_place_acked-IsHeld w s k h = modify-IsHeld s k _ (λ m. refl) h

restart_if_waiting-IsHeld :
    (w : World) (s : Smq) (link : Option ℕ) → IsHeld s → Holds IsHeld (restart_if_waiting w s link)
unfolding restart_if_waiting
restart_if_waiting-IsHeld w s none h = h
restart_if_waiting-IsHeld w s (some j) h =
    >>=-Holds_eq IsHeld (deref (get j s.queue)) _ (λ old _. restarted (is_registering old.state))
  where
    restarted :
        (b : Bool)
        → IsHeld (if b then in_place s j (λ m. set_msg_state w.now m initial_state) else s)
    restarted true = in_place_state-IsHeld w s j initial_state h
    restarted false = h

pub restart_linked-IsHeld :
    (w : World) (s : Smq) (m : Msg) → IsHeld s → Holds IsHeld (restart_linked w s m)
unfolding restart_linked
restart_linked-IsHeld w s m h =
    >>=-Holds_eq IsHeld (get_link m s.queue) _ (λ link _. restart_if_waiting-IsHeld w s link h)

pub write_cdr-IsHeld : (w : World) (s : Smq) (p : Sip) → IsHeld s → Holds IsHeld (write_cdr w s p)
unfolding write_cdr
write_cdr-IsHeld w s p h = >>=-Holds_eq IsHeld (deref p.from) _ (λ from _.
    >>=-Holds_eq IsHeld (deref from.url) _ (λ from_url _.
      >>=-Holds_eq IsHeld (deref p.to) _ (λ to _. >>=-Holds_eq IsHeld (deref to.url) _ (λ to_url _.
        if-Holds IsHeld w.cdr_open _ _
          (λ _.
            >>=-Holds_eq IsHeld (deref from_url.username) _
              (λ source _. >>=-Holds_eq IsHeld (deref to_url.username) _ (λ dest _. h)))
          (λ _. h)))))

handle_success-IsHeld :
    (w : World) (s : Smq) (k : ℕ) → IsHeld s → Holds IsHeld (handle_success w s k)
unfolding handle_success
handle_success-IsHeld w s k h = >>=-Holds_eq IsHeld (deref (get k s.queue)) _ (λ x g.
    >>=-Holds (SameNode1 x) IsHeld (parse w.outside x) _ (parse-SameNode w.outside x) (λ a e.
      let t : Smq = in_place s k (λ m. a.0) in
      let i : IsHeld t =
        put_msg-IsHeld s k a.0 (node_of e ∙ get-node k s.queue (deref-eq_ok g)) h in
      >>=-Holds IsHeld IsHeld
        (if method_is a.0.parsed (codes "REGISTER") then restart_linked w t a.0 else ok t) _
        (if-Holds IsHeld (method_is a.0.parsed (codes "REGISTER")) _ _
          (λ _. restart_linked-IsHeld w t a.0 i) (λ _. i))
        (λ u j.
          >>=-Holds IsHeld IsHeld
            (if method_is a.0.parsed (codes "MESSAGE")
              then (do p ← deref a.0.parsed; write_cdr w u p)
              else ok u)
            _
            (if-Holds IsHeld (method_is a.0.parsed (codes "MESSAGE")) _ _
              (λ _. >>=-Holds_eq IsHeld (deref a.0.parsed) _ (λ p _. write_cdr-IsHeld w u p j))
              (λ _. j))
            (λ v l. remove-IsHeld v k l))))

handle_client_error-IsHeld :
    (w : World) (s : Smq) (k code : ℕ) (reason : Option Str)
    → IsHeld s
    → Holds IsHeld (handle_client_error w s k code reason)
unfolding handle_client_error
handle_client_error-IsHeld w s k code reason h =
    if-Holds IsHeld (code == 480 || code == 486) _ _ (λ _. in_place_acked-IsHeld w s k h)
      (λ _. >>=-Holds_eq IsHeld (deref (get k s.queue)) _ (λ m _.
        >>=-Holds_eq IsHeld (deref reason) _ (λ r _.
          let err : Str = decimal code ++ (codes " " ++ r) in
          >>=-Holds IsHeld1 IsHeld (bounce_message w s m err) _ (bounce_message-IsHeld w s m err h)
            (λ b i. in_place_state-IsHeld w b.0 k b.1 i))))

answer-IsHeld :
    (w : World) (s : Smq) (k : ℕ) (p : Sip) (kind : Kind)
    → IsHeld s
    → Holds IsHeld (answer w s k p kind)
unfolding answer
answer-IsHeld w s k p interim h = in_place_acked-IsHeld w s k h
answer-IsHeld w s k p success h = handle_success-IsHeld w s k h
answer-IsHeld w s k p client_error h =
    handle_client_error-IsHeld w s k (code_of p.status_code) p.reason_phrase h
answer-IsHeld w s k p server_error h = in_place_acked-IsHeld w s k h
answer-IsHeld w s k p redirect h = in_place_state-IsHeld w s k request_destination_imsi h
answer-IsHeld w s k p reject h = in_place_state-IsHeld w s k request_destination_imsi h
answer-IsHeld w s k p unknown h = h

answer_found-IsHeld :
    (w : World) (s : Smq) (p : Option Sip) (k : Option ℕ)
    → IsHeld s
    → Holds IsHeld (answer_found w s p k)
unfolding answer_found
answer_found-IsHeld w s p none h = h
answer_found-IsHeld w s p (some k) h =
    >>=-Holds_eq IsHeld (deref p) _ (λ q _. answer-IsHeld w s k q (kind q.status_code) h)

pub handle_response-IsHeld :
    (w : World) (s : Smq) (n : ℕ) → IsHeld s → Holds IsHeld (handle_response w s n)
unfolding handle_response
handle_response-IsHeld w s n h = >>=-Holds_eq IsHeld (deref (get n s.queue)) _ (λ r _.
    >>=-Holds_eq IsHeld (deref r.qtag) _ (λ tag _.
      let t : Smq = record s { queue = remove n s.queue } in
      >>=-Holds_eq IsHeld (find_queued_msg_by_tag tag r.qtaghash t.queue) _
        (λ found _. answer_found-IsHeld w t r.parsed found (remove-IsHeld s n h))))
