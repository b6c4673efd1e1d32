-- ===== src/Smq/Held/ShortCodes.antt =====
-- handle_short_code of smqueue/smqueue.cpp, with the commands that delete, save and forward
-- messages, keeps every message in a list node of its own.
use smqueue.Prelude.{
  List, ◌≡◌, ap, ◌>>=◌, if◌then◌else◌, ℕ, ◌+◌, refl, sym, subst, Bool, true, false, [], ◌∷◌, Option,
  none, some, Str, codes, ok, deref, Holds, >>=-Holds, >>=-Holds_eq, if-Holds, ◌==◌, char_at, drop,
  length, starts_with, str_eq,
}
use smqueue.Sip.{Sip, Submit, TlMessage, submit, deliver}
use smqueue.State.{request_destination_sipurl}
use smqueue.Message.{
  Msg, ContentType, unsupported_content, text_plain, vnd_3gpp_sms, get_text, put_parsed,
  parsed_was_changed,
}
use smqueue.Queue.{get, find_queued_msg}
use smqueue.Queue.Nodes.{AreNodes}
use smqueue.Smq.{
  World, Smq, dump_list, debug_dump, ShortFunc, shortcode_register, shortcode_four_one_one,
  shortcode_debug_dump, shortcode_quick_chk, shortcode_zap_queued, whiplash_quit, shortcode_smsc,
  lookup_short_code,
}
use smqueue.Smq.Originate.{register_handset_msg, url_username, originate_sm}
use smqueue.Smq.Held.{IsHeld, IsHeld1, dump_list-nodes, debug_dump-IsHeld, originate_sm-IsHeld}
use smqueue.Smq.Commands.{
  quit_command, run_whiplash_quit, bump, is_stale, step_on, zap_stale, zap_found, zap_tag,
  zap_queued, run_zap_queued, Action, done, internal_error, reply, retry_after_delay, quit_smqueue,
  await_register, register, treat_as_ordinary, exec_smqueue, restart_processing,
}
use smqueue.Smq.Commands.Smsc.{readdress_to, send_sip, sent_to, submit_sms, smsc_by_type, run_smsc}
use smqueue.Smq.ShortCode.{run_short_func, send_reply, obey, call_short_code, handle_short_code}
use smqueue.Smq.Held.Commands.{
  modify-IsHeld, remove-IsHeld, register_handset_msg-IsHeld, HeldOutcome, run_register-smq,
  run_four_one_one-IsHeld,
}

zap_tag-IsHeld : (w : World) (s : Smq) (tag : Str) → IsHeld s → Holds IsHeld1 (zap_tag w s tag)
unfolding zap_tag
zap_tag-IsHeld w s tag h =
    >>=-Holds_eq IsHeld1 (find_queued_msg tag s.queue) _ (λ found _. zapped found)
  where
    zapped : (found : Option ℕ) → Holds IsHeld1 (zap_found w s tag found)
    zapped none = h
    zapped (some n) = >>=-Holds_eq IsHeld1 (deref (get n s.queue)) _ (λ x _. remove-IsHeld s n h)

-- Where the loop of the zap password returns, it has left the list as it was.
zap_stale-same : (t n : ℕ) (q : List Msg) → Holds (λ (r : ℕ × List Msg). r.1 ≡ q) (zap_stale t n q)
unfolding zap_stale step_on
zap_stale-same t n [] = refl
zap_stale-same t n (x ∷ xs) = by_test (is_stale t x) (λ k. zap_stale-same t k xs)
  where
    by_test :
        (b : Bool)
        → ((k : ℕ) → Holds (λ (r : ℕ × List Msg). r.1 ≡ xs) (zap_stale t k xs))
        → Holds
            (λ (r : ℕ × List Msg). r.1 ≡ x ∷ xs)
            (step_on b >>= λ u.
              zap_stale t (bump b n) xs >>= λ r. ok (r.0, if b then r.1 else x ∷ r.1))
    by_test true h = tt
    by_test false h =
        >>=-Holds (λ (r : ℕ × List Msg). r.1 ≡ xs) (λ (r : ℕ × List Msg). r.1 ≡ x ∷ xs)
          (zap_stale t n xs) _ (h n) (λ r e. ap (λ q. x ∷ q) e)

zap_queued-IsHeld :
    (w : World) (s : Smq) (text : Str) → IsHeld s → Holds IsHeld1 (zap_queued w s text)
unfolding zap_queued
zap_queued-IsHeld w s text h =
    if-Holds IsHeld1 (str_eq w.config.zap_password text) _ _
      (λ _.
        >>=-Holds (λ (r : ℕ × List Msg). r.1 ≡ s.queue) IsHeld1
          (zap_stale (5000000 + w.now) 0 s.queue) _ (zap_stale-same (5000000 + w.now) 0 s.queue)
          (λ r e. rw e h))
      (λ _. zap_tag-IsHeld w s text h)

run_zap_queued-IsHeld :
    (w : World) (s : Smq) (text : Str) → IsHeld s → Holds HeldOutcome (run_zap_queued w s text)
unfolding run_zap_queued
run_zap_queued-IsHeld w s text h =
    if-Holds HeldOutcome (char_at text 0 == b'-') _ _
      (λ _.
        >>=-Holds IsHeld1 HeldOutcome (zap_queued w s (drop 1 text)) _
          (zap_queued-IsHeld w s (drop 1 text) h) (λ r k. k))
      (λ _.
        >>=-Holds IsHeld1 HeldOutcome (zap_queued w s text) _ (zap_queued-IsHeld w s text h)
          (λ r k. k))

quit_command-IsHeld :
    (w : World) (s : Smq) (text : Str) → IsHeld s → Holds HeldOutcome (quit_command w s text)
unfolding quit_command
quit_command-IsHeld w s [] h = tt
quit_command-IsHeld w s (c ∷ command) h =
    if-Holds HeldOutcome (starts_with (codes "quit") command) _ _ (λ _. h)
      (λ _.
        if-Holds HeldOutcome (starts_with (codes "exec") command) _ _ (λ _. h)
          (λ _.
            if-Holds HeldOutcome (starts_with (codes "test") command) _ _
              (λ _.
                >>=-Holds _ HeldOutcome (dump_list w.outside s.queue) _
                  (dump_list-nodes w.outside s.queue)
                  (λ q e. subst (AreNodes s.next_node) (sym e) h))
              (λ _. h)))

run_whiplash_quit-IsHeld :
    (w : World) (s : Smq) (text : Str) → IsHeld s → Holds HeldOutcome (run_whiplash_quit w s text)
unfolding run_whiplash_quit
run_whiplash_quit-IsHeld w s text h =
    if-Holds HeldOutcome (starts_with w.config.quit_password text) _ _
      (λ _. quit_command-IsHeld w s (drop (length w.config.quit_password) text) h) (λ _. h)

send_sip-IsHeld :
    (s : Smq) (n : ℕ) (m : Msg) (address : Str)
    → IsHeld s
    → Holds HeldOutcome (send_sip s n m address)
unfolding send_sip put_parsed parsed_was_changed
send_sip-IsHeld s n m address h = >>=-Holds_eq HeldOutcome (deref m.parsed) _ (λ p _.
    >>=-Holds_eq HeldOutcome (deref p.from) _ (λ from _.
      >>=-Holds_eq HeldOutcome (deref from.url) _ (λ url _.
        >>=-Holds_eq HeldOutcome (readdress_to address p) _
          (λ q _. modify-IsHeld s n _ (λ x. refl) h))))

submit_sms-IsHeld :
    (w : World) (s : Smq) (n : ℕ) (m : Msg) (tl : Submit) (text : Str)
    → IsHeld s
    → Holds HeldOutcome (submit_sms w s n m tl text)
unfolding submit_sms
submit_sms-IsHeld w s n m tl text h =
    if-Holds HeldOutcome (w.is_email text) _ _ (λ _. sent w.mail_sent)
      (λ _.
        if-Holds HeldOutcome _ (ok (sent_to w.http_sent s)) (send_sip s n m tl.da)
          (λ _. sent w.http_sent) (λ _. send_sip-IsHeld s n m tl.da h))
  where
    sent : (b : Bool) → IsHeld (sent_to b s).smq
    sent true = h
    sent false = h

run_smsc-IsHeld :
    (w : World) (s : Smq) (n : ℕ) (text : Str) → IsHeld s → Holds HeldOutcome (run_smsc w s n text)
unfolding run_smsc
run_smsc-IsHeld w s n text h =
    >>=-Holds_eq HeldOutcome (deref (get n s.queue)) _
      (λ m _. by_type m m.content_type m.tl_message)
  where
    by_type :
        (m : Msg) (c : ContentType) (t : Option TlMessage)
        → Holds HeldOutcome (smsc_by_type w s n text m c t)
    by_type m text_plain t = >>=-Holds_eq HeldOutcome (deref m.parsed) _ (λ p _.
        >>=-Holds_eq HeldOutcome (url_username p.to) _
          (λ address _. send_sip-IsHeld s n m address h))
    by_type m unsupported_content t = h
    by_type m vnd_3gpp_sms none = h
    by_type m vnd_3gpp_sms (some (submit tl)) = submit_sms-IsHeld w s n m tl text h
    by_type m vnd_3gpp_sms (some (deliver ud)) = h

run_short_func-IsHeld :
    (w : World) (s : Smq) (n : ℕ) (f : ShortFunc) (imsi : Option Str) (text : Str)
    → IsHeld s
    → Holds HeldOutcome (run_short_func w s n f imsi text)
unfolding run_short_func
run_short_func-IsHeld w s n shortcode_register imsi text h =
    >>=-Holds_eq HeldOutcome (deref imsi) _
      (λ i _. subst IsHeld (sym (run_register-smq w s i text)) h)
run_short_func-IsHeld w s n shortcode_four_one_one imsi text h =
    run_four_one_one-IsHeld w s n text h
run_short_func-IsHeld w s n shortcode_debug_dump imsi text h =
    >>=-Holds IsHeld HeldOutcome (debug_dump w s) _ (debug_dump-IsHeld w s h) (λ r k. k)
run_short_func-IsHeld w s n shortcode_quick_chk imsi text h = h
run_short_func-IsHeld w s n shortcode_zap_queued imsi text h = run_zap_queued-IsHeld w s text h
run_short_func-IsHeld w s n whiplash_quit imsi text h = run_whiplash_quit-IsHeld w s text h
run_short_func-IsHeld w s n shortcode_smsc imsi text h = run_smsc-IsHeld w s n text h

send_reply-IsHeld :
    (w : World) (s : Smq) (n : ℕ) (answer : Option Str)
    → IsHeld s
    → Holds IsHeld1 (send_reply w s n answer)
unfolding send_reply
send_reply-IsHeld w s n answer h = >>=-Holds_eq IsHeld1 (deref (get n s.queue)) _ (λ m _.
    >>=-Holds_eq IsHeld1 (deref m.parsed) _ (λ p _.
      >>=-Holds_eq IsHeld1 (deref p.req_uri) _ (λ uri _.
        >>=-Holds_eq IsHeld1 (deref uri.username) _ (λ code _.
          >>=-Holds_eq IsHeld1 (url_username p.from) _ (λ imsi _.
            >>=-Holds_eq IsHeld1 (deref answer) _ (λ text _.
              >>=-Holds IsHeld1 IsHeld1 (originate_sm w s code imsi text request_destination_sipurl)
                _ (originate_sm-IsHeld w s code imsi text request_destination_sipurl h)
                (λ r k. k)))))))

obey-IsHeld :
    (w : World) (s : Smq) (n : ℕ) (a : Action) (answer : Option Str)
    → IsHeld s
    → Holds IsHeld1 (obey w s n a answer)
unfolding obey
obey-IsHeld w s n reply answer h = send_reply-IsHeld w s n answer h
obey-IsHeld w s n internal_error answer h = h
obey-IsHeld w s n exec_smqueue answer h = h
obey-IsHeld w s n quit_smqueue answer h = h
obey-IsHeld w s n done answer h = h
obey-IsHeld w s n retry_after_delay answer h = modify-IsHeld s n _ (λ m. refl) h
obey-IsHeld w s n await_register answer h = h
obey-IsHeld w s n register answer h =
    >>=-Holds IsHeld1 IsHeld1 (register_handset_msg w s n) _ (register_handset_msg-IsHeld w s n h)
      (λ r k. k)
obey-IsHeld w s n treat_as_ordinary answer h = h
obey-IsHeld w s n restart_processing answer h = h

pub handle_short_code-IsHeld :
    (w : World) (s : Smq) (n : ℕ) → IsHeld s → Holds IsHeld1 (handle_short_code w s n)
unfolding handle_short_code
handle_short_code-IsHeld w s n h = >>=-Holds_eq IsHeld1 (deref (get n s.queue)) _ (λ m _.
    >>=-Holds_eq IsHeld1 (deref m.parsed) _ (λ p _.
      >>=-Holds_eq IsHeld1 (deref p.req_uri) _ (λ uri _.
        >>=-Holds_eq IsHeld1 (deref uri.username) _
          (λ code _. found m p (lookup_short_code code s.short_code_map)))))
  where
    found : (m : Msg) (p : Sip) (f : Option ShortFunc) → Holds IsHeld1 (call_short_code w s n m p f)
    found m p none = h
    found m p (some f) = >>=-Holds_eq IsHeld1 (get_text w.outside m) _ (λ text _.
        >>=-Holds_eq IsHeld1 (deref p.from) _ (λ from _.
          >>=-Holds_eq IsHeld1 (deref from.url) _ (λ url _.
            >>=-Holds HeldOutcome IsHeld1 (run_short_func w s n f url.username text) _
              (run_short_func-IsHeld w s n f url.username text h)
              (λ r k. obey-IsHeld w r.smq n r.action r.answer k))))
