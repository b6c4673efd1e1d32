-- ===== src/Smq/Commands/Smsc.antt =====
-- shortcode_smsc of smqueue/smsc.cpp: a message to the service centre is sent on to the address that
-- it holds, by mail, over HTTP, or back into the queue.
use smqueue.Prelude.{
  ℕ, Bool, true, false, not, ◌&&◌, Option, none, some, Str, Res, ok, deref, ◌>>=◌, if◌then◌else◌,
}
use smqueue.Sip.{Sip, Submit, TlMessage, submit, deliver}
use smqueue.Message.{
  Msg, ContentType, unsupported_content, text_plain, vnd_3gpp_sms, put_parsed, parsed_was_changed,
}
use smqueue.Queue.{get, modify}
use smqueue.Smq.{World, Smq}
use smqueue.Smq.Originate.{url_username}
use smqueue.Smq.Commands.{Outcome, done, internal_error, restart_processing, acts}

-- The request URI and the To field name the address; `set_to_for_smsc` writes the second.
unfoldable pub readdress_to : Str → Sip → Res Sip
readdress_to address p = do
  uri ← deref p.req_uri
  to ← deref p.to
  url ← deref to.url
  ok (record p {
    req_uri = some (record uri { username = some address });
    to = some (record to {
      url = some (record url { username = some address });
      displayname = some address;
    });
  })

-- sendSIP_init and sendSIP_init_text. The From user is read for the log.
unfoldable pub send_sip : Smq → ℕ → Msg → Str → Res Outcome
unfolding readdress_to modify
send_sip s n m address = do
  p ← deref m.parsed
  from ← deref p.from
  url ← deref from.url
  p ← readdress_to address p
  ok (
      acts (record s { queue = modify n (λ x. parsed_was_changed (put_parsed x p)) s.queue })
        restart_processing)

abbrev pub sent_to : Bool → Smq → Outcome
sent_to true s = acts s done
sent_to false s = acts s internal_error

-- submitSMS.
unfoldable pub submit_sms : World → Smq → ℕ → Msg → Submit → Str → Res Outcome
unfolding send_sip
submit_sms w s n m tl text =
    if w.is_email text
    then ok (sent_to w.mail_sent s)
    else if not w.config.has_relay_ip
        && w.config.has_http_gateway
        && is_none (w.hlr.get_imsi2 tl.da)
    then ok (sent_to w.http_sent s)
    else send_sip s n m tl.da
  where
    is_none : Option Str → Bool
    is_none none = true
    is_none (some a) = false

unfoldable pub smsc_by_type :
    World → Smq → ℕ → Str → Msg → ContentType → Option TlMessage → Res Outcome
unfolding submit_sms send_sip url_username
smsc_by_type w s n text m text_plain tl = do
  p ← deref m.parsed
  address ← url_username p.to
  send_sip s n m address
smsc_by_type w s n text m unsupported_content tl = ok (acts s internal_error)
smsc_by_type w s n text m vnd_3gpp_sms none = ok (acts s internal_error)
smsc_by_type w s n text m vnd_3gpp_sms (some (submit tl)) = submit_sms w s n m tl text
smsc_by_type w s n text m vnd_3gpp_sms (some (deliver ud)) = ok (acts s internal_error)

-- shortcode_smsc.
unfoldable pub run_smsc : World → Smq → ℕ → Str → Res Outcome
unfolding smsc_by_type get
run_smsc w s n text = do
  m ← deref (get n s.queue)
  smsc_by_type w s n text m m.content_type m.tl_message
