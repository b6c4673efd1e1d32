-- ===== src/Smq/Originate.antt =====
-- Messages that smqueue makes itself: originate_half_sm, originate_sm, bounce_message,
-- ready_to_register and register_handset of smqueue/smqueue.cpp. Header texts that libosip parses
-- at once are written as what it makes of them.
pub mod Bounce
use smqueue.Prelude.{
  ℕ, ◌+◌, ◌%◌, Bool, true, false, ◌||◌, List, [], ◌∷◌, ◌++◌, Option, none, some, Str, codes, str_eq,
  starts_with, decimal, take, split_at, ◌==◌, Res, ok, deref, ◌>>=◌, pos, if◌then◌else◌,
}
use smqueue.Sip.{Sip, Uri, Address, Param, CallId, Via}
use smqueue.State.{
  SmState, no_state, delete_me_state, request_destination_imsi, request_destination_sipurl,
  request_msg_delivery, asked_to_register_handset,
}
use smqueue.Message.{
  Msg, text_plain, new_msg, put_parsed, parsed_was_changed, make_text_valid, unparse, parse,
  get_text,
}
use smqueue.Message.Tag.{set_qtag}
use smqueue.Message.Validate.{validate_short_msg}
use smqueue.Queue.{get, update}
use smqueue.Smq.{World, Smq, insert_new_message, new_node, manager}

-- osip_message_init.
abbrev pub empty_sip : Sip
empty_sip = record {
  sip_version = none;
  status_code = pos 0;
  reason_phrase = none;
  req_uri = none;
  sip_method = none;
  call_id = none;
  cseq = none;
  from = none;
  to = none;
  vias = [];
  content_length = none;
  content_type = none;
  mime_version = none;
  bodies = [];
  contact = none;
  allow = none;
  accept = none;
}

-- The Via line that describes this program.
unfoldable pub my_via : Smq → Via
my_via s = record { host = some s.my_ipaddress; port = some s.my_udp_port }

-- The Call-ID of a new message: a new one, but for REGISTER the one of the first REGISTER.
unfoldable pub choose_call_id : World → Smq → Bool → Smq × CallId
choose_call_id w s register = elim (saved register s.register_call_id) [
  | some id ↦ (s, id)
  | none ↦ (save register, fresh)
]
  where
    saved : Bool → Option CallId → Option CallId
    saved true id = id
    saved false id = none

    fresh : CallId
    fresh = record { number = some w.call_number; host = some s.my_ipaddress }

    save : Bool → Smq
    save true = record s { register_call_id = some fresh; register_call_seq = 0 }
    save false = s

-- The CSeq number: counted for REGISTER, else 16 random bits.
unfoldable pub choose_cseq : World → Smq → Bool → Smq × ℕ
choose_cseq w s true =
    (record s { register_call_seq = s.register_call_seq + 1 }, s.register_call_seq + 1)
choose_cseq w s false = (s, w.random % 65536)

abbrev pub method_name : Bool → Str
method_name true = codes "REGISTER"
method_name false = codes "MESSAGE"

-- originate_half_sm(method), for REGISTER or MESSAGE: the message, and its CSeq number.
unfoldable pub originate_half_sm : World → Smq → Bool → Smq × Msg × Sip × Str
unfolding choose_call_id choose_cseq my_via new_msg new_node
originate_half_sm w s register =
    let (s, node) = new_node s in
    let (s, id) = choose_call_id w s register in
    let (s, n) = choose_cseq w s register in
    let number : Str = decimal n in
    let p : Sip = record empty_sip {
      call_id = some id;
      cseq = some (record { number = some number; method = some (method_name register) });
      sip_method = some (method_name register);
      vias = my_via s ∷ [];
    } in
    (
      s,
      record (new_msg node) { parsed = some p; parsed_is_valid = true; parsed_is_better = true },
      p,
      number,
    )

-- sip:user@host with an optional port.
abbrev pub sip_uri : Str → Str → Option Str → Uri
sip_uri user host port = record {
  scheme = some (codes "sip");
  host = some host;
  port = port;
  username = some user;
}

abbrev pub tag_param : Str → List (Option Param)
tag_param number = some (record { gname = codes "tag"; gvalue = some number }) ∷ []

-- The message that originate_sm fills in: From with the CSeq number for a tag, To, URI and body.
unfoldable pub fill_message : World → Smq → Msg → Sip → Str → Str → Str → Str → Msg
unfolding put_parsed parsed_was_changed
fill_message w s m p number from to text =
    let p : Sip = record p {
      from = some (record {
        displayname = some from;
        url = some (sip_uri from s.my_ipaddress none);
        gen_params = tag_param number;
      });
      to = some (record {
        displayname = none;
        url = some (sip_uri to s.my_ipaddress none);
        gen_params = [];
      });
      req_uri = some (sip_uri to s.my_ipaddress (some w.config.default_bts_port));
      content_type =
          some (record { type_name = some (codes "text"); subtype = some (codes "plain") });
      bodies = some (record { body = some (take 160 text) }) ∷ [];
    } in
    parsed_was_changed (put_parsed (record m { need_repack = true; content_type = text_plain }) p)

-- The end of originate_sm and register_handset: the queue tag, the text, and the validation of the
-- message as it was printed.
unfoldable pub finish_message : World → Smq → Msg → Res (Msg × ℕ)
unfolding make_text_valid unparse manager
finish_message w s m = do
  m ← make_text_valid w.outside m
  m ← unparse w.outside m
  validate_short_msg w.outside (manager w s) false m

-- originate_sm: whether the message was queued.
unfoldable pub originate_sm : World → Smq → Str → Str → Str → SmState → Res (Smq × Bool)
unfolding originate_half_sm fill_message finish_message
originate_sm w s from to text first =
    let (s, m, p, number) = originate_half_sm w s false in
    do
      tagged ← set_qtag w.outside (fill_message w s m p number from to text)
      checked ← finish_message w s tagged.0
      if checked.1 == 0
          then (do s ← insert_new_message w s checked.0 first; ok (s, true))
          else ok (s, false)

-- The To and From users of a parsed message, which are read without a check.
unfoldable pub url_username : Option Address → Res Str
url_username a = do a ← deref a; url ← deref a.url; deref url.username

-- bounce_message: the state for the message that bounces.
unfoldable pub bounce_message : World → Smq → Msg → Str → Res (Smq × SmState)
unfolding url_username
bounce_message w s m err = do
  p ← deref m.parsed
  username ← url_username p.to
  text ← get_text w.outside m
  from ← url_username p.from
  if str_eq w.config.bounce_code from
      then ok (s, no_state)
      else send from (
          codes "Can't send your SMS to "
          ++ (username ++ (codes ": " ++ (err ++ (codes ": " ++ text)))))
  where
    first_state : Str → SmState
    first_state from =
        if starts_with (codes "IMSI") from || starts_with (codes "imsi") from
        then request_destination_sipurl
        else request_destination_imsi

    send : Str → Str → Res (Smq × SmState)
    send from text = do
      sent ← originate_sm w s w.config.bounce_code from text (first_state from)
      ok (sent.0, if sent.1 then delete_me_state else no_state)

-- The user of a From field. A missing From or URL is not ready; a missing user is given to the
-- registry as it is.
unfoldable pub from_user : Option Sip → Option (Option Str)
from_user none = none
from_user (some p) = elim p.from [
  | none ↦ none
  | some a ↦ elim a.url [ none ↦ none | some u ↦ some u.username ]
]

unfoldable pub is_registered : World → Msg → Option (Option Str) → Res (Msg × Bool)
is_registered w m none = ok (m, false)
is_registered w m (some imsi) = do
  imsi ← deref imsi
  ok (m, elim (w.hlr.get_clid_local imsi) [ none ↦ false | some c ↦ true ])

-- ready_to_register, with the parse that it makes.
unfoldable pub ready_to_register : World → Msg → Res (Msg × Bool)
unfolding from_user is_registered
ready_to_register w m = do
  parsed ← parse w.outside m
  is_registered w parsed.0 (from_user parsed.0.parsed)

-- set_linktag: the tag of the old message, which is made if it has none.
unfoldable pub set_linktag : World → Msg → Msg → Res (Msg × Msg)
set_linktag w new old = do
  old ← tagged old.qtag
  tag ← deref old.qtag
  ok (record new { linktag = some tag }, old)
  where
    tagged : Option Str → Res Msg
    tagged none = do r ← set_qtag w.outside old; ok r.0
    tagged (some t) = ok old

-- "host:port" as a URI without a user.
unfoldable pub host_uri : Str → Uri
host_uri hostport = elim (split_at b':' hostport) [
  | none ↦ record {
    scheme = some (codes "sip");
    host = some hostport;
    port = none;
    username = none;
  }
  | some (h, q) ↦ record {
    scheme = some (codes "sip");
    host = some h;
    port = some q;
    username = none;
  }
]

-- The REGISTER message for the handset that sent a message.
unfoldable pub fill_register : World → Smq → Msg → Sip → Str → Str → Str → Msg
unfolding put_parsed parsed_was_changed host_uri
fill_register w s m p number imsi srcaddr =
    let name : Uri = record (host_uri s.my_register_hostport) { username = some imsi } in
    let p : Sip = record p {
      to = some (record { displayname = some imsi; url = some name; gen_params = [] });
      from =
          some (record { displayname = some imsi; url = some name; gen_params = tag_param number });
      req_uri = some (host_uri s.my_register_hostport);
      contact = some (
          codes "<sip:"
          ++ (imsi ++ (codes "@" ++ (w.string_addr srcaddr ++ codes ">;expires=3600"))));
    } in
    parsed_was_changed (put_parsed (record m { need_repack = false }) p)

-- register_handset: the state for the message that asked for it.
unfoldable pub register_handset_msg : World → Smq → ℕ → Res (Smq × SmState)
unfolding originate_half_sm fill_register finish_message url_username set_linktag update get
register_handset_msg w s n =
    let (s, m, p, number) = originate_half_sm w s true in
    do
      old ← deref (get n s.queue)
      q ← deref old.parsed
      imsi ← url_username q.from
      tagged ← set_qtag w.outside (fill_register w s m p number imsi old.srcaddr)
      linked ← set_linktag w tagged.0 old
      let s = record s { queue = update n linked.1 s.queue }
      checked ← finish_message w s linked.0
      if checked.1 == 0
          then (do
            s ← insert_new_message w s checked.0 request_msg_delivery
            ok (s, asked_to_register_handset))
          else ok (s, delete_me_state)
