-- ===== src/Smq/Lookup.antt =====
-- The three lookups that rewrite a message on its way: lookup_from_address, lookup_uri_imsi and
-- lookup_uri_hostport of smqueue/smqueue.cpp. Each gives the message and its next state.
pub mod States
use smqueue.Prelude.{
  Bool, not, ◌||◌, List, [], ◌∷◌, ◌++◌, Option, none, some, Str, codes, str_eq, starts_with,
  starts_with_case, char_at, drop, split_at, is_digit, length, Res, ok, fault, deref, ◌>>=◌, ◌==◌,
  if◌then◌else◌,
}
use smqueue.Sip.{Sip, Uri, Address, CallId}
use smqueue.State.{
  SmState, no_state, request_destination_imsi, request_destination_sipurl, request_msg_delivery,
}
use smqueue.Message.{Msg, parse, put_parsed, parsed_was_changed, convert_message}
use smqueue.Message.Tag.{set_qtag}
use smqueue.Queue.{get, modify}
use smqueue.Smq.{World, Smq, put_msg, is_imsi, imsi_or_none}
use smqueue.Smq.Originate.{my_via, bounce_message}

-- The table imsi_phone.
unfoldable pub imsi_phone : List (Str × Str)
imsi_phone =
    (codes "IMSI666410186585295", codes "+17074700741")
    ∷ (codes "IMSI777100223456161", codes "+17074700746")
    ∷ []

unfoldable pub phone_of_imsi : Str → List (Str × Str) → Option Str
phone_of_imsi imsi [] = none
phone_of_imsi imsi ((i, q) ∷ t) = if str_eq i imsi then some q else phone_of_imsi imsi t

unfoldable pub imsi_of_phone : Str → List (Str × Str) → Option Str
imsi_of_phone phone [] = none
imsi_of_phone phone ((i, q) ∷ t) = if str_eq q phone then some i else imsi_of_phone phone t

abbrev pub or_else {ℓ} : {A : Type ℓ} → Option A → Option A → Option A
or_else none b = b
or_else (some a) b = some a

-- An IMSI has 14 or 15 digits; only the length is looked at.
unfoldable pub has_imsi_length : Str → Bool
has_imsi_length s = length s == 15 || length s == 14

-- "imsi" in any mix of cases is stripped.
unfoldable pub strip_imsi_case : Str → Str
strip_imsi_case s = if starts_with_case (codes "imsi") s then drop 4 s else s

-- The registry's phone number for an IMSI, or that of the table.
unfoldable pub phone_for : World → Str → Option Str
unfolding phone_of_imsi imsi_phone
phone_for w user = or_else (w.hlr.get_clid_local user) (phone_of_imsi user imsi_phone)

-- A new user and display name in the From address.
unfoldable pub rename_from : Msg → Sip → Address → Uri → Str → Msg
rename_from m p from url newfrom = parsed_was_changed (
    put_parsed m (record p {
      from = some (record from {
        url = some (record url { username = some newfrom });
        displayname = some newfrom;
      });
    }))

-- The part of lookup_from_address behind the checks. `p` has the Via line.
unfoldable pub translate_from : World → Msg → Sip → Address → Uri → Str → Msg × SmState
unfolding has_imsi_length strip_imsi_case phone_for rename_from is_digit char_at
translate_from w m p from url user =
    if char_at user 0 == b'+' || is_digit (char_at user 0)
    then (put_parsed m p, request_destination_imsi)
    else if not (has_imsi_length (strip_imsi_case user))
    then (put_parsed m p, no_state)
    else elim (phone_for w user) [
      | none ↦ (put_parsed m p, request_destination_imsi)
      | some newfrom ↦ (rename_from m p from url newfrom, request_destination_imsi)
    ]

unfoldable pub checked_from : World → Smq → Msg → Sip → Address → Uri → Msg × SmState
unfolding translate_from my_via
checked_from w s m p from url = elim url.scheme [
  | none ↦ (m, no_state)
  | some scheme ↦ if not (str_eq (codes "sip") scheme) then (m, no_state) else elim url.username [
    | none ↦ (m, no_state)
    | some user ↦ elim url.host [
      | none ↦ (m, no_state)
      | some host ↦ translate_from w m (record p { vias = p.vias ++ my_via s ∷ [] }) from url user
    ]
  ]
]

-- lookup_from_address.
unfoldable pub lookup_from_address : World → Smq → Msg → Res (Msg × SmState)
unfolding checked_from
lookup_from_address w s m = do
  p ← deref m.parsed
  from ← deref p.from
  url ← deref from.url
  ok (checked_from w s m p from url)

-- The IMSI for a phone number: the registry's or that of the table, if it says "imsi".
unfoldable pub imsi_for : World → Str → Option Str
unfolding imsi_or_none imsi_of_phone imsi_phone
imsi_for w user = imsi_or_none (or_else (w.hlr.get_imsi2 user) (imsi_of_phone user imsi_phone))

-- A message for the global relay: the sender's global number, if there is one, and the relay's type.
unfoldable pub send_to_relay : World → Smq → Msg → Sip → Res (Smq × Msg × SmState)
send_to_relay w s m p = do
  from ← deref p.from
  url ← deref from.url
  user ← deref url.username
  let m : Msg = elim (w.hlr.map_clid_global user) [
    | none ↦ m
    | some newfrom ↦ put_parsed m (record p {
      from = some (record from { url = some (record url { username = some newfrom }) });
    })
  ]
  ok (s, convert_message m s.global_relay_contenttype, request_destination_sipurl)

-- No destination: bounce, or hand the message to the global relay. The bounce message goes into the
-- queue beside the message, which is read again.
unfoldable pub no_destination : World → Smq → Msg → Sip → Res (Smq × Msg × SmState)
unfolding send_to_relay char_at get modify
no_destination w s m p =
    if char_at s.global_relay 0 == 0
    then (do
      r ← bounce_message w (put_msg s m.node m) m w.config.bounce_not_registered
      m ← deref (get m.node r.0.queue)
      ok (r.0, m, r.1))
    else send_to_relay w s m p

-- A new user in the request URI.
unfoldable pub put_uri_user : Msg → Sip → Uri → Str → Msg
put_uri_user m p uri user =
    parsed_was_changed
      (put_parsed m (record p { req_uri = some (record uri { username = some user }) }))

abbrev pub strip : Str → Str → Str
strip prefix s = if starts_with prefix s then drop 4 s else s

unfoldable pub route_user : World → Smq → Msg → Sip → Uri → Str → Res (Smq × Msg × SmState)
unfolding imsi_for no_destination put_uri_user is_imsi has_imsi_length char_at
route_user w s m p uri user =
    if char_at user 0 == b'+' || not (is_imsi user)
    then elim (imsi_for w user) [
      | none ↦ no_destination w s m p
      | some d ↦ ok (s, put_uri_user m p uri d, request_destination_sipurl)
    ]
    else if has_imsi_length (strip (codes "IMSI") (strip (codes "imsi") user))
    then ok (s, m, request_destination_sipurl)
    else ok (s, m, no_state)

-- The request URI must be a SIP URI with a user.
unfoldable pub checked_imsi :
    World → Smq → Msg → Sip → Uri → Option Str → Option Str → Res (Smq × Msg × SmState)
unfolding route_user
checked_imsi w s m p uri none user = ok (s, m, no_state)
checked_imsi w s m p uri (some scheme) none = ok (s, m, no_state)
checked_imsi w s m p uri (some scheme) (some user) =
    if str_eq (codes "sip") scheme then route_user w s m p uri user else ok (s, m, no_state)

-- lookup_uri_imsi. The result of its parse is not looked at.
unfoldable pub lookup_uri_imsi : World → Smq → Msg → Res (Smq × Msg × SmState)
unfolding checked_imsi
lookup_uri_imsi w s m = do
  parsed ← parse w.outside m
  p ← deref parsed.0.parsed
  uri ← deref p.req_uri
  checked_imsi w s parsed.0 p uri uri.scheme uri.username

-- Where a message goes: a host and a port, if they are known.
unfoldable pub relay_route : World → Smq → Str → Option Str × Option Str
unfolding is_imsi char_at split_at
relay_route w s user =
    if char_at user 0 == b'+' || not (is_imsi user)
    then (some s.global_relay, some s.global_relay_port)
    else split_port (w.hlr.get_registration_ip user)
  where
    split_port : Option Str → Option Str × Option Str
    split_port none = (none, none)
    split_port (some h) = elim (split_at b':' h) [
      | none ↦ (some h, none)
      | some (a, b) ↦ (some a, some b)
    ]

abbrev pub or_default : Option Str → Str → Str
or_default none d = d
or_default (some a) d = a

-- A new Call-ID number, and our address where the Call-ID has a host. A Call-ID that is made here
-- has no number, and strcmp reads it.
unfoldable pub renew_call_id : World → Smq → Option CallId → Res CallId
renew_call_id w s none = fault
renew_call_id w s (some id) = do
  number ← deref id.number
  ok (record {
    number = some w.call_number;
    host = elim id.host [ none ↦ none | some h ↦ some s.my_ipaddress ];
  })

-- The host and port of the URI and the Call-ID.
unfoldable pub readdress : World → Smq → Msg → Sip → Uri → Str → Res Msg
unfolding relay_route renew_call_id
readdress w s m p uri user = do
  let route = relay_route w s user
  let host = or_default route.0 (codes "127.0.0.1")
  let port = or_default route.1 w.config.default_bts_port
  old ← deref uri.host
  id ← renew_call_id w s p.call_id
  ok (
      parsed_was_changed (
        put_parsed m (record p {
          req_uri = some (record uri { host = some host; port = some port });
          call_id = some id;
        })))

-- A message for the relay is converted to its type.
unfoldable pub relay_type : Smq → Msg → Str → Msg
unfolding is_imsi char_at convert_message
relay_type s m user =
    if char_at user 0 == b'+' || not (is_imsi user)
    then convert_message m s.global_relay_contenttype
    else m

-- lookup_uri_hostport.
unfoldable pub lookup_uri_hostport : World → Smq → Msg → Res (Msg × SmState)
unfolding readdress relay_type
lookup_uri_hostport w s m = do
  parsed ← parse w.outside m
  p ← deref parsed.0.parsed
  uri ← deref p.req_uri
  checked_user parsed.0 p uri uri.username
  where
    checked_user : Msg → Sip → Uri → Option Str → Res (Msg × SmState)
    checked_user m p uri none = ok (m, no_state)
    checked_user m p uri (some user) = do
      m ← readdress w s (relay_type s m user) p uri user
      r ← set_qtag w.outside m
      ok (r.0, request_msg_delivery)
