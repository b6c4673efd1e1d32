-- ===== src/Message/Validate.antt =====
-- validate_short_msg of smqueue/smqueue.cpp: the checks on an incoming message, in their order.
-- Each check gives 0 or the SIP status code of its refusal.
use smqueue.Prelude.{
  ℕ, zero, suc, Bool, true, false, not, ◌&&◌, ◌||◌, List, [], ◌∷◌, Option, none, some, Str, codes,
  str_eq, str_case_eq, strtol, is_zero, is_negative, is_positive_int, Res, ok, deref, ◌>>=◌,
  if◌then◌else◌,
}
use smqueue.Sip.{Sip, Uri, Address, MediaType, Cseq, Header, Body, Via, Outside, is_response}
use smqueue.Message.{Msg, parse}
use smqueue.Message.Tag.{set_qtag}

-- A later check is made where the earlier ones passed.
infixr 30 ◌then_check◌
abbrev pub ◌then_check◌ : ℕ → ℕ → ℕ
zero then_check k = k
suc e then_check k = suc e

abbrev pub refuse_if : Bool → ℕ → ℕ
refuse_if b code = if b then code else 0

abbrev pub is_none {ℓ} : {A : Type ℓ} → Option A → Bool
is_none none = true
is_none (some a) = false

-- Not null, and the same text.
unfoldable pub is_text : Option Str → Str → Bool
is_text none t = false
is_text (some s) t = str_eq t s

-- check_host_port: only a missing host is refused.
unfoldable pub check_host_port : Option Str → Option Str → Bool
check_host_port none port = false
check_host_port (some host) port = true

-- check_to_user.
unfoldable pub check_to_user : Str → Bool
check_to_user user = true

-- The Content-Length of a response must be a number, and 0.
unfoldable pub response_length_check : Option Header → ℕ
response_length_check none = 0
response_length_check (some h) = elim h.value [
  | none ↦ 0
  | some v ↦
      let n = strtol v in
      refuse_if (not (is_empty n.rest) || n.range_error) 400
      then_check refuse_if (not (is_zero n.value)) 400
]
  where
    is_empty : Str → Bool
    is_empty [] = true
    is_empty (c ∷ s) = false

abbrev pub is_nil {ℓ} : {A : Type ℓ} → List A → Bool
is_nil [] = true
is_nil (x ∷ xs) = false

unfoldable pub response_check : Sip → ℕ
unfolding response_length_check
response_check p =
    refuse_if (is_negative p.status_code || is_none p.reason_phrase) 400
    then_check response_length_check p.content_length
    then_check refuse_if (not (is_nil p.bodies)) 400

unfoldable pub media_supported : Option MediaType → Bool
unfolding is_text
media_supported none = false
media_supported (some t) =
    (is_text t.type_name (codes "text") && is_text t.subtype (codes "plain"))
    || (is_text t.type_name (codes "application") && is_text t.subtype (codes "vnd.3gpp.sms"))

-- The Content-Length is there and positive as an int.
unfoldable pub has_length : Option Header → Bool
has_length none = false
has_length (some h) = elim h.value [ none ↦ false | some v ↦ is_positive_int (strtol v).value ]

-- Exactly one body, which is there.
unfoldable pub one_body : List (Option Body) → Bool
one_body (some b ∷ []) = true
one_body _ = false

unfoldable pub cseq_is : Option Cseq → Str → Bool
unfolding is_text
cseq_is none method = false
cseq_is (some c) method = is_text c.method method && not (is_none c.number)

unfoldable pub message_check : Sip → Uri → ℕ
unfolding media_supported has_length one_body cseq_is check_to_user
message_check p uri = elim uri.username [
  | none ↦ 484
  | some user ↦
      refuse_if (not (check_to_user user)) 484
      then_check refuse_if (not (media_supported p.content_type)) 415
      then_check refuse_if (has_length p.content_length && not (one_body p.bodies)) 413
      then_check refuse_if (not (cseq_is p.cseq (codes "MESSAGE"))) 400
]

unfoldable pub method_check : Sip → Uri → ℕ
unfolding message_check
method_check p uri = elim p.sip_method [
  | none ↦ 405
  | some method ↦
      if str_eq (codes "MESSAGE") method
      then message_check p uri
      else if str_eq (codes "REGISTER") method
      then refuse_if (not (cseq_is p.cseq (codes "REGISTER"))) 400
      else 405
]

unfoldable pub request_check : Sip → ℕ
unfolding method_check check_host_port
request_check p = elim p.req_uri [
  | none ↦ 400
  | some uri ↦
      refuse_if (is_none uri.scheme) 400
      then_check refuse_if (not (is_text uri.scheme (codes "sip"))) 416
      then_check refuse_if (not (check_host_port uri.host uri.port)) 484
      then_check method_check p uri
]

unfoldable pub mime_check : Option Header → ℕ
unfolding is_text
mime_check none = 0
mime_check (some h) = refuse_if (not (is_text h.value (codes "1.0"))) 415

unfoldable pub has_url : Option Address → Bool
has_url none = false
has_url (some a) = not (is_none a.url)

unfoldable pub to_uri_check : Uri → Bool
unfolding is_text check_host_port
to_uri_check u =
    is_text u.scheme (codes "sip") && check_host_port u.host u.port && not (is_none u.username)

unfoldable pub to_check : Option Address → ℕ
unfolding to_uri_check
to_check none = 400
to_check (some a) = elim a.url [ none ↦ 400 | some u ↦ refuse_if (not (to_uri_check u)) 400 ]

-- The checks of a parsed message that do not ask the manager.
unfoldable pub structure_check : Sip → ℕ
structure_check p =
    refuse_if (not (is_text p.sip_version (codes "SIP/2.0"))) 400
    then_check (if is_response p then response_check p else request_check p)
    then_check refuse_if (is_none p.call_id) 400
    then_check refuse_if (not (has_url p.from)) 400
    then_check mime_check p.mime_version
    then_check to_check p.to

-- relaxed_verify_relay.
unfoldable pub relaxed_verify_relay : List Via → Str → Str → Bool
relaxed_verify_relay [] host port = false
relaxed_verify_relay (v ∷ vs) host port =
    if via_is v.host v.port then true else relaxed_verify_relay vs host port
  where
    via_is : Option Str → Option Str → Bool
    via_is none q = false
    via_is (some h) none = false
    via_is (some h) (some q) = str_case_eq host h && str_case_eq port q

-- What the check of a relayed message asks of the manager.
pub record Manager : Type 0 where
  pub msg_is_from_relay : Str → Bool
  pub relaxed_verify : Bool
  pub global_relay : Str
  pub global_relay_port : Str
  pub to_is_deliverable : Str → Bool

unfoldable pub is_relayed : Manager → Msg → Sip → Bool
unfolding relaxed_verify_relay is_text
is_relayed w m p =
    not (is_response p)
    && is_text p.sip_method (codes "MESSAGE")
    && (w.msg_is_from_relay m.srcaddr
        || (w.relaxed_verify && relaxed_verify_relay p.vias w.global_relay w.global_relay_port))

-- p->to->url->username, which has been checked.
unfoldable pub to_user : Sip → Res Str
to_user p = do to ← deref p.to; url ← deref to.url; deref url.username

-- What follows the checks of the structure.
unfoldable pub relay_check : Outside → Manager → Bool → Msg → Sip → Res (Msg × ℕ)
unfolding is_relayed to_user
relay_check o w early m p =
    if early && is_relayed w m p then (do user ← to_user p; relayed user) else set_qtag o m
  where
    relayed : Str → Res (Msg × ℕ)
    relayed user =
        if w.to_is_deliverable user
        then set_qtag o (record m { from_relay = true })
        else ok (m, 404)

-- validate_short_msg: 0, or the code of the refusal.
unfoldable pub validate_parsed : Outside → Manager → Bool → Msg → Res (Msg × ℕ)
validate_parsed o w early m = elim m.parsed [
  | none ↦ ok (m, 400)
  | some p ↦ elim (structure_check p) [
    | zero ↦ relay_check o w early m p
    | suc code ↦ ok (m, suc code)
  ]
]

unfoldable pub validate_short_msg : Outside → Manager → Bool → Msg → Res (Msg × ℕ)
validate_short_msg o w early m = do
  parsed ← parse o m
  if parsed.1 then validate_parsed o w early parsed.0 else ok (parsed.0, 400)
