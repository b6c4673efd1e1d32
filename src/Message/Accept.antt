-- ===== src/Message/Accept.antt =====
-- What a message is like that validate_short_msg of smqueue/smqueue.cpp lets through.
use smqueue.Prelude.{
  ℕ, ◌≡◌, sym, ap, ◌≢◌, ◌↔◌, ◌⊎◌, inl, inr, Bool, true, false, [], Option, none, some, Str, codes,
  str_eq_refl, str_eq_sound, strtol, is_zero, is_negative, ok, arith, >>=-eq-ok, if◌then◌else◌,
  Option-cases,
}
use smqueue.Sip.{Sip, Uri, Address, MediaType, Cseq, Header, Outside, is_response}
use smqueue.Message.{Msg, parse_rp_data, parse_content, parse}
use smqueue.Message.Tag.{set_qtag, IsTagged}
use smqueue.Message.Checks.{set_qtag-IsTagged}
use smqueue.Message.Validate.{
  is_text, response_length_check, response_check, media_supported, has_length, one_body, cseq_is,
  message_check, method_check, request_check, mime_check, has_url, to_uri_check, to_check,
  structure_check, Manager, relay_check, validate_parsed, validate_short_msg,
}

pub is_text_iff : (o : Option Str) (t : Str) → (is_text o t ≡ true) ↔ (o ≡ some t)
unfolding is_text
is_text_iff none t = (λ h. cc, λ h. cc)
is_text_iff (some s) t =
    (λ h. ap some (sym (str_eq_sound t s h)), λ h. ground (arith, str_eq_refl t))

-- A Content-Length that is there is the number 0 and nothing else.
abbrev pub IsZeroValue : Option Str → Type 0
IsZeroValue none = Unit
IsZeroValue (some v) =
    ((strtol v).rest ≡ []) × ((strtol v).range_error ≡ false) × (is_zero (strtol v).value ≡ true)

abbrev pub IsZeroLength : Option Header → Type 0
IsZeroLength none = Unit
IsZeroLength (some h) = IsZeroValue h.value

-- A response: a status code that is no negative number, a reason, and no content.
pub record IsResponseOk (p : Sip) : Type 0 where
  pub status : is_negative p.status_code ≡ false
  pub reason : p.reason_phrase ≢ none
  pub zero_length : IsZeroLength p.content_length
  pub no_body : p.bodies ≡ []

abbrev pub IsMedia : MediaType → Str → Str → Type 0
IsMedia t a b = (t.type_name ≡ some a) × (t.subtype ≡ some b)

abbrev pub IsSupported : Option MediaType → Type 0
IsSupported none = ⊥
IsSupported (some t) =
    IsMedia t (codes "text") (codes "plain")
    ⊎ IsMedia t (codes "application") (codes "vnd.3gpp.sms")

abbrev pub HasCseq : Option Cseq → Str → Type 0
HasCseq none method = ⊥
HasCseq (some c) method = (c.method ≡ some method) × (c.number ≢ none)

-- A MESSAGE: a user to send to, a media type that is known, a sequence number, and exactly one body
-- where the Content-Length is positive.
pub record IsMessageOk (p : Sip) (u : Uri) : Type 0 where
  pub user : u.username ≢ none
  pub media : IsSupported p.content_type
  pub body : (has_length p.content_length ≡ true) → one_body p.bodies ≡ true
  pub sequence : HasCseq p.cseq (codes "MESSAGE")

abbrev pub IsRequestOk : Sip → Option Uri → Type 0
IsRequestOk p none = ⊥
IsRequestOk p (some u) =
    (u.scheme ≡ some (codes "sip"))
    × (u.host ≢ none)
    × (((p.sip_method ≡ some (codes "MESSAGE")) × IsMessageOk p u)
        ⊎ ((p.sip_method ≡ some (codes "REGISTER")) × HasCseq p.cseq (codes "REGISTER")))

abbrev pub IsToUri : Option Uri → Type 0
IsToUri none = ⊥
IsToUri (some u) = (u.scheme ≡ some (codes "sip")) × (u.host ≢ none) × (u.username ≢ none)

abbrev pub IsTo : Option Address → Type 0
IsTo none = ⊥
IsTo (some a) = IsToUri a.url

abbrev pub IsFrom : Option Address → Type 0
IsFrom none = ⊥
IsFrom (some a) = a.url ≢ none

abbrev pub IsMime : Option Header → Type 0
IsMime none = Unit
IsMime (some h) = h.value ≡ some (codes "1.0")

pub record IsAcceptable (p : Sip) : Type 0 where
  pub version : p.sip_version ≡ some (codes "SIP/2.0")
  pub response : is_response p ≡ true → IsResponseOk p
  pub request : is_response p ≡ false → IsRequestOk p p.req_uri
  pub call_id : p.call_id ≢ none
  pub from : IsFrom p.from
  pub mime : IsMime p.mime_version
  pub to : IsTo p.to

response_length_sound : (h : Option Header) → response_length_check h ≡ 0 → IsZeroLength h
unfolding response_length_check
response_length_sound h e = ground arith

response_check_sound : (p : Sip) → response_check p ≡ 0 → IsResponseOk p
unfolding response_check
response_check_sound p e = ground (arith, response_length_sound p.content_length)

media_supported_sound : (t : Option MediaType) → media_supported t ≡ true → IsSupported t
unfolding media_supported
media_supported_sound none e = cc
media_supported_sound (some t) e = ground (
  arith,
  is_text_iff t.type_name (codes "text"),
  is_text_iff t.subtype (codes "plain"),
  is_text_iff t.type_name (codes "application"),
  is_text_iff t.subtype (codes "vnd.3gpp.sms"),
)

cseq_is_sound : (c : Option Cseq) (method : Str) → cseq_is c method ≡ true → HasCseq c method
unfolding cseq_is
cseq_is_sound none method e = cc
cseq_is_sound (some c) method e = ground (arith, is_text_iff c.method method)

message_check_sound : (p : Sip) (u : Uri) → message_check p u ≡ 0 → IsMessageOk p u
unfolding message_check
message_check_sound p u e =
    ground (arith, media_supported_sound p.content_type, cseq_is_sound p.cseq (codes "MESSAGE"))

method_check_sound :
    (p : Sip) (u : Uri)
    → method_check p u ≡ 0
    → ((p.sip_method ≡ some (codes "MESSAGE")) × IsMessageOk p u)
      ⊎ ((p.sip_method ≡ some (codes "REGISTER")) × HasCseq p.cseq (codes "REGISTER"))
unfolding method_check is_text
method_check_sound p u e = ground (
  arith,
  is_text_iff p.sip_method (codes "MESSAGE"),
  is_text_iff p.sip_method (codes "REGISTER"),
  message_check_sound p u,
  cseq_is_sound p.cseq (codes "REGISTER"),
)

request_check_sound : (p : Sip) → request_check p ≡ 0 → IsRequestOk p p.req_uri
unfolding request_check
request_check_sound p e = elim (Option-cases p.req_uri) [
  | inl n ↦ ground arith
  | inr (u, n) ↦ ground (arith, method_check_sound p u, is_text_iff u.scheme (codes "sip"))
]

to_uri_check_sound : (u : Uri) → to_uri_check u ≡ true → IsToUri (some u)
unfolding to_uri_check
to_uri_check_sound u e = ground (arith, is_text_iff u.scheme (codes "sip"))

to_check_sound : (a : Option Address) → to_check a ≡ 0 → IsTo a
unfolding to_check
to_check_sound none e = ground arith
to_check_sound (some a) e = elim (Option-cases a.url) [
  | inl n ↦ ground arith
  | inr (u, n) ↦ ground (arith, to_uri_check_sound u)
]

mime_check_sound : (h : Option Header) → mime_check h ≡ 0 → IsMime h
unfolding mime_check
mime_check_sound none e = tt
mime_check_sound (some h) e = ground (arith, is_text_iff h.value (codes "1.0"))

has_url_sound : (a : Option Address) → has_url a ≡ true → IsFrom a
unfolding has_url
has_url_sound a e = ground arith

-- Every check of the structure passed.
pub structure_check_sound : (p : Sip) → structure_check p ≡ 0 → IsAcceptable p
unfolding structure_check
structure_check_sound p e = ground (
  arith,
  is_text_iff p.sip_version (codes "SIP/2.0"),
  response_check_sound p,
  request_check_sound p,
  has_url_sound p.from,
  mime_check_sound p.mime_version,
  to_check_sound p.to,
)

parse_rp_data-keeps :
    (o : Outside) (p : Sip) (m r : Msg) (b : Bool)
    → parse_rp_data o p m ≡ ok (r, b)
    → (r.parsed ≡ m.parsed) × (r.parsed_is_valid ≡ m.parsed_is_valid)
unfolding parse_rp_data
parse_rp_data-keeps o p m r b h = ground arith

parse_content-keeps :
    (o : Outside) (p : Sip) (m r : Msg) (b : Bool)
    → parse_content o p m ≡ ok (r, b)
    → (r.parsed ≡ m.parsed) × (r.parsed_is_valid ≡ m.parsed_is_valid)
unfolding parse_content
parse_content-keeps o p m r b h = ground (arith, parse_rp_data-keeps o p)

parse-valid : (o : Outside) (m r : Msg) → parse o m ≡ ok (r, true) → r.parsed_is_valid ≡ true
unfolding parse
parse-valid o m r h = ground arith

set_qtag-keeps :
    (o : Outside) (m r : Msg) (code : ℕ)
    → m.parsed_is_valid ≡ true
    → set_qtag o m ≡ ok (r, code)
    → r.parsed ≡ m.parsed
unfolding set_qtag
set_qtag-keeps o m r code v h = ground arith

relay_check-accepts :
    (o : Outside) (w : Manager) (early : Bool) (m r : Msg) (p : Sip)
    → m.parsed_is_valid ≡ true
    → relay_check o w early m p ≡ ok (r, 0)
    → (r.parsed ≡ m.parsed) × IsTagged r
unfolding relay_check
relay_check-accepts o w early m r p v h = ground (
  arith,
  set_qtag-keeps o m r 0,
  set_qtag-keeps o (record m { from_relay = true }) r 0,
  set_qtag-IsTagged o m r,
  set_qtag-IsTagged o (record m { from_relay = true }) r,
)

abbrev pub IsAccepted : Option Sip → Type 0
IsAccepted none = ⊥
IsAccepted (some p) = IsAcceptable p

validate_parsed-accepts :
    (o : Outside) (w : Manager) (early : Bool) (m r : Msg)
    → m.parsed_is_valid ≡ true
    → validate_parsed o w early m ≡ ok (r, 0)
    → IsAccepted r.parsed × IsTagged r
unfolding validate_parsed
validate_parsed-accepts o w early m r v h = elim (Option-cases m.parsed) [
  | inl e ↦ ground arith
  | inr (p, e) ↦ ground (arith, structure_check_sound p, relay_check-accepts o w early m r p v)
]

after_parse :
    (o : Outside) (w : Manager) (early : Bool) (m r : Msg) (a : Msg × Bool)
    → parse o m ≡ ok a
    → (if a.1 then validate_parsed o w early a.0 else ok (a.0, 400)) ≡ ok (r, 0)
    → IsAccepted r.parsed × IsTagged r
after_parse o w early m r (a, true) e h =
    validate_parsed-accepts o w early a r (parse-valid o m a e) h
after_parse o w early m r (a, false) e h = ground arith

-- A message that is validated with the result 0 has a parsed copy that passes every check of the
-- structure, and a queue tag with its hash.
pub validate-accepts :
    (o : Outside) (w : Manager) (early : Bool) (m r : Msg)
    → validate_short_msg o w early m ≡ ok (r, 0)
    → IsAccepted r.parsed × IsTagged r
unfolding validate_short_msg
validate-accepts o w early m r h =
    let (a, e, k) = >>=-eq-ok (parse o m) _ h in after_parse o w early m r a e k
