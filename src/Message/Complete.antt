-- ===== src/Message/Complete.antt =====
-- The checks of validate_short_msg of smqueue/smqueue.cpp refuse nothing that the description in
-- Message/Accept allows, and what becomes of a message without a From tag.
use smqueue.Prelude.{
  ◌≡◌, refl, ◌↔◌, ◌⊎◌, ◌≢◌, inl, inr, true, false, Option, none, some, Str, codes, str_eq,
  str_eq_refl, fault, arith, Option-cases,
}
use smqueue.Sip.{Sip, Uri, Address, Header, Outside}
use smqueue.Message.{Msg, parse}
use smqueue.Message.Tag.{find_tag, qtag_of_parsed, set_qtag}
use smqueue.Message.Validate.{
  is_text, response_length_check, response_check, media_supported, cseq_is, message_check,
  method_check, request_check, mime_check, has_url, to_uri_check, to_check, structure_check,
  Manager, relay_check, validate_parsed, validate_short_msg, check_to_user, check_host_port,
}
use smqueue.Message.Accept.{
  is_text_iff, IsResponseOk, HasCseq, IsMessageOk, IsRequestOk, IsTo, IsFrom, IsMime, IsAcceptable,
  structure_check_sound,
}

is_text-some : (o : Option Str) (t : Str) → o ≡ some t → is_text o t ≡ true
is_text-some o t h = (is_text_iff o t).1 h

response_check_complete : (p : Sip) → IsResponseOk p → response_check p ≡ 0
unfolding response_check response_length_check
response_check_complete p h = elim (Option-cases p.content_length) [
  | inl e ↦ ground (arith, h.status, h.reason, h.zero_length, h.no_body)
  | inr (c, e) ↦ ground (arith, h.status, h.reason, h.zero_length, h.no_body)
]

message_check_complete : (p : Sip) (u : Uri) → IsMessageOk p u → message_check p u ≡ 0
unfolding message_check media_supported cseq_is check_to_user
message_check_complete p u h = elim (Option-cases p.content_type) [
  | inl e ↦ ground (arith, h.media)
  | inr (t, e) ↦ elim (Option-cases p.cseq) [
    | inl c ↦ ground (arith, h.sequence)
    | inr (q, c) ↦ ground (
      arith,
      h.user,
      h.media,
      h.body,
      h.sequence,
      is_text-some t.type_name (codes "text"),
      is_text-some t.subtype (codes "plain"),
      is_text-some t.type_name (codes "application"),
      is_text-some t.subtype (codes "vnd.3gpp.sms"),
      is_text-some q.method (codes "MESSAGE"),
    )
  ]
]

methods_differ : str_eq (codes "MESSAGE") (codes "REGISTER") ≡ false
unfolding str_eq
methods_differ = refl

method_check_complete :
    (p : Sip) (u : Uri)
    → ((p.sip_method ≡ some (codes "MESSAGE")) × IsMessageOk p u)
      ⊎ ((p.sip_method ≡ some (codes "REGISTER")) × HasCseq p.cseq (codes "REGISTER"))
    → method_check p u ≡ 0
unfolding method_check cseq_is
method_check_complete p u (inl (m, h)) =
    ground (arith, message_check_complete p u h, str_eq_refl (codes "MESSAGE"))
method_check_complete p u (inr (m, h)) = elim (Option-cases p.cseq) [
  | inl c ↦ ground arith
  | inr (q, c) ↦ ground (
    arith,
    methods_differ,
    str_eq_refl (codes "REGISTER"),
    is_text-some q.method (codes "REGISTER"),
  )
]

request_check_complete : (p : Sip) → IsRequestOk p p.req_uri → request_check p ≡ 0
unfolding request_check check_host_port
request_check_complete p h = elim (Option-cases p.req_uri) [
  | inl n ↦ ground arith
  | inr (u, n) ↦ ground (arith, method_check_complete p u, is_text-some u.scheme (codes "sip"))
]

to_check_complete : (a : Option Address) → IsTo a → to_check a ≡ 0
unfolding to_check to_uri_check check_host_port
to_check_complete none h = absurd h
to_check_complete (some a) h = elim (Option-cases a.url) [
  | inl n ↦ ground arith
  | inr (u, n) ↦ ground (arith, is_text-some u.scheme (codes "sip"))
]

mime_check_complete : (h : Option Header) → IsMime h → mime_check h ≡ 0
unfolding mime_check
mime_check_complete none k = refl
mime_check_complete (some h) k = ground (arith, is_text-some h.value (codes "1.0"))

has_url_complete : (a : Option Address) → IsFrom a → has_url a ≡ true
unfolding has_url
has_url_complete none h = absurd h
has_url_complete (some a) h = ground arith

structure_check_complete : (p : Sip) → IsAcceptable p → structure_check p ≡ 0
unfolding structure_check
structure_check_complete p h = ground (
  arith,
  h.version,
  h.response,
  h.request,
  h.call_id,
  h.from,
  h.mime,
  h.to,
  is_text-some p.sip_version (codes "SIP/2.0"),
  response_check_complete p,
  request_check_complete p,
  has_url_complete p.from,
  mime_check_complete p.mime_version,
  to_check_complete p.to,
)

-- The checks of the structure of a message, in their order and with their codes, pass exactly for
-- the messages that the description of an acceptable message allows.
pub structure_check-iff-IsAcceptable : (p : Sip) → (structure_check p ≡ 0) ↔ IsAcceptable p
structure_check-iff-IsAcceptable p = (structure_check_sound p, structure_check_complete p)

-- A valid parsed message that every check of the structure accepts, with a CSeq but without a tag in its
-- From line, makes validate_short_msg take the length of a null pointer.
pub validate-faults_without_tag :
    (o : Outside) (w : Manager) (m : Msg) (p : Sip) (from : Address)
    → m.parsed_is_valid ≡ true
    → m.parsed ≡ some p
    → IsAcceptable p
    → p.cseq ≢ none
    → p.from ≡ some from
    → find_tag from.gen_params ≡ none
    → validate_short_msg o w false m ≡ fault
unfolding validate_short_msg parse validate_parsed relay_check set_qtag qtag_of_parsed
validate-faults_without_tag o w m p from v hp a hc hf ht =
    ground (arith, structure_check_complete p a, a.call_id)
