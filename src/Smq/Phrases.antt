-- ===== src/Smq/Phrases.antt =====
-- The codes with which validate_short_msg refuses a message, and the phrases of respond_sip_ack,
-- smqueue/smqueue.cpp.
use smqueue.Prelude.{
  ℕ, zero, suc, ◌≡◌, refl, ◌⊎◌, inl, inr, Bool, true, false, Option, none, some, codes, str_eq,
  if◌then◌else◌, not, ◌&&◌,
}
use smqueue.Sip.{Sip, Uri, Address, Header, is_response}
use smqueue.Message.Validate.{
  refuse_if, ◌then_check◌, response_length_check, response_check, message_check, method_check,
  is_none, is_text, check_host_port, check_to_user, media_supported, has_length, one_body, cseq_is,
  request_check, mime_check, to_check, structure_check,
}
use smqueue.Smq.Threads.{ack_phrase}

-- The code has a phrase of its own.
abbrev pub HasPhrase : ℕ → Type 0
HasPhrase code = str_eq (ack_phrase code) (codes "Error Message Table Needs Updating") ≡ false

-- No refusal, or one with a phrase.
abbrev pub Known : ℕ → Type 0
Known code = (code ≡ 0) ⊎ HasPhrase code

refuse_if-Known : (b : Bool) (code : ℕ) → HasPhrase code → Known (refuse_if b code)
refuse_if-Known true code h = inr h
refuse_if-Known false code h = inl refl

then_check-Known : (c k : ℕ) → Known c → Known k → Known (c then_check k)
then_check-Known zero k h i = i
then_check-Known (suc c) k h i = h

if-Known : (b : Bool) (c k : ℕ) → Known c → Known k → Known (if b then c else k)
if-Known true c k h i = h
if-Known false c k h i = i

Option-Known {ℓ} :
    {A : Type ℓ} (o : Option A) (c : ℕ) (f : A → ℕ)
    → Known c
    → ((a : A) → Known (f a))
    → Known (elim o [ none ↦ c | some a ↦ f a ])
Option-Known none c f h i = h
Option-Known (some a) c f h i = i a

bad_request : HasPhrase 400
unfolding ack_phrase str_eq
bad_request = refl

incomplete : HasPhrase 484
unfolding ack_phrase str_eq
incomplete = refl

unsupported : HasPhrase 415
unfolding ack_phrase str_eq
unsupported = refl

body_size : HasPhrase 413
unfolding ack_phrase str_eq
body_size = refl

not_allowed : HasPhrase 405
unfolding ack_phrase str_eq
not_allowed = refl

not_sip : HasPhrase 416
unfolding ack_phrase str_eq
not_sip = refl

response_length_check-Known : (o : Option Header) → Known (response_length_check o)
unfolding response_length_check
response_length_check-Known none = inl refl
response_length_check-Known (some h) = Option-Known h.value 0 _ (inl refl) (λ v.
    then_check-Known _ _ (refuse_if-Known _ 400 bad_request) (refuse_if-Known _ 400 bad_request))

response_check-Known : (p : Sip) → Known (response_check p)
unfolding response_check
response_check-Known p = then_check-Known _ _ (refuse_if-Known _ 400 bad_request) (
    then_check-Known _ _ (response_length_check-Known p.content_length)
      (refuse_if-Known _ 400 bad_request))

message_check-Known : (p : Sip) (uri : Uri) → Known (message_check p uri)
unfolding message_check
message_check-Known p uri = Option-Known uri.username 484 _ (inr incomplete) (λ user.
    then_check-Known _ _ (refuse_if-Known (not (check_to_user user)) 484 incomplete) (
      then_check-Known _ _ (refuse_if-Known (not (media_supported p.content_type)) 415 unsupported)
        (then_check-Known _ _
          (refuse_if-Known (has_length p.content_length && not (one_body p.bodies)) 413 body_size)
          (refuse_if-Known (not (cseq_is p.cseq (codes "MESSAGE"))) 400 bad_request))))

method_check-Known : (p : Sip) (uri : Uri) → Known (method_check p uri)
unfolding method_check
method_check-Known p uri = Option-Known p.sip_method 405 _ (inr not_allowed) (λ method.
    if-Known (str_eq (codes "MESSAGE") method) _ _ (message_check-Known p uri) (
      if-Known (str_eq (codes "REGISTER") method) _ _
        (refuse_if-Known (not (cseq_is p.cseq (codes "REGISTER"))) 400 bad_request)
        (inr not_allowed)))

request_check-Known : (p : Sip) → Known (request_check p)
unfolding request_check
request_check-Known p = Option-Known p.req_uri 400 _ (inr bad_request) (λ uri.
    then_check-Known _ _ (refuse_if-Known (is_none uri.scheme) 400 bad_request) (
      then_check-Known _ _ (refuse_if-Known (not (is_text uri.scheme (codes "sip"))) 416 not_sip) (
        then_check-Known _ _
          (refuse_if-Known (not (check_host_port uri.host uri.port)) 484 incomplete)
          (method_check-Known p uri))))

mime_check-Known : (o : Option Header) → Known (mime_check o)
unfolding mime_check
mime_check-Known none = inl refl
mime_check-Known (some h) = refuse_if-Known _ 415 unsupported

to_check-Known : (o : Option Address) → Known (to_check o)
unfolding to_check
to_check-Known none = inr bad_request
to_check-Known (some a) =
    Option-Known a.url 400 _ (inr bad_request) (λ u. refuse_if-Known _ 400 bad_request)

-- The checks of the structure of a message refuse it only with codes for which the acknowledgement has a
-- reason phrase of its own.
pub structure_check-Known : (p : Sip) → Known (structure_check p)
unfolding structure_check
structure_check-Known p = then_check-Known _ _ (refuse_if-Known _ 400 bad_request) (
    then_check-Known _ _
      (if-Known (is_response p) _ _ (response_check-Known p) (request_check-Known p))
      (then_check-Known _ _ (refuse_if-Known _ 400 bad_request) (
        then_check-Known _ _ (refuse_if-Known _ 400 bad_request)
          (then_check-Known _ _ (mime_check-Known p.mime_version) (to_check-Known p.to)))))
