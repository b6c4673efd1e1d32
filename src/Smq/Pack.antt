-- ===== src/Smq/Pack.antt =====
-- The packing of a message before it is delivered: the second half of smqueue/smsc.cpp.
use smqueue.Prelude.{
  ℕ, Bool, true, false, List, [], ◌∷◌, Option, none, some, Str, codes, str_eq, starts_with, drop,
  strtol, low_word, Res, ok, fault, deref, ◌>>=◌, ◌==◌, if◌then◌else◌,
}
use smqueue.Sip.{Outside, Address, Body, UserData, RpData, TlMessage, submit, deliver}
use smqueue.Message.{
  Msg, ContentType, unsupported_content, text_plain, vnd_3gpp_sms, put_parsed, parsed_was_changed,
  parse, get_text, transfer_encoding,
}

-- The body of the first node is replaced, where there is one.
unfoldable pub replace_body : Str → List (Option Body) → List (Option Body)
replace_body text [] = []
replace_body text (none ∷ bs) = none ∷ bs
replace_body text (some b ∷ bs) = some (record b { body = some text }) ∷ bs

abbrev has_body : List (Option Body) → Bool
has_body (some b ∷ bs) = true
has_body _ = false

-- pack_tpdu. The text of the message is read for its transfer encoding.
unfoldable pub pack_tpdu : Outside → Msg → RpData → Res Msg
unfolding replace_body transfer_encoding
pack_tpdu o m rp = do
  p ← deref m.parsed
  if has_body p.bodies
      then (do
        text ← deref m.text
        ok (
            parsed_was_changed (
              put_parsed m (record p {
                bodies = replace_body (o.pack_rp_data rp (transfer_encoding text)) p.bodies;
              }))))
      else ok (parsed_was_changed m)

-- The protocol id of the message that came in, where it is 0x40. A cast makes a TLSubmit of it.
unfoldable pub pid_of_tl : Option TlMessage → Res ℕ
pid_of_tl none = ok 0
pid_of_tl (some (submit s)) = ok (if s.pi == 0x40 then 0x40 else 0)
pid_of_tl (some (deliver ud)) = fault

-- The protocol id that a text beginning with "#!TLPID" asks for.
unfoldable pub pid_of_text : Str → ℕ → ℕ
pid_of_text body old =
    if starts_with (codes "#!TLPID") body
    then (let rest = drop 7 body in
        let n = strtol rest in if str_eq n.rest rest then old else low_word n.value)
    else old

unfoldable pub sender_of : Address → Res Str
sender_of from = elim from.displayname [
  | some d ↦ ok d
  | none ↦ do url ← deref from.url; deref url.username
]

-- create_sms_delivery: the message becomes an SMS-DELIVER.
unfoldable pub create_sms_delivery : Outside → Str → UserData → Msg → Res Msg
unfolding pack_tpdu pid_of_tl pid_of_text sender_of
create_sms_delivery o body ud m = do
  p ← deref m.parsed
  from ← deref p.from
  sender ← sender_of from
  pid ← pid_of_tl m.tl_message
  let rp = o.make_deliver sender ud (pid_of_text body pid)
  m ← pack_tpdu o (record m { rp_data = some rp; tl_message = some (deliver ud) }) rp
  ok (record m { ms_to_sc = false })

-- The Content-Type, which is there.
unfoldable pub set_media : Msg → Str → Str → Res Msg
set_media m type_name subtype = do
  p ← deref m.parsed
  t ← deref p.content_type
  ok (
      parsed_was_changed (
        put_parsed m (record p {
          content_type = some (record { type_name = some type_name; subtype = some subtype });
        })))

-- pack_text_to_tpdu.
unfoldable pub pack_text_to_tpdu : Outside → Str → Msg → Res Msg
unfolding create_sms_delivery set_media
pack_text_to_tpdu o body m = do
  m ← create_sms_delivery o body (o.encode_ud body) m
  set_media m (codes "application") (codes "vnd.3gpp.sms")

-- pack_plain_text.
unfoldable pub pack_plain_text : Str → Msg → Res Msg
unfolding replace_body set_media
pack_plain_text body m = do
  p ← deref m.parsed
  set_media
      (record (put_parsed m (record p { bodies = replace_body body p.bodies })) {
        ms_to_sc = false;
      })
      (codes "text") (codes "plain")

unfoldable pub recode_tl : Outside → Str → Msg → Option TlMessage → Res (Msg × Bool)
unfolding create_sms_delivery
recode_tl o body m none = ok (m, false)
recode_tl o body m (some (submit s)) = do m ← create_sms_delivery o body s.ud m; ok (m, true)
recode_tl o body m (some (deliver ud)) = ok (m, false)

-- recode_tpdu: an SMS-SUBMIT becomes an SMS-DELIVER, anything else is refused.
unfoldable pub recode_tpdu : Outside → Str → Msg → Res (Msg × Bool)
unfolding recode_tl
recode_tpdu o body m = recode_tl o body m m.tl_message

-- The packing for the type that the message is converted to, or for the type that it has.
unfoldable pub repack : Outside → Str → Msg → ContentType → ContentType → Res (Msg × Bool)
unfolding pack_plain_text pack_text_to_tpdu recode_tpdu
repack o text m text_plain type = do m ← pack_plain_text text m; ok (m, true)
repack o text m vnd_3gpp_sms type = do m ← pack_text_to_tpdu o text m; ok (m, true)
repack o text m unsupported_content text_plain = do m ← pack_plain_text text m; ok (m, true)
repack o text m unsupported_content vnd_3gpp_sms =
    if m.ms_to_sc then recode_tpdu o text m else ok (m, true)
repack o text m unsupported_content unsupported_content = ok (m, false)

-- What was packed need not be packed again.
unfoldable pub packed : Msg × Bool → Msg × Bool
packed (m, true) = (record m { need_repack = false }, true)
packed (m, false) = (m, false)

-- pack_sms_for_delivery. The result of its parse is not looked at.
unfoldable pub pack_sms_for_delivery : Outside → Msg → Res (Msg × Bool)
unfolding repack packed
pack_sms_for_delivery o m = if m.need_repack then pack else ok (m, true)
  where
    pack : Res (Msg × Bool)
    pack = do
      parsed ← parse o m
      text ← get_text o parsed.0
      r ← repack o text parsed.0 parsed.0.convert_content_type parsed.0.content_type
      ok (packed r)
