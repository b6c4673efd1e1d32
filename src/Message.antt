-- ===== src/Message.antt =====
-- short_msg and short_msg_pending of smqueue/smqueue.h: a queued message, its text and its parsed
-- copy. `node` is the list node in which a message lives, to which iterators and pointers refer.
pub mod Tag
pub mod Validate
pub mod Checks
pub mod Accept
pub mod Complete
pub mod Node
pub mod Carried
use smqueue.Prelude.{
  ℕ, ◌+◌, Bool, true, false, ◌&&◌, ◌||◌, List, [], ◌∷◌, Option, none, some, Str, codes, str_eq,
  take, length, ◌%◌, ◌^◌, find, find_case, drop, is_space, is_digit, is_letter, skip_while,
  take_while, strtol, low_word, Res, ok, fault, deref, ◌>>=◌, ◌==◌, if◌then◌else◌,
}
use smqueue.Sip.{Sip, Outside, MediaType, Body, UserData, RpData, TlMessage, submit, deliver}
use smqueue.State.{SmState, timeout}

pub data ContentType : Type 0 where
  unsupported_content text_plain vnd_3gpp_sms : ContentType

pub record Msg : Type 0 where
  pub node : ℕ
  pub text : Option Str
  pub parsed_is_valid : Bool
  pub parsed_is_better : Bool
  pub parsed : Option Sip
  pub content_type : ContentType
  pub convert_content_type : ContentType
  pub rp_data : Option RpData
  pub tl_message : Option TlMessage
  pub ms_to_sc : Bool
  pub need_repack : Bool
  pub from_relay : Bool
  pub state : SmState
  pub next_action_time : ℕ
  pub retries : ℕ
  pub srcaddr : Str
  pub qtag : Option Str
  pub qtaghash : ℕ
  pub linktag : Option Str

-- The constructor without arguments, in a fresh list node.
unfoldable pub new_msg : ℕ → Msg
new_msg node = record {
  node = node;
  text = none;
  parsed_is_valid = false;
  parsed_is_better = false;
  parsed = none;
  content_type = unsupported_content;
  convert_content_type = unsupported_content;
  rp_data = none;
  tl_message = none;
  ms_to_sc = false;
  need_repack = true;
  from_relay = false;
  state = SmState.no_state;
  next_action_time = 0;
  retries = 0;
  srcaddr = [];
  qtag = none;
  qtaghash = 0;
  linktag = none;
}

-- short_msg_pending::initialize.
unfoldable pub initialize : Msg → Str → Msg
initialize m text = record m { text = some text }

-- set_state(newstate), at a reading of the clock.
unfoldable pub set_msg_state : ℕ → Msg → SmState → Msg
set_msg_state now m newstate = record m {
  next_action_time = now + timeout m.state newstate;
  state = newstate;
}

-- set_state(newstate, timeout).
unfoldable pub set_msg_state_at : Msg → SmState → ℕ → Msg
set_msg_state_at m newstate time = record m { next_action_time = time; state = newstate }

-- parsed_was_changed.
unfoldable pub parsed_was_changed : Msg → Msg
parsed_was_changed m = record m { parsed_is_better = true }

-- A change of the parsed copy through its pointer.
unfoldable pub put_parsed : Msg → Sip → Msg
put_parsed m p = record m { parsed = some p }

-- convert_message.
unfoldable pub convert_message : Msg → ContentType → Msg
convert_message m to = record m { convert_content_type = to }

-- The text that make_text_valid makes of a parsed copy: the empty one where that does not print. The
-- length is kept in an unsigned short, and so much of what was printed is copied.
unfoldable pub printed : Outside → Sip → Str
printed o p = copied (o.osip_to_str p)
  where
    copied : Option Str → Str
    copied none = []
    copied (some dest) = take (length dest % 2 ^ 16) dest

-- make_text_valid. A parsed copy that is better than the text but not valid is left alone.
unfoldable pub make_text_valid : Outside → Msg → Res Msg
unfolding printed
make_text_valid o m = if m.parsed_is_better && m.parsed_is_valid then print m else ok m
  where
    print : Msg → Res Msg
    print m = do
      p ← deref m.parsed
      ok (record m { text = some (printed o p); parsed_is_valid = true; parsed_is_better = false })

-- unparse.
unfoldable pub unparse : Outside → Msg → Res Msg
unfolding make_text_valid
unparse o m = do
  m ←
      make_text_valid o
        (record m { rp_data = none; tl_message = none; content_type = unsupported_content })
  ok (record m { parsed = none; parsed_is_valid = false; parsed_is_better = false })

-- scanWord.
unfoldable pub scan_word : Str → Str
scan_word = take_while λ c. is_letter c || is_digit c || c == b'_'

-- The transfer encoding that the text of the message names, or "hex".
unfoldable pub transfer_encoding : Str → Str
unfolding scan_word
transfer_encoding text = elim (find_case (codes "\r\nContent-Transfer-Encoding") text) [
  | none ↦ codes "hex"
  | some at ↦ scan_word (skip_while (λ c. is_space c || c == b':') (drop 27 at))
]

-- parsed->content_length->value as a number, or 0.
unfoldable pub content_len : Sip → ℕ
content_len p = elim p.content_length [
  | none ↦ 0
  | some h ↦ elim h.value [ none ↦ 0 | some v ↦ low_word (strtol v).value ]
]

-- The media type is `type_name`/`subtype`; the subtype is read only where the type fits.
unfoldable pub media_is : MediaType → Str → Str → Res Bool
media_is t type_name subtype = do
  a ← deref t.type_name
  if str_eq a type_name then (do b ← deref t.subtype; ok (str_eq b subtype)) else ok false

-- The decoding of a body that holds a transfer unit.
unfoldable pub parse_rp_data : Outside → Sip → Msg → Res (Msg × Bool)
unfolding transfer_encoding content_len find
parse_rp_data o p m = do
  text ← deref m.text
  body ← rp_body text (content_len p)
  elim (o.decode_rp_data body (content_len p) (transfer_encoding text)) [
    | none ↦ ok (record m { rp_data = none }, true)
    | some rp ↦ do
      tl ← o.parse_tpdu rp
      ok (record m { rp_data = some rp; tl_message = tl }, is_some tl)
  ]
  where
    -- Without an empty line the body is read from a wild pointer, unless its length is 0.
    rp_body : Str → ℕ → Res Str
    rp_body text len = elim (find (codes "\r\n\r\n") text) [
      | none ↦ if len == 0 then ok [] else fault
      | some at ↦ ok (drop 4 at)
    ]

    is_some : Option TlMessage → Bool
    is_some none = false
    is_some (some t) = true

-- The part of `parse` behind osip_message_parse.
unfoldable pub parse_content : Outside → Sip → Msg → Res (Msg × Bool)
unfolding media_is parse_rp_data
parse_content o p m = elim p.content_type [
  | none ↦ ok (record m { content_type = unsupported_content }, true)
  | some t ↦ do
    plain ← media_is t (codes "text") (codes "plain")
    if plain then ok (record m { content_type = text_plain }, true) else other t
]
  where
    other : MediaType → Res (Msg × Bool)
    other t = do
      sms ← media_is t (codes "application") (codes "vnd.3gpp.sms")
      if sms then parse_rp_data o p (record m { content_type = vnd_3gpp_sms }) else ok (m, true)

-- parse; libosip has been initialised. A null text is parsed as the empty one.
unfoldable pub parse : Outside → Msg → Res (Msg × Bool)
unfolding unparse parse_content
parse o m = if m.parsed_is_valid then ok (m, true) else (do m ← unparse o m; read m)
  where
    text_or_empty : Option Str → Str
    text_or_empty none = []
    text_or_empty (some t) = t

    read : Msg → Res (Msg × Bool)
    read m = elim (o.osip_parse (text_or_empty m.text)) [
      | none ↦ ok (m, false)
      | some p ↦
          parse_content o p
            (record m { parsed = some p; parsed_is_valid = true; parsed_is_better = false })
    ]

-- The text of a user data field, or "" where it does not decode.
unfoldable pub ud_text : Outside → UserData → Str
ud_text o ud = elim (o.decode_ud ud) [ none ↦ [] | some t ↦ t ]

-- The text of a transfer unit in the direction in which the message travels.
unfoldable pub tl_text : Outside → Bool → TlMessage → Str
unfolding ud_text
tl_text o true (submit s) = ud_text o s.ud
tl_text o true (deliver ud) = []
tl_text o false (submit s) = []
tl_text o false (deliver ud) = ud_text o ud

-- get_text.
unfoldable pub get_text : Outside → Msg → Res Str
unfolding tl_text
get_text o m = dispatch m.content_type
  where
    plain : List (Option Body) → Res Str
    plain [] = ok []
    plain (b ∷ bs) = do b ← deref b; deref b.body

    dispatch : ContentType → Res Str
    dispatch unsupported_content = ok []
    dispatch text_plain = do p ← deref m.parsed; plain p.bodies
    dispatch vnd_3gpp_sms = elim m.tl_message [
      | none ↦ ok []
      | some t ↦ ok (tl_text o m.ms_to_sc t)
    ]
