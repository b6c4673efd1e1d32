-- ===== src/Sip.antt =====
-- A parsed SIP message, by the fields of osip_message_t that smqueue/smqueue.cpp and
-- smqueue/smqueue.h read or write, and the services that the program takes from outside: libosip,
-- the subscriber registry, the configuration and the coding of SMS transfer units. A pointer that
-- may be null is an option.
use smqueue.Prelude.{ℕ, ℤ, Bool, List, Option, Str, Res, not, is_zero}

pub record Uri : Type 0 where
  pub scheme : Option Str
  pub host : Option Str
  pub port : Option Str
  pub username : Option Str

-- osip_generic_param_t; libosip gives every parameter a name.
pub record Param : Type 0 where
  pub gname : Str
  pub gvalue : Option Str

-- osip_from_t and osip_to_t. A node of the list may have no element.
pub record Address : Type 0 where
  pub displayname : Option Str
  pub url : Option Uri
  pub gen_params : List (Option Param)

pub record MediaType : Type 0 where
  pub type_name : Option Str
  pub subtype : Option Str

pub record CallId : Type 0 where
  pub number : Option Str
  pub host : Option Str

pub record Cseq : Type 0 where
  pub number : Option Str
  pub method : Option Str

pub record Via : Type 0 where
  pub host : Option Str
  pub port : Option Str

-- A header that holds one value: Content-Length and MIME-Version.
pub record Header : Type 0 where
  pub value : Option Str

-- osip_body_t.
pub record Body : Type 0 where
  pub body : Option Str

pub record Sip : Type 0 where
  pub sip_version : Option Str
  pub status_code : ℤ
  pub reason_phrase : Option Str
  pub req_uri : Option Uri
  pub sip_method : Option Str
  pub call_id : Option CallId
  pub cseq : Option Cseq
  pub from : Option Address
  pub to : Option Address
  pub vias : List Via
  pub content_length : Option Header
  pub content_type : Option MediaType
  pub mime_version : Option Header
  pub bodies : List (Option Body)
  pub contact : Option Str
  pub allow : Option Str
  pub accept : Option Str

-- MSG_IS_RESPONSE and MSG_IS_REQUEST of libosip.
abbrev pub is_response : Sip → Bool
is_response p = not (is_zero p.status_code)

-- TLUserData and TLSubmit of SMS/SMSMessages.h, by the fields that the queue looks at.
pub record UserData : Type 0 where
  pub dcs : ℕ
  pub udhi : Bool
  pub length : ℕ
  pub raw_data : List Bool

pub record Submit : Type 0 where
  pub da : Str
  pub pi : ℕ
  pub ud : UserData

-- The two kinds of TLMessage that are ever built.
pub data TlMessage : Type 0 where
  submit : Submit → TlMessage
  deliver : UserData → TlMessage

-- RPData: the transfer unit that it carries.
pub record RpData : Type 0 where
  pub tpdu : List Bool

-- libosip, and the coding of transfer units, which stands on the bit vectors of CommonLibs.
pub record Outside : Type 0 where
  -- osip_message_parse; `none` is an error.
  pub osip_parse : Str → Option Sip
  -- osip_message_to_str; `none` is an error, which leaves a null text.
  pub osip_to_str : Sip → Option Str
  -- decodeRPData(text, length, encoding).
  pub decode_rp_data : Str → ℕ → Str → Option RpData
  -- parseTPDU; `fault` is the exception that no caller catches.
  pub parse_tpdu : RpData → Res (Option TlMessage)
  -- TLUserData::decode; `none` is the exception SMSReadError.
  pub decode_ud : UserData → Option Str
  -- TLUserData(text).
  pub encode_ud : Str → UserData
  -- The RP-DATA with an SMS-DELIVER from an originator, of a protocol id.
  pub make_deliver : Str → UserData → ℕ → RpData
  -- RPData::write, packed and encoded by a transfer encoding.
  pub pack_rp_data : RpData → Str → Str
