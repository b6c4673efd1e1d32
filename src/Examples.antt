-- ===== src/Examples.antt =====
-- One concrete program state with its surroundings, in which the hypotheses of the theorems hold.
mod Messages
pub mod Ranges
pub mod Bits
mod Codec
mod Transfer
mod Saved
mod Steps
use smqueue.Prelude.{
  ℕ, zero, suc, Bool, true, false, List, [], ◌∷◌, Option, none, some, Str, codes, Res, ok, fault,
  pos,
}
use smqueue.Sip.{
  Sip, Uri, Address, Param, MediaType, CallId, Cseq, Via, Outside, UserData, RpData, Body,
}
use smqueue.Message.{Msg, text_plain, unsupported_content, new_msg}
use smqueue.Message.Validate.{Manager}
use smqueue.Smq.{World, Smq, Hlr, Config, success}

abbrev pub alice : Str
alice = codes "IMSI001010123456789"

abbrev pub uri_of : Str → Uri
uri_of user = record {
  scheme = some (codes "sip");
  host = some (codes "127.0.0.1");
  port = none;
  username = some user;
}

abbrev pub address_of : Str → List (Option Param) → Address
address_of user params = record {
  displayname = none;
  url = some (uri_of user);
  gen_params = params;
}

abbrev pub from_tag : List (Option Param)
from_tag = some (record { gname = codes "tag"; gvalue = some (codes "a1") }) ∷ []

-- A MESSAGE from a user, with parameters of the From line, to another.
abbrev pub message_sip : Str → List (Option Param) → Str → Sip
message_sip from params to = record {
  sip_version = some (codes "SIP/2.0");
  status_code = pos 0;
  reason_phrase = none;
  req_uri = some (uri_of to);
  sip_method = some (codes "MESSAGE");
  call_id = some (record { number = some (codes "77"); host = some (codes "127.0.0.1") });
  cseq = some (record { number = some (codes "12"); method = some (codes "MESSAGE") });
  from = some (address_of from params);
  to = some (address_of to []);
  vias = [];
  content_length = none;
  content_type = some (record { type_name = some (codes "text"); subtype = some (codes "plain") });
  mime_version = none;
  bodies = some (record { body = some (codes "hi") }) ∷ [];
  contact = none;
  allow = none;
  accept = none;
}

-- Every text reads as one message or not at all, and every message prints.
abbrev pub reading : Option Sip → Outside
reading p = record {
  osip_parse = λ t. p;
  osip_to_str = λ p. some (codes "SIP");
  decode_rp_data = λ t n e. none;
  parse_tpdu = λ r. ok none;
  decode_ud = λ u. none;
  encode_ud = λ t. record { dcs = 0; udhi = false; length = 0; raw_data = [] };
  make_deliver = λ a u n. record { tpdu = [] };
  pack_rp_data = λ r e. codes "00";
}

abbrev pub empty_hlr : Hlr
empty_hlr = record {
  get_imsi2 = λ a. none;
  get_clid_local = λ a. none;
  get_registration_ip = λ a. none;
  map_clid_global = λ a. none;
  add_user = λ a b. success;
}

abbrev pub config : Config
config = record {
  acked_message_resend = none;
  bounce_code = codes "101";
  bounce_not_registered = codes "not registered";
  default_bts_port = codes "5062";
  max_retries = 3;
  rate_limit = 0;
  relaxed_verify = false;
  register_digits_override = false;
  register_digits_max = 10;
  register_digits_min = 7;
  register_code = codes "101";
  info_code = codes "411";
  zap_password = codes "6000";
  quit_password = codes "Snuggles";
  has_http_gateway = false;
  has_relay_ip = false;
  msg_welcome = (codes "Hello", codes "!");
  msg_already = (codes "Already", codes ".");
  msg_taken = (codes "Taken", codes ".");
  msg_error = (codes "Error", codes ".");
}

abbrev pub world : Option Sip → ℕ → World
world p now = record {
  outside = reading p;
  hlr = empty_hlr;
  config = config;
  now = now;
  call_number = codes "1";
  random = 5;
  has_socket = true;
  string_addr = λ a. codes "127.0.0.1:5062";
  msg_is_from_relay = λ a. false;
  string_host = λ a. codes "127.0.0.1";
  time_text = codes "now";
  is_email = λ t. false;
  mail_sent = false;
  http_sent = false;
  cdr_open = false;
}

abbrev pub manager_of : List Msg → ℕ → Smq
manager_of queue next = record {
  queue = queue;
  next_node = next;
  writer_queue = [];
  short_code_map = [];
  global_relay = [];
  global_relay_port = [];
  global_relay_contenttype = text_plain;
  my_ipaddress = codes "127.0.0.1";
  my_udp_port = codes "5063";
  my_register_hostport = codes "127.0.0.1:5064";
  register_call_id = none;
  register_call_seq = 0;
  stop_main_loop = false;
  reexec_smqueue = false;
  spacing_timer = 0;
  cdr = [];
}

-- The result of code that returns.
abbrev pub value {ℓ} : {A : Type ℓ} → Res A → A → A
value (ok a) d = a
value fault d = d

abbrev pub parsed_msg : ℕ → Sip → Msg
parsed_msg node p = record (new_msg node) {
  text = some (codes "SIP");
  parsed_is_valid = true;
  parsed = some p;
  content_type = text_plain;
}

abbrev pub tagged_msg : ℕ → Sip → Msg
tagged_msg node p = record (parsed_msg node p) { qtag = some (codes "12--a1"); qtaghash = 49 }
