-- ===== src/Smq.antt =====
-- The state of the queue manager, class SMq of smqueue/smqueue.h, and what it takes from outside in
-- one step: the clock, random numbers, the subscriber registry, the configuration, and the sockets. Within a step these do not change.
pub mod Originate
pub mod Lookup
pub mod Pack
pub mod Commands
pub mod ShortCode
pub mod Response
pub mod Timeout
pub mod Threads
pub mod Address
pub mod Stream
pub mod Saved
pub mod Phrases
pub mod Held
pub mod Moves
use smqueue.Prelude.{
  ℕ, suc, ◌||◌, if◌then◌else◌, codes, starts_with, str_eq, Bool, true, false, List, [], ◌∷◌, ◌++◌,
  Option, none, some, Str, Res, ok, ◌>>=◌,
}
use smqueue.Sip.{Outside, CallId, Sip, Via}
use smqueue.State.{SmState}
use smqueue.Message.{Msg, ContentType, make_text_valid, set_msg_state}
use smqueue.Queue.{modify}
use smqueue.Message.Validate.{Manager}

-- Status of SubscriberRegistry::addUser.
pub data AddStatus : Type 0 where
  success delayed failure tryagain : AddStatus

-- The subscriber registry. A null answer is `none`.
pub record Hlr : Type 0 where
  pub get_imsi2 : Str → Option Str
  pub get_clid_local : Str → Option Str
  pub get_registration_ip : Str → Option Str
  pub map_clid_global : Str → Option Str
  pub add_user : Str → Str → AddStatus

-- The keys of gConfig that the modelled code reads; `none` is a key that is not defined.
pub record Config : Type 0 where
  pub acked_message_resend : Option ℕ
  pub bounce_code : Str
  pub bounce_not_registered : Str
  pub default_bts_port : Str
  pub max_retries : ℕ
  pub rate_limit : ℕ
  pub relaxed_verify : Bool
  pub register_digits_override : Bool
  pub register_digits_max : ℕ
  pub register_digits_min : ℕ
  pub register_code : Str
  pub info_code : Str
  pub zap_password : Str
  pub quit_password : Str
  pub has_http_gateway : Bool
  pub has_relay_ip : Bool
  -- SC.Register.Msg: WelcomeA, WelcomeB, AlreadyA, AlreadyB, TakenA, TakenB, ErrorA, ErrorB.
  pub msg_welcome : Str × Str
  pub msg_already : Str × Str
  pub msg_taken : Str × Str
  pub msg_error : Str × Str

pub record World : Type 0 where
  pub outside : Outside
  pub hlr : Hlr
  pub config : Config
  -- msgettime(), in milliseconds.
  pub now : ℕ
  -- new_call_number() and new_random_number().
  pub call_number : Str
  pub random : ℕ
  -- A socket is open; what happens to a datagram behind it changes nothing.
  pub has_socket : Bool
  -- string_addr(address, length, true).
  pub string_addr : Str → Str
  pub msg_is_from_relay : Str → Bool
  -- string_addr(address, length, false), and ctime from the month on.
  pub string_host : Str → Str
  pub time_text : Str
  -- The expression for "address@host " at the start of a text, and whether popen and pclose of the
  -- mail program, and popen of wget, succeed.
  pub is_email : Str → Bool
  pub mail_sent : Bool
  pub http_sent : Bool
  -- Whether the CDR file is open.
  pub cdr_open : Bool

-- A line of the CDR file: source, its IMSI if the registry has one, destination.
pub record Cdr : Type 0 where
  pub source : Str
  pub source_imsi : Option Str
  pub dest : Str

-- The functions of smqueue/smcommands.cpp and smqueue/smsc.cpp that a short code may stand for.
pub data ShortFunc : Type 0 where
  shortcode_register shortcode_four_one_one shortcode_debug_dump shortcode_quick_chk : ShortFunc
  shortcode_zap_queued whiplash_quit shortcode_smsc : ShortFunc

-- What one thread asks of the writer thread: the subclasses of QueuedMsgHdrs. An acknowledgement
-- holds a pointer to the message, which is the list node.
pub data WriterMsg : Type 0 where
  process_incoming : WriterMsg
  sip_ack : (errcode smp : ℕ) → WriterMsg

pub record Smq : Type 0 where
  pub queue : List Msg
  -- The node that the next allocation gives; nodes are not used again.
  pub next_node : ℕ
  pub writer_queue : List WriterMsg
  pub short_code_map : List (Str × ShortFunc)
  pub global_relay : Str
  pub global_relay_port : Str
  pub global_relay_contenttype : ContentType
  pub my_ipaddress : Str
  pub my_udp_port : Str
  pub my_register_hostport : Str
  -- register_call_id, kept parsed; `none` while have_register_call_id is false.
  pub register_call_id : Option CallId
  pub register_call_seq : ℕ
  pub stop_main_loop : Bool
  pub reexec_smqueue : Bool
  -- The time at which the rate limiting timer was set.
  pub spacing_timer : ℕ
  pub cdr : List Cdr

-- debug_dump: prints every message, for which its text is made valid.
unfoldable pub dump_list : Outside → List Msg → Res (List Msg)
unfolding make_text_valid
dump_list o [] = ok []
dump_list o (x ∷ xs) = do y ← make_text_valid o x; ys ← dump_list o xs; ok (y ∷ ys)

unfoldable pub debug_dump : World → Smq → Res Smq
unfolding dump_list
debug_dump w s = do q ← dump_list w.outside s.queue; ok (record s { queue = q })

-- The end of each insert_new_message: debug_dump, and a signal to the writer thread.
unfoldable pub signal_writer : World → Smq → Res Smq
unfolding debug_dump
signal_writer w s = do
  s ← debug_dump w s
  ok (record s { writer_queue = s.writer_queue ++ process_incoming ∷ [] })

-- The message in a node is replaced by what a function made of it.
abbrev pub put_msg : Smq → ℕ → Msg → Smq
put_msg s n m = record s { queue = modify n (λ x. m) s.queue }

-- insert_new_message(smp, state): the message goes to the front of the list.
unfoldable pub insert_new_message : World → Smq → Msg → SmState → Res Smq
unfolding signal_writer set_msg_state
insert_new_message w s m state =
    signal_writer w (record s { queue = set_msg_state w.now m state ∷ s.queue })

-- A new list of one message, and its node.
unfoldable pub new_node : Smq → Smq × ℕ
new_node s = (record s { next_node = suc s.next_node }, s.next_node)

-- short_code_map.find.
unfoldable pub lookup_short_code : Str → List (Str × ShortFunc) → Option ShortFunc
lookup_short_code code [] = none
lookup_short_code code ((k, f) ∷ m) = if str_eq k code then some f else lookup_short_code code m

-- The two spellings of the prefix that the code accepts in a registry answer.
unfoldable pub is_imsi : Str → Bool
is_imsi s = starts_with (codes "imsi") s || starts_with (codes "IMSI") s

-- An answer that is no IMSI counts as none.
unfoldable pub imsi_or_none : Option Str → Option Str
unfolding is_imsi
imsi_or_none none = none
imsi_or_none (some d) = if is_imsi d then some d else none

abbrev is_some {ℓ} : {A : Type ℓ} → Option A → Bool
is_some none = false
is_some (some a) = true

-- to_is_deliverable.
unfoldable pub to_is_deliverable : World → Smq → Str → Bool
unfolding lookup_short_code imsi_or_none
to_is_deliverable w s to =
    is_some (lookup_short_code to s.short_code_map) || is_some (imsi_or_none (w.hlr.get_imsi2 to))

-- from_is_deliverable.
unfoldable pub from_is_deliverable : World → Str → Bool
from_is_deliverable w from = is_some (w.hlr.get_clid_local from)

-- What validate_short_msg asks of the manager.
unfoldable pub manager : World → Smq → Manager
unfolding to_is_deliverable
manager w s = record {
  msg_is_from_relay = w.msg_is_from_relay;
  relaxed_verify = w.config.relaxed_verify;
  global_relay = s.global_relay;
  global_relay_port = s.global_relay_port;
  to_is_deliverable = to_is_deliverable w s;
}
