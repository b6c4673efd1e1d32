-- ===== src/State.antt =====
-- The states of a queued message and the table of timeouts: enum sm_state of smqueue/smqueue.h,
-- `timeouts` and `sm_state_strings` of smqueue/smqueue.cpp.
pub mod Timeouts
use smqueue.Prelude.{ℕ, Str, codes, List, [], ◌∷◌, ◌*◌, get_or}

pub data SmState : Type 0 where
  no_state initial_state request_from_address_lookup asked_for_from_address_lookup : SmState
  awaiting_try_destination_imsi request_destination_imsi asked_for_destination_imsi : SmState
  awaiting_try_destination_sipurl request_destination_sipurl : SmState
  asked_for_destination_sipurl : SmState
  awaiting_try_msg_delivery request_msg_delivery asked_for_msg_delivery : SmState
  delete_me_state : SmState
  awaiting_register_handset register_handset asked_to_register_handset : SmState

pub SmState-discrete : Discrete SmState
SmState-discrete = hlevel

-- The position of each state in the enum, which is also its place in a saved queue.
unfoldable pub state_number : SmState → ℕ
state_number no_state = 0
state_number initial_state = 1
state_number request_from_address_lookup = 2
state_number asked_for_from_address_lookup = 3
state_number awaiting_try_destination_imsi = 4
state_number request_destination_imsi = 5
state_number asked_for_destination_imsi = 6
state_number awaiting_try_destination_sipurl = 7
state_number request_destination_sipurl = 8
state_number asked_for_destination_sipurl = 9
state_number awaiting_try_msg_delivery = 10
state_number request_msg_delivery = 11
state_number asked_for_msg_delivery = 12
state_number delete_me_state = 13
state_number awaiting_register_handset = 14
state_number register_handset = 15
state_number asked_to_register_handset = 16

-- sm_state_string; the array is indexed by every state, so "Invalid State Number" is never given.
unfoldable pub sm_state_string : SmState → Str
sm_state_string no_state = codes "No State"
sm_state_string initial_state = codes "Initial State"
sm_state_string request_from_address_lookup = codes "Request From-Address Lookup"
sm_state_string asked_for_from_address_lookup = codes "Asked for From-Address"
sm_state_string awaiting_try_destination_imsi = codes "Awaiting Try Destination IMSI"
sm_state_string request_destination_imsi = codes "Request Destination IMSI"
sm_state_string asked_for_destination_imsi = codes "Asked for Destination IMSI"
sm_state_string awaiting_try_destination_sipurl = codes "Awaiting Try Destination SIP URL"
sm_state_string request_destination_sipurl = codes "Request Destination SIP URL"
sm_state_string asked_for_destination_sipurl = codes "Asked for Destination SIP URL"
sm_state_string awaiting_try_msg_delivery = codes "Awaiting Try Message Delivery"
sm_state_string request_msg_delivery = codes "Request Message Delivery"
sm_state_string asked_for_msg_delivery = codes "Asked for Message Delivery"
sm_state_string delete_me_state = codes "Delete Me"
sm_state_string awaiting_register_handset = codes "Awaiting Register Handset"
sm_state_string register_handset = codes "Register Handset"
sm_state_string asked_to_register_handset = codes "Asked to Register Handset"

-- The macros NT, RT and TT, in milliseconds.
abbrev pub nt : ℕ
nt = 3000 * 1000

abbrev pub rt : ℕ
rt = 300 * 1000

abbrev pub tt_ms : ℕ
tt_ms = 60 * 1000

-- The rows of the table: timeouts when moving from one state to each of the others, in their order.
unfoldable pub timeout_row : SmState → List ℕ
timeout_row no_state =
    nt ∷ 0 ∷ 0 ∷ nt ∷ nt ∷ 0 ∷ nt ∷ nt ∷ 0 ∷ nt ∷ nt ∷ 0 ∷ nt ∷ 0 ∷ nt ∷ nt ∷ nt ∷ []
timeout_row initial_state =
    0 ∷ 0 ∷ 0 ∷ nt ∷ nt ∷ nt ∷ nt ∷ nt ∷ nt ∷ nt ∷ nt ∷ 0 ∷ nt ∷ 0 ∷ nt ∷ nt ∷ nt ∷ []
timeout_row request_from_address_lookup =
    0 ∷ nt ∷ 10 ∷ 10 ∷ nt ∷ 0 ∷ nt ∷ nt ∷ nt ∷ nt ∷ nt ∷ nt ∷ nt ∷ 0 ∷ 1 ∷ 0 ∷ nt ∷ []
timeout_row asked_for_from_address_lookup =
    0 ∷ nt ∷ 60 ∷ nt ∷ nt ∷ nt ∷ nt ∷ nt ∷ nt ∷ nt ∷ nt ∷ nt ∷ nt ∷ 0 ∷ nt ∷ nt ∷ nt ∷ []
timeout_row awaiting_try_destination_imsi =
    0 ∷ nt ∷ rt ∷ nt ∷ rt ∷ nt ∷ nt ∷ nt ∷ nt ∷ nt ∷ nt ∷ nt ∷ nt ∷ 0 ∷ nt ∷ nt ∷ nt ∷ []
timeout_row request_destination_imsi =
    0 ∷ nt ∷ rt ∷ nt ∷ rt ∷ nt ∷ nt ∷ nt ∷ 0 ∷ nt ∷ nt ∷ nt ∷ nt ∷ 0 ∷ nt ∷ nt ∷ nt ∷ []
timeout_row asked_for_destination_imsi =
    0 ∷ nt ∷ rt ∷ nt ∷ rt ∷ nt ∷ nt ∷ nt ∷ nt ∷ nt ∷ nt ∷ nt ∷ nt ∷ 0 ∷ nt ∷ nt ∷ nt ∷ []
timeout_row awaiting_try_destination_sipurl =
    0 ∷ nt ∷ rt ∷ nt ∷ rt ∷ nt ∷ nt ∷ nt ∷ nt ∷ nt ∷ nt ∷ nt ∷ nt ∷ 0 ∷ nt ∷ nt ∷ nt ∷ []
timeout_row request_destination_sipurl =
    0 ∷ nt ∷ rt ∷ nt ∷ rt ∷ nt ∷ nt ∷ nt ∷ nt ∷ nt ∷ nt ∷ 0 ∷ nt ∷ 0 ∷ nt ∷ nt ∷ nt ∷ []
timeout_row asked_for_destination_sipurl =
    0 ∷ nt ∷ rt ∷ nt ∷ rt ∷ nt ∷ nt ∷ nt ∷ nt ∷ nt ∷ nt ∷ nt ∷ nt ∷ 0 ∷ nt ∷ nt ∷ nt ∷ []
timeout_row awaiting_try_msg_delivery =
    0 ∷ nt ∷ rt ∷ nt ∷ rt ∷ nt ∷ nt ∷ nt ∷ nt ∷ nt ∷ (75 * 1000) ∷ 0 ∷ nt ∷ 0 ∷ nt ∷ nt ∷ nt ∷ []
timeout_row request_msg_delivery =
    0
    ∷ nt
    ∷ rt
    ∷ nt
    ∷ rt
    ∷ nt
    ∷ nt
    ∷ nt
    ∷ (15 * 1000)
    ∷ nt
    ∷ (75 * 1000)
    ∷ (75 * 1000)
    ∷ (15 * 1000)
    ∷ 0
    ∷ nt
    ∷ nt
    ∷ nt
    ∷ []
timeout_row asked_for_msg_delivery =
    0
    ∷ nt
    ∷ rt
    ∷ nt
    ∷ nt
    ∷ nt
    ∷ nt
    ∷ nt
    ∷ nt
    ∷ nt
    ∷ (60 * 1000)
    ∷ (10 * 1000)
    ∷ tt_ms
    ∷ 0
    ∷ nt
    ∷ nt
    ∷ nt
    ∷ []
timeout_row delete_me_state = 0 ∷ 0 ∷ 0 ∷ 0 ∷ 0 ∷ 0 ∷ 0 ∷ 0 ∷ 0 ∷ 0 ∷ 0 ∷ 0 ∷ 0 ∷ 0 ∷ 0 ∷ 0 ∷ 0 ∷ []
timeout_row awaiting_register_handset =
    0 ∷ nt ∷ 0 ∷ nt ∷ rt ∷ nt ∷ nt ∷ nt ∷ nt ∷ nt ∷ nt ∷ nt ∷ nt ∷ 0 ∷ (1 * 1000) ∷ 0 ∷ nt ∷ []
timeout_row register_handset =
    0
    ∷ nt
    ∷ 0
    ∷ nt
    ∷ rt
    ∷ nt
    ∷ nt
    ∷ nt
    ∷ nt
    ∷ nt
    ∷ nt
    ∷ nt
    ∷ nt
    ∷ 0
    ∷ (1 * 1000)
    ∷ (1 * 1000)
    ∷ (2 * 1000)
    ∷ []
timeout_row asked_to_register_handset =
    0
    ∷ nt
    ∷ 0
    ∷ nt
    ∷ rt
    ∷ nt
    ∷ nt
    ∷ nt
    ∷ nt
    ∷ nt
    ∷ nt
    ∷ nt
    ∷ nt
    ∷ 0
    ∷ (1 * 1000)
    ∷ (1 * 1000)
    ∷ (10 * 1000)
    ∷ []

-- (*timeouts[from])[to].
unfoldable pub timeout : SmState → SmState → ℕ
unfolding timeout_row state_number
timeout from to = get_or (timeout_row from) (state_number to) 0
