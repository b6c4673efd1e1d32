-- ===== src/Smq/Commands.antt =====
-- The functions behind short codes: smqueue/smcommands.cpp, and shortcode_smsc of smqueue/smsc.cpp.
-- A function gives the new state of the manager, what to do with the message, and a reply.
pub mod Register
pub mod Smsc
pub mod Faults
use smqueue.Prelude.{
  ℕ, zero, suc, ◌+◌, ◌-◌, Bool, true, false, ◌||◌, List, [], ◌∷◌, ◌++◌, Option, none, some, Str,
  codes, str_eq, starts_with, char_at, drop, length, decimal, Res, ok, fault, deref, ◌>>=◌, ltb,
  leb, ◌==◌, if◌then◌else◌,
}
use smqueue.State.{SmState, state_number}
use smqueue.State
use smqueue.Message.{Msg, make_text_valid}
use smqueue.Queue.{get, remove, find_queued_msg}
use smqueue.Smq.{World, Smq, dump_list}
use smqueue.Smq.Originate.{url_username}

-- enum short_code_action; SCA_REPLY_AND_RETRY is not used.
pub data Action : Type 0 where
  done internal_error reply retry_after_delay quit_smqueue await_register register : Action
  treat_as_ordinary exec_smqueue restart_processing : Action

pub record Outcome : Type 0 where
  pub smq : Smq
  pub action : Action
  pub answer : Option Str

abbrev pub replies : Smq → Str → Outcome
replies s text = record { smq = s; action = reply; answer = some text }

abbrev pub acts : Smq → Action → Outcome
acts s a = record { smq = s; action = a; answer = none }

-- whiplash_quit. The command stands one byte behind the password; where the text ends with the
-- password, that is outside of it. Four bytes of "testsave" are compared, and saving the queue makes
-- every text valid.
unfoldable pub quit_command : World → Smq → Str → Res Outcome
unfolding dump_list
quit_command w s [] = fault
quit_command w s (c ∷ command) =
    if starts_with (codes "quit") command
    then ok (acts s quit_smqueue)
    else if starts_with (codes "exec") command
    then ok (acts s exec_smqueue)
    else if starts_with (codes "test") command
    then (do q ← dump_list w.outside s.queue; ok (replies (record s { queue = q }) (codes "Done.")))
    else ok (replies s (codes "Unknown Command"))

unfoldable pub run_whiplash_quit : World → Smq → Str → Res Outcome
unfolding quit_command starts_with
run_whiplash_quit w s text =
    if starts_with w.config.quit_password text
    then quit_command w s (drop (length w.config.quit_password) text)
    else ok (acts s treat_as_ordinary)

unfoldable pub run_quick_chk : Smq → Outcome
run_quick_chk s = replies s (decimal (length s.queue) ++ codes " queued.")

-- The counters of shortcode_four_one_one.
pub record Counts : Type 0 where
  pub missing : ℕ
  pub registering : ℕ
  pub bouncing : ℕ

abbrev pub bump : Bool → ℕ → ℕ
bump true n = suc n
bump false n = n

-- One of the four states in which a message is on its way.
unfoldable pub count_travelling : World → Msg → Counts → Res (Msg × Counts)
unfolding url_username
count_travelling w x c = do
  x ← make_text_valid w.outside x
  p ← deref x.parsed
  uri ← deref p.req_uri
  host ← deref uri.host
  from ← url_username p.from
  to ← deref uri.username
  ok (
    x,
    record {
      missing = bump (str_eq (codes "127.0.0.1") host) c.missing;
      registering =
          bump (str_eq w.config.register_code to)
            (bump (str_eq w.config.register_code from) c.registering);
      bouncing = bump (str_eq w.config.info_code from) c.bouncing;
    },
  )

unfoldable pub count_message : World → SmState → Msg → Counts → Res (Msg × Counts)
unfolding count_travelling
count_message w State.request_destination_sipurl x c = count_travelling w x c
count_message w State.request_msg_delivery x c = count_travelling w x c
count_message w State.asked_for_msg_delivery x c = count_travelling w x c
count_message w State.awaiting_try_msg_delivery x c = count_travelling w x c
count_message w State.awaiting_register_handset x c =
    ok (x, record c { registering = c.registering + 1 })
count_message w State.register_handset x c = ok (x, record c { registering = c.registering + 1 })
count_message w State.asked_to_register_handset x c =
    ok (x, record c { registering = c.registering + 1 })
count_message w _ x c = ok (x, c)

unfoldable pub count_queue : World → List Msg → Counts → Res (List Msg × Counts)
unfolding count_message
count_queue w [] c = ok ([], c)
count_queue w (x ∷ xs) c = do
  r ← count_message w x.state x c
  rest ← count_queue w xs r.1
  ok (r.0 ∷ rest.0, rest.1)

abbrev counted : ℕ → Str → Str
counted zero what = []
counted (suc n) what = codes ", " ++ (decimal (suc n) ++ what)

-- The last three bytes of a text, which the code takes without looking at the length.
unfoldable pub last_three : Str → Res Str
last_three s = if ltb (length s) 3 then fault else ok (drop (length s - 3) s)

-- shortcode_four_one_one. The text of the cell is taken as it was, though its string is gone, and
-- to print a null phone number is a fault.
unfoldable pub run_four_one_one : World → Smq → ℕ → Str → Res Outcome
unfolding count_queue last_three url_username
run_four_one_one w s n text = do
  r ← count_queue w s.queue (record { missing = 0; registering = 0; bouncing = 0 })
  let s = record s { queue = r.0 }
  m ← deref (get n s.queue)
  cell ← last_three (w.string_host m.srcaddr)
  p ← deref m.parsed
  user ← url_username p.from
  phone ← deref (w.hlr.get_clid_local user)
  ok (
      replies s (
        decimal (length s.queue)
        ++ (codes " queued"
            ++ (counted r.1.missing (codes " unlocatable")
                ++ (counted r.1.registering (codes " registering")
                    ++ (counted r.1.bouncing (codes " bouncing")
                        ++ (codes ", cell "
                            ++ (cell
                                ++ (codes ", "
                                    ++ (user
                                        ++ (codes ", phonenum "
                                            ++ (phone
                                                ++ (codes ", at "
                                                    ++ (w.time_text
                                                        ++ (codes ", '"
                                                            ++ (text ++ codes "'"))))))))))))))))

-- A message that the password of shortcode_zap_queued removes.
unfoldable pub is_stale : ℕ → Msg → Bool
is_stale toolate x = state_number x.state == 0 || leb toolate x.next_action_time

-- x++ of the loop, on an iterator whose node was freed or not.
unfoldable pub step_on : Bool → Res (Unit {0})
step_on true = fault
step_on false = ok tt

-- The loop of shortcode_zap_queued with its counter: a stale message is counted, taken from the list and
-- freed, and then the iterator that points to it is stepped on.
unfoldable pub zap_stale : ℕ → ℕ → List Msg → Res (ℕ × List Msg)
unfolding is_stale step_on
zap_stale toolate n [] = ok (n, [])
zap_stale toolate n (x ∷ xs) =
    let stale = is_stale toolate x in
    do
      u ← step_on stale
      r ← zap_stale toolate (bump stale n) xs
      ok (r.0, if stale then r.1 else x ∷ r.1)

unfoldable pub signed_difference : ℕ → ℕ → Str
signed_difference a b = if leb b a then decimal (a - b) else codes "-" ++ decimal (b - a)

unfoldable pub zap_found : World → Smq → Str → Option ℕ → Res (Smq × Str)
unfolding get remove signed_difference
zap_found w s tag none = ok (s, codes "No message queued with tag '" ++ (tag ++ codes "'."))
zap_found w s tag (some n) = do
  x ← deref (get n s.queue)
  ok (
    record s { queue = remove n s.queue },
    codes "Deleting queued msg '"
        ++ (tag
            ++ (codes " in state "
                ++ (decimal (state_number x.state)
                    ++ (codes " and timeout " ++ signed_difference x.next_action_time w.now)))),
  )

unfoldable pub zap_tag : World → Smq → Str → Res (Smq × Str)
unfolding find_queued_msg zap_found
zap_tag w s tag = do found ← find_queued_msg tag s.queue; zap_found w s tag found

unfoldable pub zap_queued : World → Smq → Str → Res (Smq × Str)
unfolding zap_stale zap_tag
zap_queued w s text =
    if str_eq w.config.zap_password text
    then (do
      r ← zap_stale (5000000 + w.now) 0 s.queue
      ok (record s { queue = r.1 }, codes "Removed " ++ (decimal r.0 ++ codes " messages.")))
    else zap_tag w s text

-- shortcode_zap_queued: with "-" in front there is no reply.
unfoldable pub run_zap_queued : World → Smq → Str → Res Outcome
unfolding zap_queued char_at
run_zap_queued w s text =
    if char_at text 0 == b'-'
    then (do
      r ← zap_queued w s (drop 1 text)
      ok (record { smq = r.0; action = done; answer = some r.1 }))
    else (do r ← zap_queued w s text; ok (replies r.0 r.1))
