-- ===== src/Smq/Saved.antt =====
-- The queue in a file: save_queue_to_file and read_queue_from_file of smqueue/smqueue.cpp.
pub mod Records
pub mod RoundTrip
pub mod Restored
pub mod Overflow
use smqueue.Prelude.{
  ℕ, zero, suc, ◌+◌, ◌-◌, ◌%◌, ◌^◌, Bool, true, false, not, ◌||◌, List, [], ◌∷◌, ◌++◌, Option, none,
  some, Str, codes, str_eq, is_space, is_digit, skip_while, take_while, split_at, digits_value,
  decimal, length, take, drop, Res, ok, fault, deref, ◌>>=◌, ltb, leb, ◌==◌, if◌then◌else◌,
}
use smqueue.Sip.{Outside, is_response}
use smqueue.State.{SmState, state_number}
use smqueue.Message.{Msg, new_msg, initialize, make_text_valid, set_msg_state_at}
use smqueue.Message.Validate.{validate_short_msg}
use smqueue.Smq.Address.{Resolved, parse_addr}
use smqueue.Smq.Stream.{
  Stream, at, behind, failing, first, extract, word_of, extract_word, numeral, magnitude,
  unsigned_of, extract_unsigned, skip_newlines, get_chars,
}
use smqueue.Smq.{World, Smq, new_node, signal_writer, manager}

-- A bool is written as a number.
abbrev pub flag : Bool → ℕ
flag true = 1
flag false = 0

-- What is written of a message whose text was made valid. strlen and << read the text.
unfoldable pub save_entry : World → Msg → Res Str
unfolding decimal state_number
save_entry w m = do
  text ← deref m.text
  ok (
      codes "=== "
      ++ decimal (state_number m.state)
      ++ codes " "
      ++ decimal m.next_action_time
      ++ codes " "
      ++ w.string_addr m.srcaddr
      ++ codes " "
      ++ decimal (length text)
      ++ codes " "
      ++ decimal (flag m.ms_to_sc)
      ++ codes " "
      ++ decimal (flag m.need_repack)
      ++ codes "\n"
      ++ text
      ++ codes "\n\n")

-- The loop of save_queue_to_file, from the end of the list to its head.
unfoldable pub save_list : World → List Msg → Res (List Msg × Str)
unfolding make_text_valid save_entry
save_list w [] = ok ([], [])
save_list w (x ∷ xs) = do
  rest ← save_list w xs
  y ← make_text_valid w.outside x
  entry ← save_entry w y
  ok (y ∷ rest.0, rest.1 ++ entry)

-- save_queue_to_file, where the file can be opened and written: what is in it.
unfoldable pub save_queue_to_file : World → Smq → Res (Smq × Str)
unfolding save_list
save_queue_to_file w s = do r ← save_list w s.queue; ok (record s { queue = r.0 }, r.1)

-- The variables of read_queue_from_file that keep their values from one record to the next.
pub record Locals : Type 0 where
  pub equals : Str
  pub astate : ℕ
  pub atime : ℕ
  pub netaddrstr : Str
  pub alength : ℕ
  pub ms_to_sc : ℕ
  pub need_repack : ℕ

-- ifile >> equals >> astate >> atime.
unfoldable pub read_start : Stream → Locals → Stream × Locals
unfolding extract_word extract_unsigned
read_start f l =
    let (f, equals) = extract_word f l.equals in
    let (f, astate) = extract_unsigned f l.astate in
    let (f, atime) = extract_unsigned f l.atime in
    (f, record l { equals = equals; astate = astate; atime = atime })

-- The other fields, the text, and the empty lines around it.
unfoldable pub read_rest : Stream → Locals → Stream × Locals × Str
unfolding extract_word extract_unsigned skip_newlines get_chars
read_rest f l =
    let (f, netaddrstr) = extract_word f l.netaddrstr in
    let (f, alength) = extract_unsigned f l.alength in
    let (f, ms_to_sc) = extract_unsigned f l.ms_to_sc in
    let (f, need_repack) = extract_unsigned f l.need_repack in
    let (f, text) = get_chars alength (skip_newlines f) in
    (
      skip_newlines f,
      record l {
        netaddrstr = netaddrstr;
        alength = alength;
        ms_to_sc = ms_to_sc;
        need_repack = need_repack;
      },
      text,
    )

-- The cast of a number to a state. One that is no state is a fault at once, where the code keeps it
-- until the message is due and then uses it as an index behind the end of the table of timeouts.
unfoldable pub cast_state : ℕ → Res SmState
cast_state n = nth n all
  where
    all : List SmState
    all =
        SmState.no_state ∷ SmState.initial_state ∷ SmState.request_from_address_lookup
        ∷ SmState.asked_for_from_address_lookup ∷ SmState.awaiting_try_destination_imsi
        ∷ SmState.request_destination_imsi ∷ SmState.asked_for_destination_imsi
        ∷ SmState.awaiting_try_destination_sipurl ∷ SmState.request_destination_sipurl
        ∷ SmState.asked_for_destination_sipurl ∷ SmState.awaiting_try_msg_delivery
        ∷ SmState.request_msg_delivery ∷ SmState.asked_for_msg_delivery ∷ SmState.delete_me_state
        ∷ SmState.awaiting_register_handset ∷ SmState.register_handset
        ∷ SmState.asked_to_register_handset ∷ []

    nth : ℕ → List SmState → Res SmState
    nth n [] = fault
    nth zero (s ∷ ss) = ok s
    nth (suc n) (s ∷ ss) = nth n ss

-- insert_new_message(smp, state, time): the message goes to the front of the list.
unfoldable pub insert_new_message_at : World → Smq → Msg → SmState → ℕ → Res Smq
unfolding signal_writer set_msg_state_at
insert_new_message_at w s m state time =
    signal_writer w (record s { queue = set_msg_state_at m state time ∷ s.queue })

-- What read_queue_from_file does with a record: a message that is no valid request is dropped.
unfoldable pub restore : World → (Str → Str → Option (List Resolved)) → Smq → Locals → Str → Res Smq
unfolding new_node new_msg initialize parse_addr validate_short_msg cast_state insert_new_message_at
    manager
restore w getaddrinfo s l text =
    let (s, node) = new_node s in
    elim (parse_addr getaddrinfo l.netaddrstr 16) [
      | none ↦ ok s
      | some address ↦
          let m : Msg = record (initialize (new_msg node) text) {
            ms_to_sc = not (l.ms_to_sc == 0);
            need_repack = not (l.need_repack == 0);
            srcaddr = address;
          } in
          do
            r ← validate_short_msg w.outside (manager w s) false m
            if r.1 == 0
                then (do
                  p ← deref r.0.parsed
                  if is_response p then ok s else (do
                    state ← cast_state l.astate
                    insert_new_message_at w s r.0 state l.atime))
                else ok s
    ]

-- The loop of read_queue_from_file, for at most so many turns; `none` where it is still running. A turn
-- gives what it read to a function.
unfoldable pub read_loop :
    (Smq → Locals → Str → Res Smq) → ℕ → Smq → Locals → Stream → Option (Res Smq)
unfolding read_start read_rest str_eq
read_loop take_record zero s l f = none
read_loop take_record (suc n) s l f =
    let (f1, l1) = read_start f l in
    let (f2, l2, text) = read_rest f1 l1 in
    elim (f.is_eof || (not (str_eq l1.equals (codes "===")) || f1.is_eof)) [
      | true ↦ some (ok s)
      | false ↦ elim (take_record s l2 text) [
        | fault ↦ some fault
        | ok s2 ↦ read_loop take_record n s2 l2 f2
      ]
    ]

-- read_queue_from_file of a file that can be opened, with what the variables hold at the start.
unfoldable pub read_queue_from_file :
    World → (Str → Str → Option (List Resolved)) → ℕ → Smq → Locals → Str → Option (Res Smq)
unfolding read_loop restore
read_queue_from_file w getaddrinfo n s l file = read_loop (restore w getaddrinfo) n s l (at file)
