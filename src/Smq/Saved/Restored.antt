-- ===== src/Smq/Saved/Restored.antt =====
-- What read_queue_from_file of smqueue/smqueue.cpp puts into the queue for a message that was saved.
use smqueue.Prelude.{
  ℕ, suc, ◌+◌, ◌≡◌, refl, subst, sym, ap, ◌∙◌, Bool, true, false, not, List, [], ◌∷◌, Option, some,
  Str, All, length, ok, ◌++◌, ◌==◌, arith, Holds-eq_ok,
}
use smqueue.Sip.{Sip, Outside, is_response}
use smqueue.State.{SmState, state_number}
use smqueue.Message.{Msg, new_msg, initialize, make_text_valid, set_msg_state_at}
use smqueue.Message.Carried.{carried, Carries, validate_short_msg-Carries}
use smqueue.Message.Validate.{validate_short_msg}
use smqueue.Smq.{
  process_incoming, World, Smq, dump_list, debug_dump, signal_writer, new_node, manager,
}
use smqueue.Smq.Address.{Resolved, parse_addr}
use smqueue.Smq.Saved.{
  Locals, flag, cast_state, insert_new_message_at, restore, save_queue_to_file,
  read_queue_from_file,
}
use smqueue.Smq.Saved.Records.{Printable, Fits32, locals_of}
use smqueue.Smq.Saved.RoundTrip.{take_all, read_taken}

-- The message that is made from a record, before it is validated.
abbrev pub reborn : ℕ → Msg → Msg
reborn node m = record (new_msg node) {
  text = m.text;
  ms_to_sc = m.ms_to_sc;
  need_repack = m.need_repack;
  srcaddr = m.srcaddr;
}

-- A message whose printed address is read as the address that it has, and whose text is accepted as a
-- request, in whatever list node it is read.
pub record Restorable (w : World) (getaddrinfo : Str → Str → Option (List Resolved)) (m : Msg)
    : Type 0 where
  pub address_back : parse_addr getaddrinfo (w.string_addr m.srcaddr) 16 ≡ some m.srcaddr
  pub accepted :
      (s : Smq) (node : ℕ)
      → (r : Msg) × (p : Sip) × (validate_short_msg w.outside (manager w s) false (reborn node m)
          ≡ ok (r, 0))
        × (r.parsed ≡ some p)
        × (is_response p ≡ false)

-- What is saved of a message.
abbrev pub saved : Msg → SmState × ℕ × Option Str × Str × Bool × Bool
saved m = (m.state, m.next_action_time, m.text, m.srcaddr, m.ms_to_sc, m.need_repack)

-- Two queues with the same in their places, as far as it is saved; the texts of the first are up to date.
abbrev pub SameSaved : List Msg → List Msg → Type 0
SameSaved [] [] = Unit
SameSaved [] (y ∷ ys) = ⊥
SameSaved (x ∷ xs) [] = ⊥
SameSaved (x ∷ xs) (y ∷ ys) = (saved x ≡ saved y) × (x.parsed_is_better ≡ false) × SameSaved xs ys

cast_state-state_number : (st : SmState) → cast_state (state_number st) ≡ ok st
unfolding cast_state state_number
cast_state-state_number st = ground arith

not-flag : (b : Bool) → not (flag b == 0) ≡ b
not-flag true = refl
not-flag false = refl

dump_list-valid : (o : Outside) (q r : List Msg) → SameSaved q r → dump_list o q ≡ ok q
unfolding dump_list make_text_valid
dump_list-valid o [] r h = refl
dump_list-valid o (x ∷ xs) [] h = absurd h
dump_list-valid o (x ∷ xs) (y ∷ ys) h = rw (h.1, dump_list-valid o xs ys h.2) refl

-- The message gets to the front of the queue.
restore-front :
    (w : World) (getaddrinfo : Str → Str → Option (List Resolved)) (s : Smq) (m : Msg) (text : Str)
    (q : List Msg)
    → Restorable w getaddrinfo m
    → m.text ≡ some text
    → SameSaved s.queue q
    → (t : Smq) × (restore w getaddrinfo s (locals_of w m text) text ≡ ok t)
      × SameSaved t.queue (m ∷ q)
unfolding restore new_node initialize insert_new_message_at signal_writer debug_dump
    set_msg_state_at
restore-front w getaddrinfo s m text q k e h =
    let s1 : Smq = record s { next_node = suc s.next_node } in
    let (r, p, v, hp, hr) = k.accepted s1 s.next_node in
    let c : carried r ≡ carried (reborn s.next_node m) =
      Holds-eq_ok (Carries (reborn s.next_node m)) _
        (validate_short_msg-Carries w.outside (manager w s1) (reborn s.next_node m) refl) v in
    let x : Msg = record r { next_action_time = m.next_action_time; state = m.state } in
    let same : SameSaved (x ∷ s.queue) (m ∷ q) = (
      ap
          (λ (c : Option Str × Str × Bool × Bool × Bool).
            (m.state, m.next_action_time, c.0, c.1, c.2, c.3))
          c,
      ap (λ (c : Option Str × Str × Bool × Bool × Bool). c.4) c,
      h,
    ) in
    (
      record s1 { queue = x ∷ s.queue; writer_queue = s.writer_queue ++ process_incoming ∷ [] },
      rw
          (
            k.address_back,
            not-flag m.ms_to_sc,
            not-flag m.need_repack,
            sym e,
            v,
            hp,
            hr,
            cast_state-state_number m.state,
            same.1,
            dump_list-valid w.outside s.queue q h,
          )
          refl,
      same,
    )

take_all-same :
    (w : World) (getaddrinfo : Str → Str → Option (List Resolved)) (q : List Msg) (s : Smq)
    → s.queue ≡ []
    → All (Printable w) q
    → All (Restorable w getaddrinfo) q
    → (t : Smq) × (take_all w (restore w getaddrinfo) q s ≡ ok t) × SameSaved t.queue q
take_all-same w getaddrinfo [] s e h k = (s, refl, subst (λ l. SameSaved l []) (sym e) tt)
take_all-same w getaddrinfo (x ∷ xs) s e h k =
    let (t, a, same) = take_all-same w getaddrinfo xs s e h.1 k.1 in
    let text : Str = h.0.c ∷ h.0.t in
    let (u, b, same1) = restore-front w getaddrinfo t x text xs k.0 h.0.text_eq same in
    (u, rw (a, h.0.text_eq, b) refl, same1)

-- A queue of messages with texts that are up to date, not empty, without a NUL and without an empty line
-- in front, with addresses that print as words from which they are read again, with texts that are
-- accepted as requests, and with times below 2^32, which times in milliseconds since 1970 are not:
-- save_queue_to_file leaves the manager as it is, and read_queue_from_file, given one turn of its loop for
-- each message and one more, and a manager with an empty queue, reads the file to its end, whatever its
-- variables hold at the start. The queue that it leaves has in each place a message with the state, the
-- time, the text, the address, the direction and the mark for packing of the message that was saved.
pub read_queue_from_file-save_queue_to_file :
    (w : World) (getaddrinfo : Str → Str → Option (List Resolved)) (s t : Smq) (l : Locals) (n : ℕ)
    → t.queue ≡ []
    → All (Printable w) s.queue
    → All Fits32 s.queue
    → All (Restorable w getaddrinfo) s.queue
    → (f : Str) × (u : Smq) × (save_queue_to_file w s ≡ ok (s, f))
      × (read_queue_from_file w getaddrinfo (length s.queue + suc n) t l f ≡ some (ok u))
      × SameSaved u.queue s.queue
read_queue_from_file-save_queue_to_file w getaddrinfo s t l n e h due k =
    let (f, a, b) = read_taken w getaddrinfo s t l n h due in
    let (u, c, same) = take_all-same w getaddrinfo s.queue t e h k in (f, u, a, b ∙ ap some c, same)
