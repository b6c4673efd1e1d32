-- ===== src/Examples/Saved.antt =====
-- The theorems on the saved queue, at a queue of two messages.
use smqueue.Prelude.{
  ℕ, ◌+◌, ◌≡◌, refl, List, [], ◌∷◌, true, none, some, Str, codes, ok, Option, arith, is_space,
  str_eq, is_zero,
}
use smqueue.State.{request_msg_delivery}
use smqueue.Sip.{Sip}
use smqueue.Message.{Msg, make_text_valid, new_msg, parse}
use smqueue.Message.Tag.{set_qtag, qtag_of_parsed, find_tag}
use smqueue.Message.Validate.{
  validate_short_msg, validate_parsed, structure_check, is_text, request_check, has_url, mime_check,
  to_check, relay_check,
}
use smqueue.Smq.{World, Smq}
use smqueue.Smq.Address.{Resolved, parse_addr}
use smqueue.Smq.Saved.{Locals, save_queue_to_file, read_queue_from_file}
use smqueue.Smq.Saved.Records.{Printable}
use smqueue.Smq.Saved.Restored.{Restorable, SameSaved, read_queue_from_file-save_queue_to_file}
use smqueue.Smq.Saved.Overflow.{read_queue_from_file-hangs}
use smqueue.Examples.{alice, message_sip, from_tag, world, manager_of, parsed_msg}

-- A message that is due at a time.
abbrev due_at : ℕ → ℕ → Msg
due_at node time = record (parsed_msg node (message_sip alice from_tag (codes "411"))) {
  state = request_msg_delivery;
  next_action_time = time;
  srcaddr = codes "ABCDEFGH";
}

due_at-Printable : {p : Option Sip} (node time : ℕ) → Printable (world p 0) (due_at node time)
unfolding make_text_valid is_space new_msg
due_at-Printable node time = record {
  c = b'S';
  t = codes "IP";
  a = b'1';
  b = codes "27.0.0.1:5062";
  text_eq = refl;
  is_valid = refl;
  no_nul = (refl, (refl, (refl, tt)));
  no_newline = refl;
  text_fits = omega arith;
  address_eq = refl;
  no_space = (
    refl,
    (
      refl,
      (
        refl,
        (refl, (refl, (refl, (refl, (refl, (refl, (refl, (refl, (refl, (refl, (refl, tt))))))))))),
      ),
    ),
  );
}

-- One address for every host.
abbrev one_address : Str → Str → Option (List Resolved)
one_address host port = some (record { address = codes "ABCDEFGH"; is_datagram = true } ∷ [])

abbrev unset : Locals
unset = record {
  equals = [];
  astate = 0;
  atime = 0;
  netaddrstr = [];
  alength = 0;
  ms_to_sc = 0;
  need_repack = 0;
}

abbrev two_due : Smq
two_due = manager_of (due_at 1 100 ∷ due_at 2 200 ∷ []) 3

-- The surroundings in which every text reads as one request.
abbrev reads_hello : World
reads_hello = world (some (message_sip alice from_tag (codes "411"))) 0

due_at-Restorable : (node time : ℕ) → Restorable reads_hello one_address (due_at node time)
unfolding validate_short_msg parse validate_parsed structure_check is_text str_eq is_zero
    request_check has_url mime_check to_check relay_check set_qtag qtag_of_parsed parse_addr new_msg
    find_tag
due_at-Restorable node time = record {
  address_back = refl;
  accepted = λ s node. (_, message_sip alice from_tag (codes "411"), refl, refl, refl);
}

read_queue_from_file-save_queue_to_file_example :
    (f : Str) × (u : Smq) × (save_queue_to_file reads_hello two_due ≡ ok (two_due, f))
    × (read_queue_from_file reads_hello one_address (2 + 1) (manager_of [] 3) unset f ≡ some (ok u))
    × SameSaved u.queue two_due.queue
read_queue_from_file-save_queue_to_file_example =
    read_queue_from_file-save_queue_to_file reads_hello one_address two_due (manager_of [] 3) unset
      0 refl (due_at-Printable 1 100, (due_at-Printable 2 200, tt)) (omega arith, (omega arith, tt))
      (due_at-Restorable 1 100, (due_at-Restorable 2 200, tt))

abbrev now_due : Smq
now_due = manager_of (due_at 1 1438092358000 ∷ due_at 2 1438092359000 ∷ []) 3

read_queue_from_file-hangs_example :
    (f : Str) × (save_queue_to_file (world none 0) now_due ≡ ok (now_due, f))
    × ((n : ℕ) → read_queue_from_file (world none 0) one_address n (manager_of [] 3) unset f ≡ none)
read_queue_from_file-hangs_example =
    read_queue_from_file-hangs (world none 0) one_address now_due (manager_of [] 3) unset
      (due_at 1 1438092358000 ∷ []) (due_at 2 1438092359000) refl
      (due_at-Printable 1 1438092358000, (due_at-Printable 2 1438092359000, tt)) (omega arith) refl
