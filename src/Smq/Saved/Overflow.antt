-- ===== src/Smq/Saved/Overflow.antt =====
-- A saved time of 2^32 milliseconds or more, which every time since 1970 but the first fifty days is.
use smqueue.Prelude.{
  ℕ, zero, suc, ◌-◌, ◌^◌, ◌≤◌, ◌≡◌, refl, ap, ◌∙◌, true, false, not, ◌||◌, List, [], ◌∷◌, ◌++◌,
  Option, none, some, Str, All, codes, str_eq, is_space, skip_while, Res, ok, fault,
}
use smqueue.State.{state_number}
use smqueue.Message.{Msg}
use smqueue.Smq.{World, Smq, new_node}
use smqueue.Smq.Saved.{
  save_queue_to_file, Locals, read_start, read_rest, restore, read_loop, read_queue_from_file,
}
use smqueue.Smq.Address.{Resolved, parse_addr}
use smqueue.Smq.Stream.{Stream, at}
use smqueue.Smq.Stream.Extract.{
  failed_at, extract_word-word, extract_unsigned-decimal, extract_unsigned-overflow,
}
use smqueue.Smq.Saved.Records.{Printable, entry_text, state_number-lt, read_start_lem}
use smqueue.Smq.Saved.RoundTrip.{text_of, file, save_list_lem}

-- The variables where nothing but the first field of a record was ever read.
abbrev stuck : ℕ → ℕ → ℕ → ℕ → ℕ → Locals
stuck astate atime alength ms_to_sc need_repack = record {
  equals = codes "===";
  astate = astate;
  atime = atime;
  netaddrstr = [];
  alength = alength;
  ms_to_sc = ms_to_sc;
  need_repack = need_repack;
}

module _ (w : World) (getaddrinfo : Str → Str → Option (List Resolved)) where
  -- On a stream that failed every turn of the loop is like the last one.
  loop-stuck :
      (n : ℕ) (s : Smq) (a b c d e : ℕ) (r : Str)
      → read_loop (restore w getaddrinfo) n s (stuck a b c d e) (failed_at r) ≡ none
  unfolding read_loop restore parse_addr read_start read_rest str_eq
  loop-stuck zero s a b c d e r = refl
  loop-stuck (suc n) s a b c d e r = loop-stuck n (new_node s).0 a b c d e r

  first_turn :
      (m : Msg) (text r : Str) (n : ℕ) (s : Smq) (q : Str) (a b c d e : ℕ)
      → 2 ^ 32 ≤ m.next_action_time
      → read_loop
          (restore w getaddrinfo)
          (suc n)
          s
          (record (stuck a b c d e) { equals = q })
          (at (entry_text w m text r))
        ≡ none
  unfolding read_loop restore parse_addr read_rest str_eq is_space skip_while
  first_turn m text r n s q a b c d e due =
      let l : Locals = record (stuck a b c d e) { equals = q } in
      let turn : Stream × Locals → Stream × Locals × Str → Option (Res Smq) = λ p q.
        elim (false || (not (str_eq p.1.equals (codes "===")) || p.0.is_eof)) [
          | true ↦ some (ok s)
          | false ↦ elim (restore w getaddrinfo s q.1 q.2) [
            | fault ↦ some fault
            | ok s2 ↦ read_loop (restore w getaddrinfo) n s2 q.1 q.0
          ]
        ] in
      ap (λ (p : Stream × Locals). turn p (read_rest p.0 p.1))
        (read_start_lem (at (entry_text w m text r)) l _ _ _ (codes "===") (state_number m.state)
          (2 ^ 32 - 1)
          (extract_word-word (entry_text w m text r) q b'=' 32 (codes "==") _
            (refl, (refl, (refl, tt))) refl refl)
          (extract_unsigned-decimal a (state_number m.state) 32 _ (state_number-lt m.state) refl)
          (extract_unsigned-overflow b m.next_action_time 32 _ due refl))
      ∙ loop-stuck n (new_node s).0 (state_number m.state) (2 ^ 32 - 1) c d e _

file-last :
    (w : World) (q : List Msg) (m : Msg) (r : Str)
    → file w (q ++ m ∷ []) r ≡ entry_text w m (text_of m.text) (file w q r)
file-last w [] m r = refl
file-last w (x ∷ q) m r = file-last w q m (entry_text w x (text_of x.text) r)

-- A queue of messages with texts that are up to date, not empty, without a NUL and without an empty line
-- in front, and with addresses that print as words, of which the last one has a time of 2^32 or more:
-- save_queue_to_file writes a file on which read_queue_from_file, with an empty address in its variable
-- as it starts, is still running after any number of turns.
pub read_queue_from_file-hangs :
    (w : World) (getaddrinfo : Str → Str → Option (List Resolved)) (s t : Smq) (l : Locals)
    (q : List Msg) (m : Msg)
    → s.queue ≡ q ++ m ∷ []
    → All (Printable w) s.queue
    → 2 ^ 32 ≤ m.next_action_time
    → l.netaddrstr ≡ []
    → (f : Str) × (save_queue_to_file w s ≡ ok (s, f))
      × ((n : ℕ) → read_queue_from_file w getaddrinfo n t l f ≡ none)
unfolding save_queue_to_file read_queue_from_file
read_queue_from_file-hangs w getaddrinfo s t l q m e h due empty = (
  file w s.queue [],
  rw (save_list_lem w s.queue h) refl,
  λ n.
      ap (λ qs. read_loop (restore w getaddrinfo) n t l (at (file w qs []))) e
      ∙ ap (λ f. read_loop (restore w getaddrinfo) n t l (at f)) (file-last w q m [])
      ∙ ap
          (λ a.
            read_loop (restore w getaddrinfo) n t (record l { netaddrstr = a })
              (at (entry_text w m (text_of m.text) (file w q []))))
          empty
      ∙ any n,
)
  where
    any :
        (n : ℕ)
        → read_loop
            (restore w getaddrinfo)
            n
            t
            (record l { netaddrstr = [] })
            (at (entry_text w m (text_of m.text) (file w q [])))
          ≡ none
    any zero = refl
    any (suc n) =
        first_turn w getaddrinfo m (text_of m.text) (file w q []) n t l.equals l.astate l.atime
          l.alength l.ms_to_sc l.need_repack due
