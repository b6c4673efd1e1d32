-- ===== src/Smq/Saved/RoundTrip.antt =====
-- The file that save_queue_to_file of smqueue/smqueue.cpp writes, and the loop that reads it.
use smqueue.Prelude.{
  ℕ, zero, suc, ◌+◌, ◌≡◌, refl, sym, ap, ◌∙◌, Bool, true, false, not, ◌||◌, List, [], ◌∷◌, ◌++◌,
  Option, none, some, Str, All, codes, str_eq, skip_while, length, Res, ok, fault, deref, ◌>>=◌,
  ◌==◌, arith,
}
use mathlib.Core.Path.{fun_ext}
use mathlib.Core.List.{append_assoc}
use smqueue.Message.{Msg}
use smqueue.Smq.{World, Smq}
use smqueue.Smq.Saved.{
  save_entry, save_list, save_queue_to_file, Locals, read_start, read_rest, restore, read_loop,
  read_queue_from_file,
}
use smqueue.Smq.Address.{Resolved}
use smqueue.Smq.Stream.{Stream, at, behind}
use smqueue.Smq.Saved.Records.{
  Printable, Fits32, locals_of, entry_text, address_on, started, read_start-entry, read_rest-entry,
}

-- The messages of a list are taken, the last one first.
abbrev pub take_all : World → (Smq → Locals → Str → Res Smq) → List Msg → Smq → Res Smq
take_all w take_record [] s = ok s
take_all w take_record (x ∷ xs) s = do
  s ← take_all w take_record xs s
  text ← deref x.text
  take_record s (locals_of w x text) text

abbrev go_on : (Smq → Option (Res Smq)) → Res Smq → Option (Res Smq)
go_on next fault = some fault
go_on next (ok s) = next s

read_loop-entry :
    (w : World) (m : Msg) (k : Printable w m) (r : Str) (l : Locals) (n : ℕ) (s : Smq)
    (take_record : Smq → Locals → Str → Res Smq)
    → Fits32 m
    → skip_while (λ c. c == 10) r ≡ r
    → read_loop take_record (suc n) s l (at (entry_text w m (k.c ∷ k.t) r))
      ≡ go_on
          (λ s. read_loop take_record n s (locals_of w m (k.c ∷ k.t)) (behind r))
          (take_record s (locals_of w m (k.c ∷ k.t)) (k.c ∷ k.t))
unfolding read_loop str_eq
read_loop-entry w m k r l n s take_record due h =
    let turn : Stream × Locals → Stream × Locals × Str → Option (Res Smq) = λ p q.
      elim (false || (not (str_eq p.1.equals (codes "===")) || p.0.is_eof)) [
        | true ↦ some (ok s)
        | false ↦ elim (take_record s q.1 q.2) [
          | fault ↦ some fault
          | ok s2 ↦ read_loop take_record n s2 q.1 q.0
        ]
      ] in
    ap (λ (p : Stream × Locals). turn p (read_rest p.0 p.1)) (read_start-entry w m k r l due)
    ∙ ap (turn (at (address_on w m k r l), started w m k r l)) (read_rest-entry w m k r l h)
    ∙ same (take_record s (locals_of w m (k.c ∷ k.t)) (k.c ∷ k.t))
  where
    same :
        (x : Res Smq)
        → elim x [
          | fault ↦ some fault
          | ok s2 ↦ read_loop take_record n s2 (locals_of w m (k.c ∷ k.t)) (behind r)
        ]
          ≡ go_on (λ s. read_loop take_record n s (locals_of w m (k.c ∷ k.t)) (behind r)) x
    same fault = refl
    same (ok s2) = refl

abbrev pub text_of : Option Str → Str
text_of none = []
text_of (some text) = text

-- The records of a list, the last message first, in front of what follows.
abbrev pub file : World → List Msg → Str → Str
file w [] r = r
file w (x ∷ xs) r = file w xs (entry_text w x (text_of x.text) r)

entry_text-append :
    (w : World) (m : Msg) (text r t : Str)
    → entry_text w m text r ++ t ≡ entry_text w m text (r ++ t)
entry_text-append w m text r t = simp append_assoc

file-append : (w : World) (xs : List Msg) (r t : Str) → file w xs r ++ t ≡ file w xs (r ++ t)
file-append w [] r t = refl
file-append w (x ∷ xs) r t =
    file-append w xs (entry_text w x (text_of x.text) r) t
    ∙ ap (file w xs) (entry_text-append w x (text_of x.text) r t)

save_entry_lem :
    (w : World) (m : Msg) (text : Str)
    → m.text ≡ some text
    → save_entry w m ≡ ok (entry_text w m text [])
unfolding save_entry
save_entry_lem w m text h = rw h (ap ok (simp append_assoc))

pub save_list_lem :
    (w : World) (q : List Msg) → All (Printable w) q → save_list w q ≡ ok (q, file w q [])
unfolding save_list
save_list_lem w [] h = refl
save_list_lem w (x ∷ xs) h =
    let k = h.0 in
    rw (save_list_lem w xs h.1, k.is_valid, save_entry_lem w x (k.c ∷ k.t) k.text_eq)
      (ap (λ (t : Str). ok (x ∷ xs, t))
        (file-append w xs [] (entry_text w x (k.c ∷ k.t) [])
          ∙ ap (λ o. file w xs (entry_text w x (text_of o) [])) (sym k.text_eq)))

go_on-bind :
    (g : Smq → Option (Res Smq)) (m : Res Smq) (f : Smq → Res Smq)
    → go_on (λ s. go_on g (f s)) m ≡ go_on g (m >>= f)
go_on-bind g fault f = refl
go_on-bind g (ok s) f = refl

read_loop-file :
    (w : World) (q : List Msg) (r : Str) (l : Locals) (n : ℕ) (s : Smq)
    (take_record : Smq → Locals → Str → Res Smq)
    → All (Printable w) q
    → All Fits32 q
    → skip_while (λ c. c == 10) r ≡ r
    → (last : Locals) × (read_loop take_record (length q + n) s l (behind (file w q r))
        ≡ go_on (λ s. read_loop take_record n s last (behind r)) (take_all w take_record q s))
unfolding skip_while
read_loop-file w [] r l n s take_record h due e =
    (l, ap (λ (m : ℕ). read_loop take_record m s l (behind r)) (omega arith))
read_loop-file w (x ∷ xs) r l n s take_record h due e =
    let k = h.0 in
    let t = k.c ∷ k.t in
    let (last, e') =
      read_loop-file w xs (entry_text w x (text_of x.text) r) l (suc n) s take_record h.1 due.1
        refl in
    (
      locals_of w x t,
      ap (λ (m : ℕ). read_loop take_record m s l (behind (file w (x ∷ xs) r))) (omega arith)
          ∙ e'
          ∙ ap (λ f. go_on f (take_all w take_record xs s))
              (fun_ext (λ s2.
                ap (λ o. read_loop take_record (suc n) s2 last (at (entry_text w x (text_of o) r)))
                  k.text_eq
                ∙ read_loop-entry w x k r last n s2 take_record due.0 e))
          ∙ go_on-bind (λ s. read_loop take_record n s (locals_of w x t) (behind r))
              (take_all w take_record xs s) (λ s. take_record s (locals_of w x t) t)
          ∙ ap
              (λ o.
                go_on (λ s. read_loop take_record n s (locals_of w x t) (behind r))
                  (take_all w take_record xs s >>= λ s.
                    deref o >>= λ text. take_record s (locals_of w x text) text))
              (sym k.text_eq),
    )

-- A file without records ends the loop, however it ends.
read_loop-at :
    (take_record : Smq → Locals → Str → Res Smq) (n : ℕ) (s : Smq) (l : Locals) (f : Str)
    → read_loop take_record n s l (at f) ≡ read_loop take_record n s l (behind f)
unfolding read_loop read_start skip_while
read_loop-at take_record zero s l f = refl
read_loop-at take_record (suc n) s l (c ∷ r) = refl
read_loop-at take_record (suc n) s l [] = ends (not (str_eq l.equals (codes "==="))) _
  where
    ends :
        (b : Bool) (next : Option (Res Smq))
        → elim (false || (b || true)) [ true ↦ some (ok s) | false ↦ next ] ≡ some (ok s)
    ends true next = refl
    ends false next = refl

-- The file that is saved is read to its end, and its records are taken.
pub read_taken :
    (w : World) (getaddrinfo : Str → Str → Option (List Resolved)) (s t : Smq) (l : Locals) (n : ℕ)
    → All (Printable w) s.queue
    → All Fits32 s.queue
    → (f : Str) × (save_queue_to_file w s ≡ ok (s, f))
      × (read_queue_from_file w getaddrinfo (length s.queue + suc n) t l f
          ≡ some (take_all w (restore w getaddrinfo) s.queue t))
unfolding save_queue_to_file read_queue_from_file
read_taken w getaddrinfo s t l n h due =
    let (last, e) = read_loop-file w s.queue [] l (suc n) t (restore w getaddrinfo) h due refl in
    (
      file w s.queue [],
      rw (save_list_lem w s.queue h) refl,
      read_loop-at (restore w getaddrinfo) (length s.queue + suc n) t l (file w s.queue [])
          ∙ e
          ∙ done (take_all w (restore w getaddrinfo) s.queue t) last,
    )
  where
    done :
        (r : Res Smq) (last : Locals)
        → go_on (λ s. read_loop (restore w getaddrinfo) (suc n) s last (behind [])) r ≡ some r
    done fault last = refl
    done (ok s) last = refl
