-- ===== src/Smq/Saved/Records.antt =====
-- A record of the saved queue, as it is written and read.
use smqueue.Prelude.{
  ℕ, ◌^◌, ◌<◌, ◌≡◌, refl, ap, ◌∙◌, Bool, true, false, not, ◌∷◌, ◌++◌, some, Str, codes, is_space,
  skip_while, decimal, length, ok, ◌==◌, arith,
}
use smqueue.State.{SmState, state_number}
use smqueue.Message.{Msg, make_text_valid}
use smqueue.Smq.{World}
use smqueue.Smq.Saved.{flag, Locals, read_start, read_rest}
use smqueue.Smq.Stream.{
  Stream, at, behind, extract_word, extract_unsigned, skip_newlines, get_chars,
}
use smqueue.Smq.Stream.Extract.{
  Each, extract_word-word, extract_unsigned-decimal, get_chars-text, skip_newlines-at,
}

-- A message that can be saved: its text is up to date, not empty, without a NUL, and does not start with
-- an empty line; the address prints as a word.
pub record Printable (w : World) (m : Msg) : Type 0 where
  pub c : ℕ
  pub t : Str
  pub a : ℕ
  pub b : Str
  pub text_eq : m.text ≡ some (c ∷ t)
  pub is_valid : make_text_valid w.outside m ≡ ok m
  pub no_nul : Each (λ c. not (c == 0)) (c ∷ t)
  pub no_newline : (c == 10) ≡ false
  pub text_fits : length (c ∷ t) < 2 ^ 32
  pub address_eq : w.string_addr m.srcaddr ≡ a ∷ b
  pub no_space : Each (λ c. not (is_space c)) (a ∷ b)

-- Its time fits an unsigned int of 32 bits.
abbrev pub Fits32 : Msg → Type 0
Fits32 m = m.next_action_time < 2 ^ 32

-- The variables once the record of a message is read.
abbrev pub locals_of : World → Msg → Str → Locals
locals_of w m text = record {
  equals = codes "===";
  astate = state_number m.state;
  atime = m.next_action_time;
  netaddrstr = w.string_addr m.srcaddr;
  alength = length text;
  ms_to_sc = flag m.ms_to_sc;
  need_repack = flag m.need_repack;
}

-- The record of a message, in front of what follows.
abbrev pub entry_text : World → Msg → Str → Str → Str
entry_text w m text r =
    codes "=== "
    ++ (decimal (state_number m.state)
        ++ 32
          ∷ (decimal m.next_action_time
              ++ 32
                ∷ (w.string_addr m.srcaddr
                    ++ 32
                      ∷ (decimal (length text)
                          ++ 32
                            ∷ (decimal (flag m.ms_to_sc)
                                ++ 32
                                  ∷ (decimal (flag m.need_repack)
                                      ++ 10 ∷ (text ++ 10 ∷ 10 ∷ r)))))))

pub state_number-lt : (s : SmState) → state_number s < 2 ^ 32
unfolding state_number
state_number-lt SmState.no_state = omega arith
state_number-lt SmState.initial_state = omega arith
state_number-lt SmState.request_from_address_lookup = omega arith
state_number-lt SmState.asked_for_from_address_lookup = omega arith
state_number-lt SmState.awaiting_try_destination_imsi = omega arith
state_number-lt SmState.request_destination_imsi = omega arith
state_number-lt SmState.asked_for_destination_imsi = omega arith
state_number-lt SmState.awaiting_try_destination_sipurl = omega arith
state_number-lt SmState.request_destination_sipurl = omega arith
state_number-lt SmState.asked_for_destination_sipurl = omega arith
state_number-lt SmState.awaiting_try_msg_delivery = omega arith
state_number-lt SmState.request_msg_delivery = omega arith
state_number-lt SmState.asked_for_msg_delivery = omega arith
state_number-lt SmState.delete_me_state = omega arith
state_number-lt SmState.awaiting_register_handset = omega arith
state_number-lt SmState.register_handset = omega arith
state_number-lt SmState.asked_to_register_handset = omega arith

flag-lt : (b : Bool) → flag b < 2 ^ 32
flag-lt true = omega arith
flag-lt false = omega arith

not-space : (c : ℕ) → not (is_space c) ≡ true → is_space c ≡ false
not-space c h = ground arith

skip_space : (c : ℕ) (s : Str) → not (is_space c) ≡ true → skip_while is_space (32 ∷ c ∷ s) ≡ c ∷ s
unfolding skip_while is_space
skip_space c s h = rw (not-space c h) refl

pub read_start_lem :
    (f : Stream) (l : Locals) (f1 f2 f3 : Stream) (equals : Str) (astate atime : ℕ)
    → extract_word f l.equals ≡ (f1, equals)
    → extract_unsigned f1 l.astate ≡ (f2, astate)
    → extract_unsigned f2 l.atime ≡ (f3, atime)
    → read_start f l ≡ (f3, record l { equals = equals; astate = astate; atime = atime })
unfolding read_start
read_start_lem f l f1 f2 f3 equals astate atime e1 e2 e3 =
    let third : Str → ℕ → Stream × ℕ → Stream × Locals =
      λ e a p. (p.0, record l { equals = e; astate = a; atime = p.1 }) in
    ap
      (λ (p : Stream × Str).
        third p.1 (extract_unsigned p.0 l.astate).1
          (extract_unsigned (extract_unsigned p.0 l.astate).0 l.atime))
      e1
    ∙ ap (λ (p : Stream × ℕ). third equals p.1 (extract_unsigned p.0 l.atime)) e2
    ∙ ap (third equals astate) e3

-- What is left of a record once its address is read, as a function of the stream.
abbrev after_numbers : Locals → Str → ℕ → ℕ → Stream × ℕ → Stream × Locals × Str
after_numbers l address n b p = (
  skip_newlines (get_chars n (skip_newlines p.0)).0,
  record l { netaddrstr = address; alength = n; ms_to_sc = b; need_repack = p.1 },
  (get_chars n (skip_newlines p.0)).1,
)

pub read_rest_lem :
    (f : Stream) (l : Locals) (f1 f2 f3 f4 f5 : Stream) (x y : Str) (address : Str) (n b c : ℕ)
    (text : Str)
    → extract_word f l.netaddrstr ≡ (f1, address)
    → extract_unsigned f1 l.alength ≡ (f2, n)
    → extract_unsigned f2 l.ms_to_sc ≡ (f3, b)
    → extract_unsigned f3 l.need_repack ≡ (f4, c)
    → skip_newlines f4 ≡ f5
    → get_chars n f5 ≡ (at x, text)
    → skip_newlines (at x) ≡ behind y
    → read_rest f l ≡ (
      behind y,
      record l { netaddrstr = address; alength = n; ms_to_sc = b; need_repack = c },
      text,
    )
unfolding read_rest
read_rest_lem f l f1 f2 f3 f4 f5 x y address n b c text e1 e2 e3 e4 e5 e6 e7 =
    let last : Stream → Stream × Locals × Str = λ g. (
      skip_newlines (get_chars n g).0,
      record l { netaddrstr = address; alength = n; ms_to_sc = b; need_repack = c },
      (get_chars n g).1,
    ) in
    ap
      (λ (p : Stream × Str).
        let q = extract_unsigned p.0 l.alength in
        let u = extract_unsigned q.0 l.ms_to_sc in
        after_numbers l p.1 q.1 u.1 (extract_unsigned u.0 l.need_repack))
      e1
    ∙ ap
        (λ (q : Stream × ℕ).
          let u = extract_unsigned q.0 l.ms_to_sc in
          after_numbers l address q.1 u.1 (extract_unsigned u.0 l.need_repack))
        e2
    ∙ ap (λ (u : Stream × ℕ). after_numbers l address n u.1 (extract_unsigned u.0 l.need_repack)) e3
    ∙ ap (after_numbers l address n b) e4
    ∙ ap last e5
    ∙ ap
        (λ (p : Stream × Str). (
          skip_newlines p.0,
          record l { netaddrstr = address; alength = n; ms_to_sc = b; need_repack = c },
          p.1,
        ))
        e6
    ∙ ap
        (λ (g : Stream).
          (g, record l { netaddrstr = address; alength = n; ms_to_sc = b; need_repack = c }, text))
        e7

module _ (w : World) (m : Msg) (k : Printable w m) (r : Str) (l : Locals) where
  abbrev pub text : Str
  text = k.c ∷ k.t

  abbrev pub address_on : Str
  address_on =
      32
      ∷ (w.string_addr m.srcaddr
          ++ 32
            ∷ (decimal (length text)
                ++ 32
                  ∷ (decimal (flag m.ms_to_sc)
                      ++ 32 ∷ (decimal (flag m.need_repack) ++ 10 ∷ (text ++ 10 ∷ 10 ∷ r)))))

  abbrev pub started : Locals
  started = record l {
    equals = codes "===";
    astate = state_number m.state;
    atime = m.next_action_time;
  }

  pub read_start-entry :
      Fits32 m → read_start (at (entry_text w m text r)) l ≡ (at address_on, started)
  unfolding is_space skip_while
  read_start-entry due =
      read_start_lem (at (entry_text w m text r)) l _ _ _ (codes "===") (state_number m.state)
        m.next_action_time
        (extract_word-word (entry_text w m text r) l.equals b'=' 32 (codes "==") _
          (refl, (refl, (refl, tt))) refl refl)
        (extract_unsigned-decimal l.astate (state_number m.state) 32 _ (state_number-lt m.state)
          refl)
        (extract_unsigned-decimal l.atime m.next_action_time 32 _ due refl)

  pub read_rest-entry :
      skip_while (λ c. c == 10) r ≡ r
      → read_rest (at address_on) started ≡ (behind r, locals_of w m text, text)
  unfolding is_space skip_while
  read_rest-entry h =
      read_rest_lem (at address_on) started _ _ _ _ _ (10 ∷ 10 ∷ r) r (w.string_addr m.srcaddr)
        (length text) (flag m.ms_to_sc) (flag m.need_repack) text
        (rw k.address_eq (
          extract_word-word _ l.netaddrstr k.a 32 k.b _ k.no_space refl
            (skip_space k.a _ k.no_space.0)))
        (extract_unsigned-decimal l.alength (length text) 32 _ k.text_fits refl)
        (extract_unsigned-decimal l.ms_to_sc (flag m.ms_to_sc) 32 _ (flag-lt m.ms_to_sc) refl)
        (extract_unsigned-decimal l.need_repack (flag m.need_repack) 10 _ (flag-lt m.need_repack)
          refl)
        (skip_newlines-at (10 ∷ (text ++ 10 ∷ 10 ∷ r)) (text ++ 10 ∷ 10 ∷ r) (rw k.no_newline refl))
        (get_chars-text k.c k.t (10 ∷ 10 ∷ r) k.no_nul) (skip_newlines-at (10 ∷ 10 ∷ r) r h)
