-- ===== src/Message/Checks.antt =====
-- What validate_short_msg and set_qtag of smqueue/smqueue.cpp promise to the rest of the program.
use smqueue.Prelude.{
  ℕ, zero, suc, ◌<◌, ◌+◌, ◌-◌, ◌≡◌, refl, true, [], ◌∷◌, ◌++◌, none, some, Str, codes, ok, arith,
  length, length-append, char_at, All, All-append, ◌≢◌, All-append,
}
use smqueue.Sip.{Sip, Address, CallId, Cseq, Outside}
use smqueue.Message.{Msg}
use smqueue.Message.Tag.{
  find_tag, make_qtag, store_qtag, qtag_of_parsed, set_qtag, taghash_of, IsTagged,
}

-- Within a C string no byte is NUL.
abbrev pub IsCString : Str → Type 0
IsCString = All (λ c. 0 < c)

char_at-length : (s : Str) → char_at s (length s) ≡ 0
unfolding char_at
char_at-length [] = refl
char_at-length (c ∷ s) = char_at-length s

char_at_last : (s : Str) (n : ℕ) → IsCString s → length s ≡ suc n → 0 < char_at s n
unfolding char_at
char_at_last [] n h e = absurd (omega arith)
char_at_last (c ∷ s) zero h e = h.0
char_at_last (c ∷ s) (suc n) h e = char_at_last s n h.1 (omega arith)

-- The buffer that set_qtag allocates is filled exactly: the check of the length calculation passes,
-- and the message has the tag that was built and its hash.
store_qtag_lem :
    (m : Msg) (number fromtag : Str)
    → IsCString number
    → IsCString fromtag
    → store_qtag m (make_qtag number fromtag) (length number + 2 + length fromtag + 1) ≡ (
      record m {
        qtag = some (make_qtag number fromtag);
        qtaghash = taghash_of (make_qtag number fromtag);
      },
      0,
    )
unfolding store_qtag make_qtag
store_qtag_lem m number fromtag hn hf =
    let tag : Str = number ++ (codes "--" ++ fromtag) in
    let cs : IsCString tag =
      All-append _ number (codes "--" ++ fromtag) hn (omega arith, (omega arith, hf)) in
    let e : length tag ≡ length number + 2 + length fromtag =
      omega (arith, length-append number (codes "--" ++ fromtag)) in
    let e1 : length number + 2 + length fromtag + 1 - 1 ≡ length tag = omega arith in
    let e2 : length number + 2 + length fromtag + 1 - 2 ≡ length number + 1 + length fromtag =
      omega arith in
    let last : 0 < char_at tag (length number + 1 + length fromtag) =
      char_at_last tag _ cs (omega arith) in
    rw (e1, e2) (ground (arith, char_at-length tag))

-- set_qtag of a valid parsed message: a From, a Call-ID and a CSeq with a number, and a From tag, both
-- C strings (without a NUL byte), give the tag `number--fromtag` with its hash, and nothing else changes.
pub set_qtag_lem :
    (o : Outside) (m : Msg) (p : Sip) (from : Address) (id : CallId) (c : Cseq)
    (number fromtag : Str)
    → m.parsed_is_valid ≡ true
    → m.parsed ≡ some p
    → p.from ≡ some from
    → p.call_id ≡ some id
    → p.cseq ≡ some c
    → c.number ≡ some number
    → find_tag from.gen_params ≡ some fromtag
    → IsCString number
    → IsCString fromtag
    → set_qtag o m
      ≡ ok (
        record m {
          qtag = some (make_qtag number fromtag);
          qtaghash = taghash_of (make_qtag number fromtag);
        },
        0,
      )
unfolding set_qtag qtag_of_parsed
set_qtag_lem o m p from id c number fromtag v hp hf hi hc hn ht cn cf =
    ground (arith, store_qtag_lem m number fromtag cn cf)

-- A message without a From tag is never given a queue tag: strlen is applied to a null pointer.
qtag_needs_from_tag :
    (m : Msg) (p : Sip) (from : Address)
    → p.from ≡ some from
    → find_tag from.gen_params ≡ none
    → (r : Msg) → qtag_of_parsed m p ≢ ok (r, 0)
unfolding qtag_of_parsed
qtag_needs_from_tag m p from hf ht r = ground arith

store_qtag-IsTagged :
    (m : Msg) (tag : Str) (len : ℕ) (r : Msg) → store_qtag m tag len ≡ (r, 0) → IsTagged r
unfolding store_qtag
store_qtag-IsTagged m tag len r h = ground arith

qtag_of_parsed-IsTagged :
    (m : Msg) (p : Sip) (r : Msg) → qtag_of_parsed m p ≡ ok (r, 0) → IsTagged r
unfolding qtag_of_parsed
qtag_of_parsed-IsTagged m p r h = ground arith

pub set_qtag-IsTagged : (o : Outside) (m r : Msg) → set_qtag o m ≡ ok (r, 0) → IsTagged r
unfolding set_qtag
set_qtag-IsTagged o m r h = ground arith
