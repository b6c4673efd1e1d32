-- ===== src/Queue/Find.antt =====
-- The search of the queue by tag, with its hash, against a search by tag alone:
-- find_queued_msg_by_tag of smqueue/smqueue.cpp.
use smqueue.Prelude.{
  ℕ, ◌≡◌, refl, ap, Bool, false, List, [], ◌∷◌, Option, none, some, Str, str_eq, str_eq_sound, ok,
  arith, All, if◌then◌else◌, Bool-cases, Option-cases, inl, inr,
}
use smqueue.Message.{Msg}
use smqueue.Message.Tag.{taghash_of, IsTagged}
use smqueue.Queue.{tag_fits, find_queued_msg_by_tag, find_queued_msg}

abbrev pub has_tag : Str → Msg → Bool
has_tag tag m = elim m.qtag [ none ↦ false | some t ↦ str_eq tag t ]

-- The first message with a tag, by comparing tags only.
unfoldable pub first_tagged : Str → List Msg → Option ℕ
first_tagged tag [] = none
first_tagged tag (x ∷ xs) = if has_tag tag x then some x.node else first_tagged tag xs

tag_fits-some :
    (tag t : Str) (x : Msg)
    → x.qtag ≡ some t
    → x.qtaghash ≡ taghash_of t
    → tag_fits tag (taghash_of tag) x ≡ ok (has_tag tag x)
unfolding tag_fits
tag_fits-some tag t x q h = elim (Bool-cases (str_eq tag t)) [
  | inl e ↦ ground (arith, ap taghash_of (str_eq_sound tag t e))
  | inr e ↦ ground arith
]

tag_fits_lem :
    (tag : Str) (x : Msg) → IsTagged x → tag_fits tag (taghash_of tag) x ≡ ok (has_tag tag x)
tag_fits_lem tag x h = elim (Option-cases x.qtag) [
  | inl e ↦ ground arith
  | inr (t, e) ↦ tag_fits-some tag t x e (ground arith)
]

find_by_tag_lem :
    (tag : Str) (q : List Msg)
    → All IsTagged q
    → find_queued_msg_by_tag tag (taghash_of tag) q ≡ ok (first_tagged tag q)
unfolding find_queued_msg_by_tag first_tagged
find_by_tag_lem tag [] h = refl
find_by_tag_lem tag (x ∷ xs) h =
    rw (tag_fits_lem tag x h.0) (ground (arith, find_by_tag_lem tag xs h.1))

-- In a queue whose messages all have a tag and its hash, the search by hash and tag reads no null
-- tag and finds what a search by the tag alone finds.
pub find_queued_msg-eq-first_tagged :
    (tag : Str) (q : List Msg) → All IsTagged q → find_queued_msg tag q ≡ ok (first_tagged tag q)
unfolding find_queued_msg
find_queued_msg-eq-first_tagged tag q h = find_by_tag_lem tag q h

-- A message is found exactly if one of the list has the tag.
pub first_tagged-none :
    (tag : Str) (q : List Msg) → first_tagged tag q ≡ none → All (λ m. has_tag tag m ≡ false) q
unfolding first_tagged
first_tagged-none tag [] h = tt
first_tagged-none tag (x ∷ xs) h = ground (arith, first_tagged-none tag xs)
