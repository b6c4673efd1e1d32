-- ===== src/Message/Tag.antt =====
-- The queue tag of a message: set_qtag and taghash_of of smqueue/smqueue.cpp.
use smqueue.Prelude.{
  ℕ, ◌+◌, ◌-◌, ◌≡◌, not, ◌||◌, List, [], ◌∷◌, ◌++◌, Option, none, some, Str, codes, str_eq, char_at,
  length, Res, ok, deref, ◌>>=◌, ◌==◌, if◌then◌else◌,
}
use smqueue.Sip.{Sip, Param, Outside}
use smqueue.Message.{Msg, parse}

-- The value of the parameter `tag`: the walk over p->from->gen_params. A node without an element
-- ends it.
unfoldable pub find_tag : List (Option Param) → Option Str
find_tag [] = none
find_tag (none ∷ ps) = none
find_tag (some p ∷ ps) = if str_eq (codes "tag") p.gname then p.gvalue else find_tag ps

unfoldable pub taghash_of : Str → ℕ
unfolding char_at
taghash_of tag = char_at tag 0

-- What strcpy and the two strcat leave in the buffer.
unfoldable pub make_qtag : Str → Str → Str
make_qtag number fromtag = number ++ (codes "--" ++ fromtag)

-- The check of the length calculation, then the hash.
unfoldable pub store_qtag : Msg → Str → ℕ → Msg × ℕ
unfolding taghash_of char_at
store_qtag m tag len =
    if not (char_at tag (len - 1) == 0) || char_at tag (len - 2) == 0
    then (record m { qtag = some tag }, 400)
    else (record m { qtag = some tag; qtaghash = taghash_of tag }, 0)

-- A tag is set, and the hash is that of the tag.
abbrev pub HasHash : Option Str → ℕ → Type 0
HasHash none h = ⊥
HasHash (some t) h = h ≡ taghash_of t

abbrev pub IsTagged : Msg → Type 0
IsTagged m = HasHash m.qtag m.qtaghash

-- The part of set_qtag behind the parse. strlen of a missing tag or number is a fault.
unfoldable pub qtag_of_parsed : Msg → Sip → Res (Msg × ℕ)
unfolding find_tag make_qtag store_qtag
qtag_of_parsed m p = elim p.from [
  | none ↦ ok (m, 400)
  | some from ↦ elim p.call_id [
    | none ↦ ok (m, 401)
    | some call_id ↦ elim p.cseq [
      | none ↦ ok (m, 402)
      | some cseq ↦ do
        number ← deref cseq.number
        fromtag ← deref (find_tag from.gen_params)
        ok (store_qtag m (make_qtag number fromtag) (length number + 2 + length fromtag + 1))
    ]
  ]
]

-- set_qtag: 0, or an error code.
unfoldable pub set_qtag : Outside → Msg → Res (Msg × ℕ)
unfolding qtag_of_parsed
set_qtag o m =
    if m.parsed_is_valid
    then tag m
    else (do parsed ← parse o m; if parsed.1 then tag parsed.0 else ok (parsed.0, 400))
  where
    tag : Msg → Res (Msg × ℕ)
    tag m = do p ← deref m.parsed; qtag_of_parsed m p
