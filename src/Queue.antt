-- ===== src/Queue.antt =====
-- The list of pending messages, `time_sorted_list` of smqueue/smqueue.h, and its operations. The
-- head of the list is `begin()`; an iterator is the number of the list node that it points at.
pub mod Order
pub mod Find
pub mod Nodes
use smqueue.Prelude.{
  ℕ, ◌+◌, Bool, true, false, ◌&&◌, List, [], ◌∷◌, ◌++◌, Option, none, some, Str, str_eq, Res, ok,
  deref, ◌>>=◌, leb, ◌==◌, if◌then◌else◌,
}
use smqueue.State.{SmState}
use smqueue.Message.{Msg, set_msg_state, set_msg_state_at}
use smqueue.Message.Tag.{taghash_of}

-- The message in a node; `none` is a dead iterator.
unfoldable pub get : ℕ → List Msg → Option Msg
get n [] = none
get n (x ∷ xs) = if x.node == n then some x else get n xs

-- splice out of the list: what is left.
unfoldable pub remove : ℕ → List Msg → List Msg
remove n [] = []
remove n (x ∷ xs) = if x.node == n then xs else x ∷ remove n xs

-- A change of the message in a node, where it stands.
unfoldable pub update : ℕ → Msg → List Msg → List Msg
update n m [] = []
update n m (x ∷ xs) = if x.node == n then m ∷ xs else x ∷ update n m xs

-- A change of the message in a node through a pointer, where it stands.
unfoldable pub modify : ℕ → (Msg → Msg) → List Msg → List Msg
modify n f [] = []
modify n f (x ∷ xs) = if x.node == n then f x ∷ xs else x ∷ modify n f xs

-- The loop of SMq::set_state: before the first message that is due no earlier, or at the end.
unfoldable pub insert_by_time : Msg → List Msg → List Msg
insert_by_time m [] = m ∷ []
insert_by_time m (x ∷ xs) =
    if leb m.next_action_time x.next_action_time then m ∷ x ∷ xs else x ∷ insert_by_time m xs

-- SMq::set_state(sm, newstate), at a reading of the clock.
unfoldable pub set_state : ℕ → ℕ → SmState → List Msg → Res (List Msg)
unfolding get remove insert_by_time set_msg_state
set_state now n newstate q = do
  m ← deref (get n q)
  ok (insert_by_time (set_msg_state now m newstate) (remove n q))

-- SMq::set_state(sm, newstate, timestamp).
unfoldable pub set_state_at : ℕ → SmState → ℕ → List Msg → Res (List Msg)
unfolding get remove insert_by_time set_msg_state_at
set_state_at n newstate time q = do
  m ← deref (get n q)
  ok (insert_by_time (set_msg_state_at m newstate time) (remove n q))

-- The test of find_queued_msg_by_tag: the hashes, then strcmp, which reads the tag of the message.
unfoldable pub tag_fits : Str → ℕ → Msg → Res Bool
tag_fits tag hash x =
    if hash == x.qtaghash then (do t ← deref x.qtag; ok (str_eq tag t)) else ok false

-- find_queued_msg_by_tag(mymsg, tag, taghash): the node of the first message that fits.
unfoldable pub find_queued_msg_by_tag : Str → ℕ → List Msg → Res (Option ℕ)
unfolding tag_fits
find_queued_msg_by_tag tag hash [] = ok none
find_queued_msg_by_tag tag hash (x ∷ xs) =
    tag_fits tag hash x
    >>= elim [ true ↦ ok (some x.node) | false ↦ find_queued_msg_by_tag tag hash xs ]

-- find_queued_msg_by_tag(mymsg, tag).
unfoldable pub find_queued_msg : Str → List Msg → Res (Option ℕ)
unfolding find_queued_msg_by_tag taghash_of
find_queued_msg tag q = find_queued_msg_by_tag tag (taghash_of tag) q

-- get_link.
unfoldable pub get_link : Msg → List Msg → Res (Option ℕ)
unfolding find_queued_msg
get_link m q = elim m.linktag [ none ↦ ok none | some tag ↦ find_queued_msg tag q ]
