-- ===== src/Queue/Order.antt =====
-- SMq::set_state of smqueue/smqueue.h keeps the list of messages sorted, loses none and adds none.
use mathlib.Core.List.{Perm}
use mathlib.Core.List.Perm
use smqueue.Prelude.{
  ℕ, ◌≤◌, ◌≡◌, List, [], ◌∷◌, some, arith, All, Ensures, ◌==◌, Bool-cases, inl, inr,
}
use smqueue.State.{SmState}
use smqueue.Message.{Msg, set_msg_state}
use smqueue.Queue.{get, remove, insert_by_time, set_state}

-- Every message is due no later than those behind it.
abbrev pub IsSorted : List Msg → Type 0
IsSorted [] = Unit
IsSorted (x ∷ xs) = All (λ y. x.next_action_time ≤ y.next_action_time) xs × IsSorted xs

All-remove : (P : Msg → Type 0) (n : ℕ) (q : List Msg) → All P q → All P (remove n q)
unfolding remove
All-remove P n [] h = h
All-remove P n (x ∷ xs) h = ground (arith, All-remove P n xs h.1)

pub remove-IsSorted : (n : ℕ) (q : List Msg) → IsSorted q → IsSorted (remove n q)
unfolding remove
remove-IsSorted n [] h = h
remove-IsSorted n (x ∷ xs) h = ground (
  arith,
  All-remove (λ y. x.next_action_time ≤ y.next_action_time) n xs h.0,
  remove-IsSorted n xs h.1,
)

All-insert :
    (P : Msg → Type 0) (m : Msg) (q : List Msg) → P m → All P q → All P (insert_by_time m q)
unfolding insert_by_time
All-insert P m [] p h = (p, h)
All-insert P m (x ∷ xs) p h = ground (arith, All-insert P m xs p h.1)

All-le_trans :
    (k t : ℕ) (q : List Msg)
    → k ≤ t
    → All (λ y. t ≤ y.next_action_time) q
    → All (λ y. k ≤ y.next_action_time) q
All-le_trans k t [] l h = tt
All-le_trans k t (x ∷ xs) l h = (omega arith, All-le_trans k t xs l h.1)

pub insert-IsSorted : (m : Msg) (q : List Msg) → IsSorted q → IsSorted (insert_by_time m q)
unfolding insert_by_time
insert-IsSorted m [] h = (tt, tt)
insert-IsSorted m (x ∷ xs) h = ground (
  arith,
  All-insert (λ y. x.next_action_time ≤ y.next_action_time) m xs,
  insert-IsSorted m xs h.1,
  All-le_trans m.next_action_time x.next_action_time xs,
)

pub insert-perm : (m : Msg) (q : List Msg) → Perm (insert_by_time m q) (m ∷ q)
unfolding insert_by_time
insert-perm m [] = Perm.refl (m ∷ [])
insert-perm m (x ∷ xs) =
    ground (
      arith,
      Perm.refl (m ∷ x ∷ xs),
      Perm.trans (Perm.cons x (insert-perm m xs)) (Perm.swap m x xs),
    )

pub remove-perm : (n : ℕ) (q : List Msg) {m : Msg} → get n q ≡ some m → Perm q (m ∷ remove n q)
unfolding get remove
remove-perm n [] h = cc
remove-perm n (x ∷ xs) {m} h = elim (Bool-cases (x.node == n)) [
  | inl e ↦ rw e (ground (arith, Perm.refl (x ∷ xs)))
  | inr e ↦
      rw e
        (Perm.trans (Perm.cons x (remove-perm n xs (ground arith))) (Perm.swap m x (remove n xs)))
]

-- Where an iterator is live, set_state returns a list that is sorted if the rest of the list was,
-- and that holds the message with its new state and due time and the rest as it was.
pub set_state_lem :
    (now n : ℕ) (s : SmState) (q : List Msg) (m : Msg)
    → get n q ≡ some m
    → IsSorted (remove n q)
    → Ensures (λ r. IsSorted r × Perm r (set_msg_state now m s ∷ remove n q)) (set_state now n s q)
unfolding set_state
set_state_lem now n s q m h sorted = (
  insert_by_time (set_msg_state now m s) (remove n q),
  ground arith,
  (insert-IsSorted _ (remove n q) sorted, insert-perm _ (remove n q)),
)
