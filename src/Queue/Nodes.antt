-- ===== src/Queue/Nodes.antt =====
-- The nodes of the list of smqueue/smqueue.h: no operation makes two messages share one.
use smqueue.Prelude.{
  none, length, ℕ, ◌<◌, ◌≡◌, refl, subst, ==_iff, ◌≢◌, List, [], ◌∷◌, some, ok, arith, All, ◌==◌,
  Bool-cases, Option-cases, inl, inr,
}
use smqueue.State.{SmState}
use smqueue.Message.{Msg, set_msg_state}
use smqueue.Queue.{get, remove, update, modify, insert_by_time, set_state}

abbrev pub nodes : List Msg → List ℕ
nodes [] = []
nodes (x ∷ xs) = x.node ∷ nodes xs

abbrev pub IsDistinct : List ℕ → Type 0
IsDistinct [] = Unit
IsDistinct (n ∷ ns) = All (λ k. n ≢ k) ns × IsDistinct ns

-- Every node was allocated, and no two messages share one.
pub record AreNodes (next : ℕ) (ns : List ℕ) : Type 0 where
  pub allocated : All (λ k. k < next) ns
  pub distinct : IsDistinct ns

pub nodes-modify :
    (n : ℕ) (f : Msg → Msg) (q : List Msg)
    → ((x : Msg) → (f x).node ≡ x.node)
    → nodes (modify n f q) ≡ nodes q
unfolding modify
nodes-modify n f [] k = refl
nodes-modify n f (x ∷ xs) k = ground (arith, nodes-modify n f xs k, k x)

pub modify-length : (n : ℕ) (f : Msg → Msg) (q : List Msg) → length (modify n f q) ≡ length q
unfolding modify
modify-length n f [] = refl
modify-length n f (x ∷ xs) = ground (arith, modify-length n f xs)

pub nodes-put :
    (n : ℕ) (m : Msg) (q : List Msg) → m.node ≡ n → nodes (modify n (λ x. m) q) ≡ nodes q
unfolding modify
nodes-put n m [] k = refl
nodes-put n m (x ∷ xs) k = ground (arith, nodes-put n m xs k)

pub nodes-update : (n : ℕ) (m : Msg) (q : List Msg) → m.node ≡ n → nodes (update n m q) ≡ nodes q
unfolding update
nodes-update n m [] k = refl
nodes-update n m (x ∷ xs) k = ground (arith, nodes-update n m xs k)

pub get-node : (n : ℕ) (q : List Msg) {m : Msg} → get n q ≡ some m → m.node ≡ n
unfolding get
get-node n [] h = cc
get-node n (x ∷ xs) {m} h = ground (arith, get-node n xs {m = m})

All-remove : (P : ℕ → Type 0) (n : ℕ) (q : List Msg) → All P (nodes q) → All P (nodes (remove n q))
unfolding remove
All-remove P n [] h = h
All-remove P n (x ∷ xs) h = ground (arith, All-remove P n xs)

All-insert :
    (P : ℕ → Type 0) (m : Msg) (q : List Msg)
    → P m.node
    → All P (nodes q)
    → All P (nodes (insert_by_time m q))
unfolding insert_by_time
All-insert P m [] p h = (p, h)
All-insert P m (x ∷ xs) p h = ground (arith, All-insert P m xs p)

remove-IsDistinct : (n : ℕ) (q : List Msg) → IsDistinct (nodes q) → IsDistinct (nodes (remove n q))
unfolding remove
remove-IsDistinct n [] h = h
remove-IsDistinct n (x ∷ xs) h =
    ground (arith, All-remove (λ k. x.node ≢ k) n xs h.0, remove-IsDistinct n xs h.1)

remove-absent :
    (n : ℕ) (q : List Msg) → IsDistinct (nodes q) → All (λ k. n ≢ k) (nodes (remove n q))
unfolding remove
remove-absent n [] h = tt
remove-absent n (x ∷ xs) h = elim (Bool-cases (x.node == n)) [
  | inl e ↦ rw e (subst (λ j. All (λ k. j ≢ k) (nodes xs)) ((==_iff x.node n).0 e) h.0)
  | inr e ↦ rw e (ground arith, remove-absent n xs h.1)
]

insert-IsDistinct :
    (m : Msg) (q : List Msg)
    → All (λ k. m.node ≢ k) (nodes q)
    → IsDistinct (nodes q)
    → IsDistinct (nodes (insert_by_time m q))
unfolding insert_by_time
insert-IsDistinct m [] a h = (a, h)
insert-IsDistinct m (x ∷ xs) a h =
    ground (arith, insert-IsDistinct m xs a.1 h.1, All-insert (λ k. x.node ≢ k) m xs)

pub remove-AreNodes :
    (next n : ℕ) (q : List Msg) → AreNodes next (nodes q) → AreNodes next (nodes (remove n q))
remove-AreNodes next n q h = record {
  allocated = All-remove (λ k. k < next) n q h.allocated;
  distinct = remove-IsDistinct n q h.distinct;
}

reinsert-AreNodes :
    (next n : ℕ) (q : List Msg) (m : Msg)
    → m.node ≡ n
    → n < next
    → AreNodes next (nodes q)
    → AreNodes next (nodes (insert_by_time m (remove n q)))
reinsert-AreNodes next n q m e l h = record {
  allocated =
      All-insert (λ k. k < next) m (remove n q) (omega arith)
        (All-remove (λ k. k < next) n q h.allocated);
  distinct =
      insert-IsDistinct m (remove n q) (rw e (remove-absent n q h.distinct))
        (remove-IsDistinct n q h.distinct);
}

get-All :
    (P : ℕ → Type 0) (n : ℕ) (q : List Msg) {m : Msg}
    → get n q ≡ some m
    → All P (nodes q)
    → P m.node
unfolding get
get-All P n [] h a = cc
get-All P n (x ∷ xs) {m} h a = elim (Bool-cases (x.node == n)) [
  | inl e ↦ let k : x ≡ m = ground arith in subst (λ (y : Msg). P y.node) k a.0
  | inr e ↦ get-All P n xs {m = m} (ground arith) a.1
]

pub set_state-AreNodes :
    (next now n : ℕ) (s : SmState) (q r : List Msg)
    → set_state now n s q ≡ ok r
    → AreNodes next (nodes q)
    → AreNodes next (nodes r)
unfolding set_state
set_state-AreNodes next now n s q r e h = elim (Option-cases (get n q)) [
  | inl g ↦ ground arith
  | inr (m, g) ↦
      let k : m.node ≡ n = get-node n q g in
      let l : m.node < next = get-All (λ k. k < next) n q g h.allocated in
      let v : r ≡ insert_by_time (set_msg_state now m s) (remove n q) = ground arith in
      rw v (reinsert-AreNodes next n q _ k (omega arith) h)
]

-- What was put into a node is what the node holds.
pub get-put :
    (n : ℕ) (m k : Msg) (q : List Msg)
    → m.node ≡ n
    → get n q ≡ some k
    → get n (modify n (λ x. m) q) ≡ some m
unfolding get modify
get-put n m k [] e h = absurd (ground arith)
get-put n m k (x ∷ xs) e h = ground (arith, get-put n m k xs e)

pub remove-put :
    (n : ℕ) (m : Msg) (q : List Msg) → m.node ≡ n → remove n (modify n (λ x. m) q) ≡ remove n q
unfolding remove modify
remove-put n m [] e = refl
remove-put n m (x ∷ xs) e = ground (arith, remove-put n m xs e)

pub get-absent : (n : ℕ) (q : List Msg) → All (λ k. n ≢ k) (nodes q) → get n q ≡ none
unfolding get
get-absent n [] h = refl
get-absent n (x ∷ xs) h = ground (arith, get-absent n xs h.1)

-- A message that was taken out is in no node.
pub get-remove : (n : ℕ) (q : List Msg) → IsDistinct (nodes q) → get n (remove n q) ≡ none
get-remove n q h = get-absent n (remove n q) (remove-absent n q h)

-- A message that was put in is found in its node.
pub get-insert :
    (n : ℕ) (m : Msg) (q : List Msg)
    → m.node ≡ n
    → All (λ k. n ≢ k) (nodes q)
    → get n (insert_by_time m q) ≡ some m
unfolding get insert_by_time
get-insert n m [] e h = ground arith
get-insert n m (x ∷ xs) e h = ground (arith, get-insert n m xs e h.1)

-- set_state leaves the message in its node, in the new state.
pub get-set_state :
    (now n : ℕ) (st : SmState) (q r : List Msg)
    → IsDistinct (nodes q)
    → set_state now n st q ≡ ok r
    → (m : Msg) × (get n r ≡ some m) × (m.state ≡ st)
unfolding set_state set_msg_state
get-set_state now n st q r h e = elim (Option-cases (get n q)) [
  | inl g ↦ ground arith
  | inr (m, g) ↦
      let k : m.node ≡ n = get-node n q g in
      let v : r ≡ insert_by_time (set_msg_state now m st) (remove n q) = ground arith in
      (
        set_msg_state now m st,
        rw v (get-insert n (set_msg_state now m st) (remove n q) k (remove-absent n q h)),
        refl,
      )
]
