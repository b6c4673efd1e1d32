-- ===== src/State/Timeouts.antt =====
-- What the table of timeouts of smqueue/smqueue.cpp promises to the queue.
use smqueue.Prelude.{◌≡◌, ◌≤◌, arith}
use smqueue.State.{SmState, delete_me_state, timeout, nt}

pub timeout-delete_me : (s : SmState) → timeout s delete_me_state ≡ 0
unfolding timeout
timeout-delete_me s = ground arith

pub timeout-le-nt : (s t : SmState) → timeout s t ≤ nt
unfolding timeout
timeout-le-nt s t = ground arith
