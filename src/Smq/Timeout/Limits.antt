-- ===== src/Smq/Timeout/Limits.antt =====
-- The limit on the retries of a delivery in process_timeout of smqueue/smqueue.cpp.
use smqueue.Prelude.{
  ◌≤◌, ◌⊎◌, inl, inr, refl, ltb, ◌&&◌, Bool, false, ℕ, ◌+◌, ◌<◌, ◌≡◌, ◌∙◌, true, some, ok, arith,
  Holds-eq_ok,
}
use smqueue.State.{delete_me_state}
use smqueue.Message.{Msg, set_msg_state}
use smqueue.Message.Node.{node_of, SameNode1}
use smqueue.Queue.{get, remove, insert_by_time, set_state}
use smqueue.Queue.Nodes.{get-node, get-put, remove-put}
use smqueue.Smq.{World, Smq}
use smqueue.Smq.Pack.{pack_sms_for_delivery}
use smqueue.Smq.Held.Changes.{pack_sms_for_delivery-SameNode}
use smqueue.Smq.Timeout.{send_datagram, move, limited_delivery, step_delivery}

-- The same surroundings, without a limit on the retries.
abbrev pub unlimited : World → World
unlimited w = record w { config = record w.config { max_retries = 0 } }

gives_up :
    (w : World) (s : Smq) (n : ℕ) (m packed : Msg)
    → get n s.queue ≡ some m
    → pack_sms_for_delivery w.outside (record m { retries = m.retries + 1 }) ≡ ok (packed, true)
    → 0 < w.config.max_retries
    → w.config.max_retries < packed.retries
    → step_delivery w s n
      ≡ ok (record s {
        queue = insert_by_time (set_msg_state w.now packed delete_me_state) (remove n s.queue);
      })
unfolding step_delivery limited_delivery move set_state
gives_up w s n m packed hg hp h0 h1 =
    let again : Msg = record m { retries = m.retries + 1 } in
    let e : packed.node ≡ n =
      node_of (Holds-eq_ok (SameNode1 again) _ (pack_sms_for_delivery-SameNode w.outside again) hp)
      ∙ get-node n s.queue hg in
    ground (arith, get-put n packed m s.queue e hg, remove-put n packed s.queue e)

goes_on :
    (w : World) (s : Smq) (n : ℕ) (m packed : Msg)
    → get n s.queue ≡ some m
    → pack_sms_for_delivery w.outside (record m { retries = m.retries + 1 }) ≡ ok (packed, true)
    → (ltb 0 w.config.max_retries && ltb w.config.max_retries packed.retries) ≡ false
    → step_delivery w s n ≡ step_delivery (unlimited w) s n
unfolding step_delivery limited_delivery send_datagram
goes_on w s n m packed hg hp h = rw (hg, hp, h) refl

-- Where the message of a node is packed with success, counting this retry: with a limit on the retries
-- that is not 0, and more retries than the limit, the message is not sent; it takes its place by time
-- among the others, which are as they were, in the state in which it is deleted. Without a limit, or with
-- at most as many retries as the limit, the delivery is what it is without a limit.
pub step_delivery-limit :
    (w : World) (s : Smq) (n : ℕ) (m packed : Msg)
    → get n s.queue ≡ some m
    → pack_sms_for_delivery w.outside (record m { retries = m.retries + 1 }) ≡ ok (packed, true)
    → ((0 < w.config.max_retries)
        × (w.config.max_retries < packed.retries)
        × (step_delivery w s n
            ≡ ok (record s {
              queue =
                  insert_by_time (set_msg_state w.now packed delete_me_state) (remove n s.queue);
            })))
      ⊎ (((w.config.max_retries ≡ 0) ⊎ (packed.retries ≤ w.config.max_retries))
          × (step_delivery w s n ≡ step_delivery (unlimited w) s n))
step_delivery-limit w s n m packed hg hp = by_test _ refl
  where
    by_test :
        (b : Bool)
        → (ltb 0 w.config.max_retries && ltb w.config.max_retries packed.retries) ≡ b
        → ((0 < w.config.max_retries)
            × (w.config.max_retries < packed.retries)
            × (step_delivery w s n
                ≡ ok (record s {
                  queue =
                      insert_by_time
                        (set_msg_state w.now packed delete_me_state)
                        (remove n s.queue);
                })))
          ⊎ (((w.config.max_retries ≡ 0) ⊎ (packed.retries ≤ w.config.max_retries))
              × (step_delivery w s n ≡ step_delivery (unlimited w) s n))
    by_test true e =
        let l : (0 < w.config.max_retries) × (w.config.max_retries < packed.retries) =
          ground arith in
        inl (l.0, l.1, gives_up w s n m packed hg hp l.0 l.1)
    by_test false e = inr (ground arith, goes_on w s n m packed hg hp e)
