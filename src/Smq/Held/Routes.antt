-- ===== src/Smq/Held/Routes.antt =====
-- The moves of the state machine and lookup_uri_imsi of smqueue/smqueue.cpp keep every message in a
-- list node of its own.
use smqueue.Prelude.{
  Option-Holds, ℕ, ◌≡◌, refl, ◌∙◌, Option, none, some, Str, codes, ok, deref, arith, Holds,
  >>=-Holds, >>=-Holds_eq, if-Holds, Holds-map, ◌==◌, deref-eq_ok, char_at, ◌||◌, not, str_eq,
}
use smqueue.Sip.{Sip, Uri}
use smqueue.State.{SmState, no_state, request_destination_sipurl}
use smqueue.Message.{Msg, parse, put_parsed, parsed_was_changed, convert_message}
use smqueue.Message.Node.{node_of, SameNode1, parse-SameNode}
use smqueue.Queue.{get, set_state}
use smqueue.Queue.Nodes.{get-node, set_state-AreNodes}
use smqueue.Smq.{World, Smq, put_msg, is_imsi}
use smqueue.Smq.Originate.{bounce_message}
use smqueue.Smq.Lookup.{
  send_to_relay, no_destination, put_uri_user, route_user, checked_imsi, lookup_uri_imsi, imsi_for,
  has_imsi_length, strip,
}
use smqueue.Smq.Timeout.{move}
use smqueue.Smq.Held.{IsHeld, IsHeld1, bounce_message-IsHeld}
use smqueue.Smq.Held.Commands.{put_msg-IsHeld}

pub move-IsHeld :
    (w : World) (s : Smq) (n : ℕ) (st : SmState) → IsHeld s → Holds IsHeld (move w s n st)
unfolding move
move-IsHeld w s n st h =
    >>=-Holds_eq IsHeld (set_state w.now n st s.queue) _
      (λ q e. set_state-AreNodes s.next_node w.now n st s.queue q e h)

-- A queue without shared nodes, and a message that is in the node of another one.
abbrev pub HeldWith : Msg → Smq × Msg × SmState → Type 0
HeldWith m r = IsHeld r.0 × (r.1.node ≡ m.node)

no_destination-HeldWith :
    (w : World) (s : Smq) (m : Msg) (p : Sip)
    → IsHeld s
    → Holds (HeldWith m) (no_destination w s m p)
unfolding no_destination send_to_relay convert_message put_parsed
no_destination-HeldWith w s m p h =
    let t = put_msg s m.node m in
    if-Holds (HeldWith m) (char_at s.global_relay 0 == 0) _ _
      (λ _.
        >>=-Holds IsHeld1 (HeldWith m) (bounce_message w t m w.config.bounce_not_registered) _
          (bounce_message-IsHeld w t m w.config.bounce_not_registered
            (put_msg-IsHeld s m.node m refl h))
          (λ r k.
            >>=-Holds_eq (HeldWith m) (deref (get m.node r.0.queue)) _
              (λ x e. (k, get-node m.node r.0.queue (deref-eq_ok e)))))
      (λ _. >>=-Holds_eq (HeldWith m) (deref p.from) _ (λ from _.
        >>=-Holds_eq (HeldWith m) (deref from.url) _ (λ url _.
          >>=-Holds_eq (HeldWith m) (deref url.username) _ (λ user _. (h, ground arith)))))

route_user-HeldWith :
    (w : World) (s : Smq) (m : Msg) (p : Sip) (uri : Uri) (user : Str)
    → IsHeld s
    → Holds (HeldWith m) (route_user w s m p uri user)
unfolding route_user put_uri_user put_parsed parsed_was_changed
route_user-HeldWith w s m p uri user h =
    if-Holds (HeldWith m) (char_at user 0 == b'+' || not (is_imsi user)) _ _
      (λ _.
        Option-Holds (HeldWith m) (imsi_for w user) (no_destination w s m p) _
          (λ _. no_destination-HeldWith w s m p h) (λ d _. (h, refl)))
      (λ _.
        if-Holds (HeldWith m) (has_imsi_length (strip (codes "IMSI") (strip (codes "imsi") user)))
          (ok (s, m, request_destination_sipurl)) (ok (s, m, no_state)) (λ _. (h, refl))
          (λ _. (h, refl)))

checked_imsi-HeldWith :
    (w : World) (s : Smq) (m : Msg) (p : Sip) (uri : Uri) (scheme user : Option Str)
    → IsHeld s
    → Holds (HeldWith m) (checked_imsi w s m p uri scheme user)
unfolding checked_imsi
checked_imsi-HeldWith w s m p uri none user h = (h, refl)
checked_imsi-HeldWith w s m p uri (some scheme) none h = (h, refl)
checked_imsi-HeldWith w s m p uri (some scheme) (some user) h =
    if-Holds (HeldWith m) (str_eq (codes "sip") scheme) (route_user w s m p uri user) _
      (λ _. route_user-HeldWith w s m p uri user h) (λ _. (h, refl))

pub lookup_uri_imsi-HeldWith :
    (w : World) (s : Smq) (m : Msg) → IsHeld s → Holds (HeldWith m) (lookup_uri_imsi w s m)
unfolding lookup_uri_imsi
lookup_uri_imsi-HeldWith w s m h =
    >>=-Holds (SameNode1 m) (HeldWith m) (parse w.outside m) _ (parse-SameNode w.outside m) (λ a e.
      >>=-Holds_eq (HeldWith m) (deref a.0.parsed) _ (λ p _.
        >>=-Holds_eq (HeldWith m) (deref p.req_uri) _ (λ uri _.
          Holds-map (HeldWith a.0) (HeldWith m) _ (λ r k. (k.0, k.1 ∙ node_of e))
            (checked_imsi-HeldWith w s a.0 p uri uri.scheme uri.username h))))
