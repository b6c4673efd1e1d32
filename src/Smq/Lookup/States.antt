-- ===== src/Smq/Lookup/States.antt =====
-- The states that the lookups of smqueue/smqueue.cpp give to a message.
use smqueue.Prelude.{
  deref-eq_ok, str_eq, codes, ◌<◌, length, ap, ◌∙◌, suc, ◌≡◌, refl, ◌⊎◌, inl, inr, Str, Option,
  none, some, ok, deref, arith, Holds, >>=-Holds, >>=-Holds_eq, if-Holds, true, ◌||◌, not, char_at,
  ◌==◌, Option-cases,
}
use smqueue.Sip.{Sip, Uri, Address}
use smqueue.State.{
  SmState, no_state, delete_me_state, request_destination_imsi, request_destination_sipurl,
}
use smqueue.Message.{Msg, parse, put_parsed, parsed_was_changed}
use smqueue.Queue.{get}
use smqueue.Queue.Nodes.{modify-length}
use smqueue.Smq.{World, Smq, put_msg, is_imsi, imsi_or_none}
use smqueue.Smq.Originate.{bounce_message}
use smqueue.Smq.Originate.Bounce.{Bounced, bounce_message-queue}
use smqueue.Smq.Lookup.{
  strip, has_imsi_length, checked_imsi, put_uri_user, translate_from, checked_from,
  lookup_from_address, send_to_relay, no_destination, route_user, lookup_uri_imsi, imsi_for,
}

checked_from-states :
    (w : World) (s : Smq) (m : Msg) (p : Sip) (from : Address) (url : Uri)
    → ((checked_from w s m p from url).1 ≡ no_state)
      ⊎ ((checked_from w s m p from url).1 ≡ request_destination_imsi)
unfolding checked_from translate_from
checked_from-states w s m p from url = ground arith

-- Where lookup_from_address returns, the next state is no_state or request_destination_imsi.
pub lookup_from_address-states :
    (w : World) (s : Smq) (m : Msg)
    → Holds (λ r. (r.1 ≡ no_state) ⊎ (r.1 ≡ request_destination_imsi)) (lookup_from_address w s m)
unfolding lookup_from_address
lookup_from_address-states w s m = >>=-Holds_eq _ (deref m.parsed) _ (λ p _.
    >>=-Holds_eq _ (deref p.from) _
      (λ from _. >>=-Holds_eq _ (deref from.url) _ (λ url _. checked_from-states w s m p from url)))

imsi_for-is_imsi : (w : World) (user d : Str) → imsi_for w user ≡ some d → is_imsi d ≡ true
unfolding imsi_for imsi_or_none
imsi_for-is_imsi w user d h = ground arith

-- The request of a message goes to an IMSI.
abbrev pub GoesToImsi : Msg → Type 0
GoesToImsi m =
    (p : Sip) × (uri : Uri) × (user : Str) × (m.parsed ≡ some p)
    × (p.req_uri ≡ some uri)
    × (uri.username ≡ some user)
    × (is_imsi user ≡ true)

-- Where a message goes after lookup_uri_imsi: nowhere; away, with a bounce message in the queue and
-- no relay to send to; or on, to an IMSI or to the relay.
abbrev pub Routed : Smq → Smq × Msg × SmState → Type 0
Routed s (r, m, st) =
    (st ≡ no_state)
    ⊎ ((st ≡ delete_me_state)
        × (char_at s.global_relay 0 ≡ 0)
        × (length r.queue ≡ suc (length s.queue)))
    ⊎ ((st ≡ request_destination_sipurl) × (GoesToImsi m ⊎ (0 < char_at s.global_relay 0)))

Bounced-Routed :
    (s : Smq) (m k : Msg) (r : Smq × SmState)
    → char_at s.global_relay 0 ≡ 0
    → Bounced (put_msg s m.node m) r
    → Routed s (r.0, k, r.1)
Bounced-Routed s m k (r, st) z (inl (e, l)) =
    inr (inl (e, z, l ∙ ap suc (modify-length m.node (λ x. m) s.queue)))
Bounced-Routed s m k (r, st) z (inr (e, l)) = inl e

no_destination-Routed :
    (w : World) (s : Smq) (m : Msg) (p : Sip) → Holds (Routed s) (no_destination w s m p)
unfolding no_destination send_to_relay
no_destination-Routed w s m p =
    let bounce = bounce_message w (put_msg s m.node m) m w.config.bounce_not_registered in
    if-Holds (Routed s) (char_at s.global_relay 0 == 0) _ _
      (λ z.
        >>=-Holds (Bounced (put_msg s m.node m)) (Routed s) bounce _
          (bounce_message-queue w (put_msg s m.node m) m w.config.bounce_not_registered)
          (λ r h.
            >>=-Holds_eq (Routed s) (deref (get m.node r.0.queue)) _
              (λ k _. Bounced-Routed s m k r (ground arith) h)))
      (λ z. >>=-Holds_eq (Routed s) (deref p.from) _ (λ from _.
        >>=-Holds_eq (Routed s) (deref from.url) _ (λ url _.
          >>=-Holds_eq (Routed s) (deref url.username) _
            (λ user _. inr (inr (refl, inr (ground arith)))))))

route_user-Routed :
    (w : World) (s : Smq) (m : Msg) (p : Sip) (uri : Uri) (user : Str)
    → m.parsed ≡ some p
    → p.req_uri ≡ some uri
    → uri.username ≡ some user
    → Holds (Routed s) (route_user w s m p uri user)
unfolding route_user put_uri_user put_parsed parsed_was_changed
route_user-Routed w s m p uri user hp hu hn =
    if-Holds (Routed s) (char_at user 0 == b'+' || not (is_imsi user)) _ _
      (λ _. elim (Option-cases (imsi_for w user)) [
        | inl e ↦ rw e (no_destination-Routed w s m p)
        | inr (d, e) ↦
            rw e (inr (inr (refl, inl (_, _, d, refl, refl, refl, imsi_for-is_imsi w user d e))))
      ])
      (λ z.
        if-Holds (Routed s) (has_imsi_length (strip (codes "IMSI") (strip (codes "imsi") user)))
          (ok (s, m, request_destination_sipurl)) (ok (s, m, no_state))
          (λ _. inr (inr (refl, inl (p, uri, user, hp, hu, hn, ground arith)))) (λ _. inl refl))

checked_imsi-Routed :
    (w : World) (s : Smq) (m : Msg) (p : Sip) (uri : Uri) (scheme user : Option Str)
    → m.parsed ≡ some p
    → p.req_uri ≡ some uri
    → uri.username ≡ user
    → Holds (Routed s) (checked_imsi w s m p uri scheme user)
unfolding checked_imsi
checked_imsi-Routed w s m p uri none user hp hu hn = inl refl
checked_imsi-Routed w s m p uri (some scheme) none hp hu hn = inl refl
checked_imsi-Routed w s m p uri (some scheme) (some user) hp hu hn =
    if-Holds (Routed s) (str_eq (codes "sip") scheme) (route_user w s m p uri user) _
      (λ _. route_user-Routed w s m p uri user hp hu hn) (λ _. inl refl)

-- Where lookup_uri_imsi returns, the message is given up; or it is to be deleted, no relay is set and the
-- queue has one message more, the bounce; or it goes on, and then its request names an IMSI or a relay is
-- set.
pub lookup_uri_imsi-Routed :
    (w : World) (s : Smq) (m : Msg) → Holds (Routed s) (lookup_uri_imsi w s m)
unfolding lookup_uri_imsi
lookup_uri_imsi-Routed w s m = >>=-Holds_eq (Routed s) (parse w.outside m) _ (λ parsed _.
    >>=-Holds_eq (Routed s) (deref parsed.0.parsed) _ (λ p hp.
      >>=-Holds_eq (Routed s) (deref p.req_uri) _ (λ uri hu.
        checked_imsi-Routed w s parsed.0 p uri uri.scheme uri.username (deref-eq_ok hp)
          (deref-eq_ok hu) refl)))
