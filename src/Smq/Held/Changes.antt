-- ===== src/Smq/Held/Changes.antt =====
-- The lookups of smqueue/smqueue.cpp and the packing of smqueue/smsc.cpp keep a message in its node.
use smqueue.Prelude.{
  Option-Holds, ℕ, ◌≡◌, refl, ◌∙◌, Bool, true, false, Option, none, some, Str, codes, Res, ok,
  deref, ◌>>=◌, arith, Holds, >>=-Holds, >>=-Holds_eq, if-Holds, eq_ok-Holds, Holds-map,
}
use smqueue.Sip.{Sip, Uri, Address, UserData, Outside, TlMessage, submit, deliver}
use smqueue.State.{no_state}
use smqueue.Message.{
  Msg, ContentType, unsupported_content, text_plain, vnd_3gpp_sms, parse, get_text, put_parsed,
  parsed_was_changed, convert_message, make_text_valid,
}
use smqueue.Message.Node.{
  node_of, SameNode, SameNode1, parse-SameNode, set_qtag-SameNode, make_text_valid-SameNode,
}
use smqueue.Message.Tag.{set_qtag}
use smqueue.Smq.{World, Smq}
use smqueue.Smq.Lookup.{
  rename_from, translate_from, checked_from, lookup_from_address, readdress, relay_type,
  renew_call_id, lookup_uri_hostport,
}
use smqueue.Smq.Pack.{
  replace_body, pack_tpdu, pid_of_tl, pid_of_text, sender_of, create_sms_delivery, set_media,
  pack_text_to_tpdu, pack_plain_text, recode_tl, recode_tpdu, repack, packed, pack_sms_for_delivery,
}
use smqueue.Smq.Originate.{from_user, is_registered, ready_to_register, set_linktag}
use smqueue.Smq.Timeout.{read_address, deliver_msg_datagram}

checked_from-SameNode :
    (w : World) (s : Smq) (m : Msg) (p : Sip) (from : Address) (url : Uri)
    → SameNode1 m (checked_from w s m p from url)
unfolding checked_from translate_from rename_from put_parsed parsed_was_changed
checked_from-SameNode w s m p from url = ground arith

pub lookup_from_address-SameNode :
    (w : World) (s : Smq) (m : Msg) → Holds (SameNode1 m) (lookup_from_address w s m)
unfolding lookup_from_address
lookup_from_address-SameNode w s m = >>=-Holds_eq (SameNode1 m) (deref m.parsed) _ (λ p _.
    >>=-Holds_eq (SameNode1 m) (deref p.from) _ (λ from _.
      >>=-Holds_eq (SameNode1 m) (deref from.url) _
        (λ url _. checked_from-SameNode w s m p from url)))

readdress-SameNode :
    (w : World) (s : Smq) (m : Msg) (p : Sip) (uri : Uri) (user : Str)
    → Holds (SameNode m) (readdress w s m p uri user)
unfolding readdress put_parsed parsed_was_changed
readdress-SameNode w s m p uri user =
    >>=-Holds_eq (SameNode m) (deref uri.host) _
      (λ old _. >>=-Holds_eq (SameNode m) (renew_call_id w s p.call_id) _ (λ id _. refl))

relay_type-SameNode : (s : Smq) (m : Msg) (user : Str) → SameNode m (relay_type s m user)
unfolding relay_type convert_message
relay_type-SameNode s m user = ground arith

pub lookup_uri_hostport-SameNode :
    (w : World) (s : Smq) (m : Msg) → Holds (SameNode1 m) (lookup_uri_hostport w s m)
unfolding lookup_uri_hostport
lookup_uri_hostport-SameNode w s m =
    >>=-Holds (SameNode1 m) (SameNode1 m) (parse w.outside m) _ (parse-SameNode w.outside m) (λ a h.
      >>=-Holds_eq (SameNode1 m) (deref a.0.parsed) _ (λ p _.
        >>=-Holds_eq (SameNode1 m) (deref p.req_uri) _ (λ uri _.
          Option-Holds (SameNode1 m) uri.username (ok (a.0, no_state)) _ (λ _. h)
            (λ user _.
              >>=-Holds (SameNode (relay_type s a.0 user)) (SameNode1 m)
                (readdress w s (relay_type s a.0 user) p uri user) _
                (readdress-SameNode w s (relay_type s a.0 user) p uri user)
                (λ b k.
                  >>=-Holds (SameNode1 b) (SameNode1 m) (set_qtag w.outside b) _
                    (set_qtag-SameNode w.outside b)
                    (λ c l. l ∙ k ∙ relay_type-SameNode s a.0 user ∙ h))))))

set_media-SameNode : (m : Msg) (a b : Str) → Holds (SameNode m) (set_media m a b)
unfolding set_media put_parsed parsed_was_changed
set_media-SameNode m a b = eq_ok-Holds (SameNode m) _ (λ r h. ground arith)

pack_tpdu-SameNode : (o : Outside) (m : Msg) (rp : _) → Holds (SameNode m) (pack_tpdu o m rp)
unfolding pack_tpdu put_parsed parsed_was_changed
pack_tpdu-SameNode o m rp = eq_ok-Holds (SameNode m) _ (λ r h. ground arith)

abbrev delivering : Outside → Msg → Str → UserData → Str → ℕ → Msg
delivering o m sender ud body pid = record m {
  rp_data = some (o.make_deliver sender ud (pid_of_text body pid));
  tl_message = some (deliver ud);
}

create_sms_delivery-SameNode :
    (o : Outside) (body : Str) (ud : UserData) (m : Msg)
    → Holds (SameNode m) (create_sms_delivery o body ud m)
unfolding create_sms_delivery
create_sms_delivery-SameNode o body ud m = >>=-Holds_eq (SameNode m) (deref m.parsed) _ (λ p _.
    >>=-Holds_eq (SameNode m) (deref p.from) _ (λ from _.
      >>=-Holds_eq (SameNode m) (sender_of from) _ (λ sender _.
        >>=-Holds_eq (SameNode m) (pid_of_tl m.tl_message) _ (λ pid _.
          >>=-Holds (SameNode m) (SameNode m)
            (pack_tpdu o (delivering o m sender ud body pid)
              (o.make_deliver sender ud (pid_of_text body pid)))
            _
            (pack_tpdu-SameNode o (delivering o m sender ud body pid)
              (o.make_deliver sender ud (pid_of_text body pid)))
            (λ r h. h)))))

pack_text_to_tpdu-SameNode :
    (o : Outside) (body : Str) (m : Msg) → Holds (SameNode m) (pack_text_to_tpdu o body m)
unfolding pack_text_to_tpdu
pack_text_to_tpdu-SameNode o body m =
    >>=-Holds (SameNode m) (SameNode m) (create_sms_delivery o body (o.encode_ud body) m) _
      (create_sms_delivery-SameNode o body (o.encode_ud body) m)
      (λ a h. Holds-map (SameNode a) (SameNode m) _ (λ b k. k ∙ h) (set_media-SameNode a _ _))

pack_plain_text-SameNode : (body : Str) (m : Msg) → Holds (SameNode m) (pack_plain_text body m)
unfolding pack_plain_text put_parsed
pack_plain_text-SameNode body m = >>=-Holds_eq (SameNode m) (deref m.parsed) _ (λ p _.
    set_media-SameNode
      (record (put_parsed m (record p { bodies = replace_body body p.bodies })) {
        ms_to_sc = false;
      })
      (codes "text") (codes "plain"))

-- A first part without a flag, and the flag.
flagged :
    (m : Msg) (r : Res Msg) (b : Bool)
    → Holds (SameNode m) r
    → Holds (SameNode1 m) (r >>= λ a. ok (a, b))
flagged m r b h = >>=-Holds (SameNode m) (SameNode1 m) r _ h (λ a k. k)

recode_tl-SameNode :
    (o : Outside) (body : Str) (m : Msg) (t : Option TlMessage)
    → Holds (SameNode1 m) (recode_tl o body m t)
unfolding recode_tl
recode_tl-SameNode o body m none = refl
recode_tl-SameNode o body m (some (submit s)) =
    flagged m (create_sms_delivery o body s.ud m) true (create_sms_delivery-SameNode o body s.ud m)
recode_tl-SameNode o body m (some (deliver ud)) = refl

recode_tpdu-SameNode :
    (o : Outside) (body : Str) (m : Msg) → Holds (SameNode1 m) (recode_tpdu o body m)
unfolding recode_tpdu
recode_tpdu-SameNode o body m = recode_tl-SameNode o body m m.tl_message

repack-SameNode :
    (o : Outside) (t : Str) (m : Msg) (c k : ContentType) → Holds (SameNode1 m) (repack o t m c k)
unfolding repack
repack-SameNode o t m text_plain k =
    flagged m (pack_plain_text t m) true (pack_plain_text-SameNode t m)
repack-SameNode o t m vnd_3gpp_sms k =
    flagged m (pack_text_to_tpdu o t m) true (pack_text_to_tpdu-SameNode o t m)
repack-SameNode o t m unsupported_content text_plain =
    flagged m (pack_plain_text t m) true (pack_plain_text-SameNode t m)
repack-SameNode o t m unsupported_content vnd_3gpp_sms =
    if-Holds (SameNode1 m) m.ms_to_sc _ _ (λ _. recode_tpdu-SameNode o t m) (λ _. refl)
repack-SameNode o t m unsupported_content unsupported_content = refl

packed-SameNode : (m : Msg) (r : Msg × Bool) → SameNode1 m r → SameNode1 m (packed r)
unfolding packed
packed-SameNode m (r, true) h = h
packed-SameNode m (r, false) h = h

pub pack_sms_for_delivery-SameNode :
    (o : Outside) (m : Msg) → Holds (SameNode1 m) (pack_sms_for_delivery o m)
unfolding pack_sms_for_delivery
pack_sms_for_delivery-SameNode o m =
    if-Holds (SameNode1 m) m.need_repack _ _
      (λ _. >>=-Holds (SameNode1 m) (SameNode1 m) (parse o m) _ (parse-SameNode o m) (λ a h.
        >>=-Holds_eq (SameNode1 m) (get_text o a.0) _ (λ text _.
          >>=-Holds (SameNode1 a.0) (SameNode1 m)
            (repack o text a.0 a.0.convert_content_type a.0.content_type) _
            (repack-SameNode o text a.0 _ _) (λ r k. packed-SameNode m r (k ∙ h)))))
      (λ _. refl)

read_address-SameNode : (a : Msg × Bool) → Holds (SameNode a.0) (read_address a)
unfolding read_address
read_address-SameNode (m, false) = refl
read_address-SameNode (m, true) =
    >>=-Holds_eq (SameNode m) (deref m.parsed) _
      (λ p _. >>=-Holds_eq (SameNode m) (deref p.req_uri) _ (λ uri _. refl))

pub deliver_msg_datagram-SameNode :
    (w : World) (m : Msg) → Holds (SameNode m) (deliver_msg_datagram w m)
unfolding deliver_msg_datagram
deliver_msg_datagram-SameNode w m =
    >>=-Holds (SameNode m) (SameNode m) (make_text_valid w.outside m) _
      (make_text_valid-SameNode w.outside m)
      (λ a h.
        if-Holds (SameNode m) w.has_socket _ _
          (λ _.
            >>=-Holds (SameNode1 a) (SameNode m) (parse w.outside a) _ (parse-SameNode w.outside a)
              (λ b k.
                Holds-map (SameNode b.0) (SameNode m) _ (λ c l. l ∙ k ∙ h)
                  (read_address-SameNode b)))
          (λ _. h))

is_registered-SameNode :
    (w : World) (m : Msg) (user : Option (Option Str))
    → Holds (SameNode1 m) (is_registered w m user)
unfolding is_registered
is_registered-SameNode w m none = refl
is_registered-SameNode w m (some imsi) = >>=-Holds_eq (SameNode1 m) (deref imsi) _ (λ i _. refl)

pub ready_to_register-SameNode : (w : World) (m : Msg) → Holds (SameNode1 m) (ready_to_register w m)
unfolding ready_to_register
ready_to_register-SameNode w m =
    >>=-Holds (SameNode1 m) (SameNode1 m) (parse w.outside m) _ (parse-SameNode w.outside m) (λ a h.
      Holds-map (SameNode1 a.0) (SameNode1 m) _ (λ c l. l ∙ h)
        (is_registered-SameNode w a.0 (from_user a.0.parsed)))

pub set_linktag-SameNode :
    (w : World) (new old : Msg)
    → Holds (λ r. (r.0.node ≡ new.node) × (r.1.node ≡ old.node)) (set_linktag w new old)
unfolding set_linktag
set_linktag-SameNode w new old =
    >>=-Holds (SameNode old) (λ r. (r.0.node ≡ new.node) × (r.1.node ≡ old.node)) _ _
      (Option-Holds (SameNode old) old.qtag _ _
        (λ _.
          >>=-Holds (SameNode1 old) (SameNode old) (set_qtag w.outside old) _
            (set_qtag-SameNode w.outside old) (λ r h. h))
        (λ t _. refl))
      (λ a h. >>=-Holds_eq _ (deref a.qtag) _ (λ t _. (refl, node_of h)))
