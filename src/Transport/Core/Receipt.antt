-- ===== src/Transport/Core/Receipt.antt =====
-- A frame from the node that sent it to the listeners of the node that it is for: packages/
-- actor-core-runtime/src/transport/transport-core.ts.
use mathlib.Core.Path.{subst}
use actor_web.Common.{
  ℕ, ◌<◌, true, false, ◌&&◌, List, [], ◌∷◌, ◌++◌, none, some, String, ◌==◌, if◌then◌else◌, last,
  same, same_refl, includes, includes-append, find, find-put_self, arith, ◌≡◌, refl, sym, ap, ◌∙◌,
  if_lem, given-some, if_true, Bool-cases, inl, inr, same_iff,
}
use actor_web.Transport.Identity.{RuntimeNodeIdentity, is_same_runtime_node_identity}
use actor_web.Transport.Idempotency.{FrontCache, has, remember, claim_in_memory}
use actor_web.Transport.Idempotency.Window.{Tracks, remember-Tracks, has-last}
use actor_web.Transport.Values.{get_field, is_blank}
use actor_web.Transport.Contract.{ok, failed, malformed_frame, saying}
use actor_web.Transport.Contract.Shapes.{
  ActorMessage, Frame, AckFrame, ping, of_frame, of_identity, create_runtime_transport_frame,
  create_runtime_transport_ack_frame,
}
use actor_web.Transport.Contract.Frames.{validate_runtime_transport_frame}
use actor_web.Transport.Contract.Reading.{is_valid_identity}
use actor_web.Transport.Contract.Delivery.{
  create_runtime_transport_frame-delivers, is_blank-create_runtime_transport_message_id, addressed,
}
use actor_web.Transport.Core.{Options, Peer, Core, output, acked, emitted, put_peer}
use actor_web.Transport.Core.Outbound.{Clock}
use actor_web.Transport.Core.Inbound.{
  is_heartbeat_frame, is_ack_frame, is_ok, is_from_peer, mark_seen, record_frame_received, send_ack,
  handle_frame, handle_payload, handle_inbound_payload,
}

includes-last :
    (n : ℕ) (h : List String) (x : String) → 0 < n → includes x (last n (h ++ x ∷ [])) ≡ true
unfolding last includes
includes-last n [] x l = ground (arith, same_refl x)
includes-last n (y ∷ h) x l =
    ground (arith, includes-last n h x l, includes-append x h (x ∷ []), same_refl x)

-- An id that was accepted is known.
has-remember :
    (c : FrontCache) (h : List String) (x : String)
    → Tracks c h
    → has c x ≡ false
    → same x "" ≡ false
    → has (remember c x).0 x ≡ true
has-remember c h x t new ne =
    let t' = remember-Tracks c h x t new ne in has-last _ _ x t' ∙ includes-last _ h x t'.positive

named : (x : String) → is_blank x ≡ false → same x "" ≡ false
unfolding is_blank
named x h = elim (Bool-cases (same x "")) [
  | inl e ↦ absurd (ground (arith, h, ap is_blank ((same_iff x "").0 e)))
  | inr e ↦ e
]

-- What a transport that has `p` registered needs of the node that frames come from: the node is
-- the peer, both identities are valid, and the time and the message are worded.
abbrev pub IsSender : Options → Peer → RuntimeNodeIdentity → Type 0
IsSender o p source =
    (is_valid_identity source ≡ true)
    × (is_valid_identity o.identity ≡ true)
    × (p.identity.node_id ≡ source.node_id)
    × (p.identity.incarnation ≡ source.incarnation)

no_heartbeat : (f : Frame) → is_heartbeat_frame (of_frame f) ≡ false
unfolding is_heartbeat_frame of_frame get_field
no_heartbeat f = refl

no_ack : (f : Frame) → is_ack_frame (of_frame f) ≡ false
unfolding is_ack_frame of_frame get_field
no_ack f = refl

is_from_sender :
    (o : Options) (p : Peer) (source : RuntimeNodeIdentity) (n : ℕ) (m : ActorMessage)
    (sent_at : String)
    → p.identity.node_id ≡ source.node_id
    → p.identity.incarnation ≡ source.incarnation
    → is_from_peer
        (of_frame (create_runtime_transport_frame source o.identity none n m sent_at))
        source.node_address
        p.identity
      ≡ true
unfolding is_from_peer of_frame of_identity get_field create_runtime_transport_frame
is_from_sender o p source n m sent_at e i = ground (
  arith,
  same_refl source.node_address,
  same_iff source.node_id p.identity.node_id,
  same_iff source.incarnation p.identity.incarnation,
  e,
  i,
)

accepted_at :
    (i : RuntimeNodeIdentity)
    → is_ok (
        if is_same_runtime_node_identity i i
        then ok
        else failed malformed_frame
            (saying "Runtime transport frame destination does not match the local node."))
      ≡ true
unfolding is_ok is_same_runtime_node_identity
accepted_at i = rw (same_refl i.node_id, same_refl i.incarnation) refl

module _ (o : Options) (source : RuntimeNodeIdentity) (n : ℕ) (m : ActorMessage) (sent_at : String)
    (timed : is_blank sent_at ≡ false) (typed : is_blank m.message_type ≡ false) where
  abbrev frame : Frame
  frame = create_runtime_transport_frame source o.identity none n m sent_at

  -- A frame of the peer passes every check.
  checked :
      (p : Peer) (now : Clock) (s : Core)
      → IsSender o p source
      → handle_payload o source.node_address p (of_frame frame) now s
        ≡ handle_frame o source.node_address p (some frame) now s
  unfolding handle_payload
  checked p now s (from, to, e, i) =
      let a = source.node_address in
      let v = of_frame frame in
      let f = frame in
      let target = handle_frame o a p (some frame) now s in
      let (verdict, ack, beat, reads) =
        create_runtime_transport_frame-delivers source o.identity o.identity n m ping sent_at from
          to timed typed in
      let good : is_ok (validate_runtime_transport_frame v (some o.identity)) ≡ true =
        ap is_ok verdict ∙ accepted_at o.identity in
      if_lem (λ t. t ≡ target) (is_heartbeat_frame v) _ _
        (λ b. absurd (ground (arith, b, no_heartbeat f)))
        (λ b.
          if_lem (λ t. t ≡ target) (is_ack_frame v) _ _ (λ k. absurd (ground (arith, k, no_ack f)))
            (λ k.
              if_lem (λ t. t ≡ target)
                (is_ok (validate_runtime_transport_frame v (some o.identity))
                  && is_from_peer v a p.identity)
                _ _ (λ t. ap (λ x. handle_frame o a p x now s) reads)
                (λ t. absurd (ground (arith, t, good, is_from_sender o p source n m sent_at e i)))))

  -- The peer after a frame with a new id.
  abbrev after_new : Peer → Clock → Peer
  after_new p now = record_frame_received frame (record (mark_seen now.ms p) {
    idempotency_cache = (remember p.idempotency_cache frame.message_id).0;
  })

  new_frame :
      (p : Peer) (now : Clock) (s : Core)
      → has p.idempotency_cache frame.message_id ≡ false
      → handle_frame o source.node_address p (some frame) now s
        ≡ output
            (emitted source.node_address m)
            (send_ack o p frame now (put_peer source.node_address (after_new p now) s))
  unfolding handle_frame claim_in_memory send_ack create_runtime_transport_frame
  new_frame p now s e = rw e refl

  old_frame :
      (p : Peer) (now : Clock) (s : Core)
      → has p.idempotency_cache frame.message_id ≡ true
      → handle_frame o source.node_address p (some frame) now s
        ≡ send_ack o p frame now (put_peer source.node_address (mark_seen now.ms p) s)
  unfolding handle_frame claim_in_memory send_ack
  old_frame p now s e = rw e refl

  -- A frame of the peer reaches `handleFrame`.
  arrives :
      (p : Peer) (now : Clock) (s : Core)
      → find s.peers source.node_address ≡ some p
      → IsSender o p source
      → handle_inbound_payload o source.node_address p.link (of_frame frame) now s
        ≡ handle_frame o source.node_address p (some frame) now s
  unfolding handle_inbound_payload
  arrives p now s e w =
      let itself : (p.link == p.link) ≡ true = ground arith in
      given-some (find s.peers source.node_address) _ _ e
      ∙ if_true (p.link == p.link) _ _ itself
      ∙ checked p now s w

  abbrev ack_at : Peer → Clock → AckFrame
  ack_at p now = create_runtime_transport_ack_frame o.identity p.identity frame.message_id n now.iso

-- A frame that a valid node builds, with a message type and a time that are not blank, for a valid
-- transport at which it is registered, and that comes twice in a row over the registered link. If
-- there is no idempotency provider, the limit of the front cache is positive, and the cache keeps
-- the last accepted ids up to that limit, distinct and not empty, but not the id of the frame: then
-- the frame is acked the first time and its message handed to the listeners, and the second time it
-- is acked and nothing else.
pub handle_inbound_payload_once :
    (o : Options) (s : Core) (p : Peer) (source : RuntimeNodeIdentity) (n : ℕ) (m : ActorMessage)
    (sent_at : String) (now later : Clock) (history : List String)
    → find s.peers source.node_address ≡ some p
    → IsSender o p source
    → is_blank sent_at ≡ false
    → is_blank m.message_type ≡ false
    → Tracks p.idempotency_cache history
    → has p.idempotency_cache
        (create_runtime_transport_frame source o.identity none n m sent_at).message_id
      ≡ false
    → let f = create_runtime_transport_frame source o.identity none n m sent_at in
      let a = source.node_address in
      let s1 = handle_inbound_payload o a p.link (of_frame f) now s in
      let s2 = handle_inbound_payload o a p.link (of_frame f) later s1 in
      let ack = λ (t : Clock).
        acked p.link
          (create_runtime_transport_ack_frame o.identity p.identity f.message_id n t.iso) in
      (s1.outputs ≡ (s.outputs ++ ack now ∷ []) ++ emitted a m ∷ [])
      × (s2.outputs ≡ s1.outputs ++ ack later ∷ [])
unfolding create_runtime_transport_frame output send_ack put_peer record_frame_received mark_seen
handle_inbound_payload_once o s p source n m sent_at now later history found w timed typed t new =
    let a = source.node_address in
    let f = create_runtime_transport_frame source o.identity none n m sent_at in
    let p1 = after_new o source n m sent_at timed typed p now in
    let first =
      arrives o source n m sent_at timed typed p now s found w
      ∙ new_frame o source n m sent_at timed typed p now s new in
    let named_id =
      named f.message_id
        (is_blank-create_runtime_transport_message_id source o.identity n (addressed source w.0)) in
    let known = has-remember p.idempotency_cache history f.message_id t new named_id in
    let s1 = output (emitted a m) (send_ack o p f now (put_peer a p1 s)) in
    let found1 : find s1.peers a ≡ some p1 = find-put_self s.peers a p1 in
    let second =
      arrives o source n m sent_at timed typed p1 later s1 found1 w
      ∙ old_frame o source n m sent_at timed typed p1 later s1 known in
    (
      ap (λ (x : Core). x.outputs) first,
      subst
          (λ x.
            (handle_inbound_payload o a p.link (of_frame f) later x).outputs
            ≡ x.outputs
              ++ acked p.link (
                  create_runtime_transport_ack_frame o.identity p.identity f.message_id n later.iso)
                ∷ [])
          (sym first) (ap (λ (x : Core). x.outputs) second),
    )
