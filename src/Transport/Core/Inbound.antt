-- ===== src/Transport/Core/Inbound.antt =====
-- What a transport does with a payload from a peer, and its heartbeat: packages/
-- actor-core-runtime/src/transport/transport-core.ts, with no idempotency provider. The claim of a
-- frame's id is awaited there; here nothing comes between it and what follows.
use actor_web.Common.{
  ℕ, max, Bool, true, false, ◌&&◌, ◌||◌, Option, none, some, String, ◌==◌, if◌then◌else◌, given,
  find, erase,
}
use actor_web.Transport.Identity.{RuntimeNodeIdentity}
use actor_web.Transport.Reliability.{resolve_heartbeat, HeartbeatVerdict, alive, timed_out}
use actor_web.Transport.Idempotency.{ClaimOutcome, accepted, error, claim_in_memory}
use actor_web.Transport.Values.{Value, get, is_the_text}
use actor_web.Transport.Contract.{ValidationResult, ok, failed}
use actor_web.Transport.Contract.Frames.{
  validate_runtime_transport_frame, validate_runtime_transport_ack_frame,
  validate_runtime_transport_heartbeat_frame,
}
use actor_web.Transport.Contract.Shapes.{
  Frame, ping, pong, create_runtime_transport_ack_frame, create_runtime_transport_heartbeat,
}
use actor_web.Transport.Contract.Reading.{read_frame, read_text}
use actor_web.Transport.Core.{
  Options, Peer, Core, output, acked, beaten, emitted, put_peer, disconnect, close_peer,
}
use actor_web.Transport.Core.Outbound.{Clock}

unfoldable pub is_heartbeat_frame : Value → Bool
unfolding get is_the_text
is_heartbeat_frame v =
    is_the_text "runtime.transport.ping" (get v "type")
    || is_the_text "runtime.transport.pong" (get v "type")

unfoldable pub is_ack_frame : Value → Bool
unfolding get is_the_text
is_ack_frame v = is_the_text "runtime.transport.ack" (get v "type")

-- The test that the frame's source is the peer that it came from.
unfoldable pub is_from_peer : Value → String → RuntimeNodeIdentity → Bool
unfolding get is_the_text
is_from_peer v address peer =
    is_the_text address (get (get v "source") "nodeAddress")
    && is_the_text peer.node_id (get (get v "source") "nodeId")
    && is_the_text peer.incarnation (get (get v "source") "incarnation")

unfoldable pub mark_seen : ℕ → Peer → Peer
mark_seen now p = record p { last_seen_at = now; heartbeat_timeout = false }

-- What the checks say of an inbound payload.
unfoldable pub is_ok : ValidationResult → Bool
is_ok ok = true
is_ok (failed code message) = false

unfoldable pub handle_ack_frame : Options → String → Peer → Value → ℕ → Core → Core
unfolding is_ok is_from_peer mark_seen put_peer disconnect read_text get
    validate_runtime_transport_ack_frame
handle_ack_frame o address p v now s =
    if is_ok (validate_runtime_transport_ack_frame v (some o.identity))
      && is_from_peer v address p.identity
    then given (read_text (get v "messageId")) s (λ id.
      put_peer address (record (mark_seen now p) { pending_acks = erase p.pending_acks id }) s)
    else disconnect address s

unfoldable pub handle_heartbeat_frame : Options → String → Peer → Value → Clock → Core → Core
unfolding is_ok is_from_peer mark_seen put_peer output disconnect get is_the_text
    validate_runtime_transport_heartbeat_frame create_runtime_transport_heartbeat
handle_heartbeat_frame o address p v now s =
    if is_ok (validate_runtime_transport_heartbeat_frame v (some o.identity))
      && is_from_peer v address p.identity
    then (let s1 = put_peer address (mark_seen now.ms p) s in
        if is_the_text "runtime.transport.ping" (get v "type")
        then output
            (beaten p.link (create_runtime_transport_heartbeat pong o.identity p.identity now.iso))
            s1
        else s1)
    else disconnect address s

-- `recordFrameReceived`, of the peer alone.
unfoldable pub record_frame_received : Frame → Peer → Peer
record_frame_received f p = record p {
  last_received_sequence = max p.last_received_sequence f.sequence;
}

unfoldable pub send_ack : Options → Peer → Frame → Clock → Core → Core
unfolding output create_runtime_transport_ack_frame
send_ack o p f now s =
    output
      (acked p.link
        (create_runtime_transport_ack_frame o.identity p.identity f.message_id f.sequence now.iso))
      s

unfoldable pub on_claim : Options → String → Peer → Frame → Clock → ClaimOutcome → Core → Core
unfolding send_ack record_frame_received put_peer output disconnect
on_claim o address p f now (error input) s = disconnect address s
on_claim o address p f now (ClaimOutcome.duplicate source evicted input) s =
    send_ack o p f now (put_peer address p s)
on_claim o address p f now (accepted source evicted input) s =
    output (emitted f.source.node_address f.message)
      (send_ack o p f now (put_peer address (record_frame_received f p) s))

-- The frame, read at its type once it was validated.
unfoldable pub handle_frame : Options → String → Peer → Option Frame → Clock → Core → Core
unfolding on_claim mark_seen claim_in_memory
handle_frame o address p none now s = s
handle_frame o address p (some f) now s =
    let (cache, outcome) = claim_in_memory p.idempotency_cache f.message_id in
    on_claim o address (record (mark_seen now.ms p) { idempotency_cache = cache }) f now outcome s

unfoldable pub handle_payload : Options → String → Peer → Value → Clock → Core → Core
unfolding is_heartbeat_frame is_ack_frame handle_heartbeat_frame handle_ack_frame is_ok is_from_peer
    handle_frame disconnect read_frame validate_runtime_transport_frame
handle_payload o address p v now s =
    if is_heartbeat_frame v
    then handle_heartbeat_frame o address p v now s
    else if is_ack_frame v
    then handle_ack_frame o address p v now.ms s
    else if is_ok (validate_runtime_transport_frame v (some o.identity))
        && is_from_peer v address p.identity
    then handle_frame o address p (read_frame v) now s
    else disconnect address s

unfoldable pub handle_inbound_payload : Options → String → ℕ → Value → Clock → Core → Core
unfolding handle_payload
handle_inbound_payload o address link v now s =
    given (find s.peers address) s
      (λ p. if p.link == link then handle_payload o address p v now s else s)

-- The native signal of a link that its peer is alive.
unfoldable pub mark_peer_seen : String → ℕ → ℕ → Core → Core
unfolding mark_seen put_peer
mark_peer_seen address link now s =
    given (find s.peers address) s
      (λ p. if p.link == link then put_peer address (mark_seen now p) s else s)

-- The deadline is kept if one is armed.
unfoldable pub arm_heartbeat_timeout : Options → Peer → Peer
arm_heartbeat_timeout o p =
    if o.heartbeat_timeout_ms == 0 then p else record p { heartbeat_timeout = true }

-- The interval of `startHeartbeat`, for links with no native ping.
unfoldable pub heartbeat_tick : Options → String → ℕ → String → Core → Core
unfolding arm_heartbeat_timeout put_peer output create_runtime_transport_heartbeat
heartbeat_tick o address id now s = given (find s.peers address) s (λ p.
    if p.id == id && p.heartbeat_interval
    then (if p.link_open
        then output
            (beaten p.link (create_runtime_transport_heartbeat ping o.identity p.identity now))
            (put_peer address (arm_heartbeat_timeout o p) s)
        else put_peer address (record p { heartbeat_interval = false; heartbeat_timeout = false })
            s)
    else s)

unfoldable pub is_timed_out : HeartbeatVerdict → Bool
is_timed_out timed_out = true
is_timed_out alive = false

unfoldable pub heartbeat_deadline : Options → String → ℕ → ℕ → Core → Core
unfolding arm_heartbeat_timeout put_peer close_peer resolve_heartbeat is_timed_out
heartbeat_deadline o address id now s = given (find s.peers address) s (λ p.
    if p.id == id && p.heartbeat_timeout
    then (if is_timed_out (resolve_heartbeat p.last_seen_at now o.heartbeat_timeout_ms)
        then close_peer address (record p { heartbeat_timeout = false }) true s
        else put_peer address (arm_heartbeat_timeout o (record p { heartbeat_timeout = false })) s)
    else s)
