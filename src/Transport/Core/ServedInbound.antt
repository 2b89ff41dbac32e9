-- ===== src/Transport/Core/ServedInbound.antt =====
-- Payloads and heartbeats keep the outbound queues served: packages/actor-core-runtime/src/
-- transport/transport-core.ts.
use actor_web.Common.{
  ℕ, Bool, true, false, ◌&&◌, Option, none, some, String, ◌==◌, find, refl, given_lem, if_lem,
}
use actor_web.Transport.Reliability.{resolve_heartbeat}
use actor_web.Transport.Idempotency.{ClaimOutcome, accepted, error}
use actor_web.Transport.Values.{Value, get, is_the_text}
use actor_web.Transport.Contract.Frames.{
  validate_runtime_transport_frame, validate_runtime_transport_ack_frame,
  validate_runtime_transport_heartbeat_frame,
}
use actor_web.Transport.Contract.Reading.{read_frame, read_text}
use actor_web.Transport.Contract.Shapes.{Frame}
use actor_web.Transport.Core.{Options, Peer, Core, output, put_peer}
use actor_web.Transport.Core.Outbound.{Clock}
use actor_web.Transport.Core.Inbound.{
  is_heartbeat_frame, is_ack_frame, is_ok, is_from_peer, is_timed_out, mark_seen, handle_ack_frame,
  handle_heartbeat_frame, record_frame_received, send_ack, on_claim, handle_frame, handle_payload,
  handle_inbound_payload, mark_peer_seen, arm_heartbeat_timeout, heartbeat_tick, heartbeat_deadline,
}
use actor_web.Transport.Core.Served.{
  IsServed, AllServed, same_peers, IsServed-peer, put_peer-AllServed, close_peer-AllServed,
  disconnect-AllServed,
}

module _ (o : Options) (u : String → Bool) where
  seen-AllServed :
      (a : String) (p : Peer) (now : ℕ) (s : Core)
      → IsServed o (u a) p
      → AllServed o u s
      → AllServed o u (put_peer a (mark_seen now p) s)
  unfolding mark_seen
  seen-AllServed a p now s v h = put_peer-AllServed o u a _ s v h

  handle_ack_frame-AllServed :
      (a : String) (p : Peer) (v : Value) (now : ℕ) (s : Core)
      → IsServed o (u a) p
      → AllServed o u s
      → AllServed o u (handle_ack_frame o a p v now s)
  unfolding handle_ack_frame mark_seen
  handle_ack_frame-AllServed a p v now s w h =
      if_lem (AllServed o u)
        (is_ok (validate_runtime_transport_ack_frame v (some o.identity))
          && is_from_peer v a p.identity)
        _ _
        (λ e.
          given_lem (AllServed o u) (read_text (get v "messageId")) _ _ (λ n. h)
            (λ id n. put_peer-AllServed o u a _ s w h))
        (λ e. disconnect-AllServed o u a s h)

  handle_heartbeat_frame-AllServed :
      (a : String) (p : Peer) (v : Value) (now : Clock) (s : Core)
      → IsServed o (u a) p
      → AllServed o u s
      → AllServed o u (handle_heartbeat_frame o a p v now s)
  unfolding handle_heartbeat_frame output
  handle_heartbeat_frame-AllServed a p v now s w h =
      let s1 = put_peer a (mark_seen now.ms p) s in
      let h1 = seen-AllServed a p now.ms s w h in
      if_lem (AllServed o u)
        (is_ok (validate_runtime_transport_heartbeat_frame v (some o.identity))
          && is_from_peer v a p.identity)
        _ _
        (λ e.
          if_lem (AllServed o u) (is_the_text "runtime.transport.ping" (get v "type")) _ _
            (λ q. same_peers o u s1 _ refl h1) (λ q. h1))
        (λ e. disconnect-AllServed o u a s h)

  on_claim-AllServed :
      (a : String) (p : Peer) (f : Frame) (now : Clock) (c : ClaimOutcome) (s : Core)
      → IsServed o (u a) p
      → AllServed o u s
      → AllServed o u (on_claim o a p f now c s)
  unfolding on_claim send_ack output record_frame_received
  on_claim-AllServed a p f now (error input) s w h = disconnect-AllServed o u a s h
  on_claim-AllServed a p f now (ClaimOutcome.duplicate source evicted input) s w h =
      same_peers o u (put_peer a p s) _ refl (put_peer-AllServed o u a p s w h)
  on_claim-AllServed a p f now (accepted source evicted input) s w h =
      same_peers o u (put_peer a (record_frame_received f p) s) _ refl
        (put_peer-AllServed o u a _ s w h)

  handle_frame-AllServed :
      (a : String) (p : Peer) (f : Option Frame) (now : Clock) (s : Core)
      → IsServed o (u a) p
      → AllServed o u s
      → AllServed o u (handle_frame o a p f now s)
  unfolding handle_frame mark_seen
  handle_frame-AllServed a p none now s w h = h
  handle_frame-AllServed a p (some f) now s w h = on_claim-AllServed a _ f now _ s w h

  pub handle_inbound_payload-AllServed :
      (a : String) (link : ℕ) (v : Value) (now : Clock) (s : Core)
      → AllServed o u s
      → AllServed o u (handle_inbound_payload o a link v now s)
  unfolding handle_inbound_payload handle_payload
  handle_inbound_payload-AllServed a link v now s h =
      given_lem (AllServed o u) (find s.peers a) _ _ (λ e. h)
        (λ p e.
          let w = IsServed-peer o u a s e h in
          if_lem (AllServed o u) (p.link == link) _ _
            (λ q.
              if_lem (AllServed o u) (is_heartbeat_frame v) _ _
                (λ b. handle_heartbeat_frame-AllServed a p v now s w h)
                (λ b.
                  if_lem (AllServed o u) (is_ack_frame v) _ _
                    (λ k. handle_ack_frame-AllServed a p v now.ms s w h)
                    (λ k.
                      if_lem (AllServed o u)
                        (is_ok (validate_runtime_transport_frame v (some o.identity))
                          && is_from_peer v a p.identity)
                        _ _ (λ t. handle_frame-AllServed a p (read_frame v) now s w h)
                        (λ t. disconnect-AllServed o u a s h))))
            (λ q. h))

  pub mark_peer_seen-AllServed :
      (a : String) (link now : ℕ) (s : Core)
      → AllServed o u s
      → AllServed o u (mark_peer_seen a link now s)
  unfolding mark_peer_seen
  mark_peer_seen-AllServed a link now s h =
      given_lem (AllServed o u) (find s.peers a) _ _ (λ e. h)
        (λ p e.
          if_lem (AllServed o u) (p.link == link) _ _
            (λ q. seen-AllServed a p now s (IsServed-peer o u a s e h) h) (λ q. h))

  armed-AllServed :
      (a : String) (p : Peer) (s : Core)
      → IsServed o (u a) p
      → AllServed o u s
      → AllServed o u (put_peer a (arm_heartbeat_timeout o p) s)
  unfolding arm_heartbeat_timeout
  armed-AllServed a p s w h =
      put_peer-AllServed o u a _ s
        (if_lem (IsServed o (u a)) (o.heartbeat_timeout_ms == 0) p _ (λ e. w) (λ e. w)) h

  pub heartbeat_tick-AllServed :
      (a : String) (id : ℕ) (now : String) (s : Core)
      → AllServed o u s
      → AllServed o u (heartbeat_tick o a id now s)
  unfolding heartbeat_tick output
  heartbeat_tick-AllServed a id now s h =
      given_lem (AllServed o u) (find s.peers a) _ _ (λ e. h)
        (λ p e.
          let w = IsServed-peer o u a s e h in
          if_lem (AllServed o u) (p.id == id && p.heartbeat_interval) _ _
            (λ q.
              if_lem (AllServed o u) p.link_open _ _
                (λ b.
                  same_peers o u (put_peer a (arm_heartbeat_timeout o p) s) _ refl
                    (armed-AllServed a p s w h))
                (λ b. put_peer-AllServed o u a _ s w h))
            (λ q. h))

  pub heartbeat_deadline-AllServed :
      (a : String) (id now : ℕ) (s : Core)
      → AllServed o u s
      → AllServed o u (heartbeat_deadline o a id now s)
  unfolding heartbeat_deadline
  heartbeat_deadline-AllServed a id now s h =
      given_lem (AllServed o u) (find s.peers a) _ _ (λ e. h)
        (λ p e.
          if_lem (AllServed o u) (p.id == id && p.heartbeat_timeout) _ _
            (λ q.
              if_lem (AllServed o u)
                (is_timed_out (resolve_heartbeat p.last_seen_at now o.heartbeat_timeout_ms)) _ _
                (λ t. close_peer-AllServed o u a (record p { heartbeat_timeout = false }) true s h)
                (λ t.
                  armed-AllServed a (record p { heartbeat_timeout = false }) s
                    (IsServed-peer o u a s e h) h))
            (λ q. h))
