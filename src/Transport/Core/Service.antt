-- ===== src/Transport/Core/Service.antt =====
-- Sending keeps the outbound queues served: packages/actor-core-runtime/src/transport/
-- transport-core.ts.
use actor_web.Common.{
  ℕ, ◌+◌, Bool, true, false, List, [], ◌∷◌, none, String, ltb, ◌==◌, if◌then◌else◌, find, put,
  erase, arith, ◌≡◌, refl, sym, ap, ◌∙◌, given_lem, if_lem, erase-put, find-put_self,
}
use actor_web.Transport.Reliability.{TimerResult, exhausted, rearmed, resent, Firing}
use actor_web.Transport.Contract.Shapes.{Frame, ActorMessage, create_runtime_transport_frame}
use actor_web.Transport.Core.{
  Options, OutboundQueueItem, Peer, Core, PendingAck, settle, reject_item, put_peer, disconnect,
  resolved,
}
use actor_web.Transport.Core.Outbound.{
  Clock, Sent, send, sent_by_peer, failed_by_peer, sent_by_closed, failed_by_closed, flight_of,
  send_ended, closed_send_ended, on_timer_result, ack_timer_fired, next_microtask, microtask,
  track_ack_if_retryable,
}
use actor_web.Transport.Core.Served.{
  IsServed, AllServed, same_peers, others, IsServed-peer, put_peer-AllServed, reject_item-peers,
  disconnect-AllServed, drain_items-AllServed, enqueue_frame-AllServed, close_other-AllServed,
}

module _ (o : Options) (u : String → Bool) where
  pub send-AllServed :
      (measure : Frame → ℕ) (a : String) (m : ActorMessage) (now : Clock) (s : Core)
      → AllServed o u s
      → AllServed o u (send o measure a m now s).0
  unfolding send
  send-AllServed measure a m now s h =
      given_lem (λ (r : Core × Sent). AllServed o u r.0) (find s.peers a) _ _ (λ e. h)
        (λ p e.
          let frame =
            create_runtime_transport_frame o.identity p.identity none (p.sequence + 1) m now.iso in
          if_lem (λ (r : Core × Sent). AllServed o u r.0) (ltb o.max_frame_bytes (measure frame)) _
            _ (λ q. h)
            (λ q.
              enqueue_frame-AllServed o u a (record p { sequence = p.sequence + 1 }) frame true s
                (IsServed-peer o u a s e h) h))

  pub sent_by_peer-AllServed :
      (a : String) (p : Peer) (i : OutboundQueueItem) (now : ℕ) (s : Core)
      → IsServed o (u a) p
      → AllServed o u s
      → AllServed o u (sent_by_peer o a p i now s)
  unfolding sent_by_peer settle
  sent_by_peer-AllServed a p i now s (f, g, w) h =
      let acks =
        if i.track_ack
        then track_ack_if_retryable o i.frame now p.pending_acks
        else p.pending_acks in
      drain_items-AllServed o u a (record p { in_flight = none; pending_acks = acks })
        p.outbound_queue (settle resolved i.promise s) refl refl w
        (others o u a (settle resolved i.promise s) (same_peers o u s _ refl h))

  pub failed_by_peer-AllServed :
      (a : String) (p : Peer) (i : OutboundQueueItem) (s : Core)
      → AllServed o u s
      → AllServed o u (failed_by_peer a p i s)
  unfolding failed_by_peer disconnect put_peer
  failed_by_peer-AllServed a p i s h =
      let p' = record p { in_flight = none } in
      let s' = reject_item a i (put_peer a p' s) in
      let same : s'.peers ≡ put s.peers a p' = reject_item-peers a i (put_peer a p' s) in
      given_lem (AllServed o u) (find s'.peers a) _ _
        (λ e. absurd (ground (arith, e, ap (λ d. find d a) same, find-put_self s.peers a p')))
        (λ q e.
          close_other-AllServed o u a q true s s'
            (ap (λ d. erase d a) same ∙ erase-put s.peers a p') h)

  pub sent_by_closed-AllServed :
      (id : ℕ) (s : Core) → AllServed o u s → AllServed o u (sent_by_closed id s)
  unfolding sent_by_closed settle
  sent_by_closed-AllServed id s h =
      given_lem (AllServed o u) (flight_of id s.flights) _ _ (λ e. h)
        (λ f e. same_peers o u s _ refl h)

  pub failed_by_closed-AllServed :
      (id : ℕ) (s : Core) → AllServed o u s → AllServed o u (failed_by_closed id s)
  unfolding failed_by_closed
  failed_by_closed-AllServed id s h =
      given_lem (AllServed o u) (flight_of id s.flights) _ _ (λ e. h)
        (λ f e.
          disconnect-AllServed o u f.address _
            (same_peers o u s _ (sym (reject_item-peers f.address f.item _)) h))

  pub send_ended-AllServed :
      (a : String) (b : Bool) (now : ℕ) (s : Core)
      → AllServed o u s
      → AllServed o u (send_ended o a b now s)
  unfolding send_ended
  send_ended-AllServed a b now s h =
      given_lem (AllServed o u) (find s.peers a) _ _ (λ e. h)
        (λ p e.
          given_lem (AllServed o u) p.in_flight _ _ (λ q. h)
            (λ i q.
              if_lem (AllServed o u) b _ _
                (λ t. sent_by_peer-AllServed a p i now s (IsServed-peer o u a s e h) h)
                (λ t. failed_by_peer-AllServed a p i s h)))

  pub closed_send_ended-AllServed :
      (id : ℕ) (b : Bool) (s : Core) → AllServed o u s → AllServed o u (closed_send_ended id b s)
  unfolding closed_send_ended
  closed_send_ended-AllServed id b s h =
      if_lem (AllServed o u) b _ _ (λ t. sent_by_closed-AllServed id s h)
        (λ t. failed_by_closed-AllServed id s h)

  pub on_timer_result-AllServed :
      (a : String) (p : Peer) (id : String) (k : PendingAck) (r : TimerResult) (s : Core)
      → IsServed o (u a) p
      → AllServed o u s
      → AllServed o u (on_timer_result o a p id k r s)
  unfolding on_timer_result
  on_timer_result-AllServed a p id k exhausted s v h = put_peer-AllServed o u a _ s v h
  on_timer_result-AllServed a p id k (rearmed retries) s v h = h
  on_timer_result-AllServed a p id k (resent retries) s v h =
      enqueue_frame-AllServed o u a _ k.frame false s v h

  pub ack_timer_fired-AllServed :
      (a : String) (id : ℕ) (m : String) (f : Firing) (s : Core)
      → AllServed o u s
      → AllServed o u (ack_timer_fired o a id m f s)
  unfolding ack_timer_fired
  ack_timer_fired-AllServed a id m f s h =
      given_lem (AllServed o u) (find s.peers a) _ _ (λ e. h)
        (λ p e.
          if_lem (AllServed o u) (p.id == id) _ _
            (λ q.
              given_lem (AllServed o u) (find p.pending_acks m) _ _ (λ n. h)
                (λ k n. on_timer_result-AllServed a p m k _ s (IsServed-peer o u a s e h) h))
            (λ q. h))

  pub next_microtask-AllServed :
      (rest : List String) (s : Core) → AllServed o u s → AllServed o u (next_microtask rest s)
  unfolding next_microtask
  next_microtask-AllServed [] s h = h
  next_microtask-AllServed (a ∷ rest) s h = disconnect-AllServed o u a _ (same_peers o u s _ refl h)

  pub microtask-AllServed : (s : Core) → AllServed o u s → AllServed o u (microtask s)
  unfolding microtask
  microtask-AllServed s h = next_microtask-AllServed s.disconnects s h
