-- ===== src/Transport/Core/Promises.antt =====
-- Every event keeps the account of the promises: packages/actor-core-runtime/src/transport/
-- transport-core.ts.
use actor_web.Common.{
  ℕ, Bool, true, false, ◌&&◌, List, [], ◌∷◌, Option, none, some, String, ◌==◌, find, arith, ◌≡◌,
  refl, given_lem, if_lem, and-true,
}
use actor_web.Transport.Reliability.{
  TimerResult, exhausted, rearmed, resent, resolve_heartbeat, Firing,
}
use actor_web.Transport.Idempotency.{ClaimOutcome, accepted, error}
use actor_web.Transport.Values.{Value, get, is_the_text}
use actor_web.Transport.Contract.Frames.{
  validate_runtime_transport_frame, validate_runtime_transport_ack_frame,
  validate_runtime_transport_heartbeat_frame,
}
use actor_web.Transport.Contract.Reading.{read_frame, read_text}
use actor_web.Transport.Contract.Shapes.{Frame}
use actor_web.Transport.Core.{
  Options, Peer, Core, PendingAck, output, put_peer, new_core, link_stalled, link_opened,
}
use actor_web.Transport.Core.Outbound.{
  Clock, on_timer_result, ack_timer_fired, microtask, flush_peer, flush_outbound_queue,
}
use actor_web.Transport.Core.Inbound.{
  is_heartbeat_frame, is_ack_frame, is_ok, is_from_peer, is_timed_out, mark_seen, handle_ack_frame,
  handle_heartbeat_frame, record_frame_received, send_ack, on_claim, handle_frame, handle_payload,
  handle_inbound_payload, mark_peer_seen, arm_heartbeat_timeout, heartbeat_tick, heartbeat_deadline,
}
use actor_web.Transport.Core.Runs.{
  Event, sending, linked, disconnecting, stopping, link_closed, payload, send_over,
  closed_send_over, ack_due, microtask_due, seen, tick, deadline, flushing, link_down, link_up,
  step, run,
}
use actor_web.Transport.Core.Served.{
  is_some, IsServed, AllServed, IsServed-peer, new_core-AllServed, always, always-AllServed,
}
use actor_web.Transport.Core.ServedRuns.{step-AllServed}
use actor_web.Transport.Core.Load.{nothing, peer_load, load, Same, moves, stays, alike}
use actor_web.Transport.Core.Accounts.{
  Alike, then-Same, update-Same, close-Same, disconnect-Same, stop-Same, handle_peer_closed-Same,
  is_new_link, accept_link-Same, flush-Moves, enqueue-Moves,
}
use actor_web.Transport.Core.AccountRuns.{
  IsAccountable, IsAccountable-Same, IsAccountable-made, send-IsAccountable, send_ended-Same,
  closed_send_ended-Same, next_microtask-Same,
}

-- The links that a run registers are not those that their addresses are registered with.
unfoldable pub has_new_link : Event → Core → Bool
unfolding is_new_link
has_new_link (linked link link_open i now) s = is_new_link i.node_address link s
has_new_link _ s = true

module _ (o : Options) where
  on_timer_result-IsAccountable :
      (a : String) (p : Peer) (id : String) (k : PendingAck) (r : TimerResult) (s : Core)
      → find s.peers a ≡ some p
      → IsServed o true p
      → IsAccountable s
      → IsAccountable (on_timer_result o a p id k r s)
  unfolding on_timer_result peer_load
  on_timer_result-IsAccountable a p id k exhausted s e v h =
      IsAccountable-Same s _ h (update-Same a _ s e (λ n. refl))
  on_timer_result-IsAccountable a p id k (rearmed retries) s e v h = h
  on_timer_result-IsAccountable a p id k (resent retries) s e v h =
      IsAccountable-made s _ h (enqueue-Moves o a _ k.frame false s e (λ n. refl) v.0)

  ack_timer_fired-IsAccountable :
      (a : String) (id : ℕ) (m : String) (f : Firing) (s : Core)
      → AllServed o always s
      → IsAccountable s
      → IsAccountable (ack_timer_fired o a id m f s)
  unfolding ack_timer_fired
  ack_timer_fired-IsAccountable a id m f s v h =
      given_lem IsAccountable (find s.peers a) _ _ (λ e. h)
        (λ p e.
          if_lem IsAccountable (p.id == id) _ _
            (λ q.
              given_lem IsAccountable (find p.pending_acks m) _ _ (λ t. h)
                (λ k t.
                  on_timer_result-IsAccountable a p m k _ s e (IsServed-peer o always a s e v) h))
            (λ q. h))

  on_claim-Same :
      (a : String) (p : Peer) (f : Frame) (now : Clock) (c : ClaimOutcome) (s : Core) {q : Peer}
      → find s.peers a ≡ some q
      → Alike p q
      → Same s (on_claim o a p f now c s)
  unfolding on_claim send_ack output record_frame_received peer_load
  on_claim-Same a p f now (error input) s e h = disconnect-Same a s
  on_claim-Same a p f now (ClaimOutcome.duplicate source evicted input) s e h =
      then-Same nothing nothing s _ _ (update-Same a p s e h) (alike _ _ refl refl refl refl)
  on_claim-Same a p f now (accepted source evicted input) s e h =
      then-Same nothing nothing s _ _ (update-Same a (record_frame_received f p) s e h)
        (alike _ _ refl refl refl refl)

  handle_frame-Same :
      (a : String) (p : Peer) (f : Option Frame) (now : Clock) (s : Core)
      → find s.peers a ≡ some p
      → Same s (handle_frame o a p f now s)
  unfolding handle_frame mark_seen peer_load
  handle_frame-Same a p none now s e = stays s
  handle_frame-Same a p (some f) now s e = on_claim-Same a _ f now _ s e (λ n. refl)

  handle_inbound_payload-Same :
      (a : String) (link : ℕ) (v : Value) (now : Clock) (s : Core)
      → Same s (handle_inbound_payload o a link v now s)
  unfolding handle_inbound_payload handle_payload handle_heartbeat_frame handle_ack_frame mark_seen
      output peer_load
  handle_inbound_payload-Same a link v now s =
      given_lem (Same s) (find s.peers a) _ _ (λ e. stays s)
        (λ p e.
          let seen_same : Same s (put_peer a (mark_seen now.ms p) s) =
            update-Same a (mark_seen now.ms p) s e (λ n. refl) in
          if_lem (Same s) (p.link == link) _ _
            (λ q.
              if_lem (Same s) (is_heartbeat_frame v) _ _
                (λ b.
                  if_lem (Same s)
                    (is_ok (validate_runtime_transport_heartbeat_frame v (some o.identity))
                      && is_from_peer v a p.identity)
                    _ _
                    (λ t.
                      if_lem (Same s) (is_the_text "runtime.transport.ping" (get v "type")) _ _
                        (λ k.
                          then-Same nothing nothing s _ _ seen_same (alike _ _ refl refl refl refl))
                        (λ k. seen_same))
                    (λ t. disconnect-Same a s))
                (λ b.
                  if_lem (Same s) (is_ack_frame v) _ _
                    (λ k.
                      if_lem (Same s)
                        (is_ok (validate_runtime_transport_ack_frame v (some o.identity))
                          && is_from_peer v a p.identity)
                        _ _
                        (λ t.
                          given_lem (Same s) (read_text (get v "messageId")) _ _ (λ u. stays s)
                            (λ id u. update-Same a _ s e (λ n. refl)))
                        (λ t. disconnect-Same a s))
                    (λ k.
                      if_lem (Same s)
                        (is_ok (validate_runtime_transport_frame v (some o.identity))
                          && is_from_peer v a p.identity)
                        _ _ (λ t. handle_frame-Same a p (read_frame v) now s e)
                        (λ t. disconnect-Same a s))))
            (λ q. stays s))

  mark_peer_seen-Same :
      (a : String) (link now : ℕ) (s : Core) → Same s (mark_peer_seen a link now s)
  unfolding mark_peer_seen mark_seen peer_load
  mark_peer_seen-Same a link now s =
      given_lem (Same s) (find s.peers a) _ _ (λ e. stays s)
        (λ p e.
          if_lem (Same s) (p.link == link) _ _ (λ q. update-Same a _ s e (λ n. refl))
            (λ q. stays s))

  armed : (p : Peer) → Alike (arm_heartbeat_timeout o p) p
  unfolding arm_heartbeat_timeout peer_load
  armed p =
      if_lem (λ (x : Peer). Alike x p) (o.heartbeat_timeout_ms == 0) p _ (λ e n. refl) (λ e n. refl)

  heartbeat_tick-Same :
      (a : String) (id : ℕ) (now : String) (s : Core) → Same s (heartbeat_tick o a id now s)
  unfolding heartbeat_tick output peer_load
  heartbeat_tick-Same a id now s =
      given_lem (Same s) (find s.peers a) _ _ (λ e. stays s)
        (λ p e.
          if_lem (Same s) (p.id == id && p.heartbeat_interval) _ _
            (λ q.
              if_lem (Same s) p.link_open _ _
                (λ b.
                  then-Same nothing nothing s _ _ (update-Same a _ s e (armed p))
                    (alike _ _ refl refl refl refl))
                (λ b. update-Same a _ s e (λ n. refl)))
            (λ q. stays s))

  heartbeat_deadline-Same :
      (a : String) (id now : ℕ) (s : Core) → Same s (heartbeat_deadline o a id now s)
  unfolding heartbeat_deadline peer_load
  heartbeat_deadline-Same a id now s =
      given_lem (Same s) (find s.peers a) _ _ (λ e. stays s)
        (λ p e.
          let p' = record p { heartbeat_timeout = false } in
          if_lem (Same s) (p.id == id && p.heartbeat_timeout) _ _
            (λ q.
              if_lem (Same s)
                (is_timed_out (resolve_heartbeat p.last_seen_at now o.heartbeat_timeout_ms)) _ _
                (λ t. close-Same a p' true s e (λ n. refl))
                (λ t. update-Same a (arm_heartbeat_timeout o p') s e (armed p')))
            (λ q. stays s))

  -- A change of the link and the flush that may follow.
  flushed-Same :
      (a : String) (p : Peer) (s : Core) {q : Peer}
      → find s.peers a ≡ some q
      → Alike p q
      → p.outbound_flushing ≡ is_some p.in_flight
      → Same s (flush_outbound_queue a p s)
  flushed-Same a p s {q = q} e h f =
      moves (peer_load q) (peer_load p) nothing nothing nothing nothing s _ _
        (flush-Moves a p s e f) (stays _) (λ n. omega (arith, h n))

  flush_peer-Same : (a : String) (s : Core) → AllServed o always s → Same s (flush_peer a s)
  unfolding flush_peer
  flush_peer-Same a s v =
      given_lem (Same s) (find s.peers a) _ _ (λ e. stays s)
        (λ p e. flushed-Same a p s e (λ n. refl) (IsServed-peer o always a s e v).0)

  link_stalled-Same : (a : String) (s : Core) → Same s (link_stalled a s)
  unfolding link_stalled peer_load
  link_stalled-Same a s =
      given_lem (Same s) (find s.peers a) _ _ (λ e. stays s)
        (λ p e. update-Same a _ s e (λ n. refl))

  link_opened-Same : (a : String) (s : Core) → Same s (link_opened a s)
  unfolding link_opened peer_load
  link_opened-Same a s =
      given_lem (Same s) (find s.peers a) _ _ (λ e. stays s)
        (λ p e. update-Same a _ s e (λ n. refl))

module _ (o : Options) (measure : Frame → ℕ) where
  step-IsAccountable :
      (e : Event) (s : Core)
      → has_new_link e s ≡ true
      → AllServed o always s
      → IsAccountable s
      → IsAccountable (step o measure e s)
  unfolding step has_new_link microtask
  step-IsAccountable (sending a m now) s n v h = send-IsAccountable o measure a m now s v h
  step-IsAccountable (linked link b i now) s n v h =
      IsAccountable-Same s _ h (accept_link-Same o link b i now s n)
  step-IsAccountable (disconnecting a) s n v h = IsAccountable-Same s _ h (disconnect-Same a s)
  step-IsAccountable (stopping rest) s n v h = IsAccountable-Same s _ h (stop-Same rest s)
  step-IsAccountable (link_closed a link) s n v h =
      IsAccountable-Same s _ h (handle_peer_closed-Same a link s)
  step-IsAccountable (payload a link w now) s n v h =
      IsAccountable-Same s _ h (handle_inbound_payload-Same o a link w now s)
  step-IsAccountable (send_over a b now) s n v h =
      IsAccountable-Same s _ h (send_ended-Same o a b now s)
  step-IsAccountable (closed_send_over id b) s n v h =
      IsAccountable-Same s _ h (closed_send_ended-Same id b s)
  step-IsAccountable (ack_due a id m f) s n v h = ack_timer_fired-IsAccountable o a id m f s v h
  step-IsAccountable microtask_due s n v h =
      IsAccountable-Same s _ h (next_microtask-Same s.disconnects s)
  step-IsAccountable (seen a link now) s n v h =
      IsAccountable-Same s _ h (mark_peer_seen-Same o a link now s)
  step-IsAccountable (tick a id now) s n v h =
      IsAccountable-Same s _ h (heartbeat_tick-Same o a id now s)
  step-IsAccountable (deadline a id now) s n v h =
      IsAccountable-Same s _ h (heartbeat_deadline-Same o a id now s)
  step-IsAccountable (flushing a) s n v h = IsAccountable-Same s _ h (flush_peer-Same o a s v)
  step-IsAccountable (link_down a) s n v h = IsAccountable-Same s _ h (link_stalled-Same o a s)
  step-IsAccountable (link_up a) s n v h = IsAccountable-Same s _ h (link_opened-Same o a s)

  -- No event of a run registers a link that is registered for its address already.
  unfoldable pub have_new_links : List Event → Core → Bool
  unfolding has_new_link step
  have_new_links [] s = true
  have_new_links (e ∷ es) s = has_new_link e s && have_new_links es (step o measure e s)

  run_from :
      (es : List Event) (s : Core)
      → have_new_links es s ≡ true
      → AllServed o always s
      → IsAccountable s
      → IsAccountable (run o measure es s)
  unfolding run have_new_links
  run_from [] s n v h = h
  run_from (e ∷ es) s n v h =
      let fresh = and-true (has_new_link e s) _ n in
      run_from es (step o measure e s) fresh.1
        (always-AllServed o _ (step o measure e s) (step-AllServed o always measure e s v))
        (step-IsAccountable e s fresh.0 v h)

  -- Whatever happens to a new transport, as long as no link is registered twice in a row for an
  -- address: every promise that `send` gave out, or that was made for a frame sent again, stands in
  -- exactly one place, once. It is settled, or it is the send that is awaited for a peer, closed or
  -- not, or it stands in the queue of a registered peer. So none is forgotten or settled twice,
  -- whichever peers are closed, replaced or refused, and whichever sends fail.
  pub run-IsAccountable :
      (es : List Event)
      → have_new_links es new_core ≡ true
      → IsAccountable (run o measure es new_core)
  unfolding IsAccountable load
  run-IsAccountable es n =
      run_from es new_core n (new_core-AllServed o always) ((tt, λ n. ground arith))
