-- ===== src/Transport/Core/ServedRuns.antt =====
-- Every event keeps the outbound queues served: packages/actor-core-runtime/src/transport/
-- transport-core.ts.
use actor_web.Common.{
  ℕ, Bool, true, false, not, ◌||◌, length, arith, ◌&&◌, List, [], ◌∷◌, Option, none, some, String,
  ◌==◌, find, ◌≡◌,
}
use actor_web.Transport.Contract.Shapes.{Frame}
use actor_web.Transport.Core.{Options, Peer, Core, new_core}
use actor_web.Transport.Core.Runs.{
  Event, sending, linked, disconnecting, stopping, link_closed, payload, send_over,
  closed_send_over, ack_due, microtask_due, seen, tick, deadline, flushing, link_down, link_up,
  step, run,
}
use actor_web.Transport.Core.Served.{
  owing, never, IsServed, AllServed, ServedPeers, new_core-AllServed, IsServed-peer,
  disconnect-AllServed, stop-AllServed, handle_peer_closed-AllServed, accept_link-AllServed,
  flush_peer-AllServed, link_opened-AllServed, link_stalled-AllServed,
}
use actor_web.Transport.Core.Service.{
  send-AllServed, send_ended-AllServed, closed_send_ended-AllServed, ack_timer_fired-AllServed,
  microtask-AllServed,
}
use actor_web.Transport.Core.ServedInbound.{
  handle_inbound_payload-AllServed, mark_peer_seen-AllServed, heartbeat_tick-AllServed,
  heartbeat_deadline-AllServed,
}

-- Where a flush is owed after an event: where a link has opened, until `flushPeer` is called.
abbrev pub owing_after : Event → (String → Bool) → String → Bool
owing_after (flushing a) u = owing false a u
owing_after (link_up a) u = owing true a u
owing_after _ u = u

-- A peer sends nothing although frames wait and its link can accept a send.
abbrev pub is_stuck : Option Peer → Bool
is_stuck none = false
is_stuck (some p) = not (p.outbound_flushing || length p.outbound_queue == 0 || not p.link_open)

module _ (o : Options) (u : String → Bool) where
  pub step-AllServed :
      (measure : Frame → ℕ) (e : Event) (s : Core)
      → AllServed o u s
      → AllServed o (owing_after e u) (step o measure e s)
  unfolding step
  step-AllServed measure (sending a m now) s h = send-AllServed o u measure a m now s h
  step-AllServed measure (linked link b i now) s h = accept_link-AllServed o u link b i now s h
  step-AllServed measure (disconnecting a) s h = disconnect-AllServed o u a s h
  step-AllServed measure (stopping rest) s h = stop-AllServed o u rest s h
  step-AllServed measure (link_closed a link) s h = handle_peer_closed-AllServed o u a link s h
  step-AllServed measure (payload a link v now) s h =
      handle_inbound_payload-AllServed o u a link v now s h
  step-AllServed measure (send_over a b now) s h = send_ended-AllServed o u a b now s h
  step-AllServed measure (closed_send_over id b) s h = closed_send_ended-AllServed o u id b s h
  step-AllServed measure (ack_due a id m f) s h = ack_timer_fired-AllServed o u a id m f s h
  step-AllServed measure microtask_due s h = microtask-AllServed o u s h
  step-AllServed measure (seen a link now) s h = mark_peer_seen-AllServed o u a link now s h
  step-AllServed measure (tick a id now) s h = heartbeat_tick-AllServed o u a id now s h
  step-AllServed measure (deadline a id now) s h = heartbeat_deadline-AllServed o u a id now s h
  step-AllServed measure (flushing a) s h = flush_peer-AllServed o u a s h
  step-AllServed measure (link_down a) s h = link_stalled-AllServed o u a s h
  step-AllServed measure (link_up a) s h = link_opened-AllServed o u a s h

  stuck-AllServed :
      (s : Core) → AllServed o u s → AllServed o (λ a. u a && is_stuck (find s.peers a)) s
  unfolding AllServed ServedPeers
  stuck-AllServed s h a p e = let (f, g, w) = h a p e in (f, ground (arith, g, e), w)

module _ (o : Options) (measure : Frame → ℕ) where
  -- Where a flush is still owed after a list of events: once a peer is not stuck, it is not.
  unfoldable pub owing_in : List Event → Core → (String → Bool) → String → Bool
  unfolding step
  owing_in [] s u = u
  owing_in (e ∷ es) s u =
      let s' = step o measure e s in
      owing_in es s' (λ a. owing_after e u a && is_stuck (find s'.peers a))

  run-AllServed :
      (es : List Event) (u : String → Bool) (s : Core)
      → AllServed o u s
      → AllServed o (owing_in es s u) (run o measure es s)
  unfolding run owing_in
  run-AllServed [] u s h = h
  run-AllServed (e ∷ es) u s h =
      let s' = step o measure e s in
      run-AllServed es _ s' (stuck-AllServed o _ s' (step-AllServed o u measure e s h))

  -- Whatever happens to a new transport, of every peer that is registered then: its flag tells
  -- whether a send is awaited; if none is, its queue is empty, or its link cannot accept a send, or
  -- a link of its address has opened and ever since frames have waited at the address with an open
  -- link and no send awaited, and `flushPeer` has not been called for it; and its queue is not longer
  -- than a limit that is not negative.
  pub run-IsServed :
      (es : List Event) (address : String) {p : Peer}
      → find (run o measure es new_core).peers address ≡ some p
      → IsServed o (owing_in es new_core never address) p
  run-IsServed es address e =
      IsServed-peer o (owing_in es new_core never) address (run o measure es new_core) e
        (run-AllServed es never new_core (new_core-AllServed o never))
