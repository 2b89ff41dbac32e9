-- ===== src/Transport/Core/Runs.antt =====
-- What may happen to a transport, in any order: packages/actor-core-runtime/src/transport/
-- transport-core.ts.
use actor_web.Common.{ℕ, Bool, List, [], ◌∷◌, String}
use actor_web.Transport.Identity.{RuntimeNodeIdentity}
use actor_web.Transport.Reliability.{Firing}
use actor_web.Transport.Values.{Value}
use actor_web.Transport.Contract.Shapes.{ActorMessage, Frame}
use actor_web.Transport.Core.{
  Options, Core, link_stalled, link_opened, disconnect, stop, handle_peer_closed, accept_link,
}
use actor_web.Transport.Core.Outbound.{
  Clock, flush_peer, send, send_ended, closed_send_ended, ack_timer_fired, microtask,
}
use actor_web.Transport.Core.Inbound.{
  handle_inbound_payload, mark_peer_seen, heartbeat_tick, heartbeat_deadline,
}

-- `disconnecting` is also what a failed ack or heartbeat does. That a link can send
-- again is an event, and that `flushPeer` is called is another.
pub data Event : Type 0 where
  sending : String → ActorMessage → Clock → Event
  linked : ℕ → Bool → RuntimeNodeIdentity → ℕ → Event
  disconnecting : String → Event
  stopping : List String → Event
  link_closed : String → ℕ → Event
  payload : String → ℕ → Value → Clock → Event
  send_over : String → Bool → ℕ → Event
  closed_send_over : ℕ → Bool → Event
  ack_due : String → ℕ → String → Firing → Event
  microtask_due : Event
  seen : String → ℕ → ℕ → Event
  tick : String → ℕ → String → Event
  deadline : String → ℕ → ℕ → Event
  flushing link_down link_up : String → Event

module _ (o : Options) (measure : Frame → ℕ) where
  unfoldable pub step : Event → Core → Core
  unfolding send accept_link disconnect stop handle_peer_closed handle_inbound_payload send_ended
      closed_send_ended ack_timer_fired microtask mark_peer_seen heartbeat_tick heartbeat_deadline
      flush_peer link_stalled link_opened
  step (sending destination message now) s = (send o measure destination message now s).0
  step (linked link link_open identity now) s = accept_link o link link_open identity now s
  step (disconnecting address) s = disconnect address s
  step (stopping addresses) s = stop addresses s
  step (link_closed address link) s = handle_peer_closed address link s
  step (payload address link v now) s = handle_inbound_payload o address link v now s
  step (send_over address success now) s = send_ended o address success now s
  step (closed_send_over id success) s = closed_send_ended id success s
  step (ack_due address id message_id firing) s = ack_timer_fired o address id message_id firing s
  step microtask_due s = microtask s
  step (seen address link now) s = mark_peer_seen address link now s
  step (tick address id now) s = heartbeat_tick o address id now s
  step (deadline address id now) s = heartbeat_deadline o address id now s
  step (flushing address) s = flush_peer address s
  step (link_down address) s = link_stalled address s
  step (link_up address) s = link_opened address s

  unfoldable pub run : List Event → Core → Core
  unfolding step
  run [] s = s
  run (e ∷ es) s = run es (step e s)
