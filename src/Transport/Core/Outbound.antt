-- ===== src/Transport/Core/Outbound.antt =====
-- The outbound queue of a peer and the frames that wait for an ack: packages/actor-core-runtime/
-- src/transport/transport-core.ts. One send is awaited at a time for each peer.
use text.Mathlib.Text.{starts_with}
use actor_web.Common.{
  ℕ, ◌+◌, Bool, true, false, List, [], ◌∷◌, ◌++◌, Option, none, some, String, ltb, ◌==◌,
  if◌then◌else◌, given, length, Dict, find, put, erase,
}
use actor_web.Transport.Reliability.{
  resolve_backpressure, BackpressureVerdict, enqueue, drop, Firing, TimerResult, exhausted, rearmed,
  resent, fire, track,
}
use actor_web.Transport.Contract.Shapes.{ActorMessage, Frame, create_runtime_transport_frame}
use actor_web.Transport.Core.{
  Options, PendingAck, OutboundQueueItem, Peer, Core, Flight, resolved, settle, output, transmitted,
  reject_item, put_peer, disconnect,
}

-- The clock: milliseconds, and the same as a text.
pub record Clock : Type 0 where
  pub ms : ℕ
  pub iso : String

-- The loop of `drainOutboundQueue` up to its next await, for a peer in the map: the next item is
-- handed to the link, or the flag is cleared.
unfoldable pub drain_items : String → Peer → List OutboundQueueItem → Core → Core
unfolding put_peer output
drain_items address p [] s = put_peer address (record p { outbound_flushing = false }) s
drain_items address p (item ∷ items) s =
    if p.link_open
    then output (transmitted p.link item.frame) (
        put_peer address
          (record p { outbound_queue = items; outbound_flushing = true; in_flight = some item }) s)
    else put_peer address (record p { outbound_flushing = false }) s

unfoldable pub flush_outbound_queue : String → Peer → Core → Core
unfolding drain_items put_peer
flush_outbound_queue address p s =
    if p.outbound_flushing then put_peer address p s else drain_items address p p.outbound_queue s

unfoldable pub flush_peer : String → Core → Core
unfolding flush_outbound_queue
flush_peer address s = given (find s.peers address) s (λ p. flush_outbound_queue address p s)

unfoldable pub is_drop : BackpressureVerdict → Bool
is_drop drop = true
is_drop enqueue = false

-- `enqueueFrame`, with a new promise: rejected at once if the queue is full.
unfoldable pub enqueue_frame : Options → String → Peer → Frame → Bool → Core → Core
unfolding flush_outbound_queue reject_item put_peer is_drop
enqueue_frame o address p frame track_ack s =
    let item : OutboundQueueItem = record {
      frame = frame;
      promise = s.promises;
      track_ack = track_ack;
    } in
    let s1 = record s { promises = s.promises + 1 } in
    if is_drop (resolve_backpressure (length p.outbound_queue) o.outbound_queue_limit)
    then reject_item address item (put_peer address p s1)
    else flush_outbound_queue address (record p { outbound_queue = p.outbound_queue ++ item ∷ [] })
        s1

-- What the caller of `send` gets: an error at once, or a promise.
pub data Sent : Type 0 where
  not_connected payload_too_large : Sent
  promised : ℕ → Sent

-- `measure` gives the bytes of a frame as JSON.
unfoldable pub send : Options → (Frame → ℕ) → String → ActorMessage → Clock → Core → Core × Sent
unfolding enqueue_frame create_runtime_transport_frame
send o measure destination message now s =
    given (find s.peers destination) ((s, not_connected)) (λ p.
      let frame =
        create_runtime_transport_frame o.identity p.identity none (p.sequence + 1) message
          now.iso in
      if ltb o.max_frame_bytes (measure frame) then (s, payload_too_large) else (
        enqueue_frame o destination (record p { sequence = p.sequence + 1 }) frame true s,
        promised s.promises,
      ))

-- `trackAckIfRetryable`: only messages of the runtime are sent again.
unfoldable pub track_ack_if_retryable : Options → Frame → ℕ → Dict PendingAck → Dict PendingAck
unfolding track
track_ack_if_retryable o frame now acks =
    if starts_with frame.message.message_type "__runtime."
    then given (track o.ack now) acks
        (λ retries. put acks frame.message_id (record { frame = frame; retries = retries }))
    else acks

-- The send of a registered peer succeeds: the loop of the drain goes on.
unfoldable pub sent_by_peer : Options → String → Peer → OutboundQueueItem → ℕ → Core → Core
unfolding settle drain_items track_ack_if_retryable
sent_by_peer o address p item now s =
    let acks =
      if item.track_ack
      then track_ack_if_retryable o item.frame now p.pending_acks
      else p.pending_acks in
    drain_items address (record p { in_flight = none; pending_acks = acks }) p.outbound_queue
      (settle resolved item.promise s)

-- The send fails: its promise is rejected, and the address, whoever is registered there now, is
-- disconnected.
unfoldable pub failed_by_peer : String → Peer → OutboundQueueItem → Core → Core
unfolding reject_item put_peer disconnect
failed_by_peer address p item s =
    disconnect address
      (reject_item address item (put_peer address (record p { in_flight = none }) s))

unfoldable pub without_flight : ℕ → List Flight → List Flight
without_flight id [] = []
without_flight id (f ∷ fs) = if f.peer_id == id then fs else f ∷ without_flight id fs

unfoldable pub flight_of : ℕ → List Flight → Option Flight
flight_of id [] = none
flight_of id (f ∷ fs) = if f.peer_id == id then some f else flight_of id fs

-- The same for a peer that is no longer registered. Its queue was emptied, so the drain ends.
unfoldable pub sent_by_closed : ℕ → Core → Core
unfolding flight_of without_flight settle
sent_by_closed id s =
    given (flight_of id s.flights) s
      (λ f. settle resolved f.item.promise (record s { flights = without_flight id s.flights }))

unfoldable pub failed_by_closed : ℕ → Core → Core
unfolding flight_of without_flight reject_item disconnect
failed_by_closed id s = given (flight_of id s.flights) s (λ f.
    disconnect f.address
      (reject_item f.address f.item (record s { flights = without_flight id s.flights })))

-- The end of the awaited send of a registered peer, and whether it succeeded.
unfoldable pub send_ended : Options → String → Bool → ℕ → Core → Core
unfolding sent_by_peer failed_by_peer
send_ended o address success now s = given (find s.peers address) s (λ p.
    given p.in_flight s (λ item.
      if success then sent_by_peer o address p item now s else failed_by_peer address p item s))

unfoldable pub closed_send_ended : ℕ → Bool → Core → Core
unfolding sent_by_closed failed_by_closed
closed_send_ended id success s = if success then sent_by_closed id s else failed_by_closed id s

-- The timer of a frame that waits for its ack.
unfoldable pub on_timer_result :
    Options → String → Peer → String → PendingAck → TimerResult → Core → Core
unfolding enqueue_frame put_peer
on_timer_result o address p message_id pending exhausted s =
    put_peer address (record p { pending_acks = erase p.pending_acks message_id }) s
on_timer_result o address p message_id pending (rearmed retries) s = s
on_timer_result o address p message_id pending (resent retries) s =
    enqueue_frame o address
      (record p {
        pending_acks = put p.pending_acks message_id (record pending { retries = retries });
      })
      pending.frame false s

unfoldable pub ack_timer_fired : Options → String → ℕ → String → Firing → Core → Core
unfolding fire on_timer_result
ack_timer_fired o address id message_id firing s = given (find s.peers address) s (λ p.
    if p.id == id
    then given (find p.pending_acks message_id) s (λ pending.
      on_timer_result o address p message_id pending (fire o.ack firing pending.retries) s)
    else s)

-- The first disconnect that waits in the `catch` of a frame that was sent again.
unfoldable pub next_microtask : List String → Core → Core
unfolding disconnect
next_microtask [] s = s
next_microtask (address ∷ addresses) s = disconnect address (record s { disconnects = addresses })

unfoldable pub microtask : Core → Core
unfolding next_microtask
microtask s = next_microtask s.disconnects s
