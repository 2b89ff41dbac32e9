-- ===== src/Transport/Core/Examples.antt =====
-- A transport of node b: node a connects, sends and connects again.
use actor_web.Common.{
  ℕ, true, false, List, [], ◌∷◌, ◌++◌, none, some, find, put, erase, ◌≡◌, refl, includes, last,
  arith,
}
use actor_web.Common.Text.{join, decimal, digits_of}
use actor_web.Transport.Identity.{RuntimeNodeIdentity, create_runtime_transport_message_id}
use actor_web.Transport.Reliability.{pos, resolve_backpressure}
use actor_web.Transport.Idempotency.{new_cache, has}
use actor_web.Transport.Values.{bare, is_blank, is_white_space}
use actor_web.Transport.Contract.{runtime_transport_protocol_version}
use actor_web.Transport.Contract.Shapes.{
  ActorMessage, Frame, of_frame, create_runtime_transport_frame, create_runtime_transport_ack_frame,
  or_else,
}
use actor_web.Transport.Contract.Reading.{is_valid_identity, is_non_blank}
use actor_web.Transport.Core.{
  Options, Peer, Core, new_core, new_peer, acked, emitted, accept_link, register_peer,
  replace_existing, can_accept_peer, put_peer, output, link_stalled, link_opened, close_peer,
  forget_peer, reject_queued_frames, reject_item, settle,
}
use actor_web.Transport.Core.Outbound.{
  Clock, send, enqueue_frame, flush_outbound_queue, drain_items, is_drop, microtask,
  closed_send_ended, flush_peer, sent_by_closed, flight_of, without_flight,
}
use actor_web.Transport.Core.Inbound.{handle_inbound_payload}
use actor_web.Transport.Core.Runs.{
  Event, linked, link_down, link_up, flushing, sending, closed_send_over, step, run,
}
use actor_web.Transport.Core.Served.{IsServed, never}
use actor_web.Transport.Core.ServedRuns.{run-IsServed, owing_in}
use actor_web.Transport.Core.Receipt.{handle_inbound_payload_once}
use actor_web.Transport.Core.Reconnection.{waits_again, accept_link-disconnects}
use actor_web.Transport.Core.Accounts.{is_new_link}
use actor_web.Transport.Core.AccountRuns.{IsAccountable}
use actor_web.Transport.Core.Promises.{has_new_link, have_new_links, run-IsAccountable}

abbrev alpha : RuntimeNodeIdentity
alpha = record {
  node_address = "node-a";
  node_id = "a";
  incarnation = "1";
  protocol_version = runtime_transport_protocol_version;
  capabilities = none;
}

abbrev beta : RuntimeNodeIdentity
beta = record {
  node_address = "node-b";
  node_id = "b";
  incarnation = "4";
  protocol_version = runtime_transport_protocol_version;
  capabilities = none;
}

abbrev options : Options
options = record {
  identity = beta;
  heartbeat_interval_ms = 100;
  heartbeat_timeout_ms = 200;
  idempotency_window_size = 4;
  ack = record { ack_timeout_ms = 50; max_ack_retries = 2 };
  outbound_queue_limit = pos 2;
  max_frame_bytes = 1000;
}

abbrev bytes : Frame → ℕ
bytes f = 10

abbrev noon : Clock
noon = record { ms = 12; iso = "noon" }

abbrev greeting : ActorMessage
greeting = record { message_type = "HELLO"; payload = bare }

-- The link of node a stalls, and a frame waits.
abbrev stalling : List Event
stalling = linked 1 true alpha 0 ∷ link_down "node-a" ∷ sending "node-a" greeting noon ∷ []

abbrev stalled_peer : Peer
stalled_peer = record {
  id = 0;
  link = 1;
  link_open = false;
  identity = alpha;
  sequence = 1;
  last_received_sequence = 0;
  idempotency_cache = record { limit = 4; message_ids = []; message_id_set = [] };
  pending_acks = [];
  outbound_queue =
      record {
        frame = record {
          protocol_version = runtime_transport_protocol_version;
          source = beta;
          destination = alpha;
          message_id = "node-b:4:node-a:1";
          sequence = 1;
          sent_at = "noon";
          message = greeting;
        };
        promise = 0;
        track_ack = true;
      }
      ∷ [];
  outbound_flushing = false;
  in_flight = none;
  last_seen_at = 0;
  heartbeat_interval = true;
  heartbeat_timeout = false;
}

stalling-run : find (run options bytes stalling new_core).peers "node-a" ≡ some stalled_peer
unfolding run step accept_link can_accept_peer register_peer replace_existing new_peer put_peer
    output link_stalled send enqueue_frame is_drop resolve_backpressure flush_outbound_queue
    drain_items create_runtime_transport_frame or_else create_runtime_transport_message_id find put
    new_cache join decimal digits_of
stalling-run = refl

run-IsServed_example : IsServed options false stalled_peer
unfolding owing_in
run-IsServed_example = run-IsServed options bytes stalling "node-a" stalling-run

-- The link accepts sends again, and nobody flushes.
abbrev reopening : List Event
reopening = stalling ++ link_up "node-a" ∷ []

owing-reopening :
    (owing_in options bytes reopening new_core never "node-a" ≡ true)
    × (owing_in options bytes (reopening ++ flushing "node-a" ∷ []) new_core never "node-a" ≡ false)
unfolding owing_in step accept_link can_accept_peer register_peer replace_existing new_peer put_peer
    output link_stalled link_opened send enqueue_frame is_drop resolve_backpressure
    flush_outbound_queue drain_items flush_peer create_runtime_transport_frame find put
owing-reopening = (refl, refl)

-- A frame is on its way when the node connects again; then its send succeeds.
abbrev reconnecting : List Event
reconnecting =
    linked 1 true alpha 0
    ∷ sending "node-a" greeting noon
    ∷ sending "node-a" greeting noon
    ∷ linked 2 true alpha 20
    ∷ closed_send_over 0 true
    ∷ []

run-IsAccountable_example : IsAccountable (run options bytes reconnecting new_core)
unfolding have_new_links has_new_link is_new_link run step accept_link can_accept_peer register_peer
    replace_existing new_peer put_peer output send enqueue_frame is_drop resolve_backpressure
    flush_outbound_queue drain_items create_runtime_transport_frame find put erase close_peer
    forget_peer reject_queued_frames reject_item settle closed_send_ended sent_by_closed flight_of
    without_flight
run-IsAccountable_example = run-IsAccountable options bytes reconnecting refl

abbrev first_peer : Peer
first_peer = record stalled_peer { link_open = true; sequence = 0; outbound_queue = [] }

abbrev connected : Core
connected = record new_core { peers = ("node-a", first_peer) ∷ []; peer_ids = 1 }

handle_inbound_payload_once_example :
    let f = create_runtime_transport_frame alpha beta none 1 greeting "noon" in
    let s1 = handle_inbound_payload options "node-a" 1 (of_frame f) noon connected in
    let s2 = handle_inbound_payload options "node-a" 1 (of_frame f) noon s1 in
    let ack = acked 1 (create_runtime_transport_ack_frame beta alpha f.message_id 1 "noon") in
    (s1.outputs ≡ (connected.outputs ++ ack ∷ []) ++ emitted "node-a" greeting ∷ [])
    × (s2.outputs ≡ s1.outputs ++ ack ∷ [])
unfolding is_valid_identity is_blank is_white_space is_non_blank find has includes last
handle_inbound_payload_once_example =
    handle_inbound_payload_once options connected first_peer alpha 1 greeting "noon" noon noon []
      refl (refl, refl, refl, refl) refl refl
      (record {
        positive = ground arith;
        window = refl;
        distinct = tt;
        nonempty = tt;
        agrees = λ x. refl;
      })
      refl

abbrev waiting : Core
waiting =
    let p = record stalled_peer {
      outbound_queue =
          record {
            frame = create_runtime_transport_frame beta alpha none 1 greeting "noon";
            promise = 0;
            track_ack = false;
          }
          ∷ [];
    } in
    record new_core { peers = ("node-a", p) ∷ []; peer_ids = 1; promises = 1 }

accept_link-disconnects_example :
    let s' = accept_link options 2 true alpha 20 waiting in
    (find s'.peers "node-a" ≡ some (new_peer options 1 2 true alpha 20))
    × (find (microtask s').peers "node-a" ≡ none)
unfolding find waits_again
accept_link-disconnects_example =
    accept_link-disconnects options waiting _ 2 true alpha 20 refl refl refl refl refl
