-- ===== src/Transport/Core.antt =====
-- The peers of a transport: packages/actor-core-runtime/src/transport/transport-core.ts. This file
-- has the state, and how peers come and go; the children send and receive. Promises, links and
-- peer objects are numbers. What the transport does to the world is listed in `outputs`.
-- Statistics, telemetry and the raw handshake of a channel are left out.
pub mod Outbound
pub mod Inbound
pub mod Runs
pub mod Served
pub mod Service
pub mod ServedInbound
pub mod ServedRuns
pub mod Receipt
pub mod Reconnection
pub mod Load
pub mod Accounts
pub mod AccountRuns
pub mod Promises
mod Examples
use actor_web.Common.{
  ℕ, ◌+◌, Bool, true, false, not, List, [], ◌∷◌, ◌++◌, Option, none, some, String, ◌==◌,
  if◌then◌else◌, given, same, Dict, find, put, erase,
}
use actor_web.Transport.Identity.{RuntimeNodeIdentity}
use actor_web.Transport.Reliability.{ℤ, AckRetryConfig, AckRetryState}
use actor_web.Transport.Idempotency.{FrontCache, new_cache}
use actor_web.Transport.Contract.Shapes.{ActorMessage, Frame, AckFrame, HeartbeatFrame}

pub record Options : Type 0 where
  pub identity : RuntimeNodeIdentity
  pub heartbeat_interval_ms : ℕ
  pub heartbeat_timeout_ms : ℕ
  pub idempotency_window_size : ℕ
  pub ack : AckRetryConfig
  pub outbound_queue_limit : ℤ
  pub max_frame_bytes : ℕ

pub record PendingAck : Type 0 where
  pub frame : Frame
  pub retries : AckRetryState

pub record OutboundQueueItem : Type 0 where
  pub frame : Frame
  pub promise : ℕ
  pub track_ack : Bool

-- `link_open` is `link.isOpen`, and `in_flight` the item whose `link.send` is awaited. The timers are told as running
-- or not.
pub record Peer : Type 0 where
  pub id : ℕ
  pub link : ℕ
  pub link_open : Bool
  pub identity : RuntimeNodeIdentity
  pub sequence : ℕ
  pub last_received_sequence : ℕ
  pub idempotency_cache : FrontCache
  pub pending_acks : Dict PendingAck
  pub outbound_queue : List OutboundQueueItem
  pub outbound_flushing : Bool
  pub in_flight : Option OutboundQueueItem
  pub last_seen_at : ℕ
  pub heartbeat_interval : Bool
  pub heartbeat_timeout : Bool

pub data Output : Type 0 where
  transmitted : ℕ → Frame → Output
  acked : ℕ → AckFrame → Output
  beaten : ℕ → HeartbeatFrame → Output
  emitted : String → ActorMessage → Output
  emitted_connected emitted_disconnected : String → Output
  closed_link : ℕ → Output

pub data Settlement : Type 0 where
  resolved rejected : Settlement

-- A send that is awaited on behalf of a peer that is no longer registered.
pub record Flight : Type 0 where
  pub peer_id : ℕ
  pub address : String
  pub item : OutboundQueueItem

-- `disconnects` holds the addresses of the `disconnect` calls that wait in the `catch` of a frame
-- that was sent again.
pub record Core : Type 0 where
  pub peers : Dict Peer
  pub flights : List Flight
  pub peer_ids : ℕ
  pub promises : ℕ
  pub settled : List (ℕ × Settlement)
  pub outputs : List Output
  pub disconnects : List String

abbrev pub new_core : Core
new_core = record {
  peers = [];
  flights = [];
  peer_ids = 0;
  promises = 0;
  settled = [];
  outputs = [];
  disconnects = [];
}

unfoldable pub settle : Settlement → ℕ → Core → Core
settle how promise s = record s { settled = (promise, how) ∷ s.settled }

unfoldable pub output : Output → Core → Core
output x s = record s { outputs = s.outputs ++ x ∷ [] }

-- A rejected promise. That of a frame sent again has a `catch`, which will disconnect the address.
unfoldable pub reject_item : String → OutboundQueueItem → Core → Core
unfolding settle
reject_item address item s =
    let s' = settle rejected item.promise s in
    if item.track_ack then s' else record s' { disconnects = s'.disconnects ++ address ∷ [] }

unfoldable pub reject_queued_frames : String → List OutboundQueueItem → Core → Core
unfolding reject_item
reject_queued_frames address [] s = s
reject_queued_frames address (item ∷ items) s =
    reject_queued_frames address items (reject_item address item s)

unfoldable pub put_peer : String → Peer → Core → Core
put_peer address p s = record s { peers = put s.peers address p }

-- The peer object leaves the map; a send of it that is awaited goes on.
unfoldable pub forget_peer : String → Peer → Core → Core
forget_peer address p s = record s {
  peers = erase s.peers address;
  flights =
      given p.in_flight (s.flights)
        (λ item. record { peer_id = p.id; address = address; item = item } ∷ s.flights);
}

unfoldable pub close_peer : String → Peer → Bool → Core → Core
unfolding reject_queued_frames forget_peer output
close_peer address p emit_disconnected s =
    let s1 = reject_queued_frames address p.outbound_queue s in
    let s2 = output (closed_link p.link) (forget_peer address p s1) in
    if emit_disconnected then output (emitted_disconnected address) s2 else s2

unfoldable pub disconnect : String → Core → Core
unfolding close_peer
disconnect address s = given (find s.peers address) s (λ p. close_peer address p true s)

unfoldable pub stop : List String → Core → Core
unfolding close_peer
stop [] s = s
stop (address ∷ addresses) s =
    stop addresses (given (find s.peers address) s (λ p. close_peer address p false s))

unfoldable pub handle_peer_closed : String → ℕ → Core → Core
unfolding close_peer
handle_peer_closed address link s =
    given (find s.peers address) s (λ p. if p.link == link then close_peer address p true s else s)

unfoldable pub can_accept_peer : RuntimeNodeIdentity → Core → Bool
can_accept_peer identity s =
    given (find s.peers identity.node_address) (true)
      (λ p. same p.identity.node_id identity.node_id)

-- The peer registered before is closed, unless the same link comes a second time.
unfoldable pub replace_existing : String → ℕ → Core → Core
unfolding close_peer forget_peer
replace_existing address link s =
    given (find s.peers address) s
      (λ p. if p.link == link then forget_peer address p s else close_peer address p false s)

unfoldable pub new_peer : Options → ℕ → ℕ → Bool → RuntimeNodeIdentity → ℕ → Peer
unfolding new_cache
new_peer o id link link_open identity now = record {
  id = id;
  link = link;
  link_open = link_open;
  identity = identity;
  sequence = 0;
  last_received_sequence = 0;
  idempotency_cache = new_cache o.idempotency_window_size;
  pending_acks = [];
  outbound_queue = [];
  outbound_flushing = false;
  in_flight = none;
  last_seen_at = now;
  heartbeat_interval = not (o.heartbeat_interval_ms == 0);
  heartbeat_timeout = false;
}

unfoldable pub register_peer : Options → ℕ → Bool → RuntimeNodeIdentity → ℕ → Core → Core
unfolding replace_existing new_peer put_peer output
register_peer o link link_open identity now s =
    let s1 = replace_existing identity.node_address link s in
    let s2 =
      put_peer identity.node_address (new_peer o s1.peer_ids link link_open identity now)
        (record s1 { peer_ids = s1.peer_ids + 1 }) in
    output (emitted_connected identity.node_address) s2

-- What `connect` and `acceptInboundLink` do with a link whose handshake is done.
unfoldable pub accept_link : Options → ℕ → Bool → RuntimeNodeIdentity → ℕ → Core → Core
unfolding can_accept_peer register_peer output
accept_link o link link_open identity now s =
    if can_accept_peer identity s
    then register_peer o link link_open identity now s
    else output (closed_link link) s

unfoldable pub is_connected : String → Core → Bool
is_connected address s = given (find s.peers address) (false) (λ p. p.link_open)

-- The medium of a link stops to accept sends.
unfoldable pub link_stalled : String → Core → Core
unfolding put_peer
link_stalled address s =
    given (find s.peers address) s (λ p. put_peer address (record p { link_open = false }) s)

-- The medium of a link accepts sends again: `isOpen` changes, and nothing else happens.
unfoldable pub link_opened : String → Core → Core
unfolding put_peer
link_opened address s =
    given (find s.peers address) s (λ p. put_peer address (record p { link_open = true }) s)
