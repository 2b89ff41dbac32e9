-- ===== src/Transport/Contract/Shapes.antt =====
-- The frames, acks and heartbeats that nodes build, and the same as values: packages/
-- actor-core-runtime/src/runtime-transport-contract.ts.
use actor_web.Common.{ℕ, List, [], ◌∷◌, Option, none, some, String}
use actor_web.Transport.Identity.{RuntimeNodeIdentity, create_runtime_transport_message_id}
use actor_web.Transport.Reliability.{ℤ}
use actor_web.Transport.Values.{
  Value, number, text, array, object, Items, empty, item, Fields, bare, field, integer,
}
use actor_web.Transport.Contract.{runtime_transport_protocol_version}

-- A message of an actor: its type, and its other fields.
pub record ActorMessage : Type 0 where
  pub message_type : String
  pub payload : Fields

pub record Frame : Type 0 where
  pub protocol_version : String
  pub source : RuntimeNodeIdentity
  pub destination : RuntimeNodeIdentity
  pub message_id : String
  pub sequence : ℕ
  pub sent_at : String
  pub message : ActorMessage

pub record AckFrame : Type 0 where
  pub protocol_version : String
  pub source : RuntimeNodeIdentity
  pub destination : RuntimeNodeIdentity
  pub message_id : String
  pub sequence : ℕ
  pub sent_at : String

pub data Beat : Type 0 where
  ping pong : Beat

pub record HeartbeatFrame : Type 0 where
  pub beat : Beat
  pub protocol_version : String
  pub source : RuntimeNodeIdentity
  pub destination : RuntimeNodeIdentity
  pub sent_at : String

-- `createRuntimeNodeIdentity`, of an input with no version of its own.
unfoldable pub create_runtime_node_identity :
    String → String → String → Option (List String) → RuntimeNodeIdentity
create_runtime_node_identity node_address node_id incarnation capabilities = record {
  node_address = node_address;
  node_id = node_id;
  incarnation = incarnation;
  protocol_version = runtime_transport_protocol_version;
  capabilities = capabilities;
}

unfoldable pub or_else {ℓ} : {A : Type ℓ} → Option A → A → A
or_else none a = a
or_else (some a) b = a

unfoldable pub create_runtime_transport_frame :
    RuntimeNodeIdentity → RuntimeNodeIdentity → Option String → ℕ → ActorMessage → String → Frame
unfolding or_else
create_runtime_transport_frame source destination message_id sequence message now = record {
  protocol_version = runtime_transport_protocol_version;
  source = source;
  destination = destination;
  message_id = or_else message_id (create_runtime_transport_message_id source destination sequence);
  sequence = sequence;
  sent_at = now;
  message = message;
}

unfoldable pub create_runtime_transport_ack_frame :
    RuntimeNodeIdentity → RuntimeNodeIdentity → String → ℕ → String → AckFrame
create_runtime_transport_ack_frame source destination message_id sequence now = record {
  protocol_version = runtime_transport_protocol_version;
  source = source;
  destination = destination;
  message_id = message_id;
  sequence = sequence;
  sent_at = now;
}

-- `createRuntimeTransportHeartbeatPing` and `createRuntimeTransportHeartbeatPong`
unfoldable pub create_runtime_transport_heartbeat :
    Beat → RuntimeNodeIdentity → RuntimeNodeIdentity → String → HeartbeatFrame
create_runtime_transport_heartbeat beat source destination now = record {
  beat = beat;
  protocol_version = runtime_transport_protocol_version;
  source = source;
  destination = destination;
  sent_at = now;
}

-- A field that is left out if there is nothing to say in it.
unfoldable pub optional {ℓ} : {A : Type ℓ} → String → (A → Value) → Option A → Fields → Fields
optional key encode none fs = fs
optional key encode (some a) fs = field key (encode a) fs

unfoldable pub of_texts : List String → Items
of_texts [] = empty
of_texts (s ∷ ss) = item (text s) (of_texts ss)

unfoldable pub of_identity : RuntimeNodeIdentity → Value
unfolding of_texts optional
of_identity i = object (
    field "nodeAddress" (text i.node_address) (
      field "nodeId" (text i.node_id) (
        field "incarnation" (text i.incarnation) (
          field "protocolVersion" (text i.protocol_version)
            (optional "capabilities" (λ ss. array (of_texts ss)) i.capabilities bare)))))

abbrev pub natural : ℕ → Value
natural n = number (integer (ℤ.pos n))

unfoldable pub of_message : ActorMessage → Value
of_message m = object (field "type" (text m.message_type) m.payload)

unfoldable pub of_frame : Frame → Value
unfolding of_identity of_message
of_frame f = object (
    field "protocolVersion" (text f.protocol_version) (
      field "source" (of_identity f.source) (
        field "destination" (of_identity f.destination) (
          field "messageId" (text f.message_id) (
            field "sequence" (natural f.sequence)
              (field "sentAt" (text f.sent_at) (field "message" (of_message f.message) bare)))))))

unfoldable pub of_ack : AckFrame → Value
unfolding of_identity
of_ack f = object (
    field "type" (text "runtime.transport.ack") (
      field "protocolVersion" (text f.protocol_version) (
        field "source" (of_identity f.source) (
          field "destination" (of_identity f.destination) (
            field "messageId" (text f.message_id)
              (field "sequence" (natural f.sequence) (field "sentAt" (text f.sent_at) bare)))))))

unfoldable pub beat_type : Beat → String
beat_type ping = "runtime.transport.ping"
beat_type pong = "runtime.transport.pong"

unfoldable pub of_heartbeat : HeartbeatFrame → Value
unfolding of_identity beat_type
of_heartbeat f = object (
    field "type" (text (beat_type f.beat)) (
      field "protocolVersion" (text f.protocol_version) (
        field "source" (of_identity f.source) (
          field "destination" (of_identity f.destination) (field "sentAt" (text f.sent_at) bare)))))
