-- ===== src/Transport/Contract/Frames.antt =====
-- The validators of frames, heartbeats and acks: packages/actor-core-runtime/src/
-- runtime-transport-contract.ts.
use actor_web.Common.{◌&&◌, ◌||◌, Option}
use actor_web.Transport.Identity.{RuntimeNodeIdentity}
use actor_web.Transport.Values.{Value, get, is_record, is_the_text, is_non_empty_string, is_natural}
use actor_web.Transport.Contract.{
  ValidationResult, ◌then_check◌, require, require_protocol, malformed_frame, saying, quoting,
  is_local, validate_runtime_node_identity,
}

unfoldable pub validate_runtime_transport_frame :
    Value → Option RuntimeNodeIdentity → ValidationResult
validate_runtime_transport_frame frame local_identity =
    require (is_record frame) malformed_frame (saying "Runtime transport frame must be an object.")
    then_check require_protocol (get frame "protocolVersion")
    then_check validate_runtime_node_identity (get frame "source")
    then_check validate_runtime_node_identity (get frame "destination")
    then_check require (is_local (get frame "destination") local_identity) malformed_frame
        (saying "Runtime transport frame destination does not match the local node.")
    then_check require (is_natural (get frame "sequence")) malformed_frame
        (saying "Runtime transport frame sequence must be a non-negative integer.")
    then_check require (is_non_empty_string (get frame "messageId")) malformed_frame
        (saying "Runtime transport frame requires a messageId.")
    then_check require (is_non_empty_string (get frame "sentAt")) malformed_frame
        (saying "Runtime transport frame requires sentAt.")
    then_check require
        (is_record (get frame "message") && is_non_empty_string (get (get frame "message") "type"))
        malformed_frame (saying "Runtime transport frame requires an actor message with a type.")

unfoldable pub validate_runtime_transport_heartbeat_frame :
    Value → Option RuntimeNodeIdentity → ValidationResult
validate_runtime_transport_heartbeat_frame frame local_identity =
    require (is_record frame) malformed_frame
      (saying "Runtime transport heartbeat frame must be an object.")
    then_check require
        (is_the_text "runtime.transport.ping" (get frame "type")
          || is_the_text "runtime.transport.pong" (get frame "type"))
        malformed_frame
        (quoting "Unsupported runtime transport heartbeat type: " (get frame "type"))
    then_check require_protocol (get frame "protocolVersion")
    then_check validate_runtime_node_identity (get frame "source")
    then_check validate_runtime_node_identity (get frame "destination")
    then_check require (is_local (get frame "destination") local_identity) malformed_frame
        (saying "Runtime transport heartbeat destination does not match the local node.")
    then_check require (is_non_empty_string (get frame "sentAt")) malformed_frame
        (saying "Runtime transport heartbeat frame requires sentAt.")

unfoldable pub validate_runtime_transport_ack_frame :
    Value → Option RuntimeNodeIdentity → ValidationResult
validate_runtime_transport_ack_frame frame local_identity =
    require (is_record frame) malformed_frame
      (saying "Runtime transport ack frame must be an object.")
    then_check require (is_the_text "runtime.transport.ack" (get frame "type")) malformed_frame
        (saying "Runtime transport ack frame requires type runtime.transport.ack.")
    then_check require_protocol (get frame "protocolVersion")
    then_check validate_runtime_node_identity (get frame "source")
    then_check validate_runtime_node_identity (get frame "destination")
    then_check require (is_local (get frame "destination") local_identity) malformed_frame
        (saying "Runtime transport ack destination does not match the local node.")
    then_check require (is_non_empty_string (get frame "messageId")) malformed_frame
        (saying "Runtime transport ack requires a messageId.")
    then_check require (is_natural (get frame "sequence")) malformed_frame
        (saying "Runtime transport ack sequence must be a non-negative integer.")
    then_check require (is_non_empty_string (get frame "sentAt")) malformed_frame
        (saying "Runtime transport ack requires sentAt.")
