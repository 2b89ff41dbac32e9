-- ===== src/Transport/Contract.antt =====
-- What nodes send each other, and how it is validated where it arrives: packages/
-- actor-core-runtime/src/runtime-transport-contract.ts. A value of one of its types is also a
-- JavaScript object, here by `of_identity`, `of_frame` and the like. The times that `now()` gives
-- are texts, arguments of the functions.
pub mod Shapes
pub mod Frames
pub mod Reading
pub mod Sound
pub mod Delivery
pub mod Handshake
pub mod Connecting
mod Examples
use actor_web.Common.{
  ℕ, Bool, true, false, not, ◌&&◌, ◌||◌, List, [], ◌∷◌, Option, none, some, String, ltb,
  if◌then◌else◌, same, Dict,
}
use actor_web.Transport.Identity.{RuntimeNodeIdentity, create_runtime_transport_message_id}
use actor_web.Transport.Reliability.{ℤ}
use actor_web.Transport.Values.{
  Value, undefined, null, boolean, number, text, array, object, Items, empty, item, Fields, bare,
  field, integer, get, is_record, is_text, is_the_text, is_undefined, is_non_empty_string,
  has_string_array, has_string_record, is_natural, normalize_runtime_transport_max_frame_bytes,
}

abbrev pub runtime_transport_protocol_version : String
runtime_transport_protocol_version = "actor-web-runtime/1"

pub data RejectCode : Type 0 where
  missing_identity self_connection incompatible_protocol malformed_frame unauthorized : RejectCode
  payload_too_large : RejectCode

-- A message for people: a fixed text, or a text with `String(value)` and a full stop after it.
pub data Message : Type 0 where
  saying : String → Message
  quoting : String → Value → Message

pub data ValidationResult : Type 0 where
  ok : ValidationResult
  failed : RejectCode → Message → ValidationResult

-- `if (!test) { return { ok: false, code, message }; }`, and then the checks that follow.
infixr 3 ◌then_check◌
unfoldable pub ◌then_check◌ : ValidationResult → ValidationResult → ValidationResult
ok then_check next = next
failed code message then_check next = failed code message

unfoldable pub require : Bool → RejectCode → Message → ValidationResult
require true code message = ok
require false code message = failed code message

unfoldable pub require_protocol : Value → ValidationResult
require_protocol version =
    require (is_the_text runtime_transport_protocol_version version) incompatible_protocol
      (quoting "Unsupported runtime protocol version: " version)

unfoldable pub validate_runtime_auth_payload : Value → ValidationResult
validate_runtime_auth_payload value =
    require (is_record value) malformed_frame (saying "Runtime auth payload must be an object.")
    then_check require
        (is_undefined (get value "scheme") || is_non_empty_string (get value "scheme"))
        malformed_frame (saying "Runtime auth payload scheme must be a non-empty string.")
    then_check require (is_undefined (get value "token") || is_text (get value "token"))
        malformed_frame (saying "Runtime auth payload token must be a string.")
    then_check require
        (is_undefined (get value "metadata") || has_string_record (get value "metadata"))
        malformed_frame (saying "Runtime auth payload metadata must be a string record.")

unfoldable pub validate_runtime_node_identity : Value → ValidationResult
validate_runtime_node_identity value =
    require (is_record value) missing_identity (saying "Runtime node identity must be an object.")
    then_check require
        (is_non_empty_string (get value "nodeAddress")
          && is_non_empty_string (get value "nodeId")
          && is_non_empty_string (get value "incarnation"))
        missing_identity
        (saying "Runtime node identity requires nodeAddress, nodeId, and incarnation.")
    then_check require_protocol (get value "protocolVersion")
    then_check require
        (is_undefined (get value "capabilities") || has_string_array (get value "capabilities"))
        malformed_frame (saying "Runtime node identity capabilities must be strings.")

-- `isSameRuntimeNodeIdentity`, of a value that was validated.
unfoldable pub value_is_same : Value → RuntimeNodeIdentity → Bool
unfolding get is_the_text
value_is_same value right =
    is_the_text right.node_id (get value "nodeId")
    && is_the_text right.incarnation (get value "incarnation")

-- `localIdentity && !isSame…(value, localIdentity)` must not hold.
unfoldable pub is_local : Value → Option RuntimeNodeIdentity → Bool
unfolding value_is_same
is_local value none = true
is_local value (some local) = value_is_same value local

unfoldable pub is_other : Value → Option RuntimeNodeIdentity → Bool
unfolding value_is_same
is_other value none = true
is_other value (some local) = not (value_is_same value local)

unfoldable pub validate_runtime_transport_handshake :
    Value → Option RuntimeNodeIdentity → ValidationResult
validate_runtime_transport_handshake frame local_identity =
    require (is_record frame && is_non_empty_string (get frame "type")) malformed_frame
      (saying "Runtime handshake frame must be an object with a type field.")
    then_check require_protocol (get frame "protocolVersion")
    then_check require
        (is_the_text "runtime.handshake.hello" (get frame "type")
          || is_the_text "runtime.handshake.accept" (get frame "type")
          || is_the_text "runtime.handshake.reject" (get frame "type"))
        malformed_frame (quoting "Unsupported runtime handshake type: " (get frame "type"))
    then_check require (is_non_empty_string (get frame "sentAt")) malformed_frame
        (saying "Runtime handshake frame requires sentAt.")
    then_check (if is_the_text "runtime.handshake.reject" (get frame "type")
        then require
            (is_non_empty_string (get frame "code") && is_non_empty_string (get frame "message"))
            malformed_frame (saying "Runtime handshake reject requires code and message.")
        else (validate_runtime_node_identity (get frame "source")
            then_check require (is_other (get frame "source") local_identity) self_connection
                (saying "Runtime handshake cannot connect a node to itself.")
            then_check (if is_the_text "runtime.handshake.accept" (get frame "type")
                then (validate_runtime_node_identity (get frame "destination")
                    then_check require (is_local (get frame "destination") local_identity)
                        malformed_frame
                        (saying
                          "Runtime handshake accept destination does not match the local node."))
                else ok)
            then_check (if is_undefined (get frame "auth")
                then ok
                else validate_runtime_auth_payload (get frame "auth"))))
