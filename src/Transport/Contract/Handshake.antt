-- ===== src/Transport/Contract/Handshake.antt =====
-- The handshakes that nodes build: packages/actor-core-runtime/src/runtime-transport-contract.ts.
use actor_web.Common.{Bool, true, not, [], ◌∷◌, Option, none, some, String, Dict}
use actor_web.Transport.Identity.{RuntimeNodeIdentity}
use actor_web.Transport.Values.{Value, text, object, Fields, bare, field, is_blank}
use actor_web.Transport.Contract.{
  RejectCode, missing_identity, self_connection, incompatible_protocol, malformed_frame,
  unauthorized, payload_too_large, runtime_transport_protocol_version,
}
use actor_web.Transport.Contract.Shapes.{of_identity, optional}

pub record AuthPayload : Type 0 where
  pub scheme : Option String
  pub token : Option String
  pub metadata : Option (Dict String)

pub data Handshake : Type 0 where
  hello : RuntimeNodeIdentity → String → Option AuthPayload → Handshake
  accept : RuntimeNodeIdentity → RuntimeNodeIdentity → String → Option AuthPayload → Handshake
  reject :
      Option RuntimeNodeIdentity
      → Option RuntimeNodeIdentity
      → RejectCode
      → String
      → String
      → Handshake

unfoldable pub code_text : RejectCode → String
code_text missing_identity = "missing_identity"
code_text self_connection = "self_connection"
code_text incompatible_protocol = "incompatible_protocol"
code_text malformed_frame = "malformed_frame"
code_text unauthorized = "unauthorized"
code_text payload_too_large = "payload_too_large"

unfoldable pub of_dict : Dict String → Fields
of_dict [] = bare
of_dict (e ∷ d) = field e.0 (text e.1) (of_dict d)

unfoldable pub of_auth : AuthPayload → Value
unfolding of_dict optional
of_auth a = object (
    optional "scheme" text a.scheme (
      optional "token" text a.token
        (optional "metadata" (λ d. object (of_dict d)) a.metadata bare)))

-- The functions `createRuntimeTransportHandshakeHello`, `…Accept` and `…Reject` build `hello`,
-- `accept` and `reject`; as an object each has the type, the version and the fields given.
unfoldable pub of_handshake : Handshake → Value
unfolding of_identity of_auth code_text optional
of_handshake (hello source now auth) = object (
    field "type" (text "runtime.handshake.hello") (
      field "protocolVersion" (text runtime_transport_protocol_version) (
        field "source" (of_identity source)
          (field "sentAt" (text now) (optional "auth" of_auth auth bare)))))
of_handshake (accept source destination now auth) = object (
    field "type" (text "runtime.handshake.accept") (
      field "protocolVersion" (text runtime_transport_protocol_version) (
        field "source" (of_identity source) (
          field "destination" (of_identity destination)
            (field "sentAt" (text now) (optional "auth" of_auth auth bare))))))
of_handshake (reject source destination code message now) = object (
    field "type" (text "runtime.handshake.reject") (
      field "protocolVersion" (text runtime_transport_protocol_version) (
        optional "source" of_identity source (
          optional "destination" of_identity destination (
            field "code" (text (code_text code))
              (field "message" (text message) (field "sentAt" (text now) bare)))))))

unfoldable pub is_valid_scheme : Option AuthPayload → Bool
unfolding is_blank
is_valid_scheme none = true
is_valid_scheme (some a) = elim a.scheme [ none ↦ true | some s ↦ not (is_blank s) ]
