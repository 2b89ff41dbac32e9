-- ===== src/Transport/Contract/Examples.antt =====
-- Frames between two nodes, and values that are none.
use actor_web.Common.{true, [], ◌∷◌, Option, none, some, ◌≡◌, refl}
use actor_web.Transport.Identity.{
  RuntimeNodeIdentity, is_same_runtime_node_identity, create_runtime_transport_message_id,
}
use actor_web.Transport.Values.{
  text, number, object, field, bare, get, get_field, is_record, is_blank, is_white_space,
  is_the_text, is_undefined, is_non_empty_string, is_natural, has_string_array,
  every_non_empty_string, normalize_runtime_transport_max_frame_bytes, integer, between,
}
use actor_web.Transport.Reliability.{ℤ}
use actor_web.Transport.Contract.{
  ok, failed, malformed_frame, saying, ◌then_check◌, require, require_protocol, value_is_same,
  is_local, validate_runtime_node_identity, validate_runtime_transport_handshake,
  runtime_transport_protocol_version, RejectCode,
}
use actor_web.Transport.Contract.Frames.{
  validate_runtime_transport_frame, validate_runtime_transport_ack_frame,
  validate_runtime_transport_heartbeat_frame,
}
use actor_web.Transport.Contract.Shapes.{
  ActorMessage, Frame, ping, create_runtime_transport_frame, create_runtime_transport_ack_frame,
  create_runtime_transport_heartbeat, of_identity, of_frame, of_message, of_ack, of_heartbeat,
  of_texts, optional,
}
use actor_web.Transport.Contract.Reading.{
  is_valid_identity, is_valid_frame, none_blank, is_non_blank, read_frame,
}
use actor_web.Transport.Contract.Handshake.{
  AuthPayload, hello, accept, reject, of_handshake, is_valid_scheme,
}
use actor_web.Transport.Contract.Sound.{validate_runtime_transport_frame-IsFrame}
use actor_web.Transport.Contract.Delivery.{create_runtime_transport_frame-delivers}
use actor_web.Transport.Contract.Connecting.{validate_runtime_transport_handshake-of_handshake}

abbrev alpha : RuntimeNodeIdentity
alpha = record {
  node_address = "node-a";
  node_id = "a";
  incarnation = "1";
  protocol_version = runtime_transport_protocol_version;
  capabilities = some ("stream" ∷ []);
}

abbrev beta : RuntimeNodeIdentity
beta = record {
  node_address = "node-b";
  node_id = "b";
  incarnation = "4";
  protocol_version = runtime_transport_protocol_version;
  capabilities = none;
}

abbrev hello_message : ActorMessage
hello_message = record { message_type = "HELLO"; payload = field "to" (text "you") bare }

abbrev sent : Frame
sent = record {
  protocol_version = runtime_transport_protocol_version;
  source = alpha;
  destination = beta;
  message_id = "node-a:1:node-b:7";
  sequence = 7;
  sent_at = "2026-01-01T00:00:00.000Z";
  message = hello_message;
}

alpha_valid : is_valid_identity alpha ≡ true
unfolding is_valid_identity is_blank is_white_space is_non_blank none_blank
alpha_valid = refl

beta_valid : is_valid_identity beta ≡ true
unfolding is_valid_identity is_blank is_white_space is_non_blank none_blank
beta_valid = refl

sent_accepted : validate_runtime_transport_frame (of_frame sent) (some beta) ≡ ok
unfolding validate_runtime_transport_frame of_frame of_identity of_message of_texts optional get
    get_field is_record is_natural require require_protocol ◌then_check◌ is_the_text is_local
    value_is_same is_non_empty_string is_blank is_white_space validate_runtime_node_identity
    is_undefined has_string_array every_non_empty_string
sent_accepted = refl

-- A number where the destination's node id should be.
odd_identity_rejected :
    validate_runtime_node_identity
      (object (field "nodeAddress" (text "x") (field "nodeId" (number (integer (ℤ.pos 3))) bare)))
    ≡ failed RejectCode.missing_identity
        (saying "Runtime node identity requires nodeAddress, nodeId, and incarnation.")
unfolding get get_field is_record require ◌then_check◌ is_non_empty_string is_blank is_white_space
    validate_runtime_node_identity
odd_identity_rejected = refl

-- A limit of half a byte is rounded to none at all.
normalize_half : normalize_runtime_transport_max_frame_bytes (number (between (ℤ.pos 0))) ≡ 0
unfolding normalize_runtime_transport_max_frame_bytes
normalize_half = refl

validate_runtime_transport_frame-IsFrame_example :
    (f : Frame) × (read_frame (of_frame sent) ≡ some f)
    × (is_valid_frame f ≡ true)
    × (is_same_runtime_node_identity f.destination beta ≡ true)
validate_runtime_transport_frame-IsFrame_example =
    validate_runtime_transport_frame-IsFrame (of_frame sent) beta sent_accepted

create_runtime_transport_frame-delivers_example :
    (validate_runtime_transport_frame
        (of_frame (create_runtime_transport_frame alpha beta none 7 hello_message "now"))
        (some alpha)
      ≡ failed malformed_frame
          (saying "Runtime transport frame destination does not match the local node."))
    × (validate_runtime_transport_ack_frame
          (of_ack (
            create_runtime_transport_ack_frame alpha beta
              (create_runtime_transport_message_id alpha beta 7)
              7
              "now"))
          (some alpha)
        ≡ failed malformed_frame
            (saying "Runtime transport ack destination does not match the local node."))
    × (validate_runtime_transport_heartbeat_frame
          (of_heartbeat (create_runtime_transport_heartbeat ping alpha beta "now"))
          (some alpha)
        ≡ failed malformed_frame
            (saying "Runtime transport heartbeat destination does not match the local node."))
    × (read_frame (of_frame (create_runtime_transport_frame alpha beta none 7 hello_message "now"))
        ≡ some (create_runtime_transport_frame alpha beta none 7 hello_message "now"))
unfolding is_same_runtime_node_identity is_blank is_white_space
create_runtime_transport_frame-delivers_example =
    create_runtime_transport_frame-delivers alpha beta alpha 7 hello_message ping "now" alpha_valid
      beta_valid refl refl

abbrev token : Option AuthPayload
token = some (record { scheme = none; token = some "secret"; metadata = some (("k", "v") ∷ []) })

validate_runtime_transport_handshake-of_handshake_example :
    (validate_runtime_transport_handshake (of_handshake (hello alpha "now" token)) (some beta) ≡ ok)
    × (validate_runtime_transport_handshake
          (of_handshake (accept alpha beta "now" token))
          (some beta)
        ≡ ok)
    × (validate_runtime_transport_handshake
          (of_handshake (reject none (some alpha) RejectCode.unauthorized "no" "now"))
          (some beta)
        ≡ ok)
unfolding is_same_runtime_node_identity is_blank is_white_space is_valid_scheme
validate_runtime_transport_handshake-of_handshake_example =
    validate_runtime_transport_handshake-of_handshake alpha beta beta token "now" none (some alpha)
      RejectCode.unauthorized "no" alpha_valid beta_valid refl refl refl
