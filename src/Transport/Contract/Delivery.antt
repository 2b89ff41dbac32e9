-- ===== src/Transport/Contract/Delivery.antt =====
-- What a node builds for another is accepted there: packages/actor-core-runtime/src/
-- runtime-transport-contract.ts.
use Prim.Native.String.{◌++◌, [], ◌∷◌}
use package.text.Mathlib.TextLemmas.{nil-append, cons-append}
use actor_web.Common.{
  ℕ, Bool, true, false, not, ◌&&◌, ◌||◌, List, Option, none, some, String, arith, ◌≡◌, refl, ◌∙◌,
  ap, if◌then◌else◌,
}
use actor_web.Common.Text.{join}
use actor_web.Transport.Identity.{
  RuntimeNodeIdentity, is_same_runtime_node_identity, create_runtime_transport_message_id,
}
use actor_web.Transport.Values.{
  Value, text, array, bare, get, is_blank, is_the_text, is_undefined, is_non_empty_string,
  every_non_empty_string, has_string_array, is_natural, is_record, get_field,
}
use actor_web.Transport.Contract.{
  RejectCode, Message, ok, failed, malformed_frame, saying, ◌then_check◌, require, require_protocol,
  value_is_same, is_local, validate_runtime_node_identity,
}
use actor_web.Transport.Contract.Shapes.{
  Frame, ActorMessage, of_texts, of_identity, of_message, of_frame, of_ack, of_heartbeat, beat_type,
  Beat, ping, pong, optional, create_runtime_transport_frame, create_runtime_transport_ack_frame,
  create_runtime_transport_heartbeat, or_else,
}
use actor_web.Transport.Contract.Frames.{
  validate_runtime_transport_frame, validate_runtime_transport_ack_frame,
  validate_runtime_transport_heartbeat_frame,
}
use actor_web.Transport.Contract.Reading.{
  read_text, read_natural, read_items, read_texts, read_identity, read_message, read_frame,
  none_blank, is_non_blank, is_valid_identity, without_field,
}

every_non_empty_string-of_texts :
    (ss : List String) → every_non_empty_string (of_texts ss) ≡ none_blank ss
unfolding every_non_empty_string of_texts none_blank is_non_empty_string
every_non_empty_string-of_texts List.[] = refl
every_non_empty_string-of_texts (List.◌∷◌ s ss) =
    ap (λ b. not (is_blank s) && b) (every_non_empty_string-of_texts ss)

read_items-of_texts : (ss : List String) → read_items (of_texts ss) ≡ some ss
unfolding read_items of_texts read_text
read_items-of_texts List.[] = refl
read_items-of_texts (List.◌∷◌ s ss) = rw (read_items-of_texts ss) refl

abbrev capabilities_field : Option (List String) → Value
capabilities_field c =
    get_field (optional "capabilities" (λ ss. array (of_texts ss)) c bare) "capabilities"

read_texts-capabilities : (c : Option (List String)) → read_texts (capabilities_field c) ≡ some c
unfolding get_field optional read_texts
read_texts-capabilities none = refl
read_texts-capabilities (some ss) = rw (read_items-of_texts ss) refl

read_identity-of_identity : (i : RuntimeNodeIdentity) → read_identity (of_identity i) ≡ some i
unfolding read_identity of_identity get get_field read_text
read_identity-of_identity i = rw (read_texts-capabilities i.capabilities) refl

read_frame-of_frame : (f : Frame) → read_frame (of_frame f) ≡ some f
unfolding read_frame of_frame of_message get get_field read_text read_natural read_message
    without_field
read_frame-of_frame f =
    rw (read_identity-of_identity f.source, read_identity-of_identity f.destination) refl

capabilities_ok :
    (c : Option (List String))
    → is_non_blank c ≡ true
    → (is_undefined (capabilities_field c) || has_string_array (capabilities_field c)) ≡ true
unfolding get_field optional is_undefined has_string_array is_non_blank
capabilities_ok none h = refl
capabilities_ok (some ss) h = every_non_empty_string-of_texts ss ∙ h

pub identity_ok :
    (i : RuntimeNodeIdentity)
    → is_valid_identity i ≡ true
    → validate_runtime_node_identity (of_identity i) ≡ ok
unfolding validate_runtime_node_identity is_valid_identity of_identity get get_field is_record
    is_non_empty_string require require_protocol ◌then_check◌ is_the_text
identity_ok i h = ground (arith, h, capabilities_ok i.capabilities)

pub value_is_same-of_identity :
    (i r : RuntimeNodeIdentity)
    → value_is_same (of_identity i) r ≡ is_same_runtime_node_identity i r
unfolding value_is_same of_identity get get_field is_the_text is_same_runtime_node_identity
value_is_same-of_identity i r = refl

is_blank-append : (s t : String) → is_blank (s ++ t) ≡ (is_blank s && is_blank t)
unfolding is_blank
is_blank-append [] t = ap is_blank (nil-append t)
is_blank-append (c ∷ s) t = ap is_blank (cons-append c s t) ∙ ground (arith, is_blank-append s t)

pub is_blank-create_runtime_transport_message_id :
    (s d : RuntimeNodeIdentity) (n : ℕ)
    → is_blank s.node_address ≡ false
    → is_blank (create_runtime_transport_message_id s d n) ≡ false
unfolding create_runtime_transport_message_id join
is_blank-create_runtime_transport_message_id s d n h = is_blank-append s.node_address _ ∙ rw h refl

pub addressed :
    (i : RuntimeNodeIdentity) → is_valid_identity i ≡ true → is_blank i.node_address ≡ false
unfolding is_valid_identity
addressed i h = ground (arith, h)

-- A last check that is known to pass.
pub check_then_ok :
    (b : Bool) (c : RejectCode) (m : Message)
    → (require b c m then_check ok) ≡ (if b then ok else failed c m)
unfolding require ◌then_check◌
check_then_ok true c m = refl
check_then_ok false c m = refl

module _ (source destination local : RuntimeNodeIdentity) (from : is_valid_identity source ≡ true)
    (to : is_valid_identity destination ≡ true) (now : String) (timed : is_blank now ≡ false) where
  frame_verdict :
      (n : ℕ) (m : ActorMessage)
      → is_blank m.message_type ≡ false
      → validate_runtime_transport_frame
          (of_frame (create_runtime_transport_frame source destination none n m now))
          (some local)
        ≡ (if is_same_runtime_node_identity destination local
            then ok
            else failed malformed_frame
                (saying "Runtime transport frame destination does not match the local node."))
  unfolding validate_runtime_transport_frame create_runtime_transport_frame or_else of_frame
      of_message get get_field is_record is_natural require require_protocol ◌then_check◌
      is_the_text is_local is_non_empty_string
  frame_verdict n m typed =
      rw
        (
          identity_ok source from,
          identity_ok destination to,
          value_is_same-of_identity destination local,
          is_blank-create_runtime_transport_message_id source destination n (addressed source from),
          timed,
          typed,
        )
        (check_then_ok _ _ _)

  ack_verdict :
      (id : String) (n : ℕ)
      → is_blank id ≡ false
      → validate_runtime_transport_ack_frame
          (of_ack (create_runtime_transport_ack_frame source destination id n now))
          (some local)
        ≡ (if is_same_runtime_node_identity destination local
            then ok
            else failed malformed_frame
                (saying "Runtime transport ack destination does not match the local node."))
  unfolding validate_runtime_transport_ack_frame create_runtime_transport_ack_frame of_ack get
      get_field is_record is_natural require require_protocol ◌then_check◌ is_the_text is_local
      is_non_empty_string
  ack_verdict id n named =
      rw
        (
          identity_ok source from,
          identity_ok destination to,
          value_is_same-of_identity destination local,
          named,
          timed,
        )
        (check_then_ok _ _ _)

  heartbeat_verdict :
      (beat : Beat)
      → validate_runtime_transport_heartbeat_frame
          (of_heartbeat (create_runtime_transport_heartbeat beat source destination now))
          (some local)
        ≡ (if is_same_runtime_node_identity destination local
            then ok
            else failed malformed_frame
                (saying "Runtime transport heartbeat destination does not match the local node."))
  unfolding validate_runtime_transport_heartbeat_frame create_runtime_transport_heartbeat
      of_heartbeat get get_field is_record require require_protocol ◌then_check◌ is_the_text
      is_local is_non_empty_string beat_type
  heartbeat_verdict ping =
      rw
        (
          identity_ok source from,
          identity_ok destination to,
          value_is_same-of_identity destination local,
          timed,
        )
        (check_then_ok _ _ _)
  heartbeat_verdict pong =
      rw
        (
          identity_ok source from,
          identity_ok destination to,
          value_is_same-of_identity destination local,
          timed,
        )
        (check_then_ok _ _ _)

-- What a node builds for another, with valid identities of both, a message whose type is not
-- blank and a time that is not blank: its frame (with the id that it makes), an ack with such an
-- id, a ping and a pong are accepted by a node exactly if the destination's node id and
-- incarnation are the node's own, and refused as malformed otherwise; and the frame reads at the
-- other end as the frame that was built.
pub create_runtime_transport_frame-delivers :
    (source destination local : RuntimeNodeIdentity) (n : ℕ) (m : ActorMessage) (beat : Beat)
    (now : String)
    → is_valid_identity source ≡ true
    → is_valid_identity destination ≡ true
    → is_blank now ≡ false
    → is_blank m.message_type ≡ false
    → (validate_runtime_transport_frame
          (of_frame (create_runtime_transport_frame source destination none n m now))
          (some local)
        ≡ (if is_same_runtime_node_identity destination local
            then ok
            else failed malformed_frame
                (saying "Runtime transport frame destination does not match the local node.")))
      × (validate_runtime_transport_ack_frame
            (of_ack (
              create_runtime_transport_ack_frame source destination
                (create_runtime_transport_message_id source destination n)
                n
                now))
            (some local)
          ≡ (if is_same_runtime_node_identity destination local
              then ok
              else failed malformed_frame
                  (saying "Runtime transport ack destination does not match the local node.")))
      × (validate_runtime_transport_heartbeat_frame
            (of_heartbeat (create_runtime_transport_heartbeat beat source destination now))
            (some local)
          ≡ (if is_same_runtime_node_identity destination local
              then ok
              else failed malformed_frame (
                  saying "Runtime transport heartbeat destination does not match the local node.")))
      × (read_frame (of_frame (create_runtime_transport_frame source destination none n m now))
          ≡ some (create_runtime_transport_frame source destination none n m now))
create_runtime_transport_frame-delivers source destination local n m beat now from to timed typed =
    (
      frame_verdict source destination local from to now timed n m typed,
      ack_verdict source destination local from to now timed _ n (
          is_blank-create_runtime_transport_message_id source destination n
            (addressed source from)),
      heartbeat_verdict source destination local from to now timed beat,
      read_frame-of_frame _,
    )
