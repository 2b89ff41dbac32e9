-- ===== src/Transport/Contract/Reading.antt =====
-- Reading a value at the type that its validator promises.
use actor_web.Common.{
  ℕ, Bool, true, not, ◌&&◌, List, [], ◌∷◌, Option, none, some, String, same, if◌then◌else◌, ◌>>=◌,
}
use actor_web.Transport.Identity.{RuntimeNodeIdentity}
use actor_web.Transport.Reliability.{ℤ}
use actor_web.Transport.Values.{
  Value, undefined, number, text, array, object, Items, empty, item, Fields, bare, field, integer,
  get, get_field, is_blank,
}
use actor_web.Transport.Contract.{runtime_transport_protocol_version}
use actor_web.Transport.Contract.Shapes.{ActorMessage, Frame}

unfoldable pub read_text : Value → Option String
read_text (text s) = some s
read_text v = none

unfoldable pub read_natural : Value → Option ℕ
read_natural (number (integer (ℤ.pos n))) = some n
read_natural v = none

unfoldable pub read_items : Items → Option (List String)
unfolding read_text
read_items empty = some []
read_items (item v vs) = do s ← read_text v; ss ← read_items vs; some (s ∷ ss)

-- The texts of a field that may be missing.
unfoldable pub read_texts : Value → Option (Option (List String))
unfolding read_items
read_texts undefined = some none
read_texts (array vs) = do ss ← read_items vs; some (some ss)
read_texts v = none

unfoldable pub read_identity : Value → Option RuntimeNodeIdentity
unfolding get read_text read_texts
read_identity v = do
  a ← read_text (get v "nodeAddress")
  n ← read_text (get v "nodeId")
  i ← read_text (get v "incarnation")
  p ← read_text (get v "protocolVersion")
  c ← read_texts (get v "capabilities")
  some (record {
    node_address = a;
    node_id = n;
    incarnation = i;
    protocol_version = p;
    capabilities = c;
  })

unfoldable pub without_field : Fields → String → Fields
without_field bare key = bare
without_field (field k v fs) key = if same k key then fs else field k v (without_field fs key)

unfoldable pub read_message : Value → Option ActorMessage
unfolding get_field read_text without_field
read_message (object fs) = do
  t ← read_text (get_field fs "type")
  some (record { message_type = t; payload = without_field fs "type" })
read_message v = none

unfoldable pub read_frame : Value → Option Frame
unfolding get read_text read_natural read_identity read_message
read_frame v = do
  p ← read_text (get v "protocolVersion")
  s ← read_identity (get v "source")
  d ← read_identity (get v "destination")
  i ← read_text (get v "messageId")
  n ← read_natural (get v "sequence")
  t ← read_text (get v "sentAt")
  m ← read_message (get v "message")
  some (record {
    protocol_version = p;
    source = s;
    destination = d;
    message_id = i;
    sequence = n;
    sent_at = t;
    message = m;
  })

unfoldable pub none_blank : List String → Bool
unfolding is_blank
none_blank [] = true
none_blank (s ∷ ss) = not (is_blank s) && none_blank ss

unfoldable pub is_non_blank : Option (List String) → Bool
unfolding none_blank
is_non_blank none = true
is_non_blank (some ss) = none_blank ss

-- An identity that other nodes accept.
unfoldable pub is_valid_identity : RuntimeNodeIdentity → Bool
unfolding is_blank is_non_blank
is_valid_identity i =
    not (is_blank i.node_address)
    && not (is_blank i.node_id)
    && not (is_blank i.incarnation)
    && same i.protocol_version runtime_transport_protocol_version
    && is_non_blank i.capabilities

unfoldable pub is_valid_frame : Frame → Bool
unfolding is_valid_identity is_blank
is_valid_frame f =
    same f.protocol_version runtime_transport_protocol_version
    && is_valid_identity f.source
    && is_valid_identity f.destination
    && not (is_blank f.message_id)
    && not (is_blank f.sent_at)
    && not (is_blank f.message.message_type)
