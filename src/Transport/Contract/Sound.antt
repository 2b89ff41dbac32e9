-- ===== src/Transport/Contract/Sound.antt =====
-- A value that passes the validator of frames can be read as a frame: packages/
-- actor-core-runtime/src/runtime-transport-contract.ts.
use actor_web.Common.{
  ℕ, Bool, true, false, ◌&&◌, ◌||◌, List, [], ◌∷◌, Option, none, some, String, same_iff, arith, ◌≡◌,
  refl, sym, ◌∙◌, ap,
}
use actor_web.Transport.Identity.{RuntimeNodeIdentity, is_same_runtime_node_identity}
use actor_web.Transport.Values.{
  Value, undefined, text, array, Items, empty, item, get, get_field, object, number, integer,
  is_record, is_blank, is_the_text, is_undefined, is_non_empty_string, every_non_empty_string,
  has_string_array, is_natural,
}
use actor_web.Transport.Contract.{
  ValidationResult, ok, failed, RejectCode, Message, ◌then_check◌, require, require_protocol,
  runtime_transport_protocol_version, value_is_same, is_local, validate_runtime_node_identity,
}
use actor_web.Transport.Reliability.{ℤ}
use actor_web.Transport.Contract.Shapes.{Frame, ActorMessage}
use actor_web.Transport.Contract.Frames.{validate_runtime_transport_frame}
use actor_web.Transport.Contract.Reading.{
  without_field, read_text, read_natural, read_items, read_texts, read_identity, read_message,
  read_frame, none_blank, is_non_blank, is_valid_identity, is_valid_frame,
}

pub passed : {a b : ValidationResult} → (a then_check b) ≡ ok → (a ≡ ok) × (b ≡ ok)
unfolding ◌then_check◌
passed {a = ok} h = (refl, h)
passed {a = failed code message} h = absurd (ground arith)

pub required : (b : Bool) (c : RejectCode) (m : Message) → require b c m ≡ ok → b ≡ true
unfolding require
required true c m h = refl
required false c m h = absurd (ground arith)

pub versioned : (v : Value) → require_protocol v ≡ ok → v ≡ text runtime_transport_protocol_version
unfolding require_protocol is_the_text
versioned (text t) h = ap text ((same_iff t _).0 (required _ _ _ h))
versioned v h = absurd (ground (arith, required _ _ _ h))

text_of :
    (v : Value) → is_non_empty_string v ≡ true → (s : String) × (v ≡ text s) × (is_blank s ≡ false)
unfolding is_non_empty_string
text_of (text s) h = (s, refl, ground arith)
text_of v h = absurd (ground arith)

texts_of :
    (vs : Items)
    → every_non_empty_string vs ≡ true
    → (ss : List String) × (read_items vs ≡ some ss) × (none_blank ss ≡ true)
unfolding every_non_empty_string read_items none_blank read_text
texts_of empty h = ([], refl, refl)
texts_of (item v vs) h =
    let (s, e, n) = text_of v (ground (arith, h)) in
    let (ss, es, ns) = texts_of vs (ground (arith, h)) in
    (s ∷ ss, rw (e, es) refl, ground (arith, n, ns))

capabilities_of :
    (v : Value)
    → (is_undefined v || has_string_array v) ≡ true
    → (c : Option (List String)) × (read_texts v ≡ some c) × (is_non_blank c ≡ true)
unfolding is_undefined has_string_array read_texts is_non_blank
capabilities_of undefined h = (none, refl, refl)
capabilities_of (array vs) h = let (ss, e, n) = texts_of vs h in (some ss, rw e refl, n)
capabilities_of v h = absurd (ground arith)

-- What a validated identity reads as.
pub identity_of :
    (v : Value)
    → validate_runtime_node_identity v ≡ ok
    → (i : RuntimeNodeIdentity) × (read_identity v ≡ some i)
      × (is_valid_identity i ≡ true)
      × ((r : RuntimeNodeIdentity) → value_is_same v r ≡ is_same_runtime_node_identity i r)
unfolding validate_runtime_node_identity require_protocol read_identity read_text is_valid_identity
    value_is_same is_the_text is_same_runtime_node_identity
identity_of v h =
    let (h0, h1) = passed h in
    let (h2, h3) = passed h1 in
    let (h4, h5) = passed h3 in
    let texts = required _ _ _ h2 in
    let (a, ea, na) = text_of (get v "nodeAddress") (ground (arith, texts)) in
    let (n, en, nn) = text_of (get v "nodeId") (ground (arith, texts)) in
    let (i, ei, ni) = text_of (get v "incarnation") (ground (arith, texts)) in
    let ep = versioned _ h4 in
    let (c, ec, nc) = capabilities_of _ (required _ _ _ h5) in
    (
      record {
        node_address = a;
        node_id = n;
        incarnation = i;
        protocol_version = runtime_transport_protocol_version;
        capabilities = c;
      },
      (rw (ea, en, ei, ep, ec) refl),
      ground (arith, na, nn, ni, nc),
      λ r. rw (en, ei) refl,
    )

natural_of : (v : Value) → is_natural v ≡ true → (n : ℕ) × (read_natural v ≡ some n)
unfolding is_natural read_natural
natural_of (number (integer (ℤ.pos n))) h = (n, refl)
natural_of v h = absurd (ground arith)

message_of :
    (v : Value)
    → (is_record v && is_non_empty_string (get v "type")) ≡ true
    → (m : ActorMessage) × (read_message v ≡ some m) × (is_blank m.message_type ≡ false)
unfolding is_record read_message get read_text
message_of (object fs) h =
    let (t, e, n) = text_of (get_field fs "type") h in
    (record { message_type = t; payload = without_field fs "type" }, rw e refl, n)
message_of v h = absurd (ground arith)

read_frame_parts :
    (v : Value) (f : Frame)
    → get v "protocolVersion" ≡ text f.protocol_version
    → read_identity (get v "source") ≡ some f.source
    → read_identity (get v "destination") ≡ some f.destination
    → get v "messageId" ≡ text f.message_id
    → read_natural (get v "sequence") ≡ some f.sequence
    → get v "sentAt" ≡ text f.sent_at
    → read_message (get v "message") ≡ some f.message
    → read_frame v ≡ some f
unfolding read_frame read_text
read_frame_parts v f ep es ed ei en et em = rw (ep, es, ed, ei, en, et, em) refl

-- A value that a node accepts as a frame reads as a frame, whose identities, message and other
-- texts are valid and whose destination is the node: what the source assumes after the check,
-- where it treats the value as a frame, holds.
pub validate_runtime_transport_frame-IsFrame :
    (v : Value) (local : RuntimeNodeIdentity)
    → validate_runtime_transport_frame v (some local) ≡ ok
    → (f : Frame) × (read_frame v ≡ some f)
      × (is_valid_frame f ≡ true)
      × (is_same_runtime_node_identity f.destination local ≡ true)
unfolding validate_runtime_transport_frame is_valid_frame is_local
validate_runtime_transport_frame-IsFrame v local h =
    let (h0, h1) = passed h in
    let (protocol, h2) = passed h1 in
    let (source, h3) = passed h2 in
    let (destination, h4) = passed h3 in
    let (here, h5) = passed h4 in
    let (sequence, h6) = passed h5 in
    let (message_id, h7) = passed h6 in
    let (sent_at, message) = passed h7 in
    let (s, es, vs, cs) = identity_of (get v "source") source in
    let (d, ed, vd, cd) = identity_of (get v "destination") destination in
    let (n, en) = natural_of (get v "sequence") (required _ _ _ sequence) in
    let (i, ei, ni) = text_of (get v "messageId") (required _ _ _ message_id) in
    let (t, et, nt) = text_of (get v "sentAt") (required _ _ _ sent_at) in
    let (m, em, nm) = message_of (get v "message") (required _ _ _ message) in
    let ep = versioned (get v "protocolVersion") protocol in
    (
      record {
        protocol_version = runtime_transport_protocol_version;
        source = s;
        destination = d;
        message_id = i;
        sequence = n;
        sent_at = t;
        message = m;
      },
      read_frame_parts v _ ep es ed ei en et em,
      ground (arith, vs, vd, ni, nt, nm),
      sym (cd local) ∙ required _ _ _ here,
    )
