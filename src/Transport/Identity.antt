-- ===== src/Transport/Identity.antt =====
-- Node identities and the ids of frames: packages/actor-core-runtime/src/
-- runtime-transport-contract.ts.
use Prim.Native.String.{◌++◌}
use actor_web.Common.{ℕ, List, [], ◌∷◌, Option, String, Bool, ◌&&◌, same}
use actor_web.Common.Text.{join, decimal}

pub record RuntimeNodeIdentity : Type 0 where
  pub node_address : String
  pub node_id : String
  pub incarnation : String
  pub protocol_version : String
  pub capabilities : Option (List String)

unfoldable pub is_same_runtime_node_identity : RuntimeNodeIdentity → RuntimeNodeIdentity → Bool
is_same_runtime_node_identity left right =
    same left.node_id right.node_id && same left.incarnation right.incarnation

unfoldable pub create_runtime_transport_message_id :
    RuntimeNodeIdentity → RuntimeNodeIdentity → ℕ → String
unfolding join decimal
create_runtime_transport_message_id source destination sequence =
    join ":"
      (source.node_address ∷ source.incarnation ∷ destination.node_address ∷ decimal sequence ∷ [])

unfoldable pub create_runtime_transport_idempotency_scope :
    RuntimeNodeIdentity → RuntimeNodeIdentity → String
unfolding join
create_runtime_transport_idempotency_scope local_node peer_node = join ":" (
    "runtime-transport" ∷ "local" ∷ local_node.node_address ∷ local_node.node_id ∷ "peer"
    ∷ peer_node.node_address ∷ peer_node.node_id ∷ [])

-- `${scope}:message:${messageId}`
unfoldable pub idempotency_key : String → String → String
idempotency_key scope message_id = scope ++ (":message:" ++ message_id)
