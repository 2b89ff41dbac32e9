-- ===== src/Mesh/Membership.antt =====
-- Merging of membership records: packages/actor-labs-mesh/src/membership.ts. Node addresses that
-- are names of properties of every object (such as `constructor`) are left out of account.
use Prim.Native.Nat.{Ordering}
use actor_web.Common.{
  ℕ, Bool, true, false, not, List, [], ◌∷◌, Option, none, some, ltb, leb, ◌==◌, if◌then◌else◌,
  String, Dict, find, put,
}
use actor_web.Mesh.Incarnation.{Numbers, MeshIncarnation, compare_mesh_incarnation}
pub mod Strength
pub mod Merge
mod Examples

pub data MeshMembershipStatus : Type 0 where
  alive suspect dead left : MeshMembershipStatus

abbrev pub membership_state_rank : MeshMembershipStatus → ℕ
membership_state_rank alive = 0
membership_state_rank suspect = 1
membership_state_rank dead = 2
membership_state_rank left = 3

abbrev pub is_alive : MeshMembershipStatus → Bool
is_alive alive = true
is_alive suspect = false
is_alive dead = false
is_alive left = false

pub data MeshMembershipMergeCode : Type 0 where
  accepted stale_incarnation weaker_state same_record : MeshMembershipMergeCode

module _ (N : Numbers) where
  pub record MeshMembershipRecord : Type 0 where
    pub node_address : String
    pub incarnation : MeshIncarnation N
    pub state : MeshMembershipStatus
    pub seen_at : ℕ
    pub metadata : Option (Dict String)

  abbrev pub MeshMembershipState : Type 0
  MeshMembershipState = Dict MeshMembershipRecord

  -- Why a record is not accepted over the current one: `none` if it is.
  unfoldable pub refusal :
      Ordering → MeshMembershipRecord → MeshMembershipRecord → Option MeshMembershipMergeCode
  refusal Ordering.lt r current = some stale_incarnation
  refusal Ordering.gt r current = none
  refusal Ordering.eq r current =
      let next_rank = membership_state_rank r.state in
      let current_rank = membership_state_rank current.state in
      if ltb next_rank current_rank
      then some weaker_state
      else if next_rank == current_rank
      then (if leb r.seen_at current.seen_at then some same_record else none)
      else none

  unfoldable pub refused_over :
      MeshMembershipRecord → Option MeshMembershipRecord → Option MeshMembershipMergeCode
  unfolding refusal
  refused_over r none = none
  refused_over r (some current) =
      refusal (compare_mesh_incarnation N r.incarnation current.incarnation) r current

  unfoldable pub merge_mesh_membership_record :
      MeshMembershipState → MeshMembershipRecord → MeshMembershipState × MeshMembershipMergeCode
  unfolding refused_over
  merge_mesh_membership_record s r = elim (refused_over r (find s r.node_address)) [
    | none ↦ (put s r.node_address r, accepted)
    | some code ↦ (s, code)
  ]

  -- The fold of `createMeshMembershipState`, from any state.
  unfoldable pub merge_records :
      MeshMembershipState → List MeshMembershipRecord → MeshMembershipState
  merge_records s [] = s
  merge_records s (r ∷ rs) = merge_records (merge_mesh_membership_record s r).0 rs

  unfoldable pub create_mesh_membership_state : List MeshMembershipRecord → MeshMembershipState
  unfolding merge_records
  create_mesh_membership_state rs = merge_records [] rs

  unfoldable pub is_routeable : Option MeshMembershipRecord → Bool
  is_routeable none = false
  is_routeable (some r) = is_alive r.state

  unfoldable pub is_mesh_node_routeable : MeshMembershipState → String → Bool
  unfolding is_routeable
  is_mesh_node_routeable s node_address = is_routeable (find s node_address)
