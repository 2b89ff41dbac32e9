-- ===== src/Mesh/Directory.antt =====
-- The directory of actors: packages/actor-labs-mesh/src/directory.ts. Versions and times are
-- natural numbers, and an optional `tombstone` is a Boolean, as `cloneDirectoryEntry` reads it.
use Prim.Native.Nat.{Ordering}
use actor_web.Common.{
  ℕ, Bool, true, false, List, [], ◌∷◌, ◌++◌, map, Option, none, some, ltb, leb, ◌==◌, ◌&&◌,
  if◌then◌else◌, String, same, Dict, find, put,
}
use actor_web.Mesh.Incarnation.{Numbers, MeshIncarnation, compare_mesh_incarnation}
pub mod Ownership
pub mod Exported
pub mod Exchange
mod Examples

pub data MeshDirectoryMergeCode : Type 0 where
  owner_conflict stale_incarnation stale_version same_entry : MeshDirectoryMergeCode

module _ (N : Numbers) where
  pub record MeshDirectoryEntry : Type 0 where
    pub address : String
    pub owner_node : String
    pub owner_incarnation : MeshIncarnation N
    pub version : ℕ
    pub updated_at : ℕ
    pub tombstone : Bool
    pub ttl : Option ℕ

  abbrev pub MeshDirectoryState : Type 0
  MeshDirectoryState = Dict MeshDirectoryEntry

  -- Why an entry of the same owner is refused: `none` if it is accepted.
  unfoldable pub refusal :
      Ordering → MeshDirectoryEntry → MeshDirectoryEntry → Option MeshDirectoryMergeCode
  refusal Ordering.lt entry current = some stale_incarnation
  refusal Ordering.gt entry current = none
  refusal Ordering.eq entry current =
      if ltb entry.version current.version
      then some stale_version
      else if (entry.version == current.version) && leb entry.updated_at current.updated_at
      then some same_entry
      else none

  unfoldable pub refused_over :
      MeshDirectoryEntry → Option MeshDirectoryEntry → Option MeshDirectoryMergeCode
  unfolding refusal
  refused_over entry none = none
  refused_over entry (some current) =
      if same current.owner_node entry.owner_node
      then refusal (compare_mesh_incarnation N entry.owner_incarnation current.owner_incarnation)
          entry current
      else some owner_conflict

  -- The new state, and the code: `none` for `accepted`.
  unfoldable pub apply_mesh_directory_entry :
      MeshDirectoryState → MeshDirectoryEntry → MeshDirectoryState × Option MeshDirectoryMergeCode
  unfolding refused_over
  apply_mesh_directory_entry s entry = elim (refused_over entry (find s entry.address)) [
    | none ↦ (put s entry.address entry, none)
    | some code ↦ (s, some code)
  ]

  unfoldable pub merge_mesh_directory_entries :
      MeshDirectoryState → List MeshDirectoryEntry → MeshDirectoryState
  merge_mesh_directory_entries s [] = s
  merge_mesh_directory_entries s (e ∷ es) =
      merge_mesh_directory_entries (apply_mesh_directory_entry s e).0 es

  unfoldable pub create_mesh_directory_state : List MeshDirectoryEntry → MeshDirectoryState
  unfolding merge_mesh_directory_entries
  create_mesh_directory_state es = merge_mesh_directory_entries [] es

  unfoldable pub expired : Option ℕ → Option ℕ → Bool
  expired none now = false
  expired (some ttl) none = false
  expired (some ttl) (some now) = leb ttl now

  unfoldable pub location_of : Option MeshDirectoryEntry → Option ℕ → Option String
  unfolding expired
  location_of none now = none
  location_of (some e) now =
      if e.tombstone then none else (if expired e.ttl now then none else some e.owner_node)

  unfoldable pub resolve_mesh_directory_location :
      MeshDirectoryState → String → Option ℕ → Option String
  unfolding location_of
  resolve_mesh_directory_location s address now = location_of (find s address) now

  unfoldable pub export_mesh_directory_entries : MeshDirectoryState → List MeshDirectoryEntry
  export_mesh_directory_entries s = map (λ (e : String × MeshDirectoryEntry). e.1) s
