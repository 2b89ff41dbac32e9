-- ===== src/Mesh/Routing.antt =====
-- The next hop to a node: packages/actor-labs-mesh/src/routing.ts. Hop limits are natural numbers:
-- a limit below 0 acts as 0. The texts of failures are left out.
use mathlib.Core.List.{concat}
use actor_web.Common.{
  ℕ, zero, suc, ◌+◌, ◌-◌, Bool, true, false, not, ◌&&◌, ◌||◌, List, [], ◌∷◌, ◌++◌, map, Option,
  none, some, ltb, ◌==◌, if◌then◌else◌, length, String, same, includes, Dict, find,
}
use actor_web.Mesh.Incarnation.{Numbers}
use actor_web.Mesh.Membership.{MeshMembershipState, is_mesh_node_routeable}
pub mod Paths
pub mod Extend
pub mod Found
pub mod NextHop
pub mod Forwarding
mod Examples

pub record MeshRouteToken : Type 0 where
  pub visited_nodes : List String
  pub hop_limit : ℕ

pub data MeshRouteFailureCode : Type 0 where
  hop_limit_exhausted route_loop unsafe_node unreachable : MeshRouteFailureCode

pub data MeshRouteResult : Type 0 where
  ok : (next_hop : String) → MeshRouteToken → MeshRouteResult
  fail : MeshRouteFailureCode → MeshRouteResult

abbrev pub Adjacency : Type 0
Adjacency = Dict (List String)

unfoldable pub neighbors_in : Option (List String) → List String
neighbors_in none = []
neighbors_in (some ns) = ns

unfoldable pub neighbors_of : Adjacency → String → List String
unfolding neighbors_in
neighbors_of adjacency node = neighbors_in (find adjacency node)

-- All entries of the lists of neighbours.
unfoldable pub all_neighbors : Adjacency → List String
all_neighbors [] = []
all_neighbors (e ∷ a) = e.1 ++ all_neighbors a

-- `path[path.length - 1]` of a path that is not empty.
unfoldable pub last_of : List String → String
last_of [] = ""
last_of (x ∷ []) = x
last_of (x ∷ y ∷ xs) = last_of (y ∷ xs)

-- `path[1]` of a path of two nodes or more.
abbrev pub second_of : List String → String
second_of [] = ""
second_of (x ∷ []) = ""
second_of (x ∷ y ∷ xs) = y

unfoldable pub create_mesh_route_token : String → ℕ → MeshRouteToken
create_mesh_route_token local_node max_hops = record {
  visited_nodes = local_node ∷ [];
  hop_limit = max_hops;
}

unfoldable pub advanced_route : String → MeshRouteToken → MeshRouteResult
advanced_route next_hop token =
    if includes next_hop token.visited_nodes
    then fail route_loop
    else ok next_hop (record {
      visited_nodes = token.visited_nodes ++ next_hop ∷ [];
      hop_limit = token.hop_limit - 1;
    })

-- The queue of paths and the nodes seen.
pub record Search : Type 0 where
  pub queue : List (List String)
  pub seen : List String

module _ (N : Numbers) where
  pub record RouteInput : Type 0 where
    pub local_node : String
    pub target_node : String
    pub connected_nodes : List String
    pub visited : List String
    pub membership : MeshMembershipState N
    pub adjacency : Adjacency

  module _ (input : RouteInput) where
    unfoldable pub safe : String → Bool
    safe node = not (includes node input.visited) && is_mesh_node_routeable N input.membership node

    -- The loop over the neighbours of the local node.
    unfoldable pub start_paths : List String → Search → Search
    start_paths [] s = s
    start_paths (n ∷ ns) s = start_paths ns (
        if includes n input.connected_nodes && safe n
        then record { queue = s.queue ++ (input.local_node ∷ n ∷ []) ∷ []; seen = n ∷ s.seen }
        else s)

    -- The loop over the neighbours of the last node of a path.
    unfoldable pub extend_path : List String → List String → Search → Search
    extend_path path [] s = s
    extend_path path (n ∷ ns) s = extend_path path ns (
        if not (includes n s.seen) && safe n
        then record { queue = s.queue ++ (path ++ n ∷ []) ∷ []; seen = n ∷ s.seen }
        else s)

    -- `none` if the fuel is spent; else the path, if there is one.
    unfoldable pub search : ℕ → Search → Option (Option (List String))
    search zero s = none
    search (suc fuel) s = elim s.queue [
      | [] ↦ some none
      | path ∷ queue ↦ elim (same (last_of path) input.target_node) [
        | true ↦ some (some path)
        | false ↦ search fuel (
            extend_path path (neighbors_of input.adjacency (last_of path))
              (record { queue = queue; seen = s.seen }))
      ]
    ]

    unfoldable pub start : Search
    unfolding start_paths
    start =
        start_paths (neighbors_of input.adjacency input.local_node)
          (record { queue = []; seen = input.visited })

    unfoldable pub route_fuel : ℕ
    route_fuel = suc (
        length (neighbors_of input.adjacency input.local_node)
        + length (all_neighbors input.adjacency))

    unfoldable pub find_route_path : Option (List String)
    unfolding search start route_fuel
    find_route_path = elim (search route_fuel start) [ none ↦ none | some path ↦ path ]

  unfoldable pub route_to : RouteInput → MeshRouteToken → MeshRouteResult
  unfolding advanced_route find_route_path
  route_to input token =
      if includes input.target_node input.connected_nodes
      then advanced_route input.target_node token
      else elim (find_route_path input) [
        | none ↦ fail unreachable
        | some path ↦ advanced_route (second_of path) token
      ]

  -- `resolveMeshNextHop` with its token: `visited` of the input is that of the token.
  unfoldable pub resolve_mesh_next_hop : RouteInput → MeshRouteToken → MeshRouteResult
  unfolding route_to
  resolve_mesh_next_hop input token =
      if token.hop_limit == 0
      then fail hop_limit_exhausted
      else if includes input.target_node token.visited_nodes
      then fail route_loop
      else if is_mesh_node_routeable N input.membership input.target_node
      then route_to (record input { visited = token.visited_nodes }) token
      else fail unsafe_node
