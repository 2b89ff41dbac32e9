-- ===== src/Mesh/Routing/Examples.antt =====
-- A line of three nodes.
use actor_web.Common.{
  ◌≡◌, ◌≤◌, List, [], ◌∷◌, ◌⊎◌, none, some, refl, String, find, length, includes, false, true,
  Distinct,
}
use actor_web.Mesh.Incarnation.{number}
use actor_web.Mesh.Numerals.{numerals}
use actor_web.Mesh.Membership.{
  MeshMembershipRecord, MeshMembershipState, alive, dead, is_mesh_node_routeable, is_routeable,
}
use actor_web.Mesh.Routing.{
  RouteInput, MeshRouteToken, ok, fail, unreachable, create_mesh_route_token, resolve_mesh_next_hop,
  route_to, advanced_route, find_route_path, search, start, start_paths, extend_path, safe,
  route_fuel, all_neighbors, neighbors_of, neighbors_in, last_of,
}
use actor_web.Mesh.Routing.Found.{IsRouteTo, IsUnreachable, find_route_path_lem}
use actor_web.Mesh.Routing.NextHop.{Explains, resolve_mesh_next_hop-Explains}
use actor_web.Mesh.Routing.Forwarding.{hops, hops_lem}

program : Unit {0}
unfolding is_mesh_node_routeable is_routeable create_mesh_route_token resolve_mesh_next_hop route_to
    advanced_route find_route_path search start start_paths extend_path safe route_fuel
    all_neighbors neighbors_of neighbors_in last_of find includes hops
program = tt

abbrev known : String → MeshMembershipRecord numerals
known node = record {
  node_address = node;
  incarnation = number 1;
  state = alive;
  seen_at = 1;
  metadata = none;
}

abbrev all_alive : MeshMembershipState numerals
all_alive = ("a", known "a") ∷ ("b", known "b") ∷ ("c", known "c") ∷ []

abbrev at_a : RouteInput numerals
at_a = record {
  local_node = "a";
  target_node = "c";
  connected_nodes = "b" ∷ [];
  visited = [];
  membership = all_alive;
  adjacency = ("a", "b" ∷ []) ∷ ("b", "c" ∷ []) ∷ [];
}

abbrev at_b : RouteInput numerals
at_b = record at_a { local_node = "b"; connected_nodes = "a" ∷ "c" ∷ [] }

abbrev token : MeshRouteToken
token = record { visited_nodes = "a" ∷ []; hop_limit = 16 }

first_hop :
    resolve_mesh_next_hop numerals at_a token
    ≡ ok "b" (record { visited_nodes = "a" ∷ "b" ∷ []; hop_limit = 15 })
unfolding program
first_hop = refl

both_hops : hops (at_a ∷ at_b ∷ []) token ≡ "b" ∷ "c" ∷ []
unfolding program
both_hops = refl

b_is_dead :
    resolve_mesh_next_hop numerals
      (record at_a {
        membership = ("b", record (known "b") { state = dead }) ∷ ("c", known "c") ∷ [];
      })
      token
    ≡ fail unreachable
unfolding program
b_is_dead = refl

find_route_path_lem_example :
    ((path : List String) × (find_route_path numerals at_a ≡ some path) × IsRouteTo at_a path)
    ⊎ (find_route_path numerals at_a ≡ none) × IsUnreachable at_a
find_route_path_lem_example = find_route_path_lem at_a

resolve_mesh_next_hop-Explains_example :
    Explains at_a token (resolve_mesh_next_hop numerals at_a token)
resolve_mesh_next_hop-Explains_example = resolve_mesh_next_hop-Explains at_a token

hops_lem_example :
    (length (hops (at_a ∷ at_b ∷ []) token) ≤ 16)
    × ((n : String)
        → includes n (hops (at_a ∷ at_b ∷ []) token) ≡ true
        → includes n ("a" ∷ []) ≡ false)
    × Distinct (hops (at_a ∷ at_b ∷ []) token)
hops_lem_example = hops_lem (at_a ∷ at_b ∷ []) token
