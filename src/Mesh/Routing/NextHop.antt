-- ===== src/Mesh/Routing/NextHop.antt =====
-- What the next hop is, and how far a message can be forwarded.
use actor_web.Common.{
  ◌-◌, ◌<◌, true, false, List, [], ◌∷◌, ◌++◌, ◌≡◌, refl, arith, sym, ◌∙◌, String, includes,
  Bool-cases, inl, inr, ◌⊎◌, ◌==◌,
}
use actor_web.Mesh.Incarnation.{Numbers}
use actor_web.Mesh.Membership.{is_mesh_node_routeable}
use actor_web.Mesh.Routing.{
  RouteInput, MeshRouteToken, MeshRouteResult, ok, fail, hop_limit_exhausted, route_loop,
  unsafe_node, unreachable, safe, second_of, advanced_route, route_to, resolve_mesh_next_hop,
}
use actor_web.Mesh.Routing.Paths.{IsRoute, end_of, last_of-cons}
use actor_web.Mesh.Routing.Found.{IsUnreachable, find_route_path_lem}

module _ {N : Numbers} where
  -- The input of a search that avoids the nodes of the token.
  abbrev pub with_token : RouteInput N → MeshRouteToken → RouteInput N
  with_token input token = record input { visited = token.visited_nodes }

  -- A node that the message may be sent to next: connected, not visited before, alive, and the
  -- target or the first of a route to it.
  pub record IsNextHop (input : RouteInput N) (token : MeshRouteToken) (next : String)
      : Type 0 where
    pub next_connected : includes next input.connected_nodes ≡ true
    pub fresh : includes next token.visited_nodes ≡ false
    pub next_alive : is_mesh_node_routeable N input.membership next ≡ true
    pub leads :
        (next ≡ input.target_node)
        ⊎ ((rest : List String) × IsRoute (with_token input token) next rest
            × (end_of next rest ≡ input.target_node))

  -- What each result means.
  abbrev pub Explains : RouteInput N → MeshRouteToken → MeshRouteResult → Type 0
  Explains input token (ok next token') =
      (0 < token.hop_limit)
      × IsNextHop input token next
      × (token' ≡ record {
        visited_nodes = token.visited_nodes ++ next ∷ [];
        hop_limit = token.hop_limit - 1;
      })
  Explains input token (fail hop_limit_exhausted) = token.hop_limit ≡ 0
  Explains input token (fail route_loop) = includes input.target_node token.visited_nodes ≡ true
  Explains input token (fail unsafe_node) =
      is_mesh_node_routeable N input.membership input.target_node ≡ false
  Explains input token (fail unreachable) =
      (includes input.target_node input.connected_nodes ≡ false)
      × IsUnreachable (with_token input token)

  advanced_route-Explains :
      (input : RouteInput N) (token : MeshRouteToken) (next : String)
      → 0 < token.hop_limit
      → IsNextHop input token next
      → Explains input token (advanced_route next token)
  unfolding advanced_route
  advanced_route-Explains input token next l h = rw h.fresh (l, h, refl)

  route_to-Explains :
      (input : RouteInput N) (token : MeshRouteToken)
      → 0 < token.hop_limit
      → includes input.target_node token.visited_nodes ≡ false
      → is_mesh_node_routeable N input.membership input.target_node ≡ true
      → Explains input token (route_to N (with_token input token) token)
  unfolding route_to safe
  route_to-Explains input token l v a =
      elim (Bool-cases (includes input.target_node input.connected_nodes)) [
        | inl c ↦
            rw (c, route_to)
              (advanced_route-Explains input token input.target_node l
                (record { next_connected = c; fresh = v; next_alive = a; leads = inl refl }))
        | inr c ↦ elim (find_route_path_lem (with_token input token)) [
          | inr (e, u) ↦ rw (c, route_to, e) (c, u)
          | inl (path, e, ((hop, rest, p, r), t)) ↦
              let s : second_of path ≡ hop = rw p refl in
              let i : IsNextHop input token hop = record {
                next_connected = r.connected;
                fresh = ground (arith, r.hop_safe);
                next_alive = ground (arith, r.hop_safe);
                leads = inr (rest, r, sym (last_of-cons input.local_node hop rest) ∙ rw p at t);
              } in
              rw (c, route_to, e, s) (advanced_route-Explains input token hop l i)
        ]
      ]

  routed :
      (input : RouteInput N) (token : MeshRouteToken)
      → (token.hop_limit == 0) ≡ false
      → includes input.target_node token.visited_nodes ≡ false
      → is_mesh_node_routeable N input.membership input.target_node ≡ true
      → resolve_mesh_next_hop N input token ≡ route_to N (with_token input token) token
  unfolding resolve_mesh_next_hop
  routed input token z v a = ground (arith, z, v, a)

  failed :
      (input : RouteInput N) (token : MeshRouteToken)
      → ((token.hop_limit == 0) ≡ true
          → resolve_mesh_next_hop N input token ≡ fail hop_limit_exhausted)
        × ((token.hop_limit == 0) ≡ false
            → includes input.target_node token.visited_nodes ≡ true
            → resolve_mesh_next_hop N input token ≡ fail route_loop)
        × ((token.hop_limit == 0) ≡ false
            → includes input.target_node token.visited_nodes ≡ false
            → is_mesh_node_routeable N input.membership input.target_node ≡ false
            → resolve_mesh_next_hop N input token ≡ fail unsafe_node)
  unfolding resolve_mesh_next_hop
  failed input token = (
    λ z. rw (z, resolve_mesh_next_hop) refl,
    λ z v. rw (z, v, resolve_mesh_next_hop) refl,
    λ z v a. rw (z, v, a, resolve_mesh_next_hop) refl,
  )

  -- The next hop is explained in each case. If a hop is given, the limit of the token was positive,
  -- and the hop is connected, alive, not visited before, and the target or the first node of a
  -- route to the target over nodes alive and not visited; the new token has it visited and a limit
  -- lower by one. The failures: the limit is used up; the target was visited; it is not alive; or
  -- it is neither connected nor at the end of any route.
  pub resolve_mesh_next_hop-Explains :
      (input : RouteInput N) (token : MeshRouteToken)
      → Explains input token (resolve_mesh_next_hop N input token)
  resolve_mesh_next_hop-Explains input token =
      let (exhausted, looped, unsafe) = failed input token in
      elim (Bool-cases (token.hop_limit == 0)) [
        | inl z ↦ rw (exhausted z) (ground (arith, z))
        | inr z ↦ elim (Bool-cases (includes input.target_node token.visited_nodes)) [
          | inl v ↦ rw (looped z v) v
          | inr v ↦
              elim (Bool-cases (is_mesh_node_routeable N input.membership input.target_node)) [
                | inr a ↦ rw (unsafe z v a) a
                | inl a ↦
                    rw (routed input token z v a)
                      (route_to-Explains input token (ground (arith, z)) v a)
              ]
        ]
      ]
