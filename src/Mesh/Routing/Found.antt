-- ===== src/Mesh/Routing/Found.antt =====
-- The search finds a route exactly if there is one, and never runs out of fuel.
use mathlib.Core.Path.{subst}
use actor_web.Common.{
  ℕ, ◌+◌, ◌≤◌, ◌<◌, suc, zero, true, false, List, [], ◌∷◌, none, some, ◌≡◌, ◌≢◌, refl, arith,
  String, includes, same, same_iff, length, includes-append, All, Bool-cases, inl, inr, ◌⊎◌, find,
}
use actor_web.Mesh.Incarnation.{Numbers}
use actor_web.Mesh.Routing.{
  RouteInput, Search, Adjacency, neighbors_of, neighbors_in, all_neighbors, safe, last_of,
  start_paths, extend_path, search, start, route_fuel, find_route_path,
}
use actor_web.Mesh.Routing.Paths.{IsPath, IsRoute, Walk-closed, end_of}
use actor_web.Mesh.Routing.Extend.{
  ends, unseen, seen-extend_path, ends-extend_path, extend_path-IsPath, length-extend_path,
  seen-start_paths, ends-start_paths, start_paths-IsPath, length-start_paths,
}

includes-all_neighbors :
    (a : Adjacency) (node n : String)
    → includes n (neighbors_of a node) ≡ true
    → includes n (all_neighbors a) ≡ true
unfolding neighbors_of neighbors_in find includes all_neighbors
includes-all_neighbors [] node n h = absurd (ground (arith, h))
includes-all_neighbors (e ∷ a) node n h =
    ground (arith, h, includes-all_neighbors a node n, includes-append n e.1 (all_neighbors a))

unseen_le : (seen ns : List String) → unseen seen ns ≤ length ns
unfolding unseen
unseen_le seen [] = omega arith
unseen_le seen (n ∷ ns) = ground (arith, unseen_le seen ns)

module _ {N : Numbers} (input : RouteInput N) where
  -- All safe neighbours of a node other than the target are seen.
  abbrev Done : List String → String → Type 0
  Done seen a =
      (same a input.target_node ≡ false)
      × ((k : String)
          → includes k (neighbors_of input.adjacency a) ≡ true
          → safe N input k ≡ true
          → includes k seen ≡ true)

  record IsSearch (s : Search) : Type 0 where
    paths : All (IsPath input) s.queue
    visited_seen : (a : String) → includes a input.visited ≡ true → includes a s.seen ≡ true
    covered :
        (a : String)
        → includes a s.seen ≡ true
        → includes a input.visited ≡ false
        → includes a (ends s.queue) ≡ false
        → Done s.seen a
    firsts :
        (h : String)
        → includes h (neighbors_of input.adjacency input.local_node) ≡ true
        → includes h input.connected_nodes ≡ true
        → safe N input h ≡ true
        → includes h s.seen ≡ true

  step-IsSearch :
      (path : List String) (q : List (List String)) (seen : List String)
      → IsSearch (record { queue = path ∷ q; seen = seen })
      → same (last_of path) input.target_node ≡ false
      → IsSearch (
          extend_path N input path
            (neighbors_of input.adjacency (last_of path))
            (record { queue = q; seen = seen }))
  unfolding includes
  step-IsSearch path q seen i e =
      let ns = neighbors_of input.adjacency (last_of path) in
      let s : Search = record { queue = q; seen = seen } in
      record {
        paths = extend_path-IsPath input ns path s i.paths.0 (λ n h. h) i.paths.1;
        visited_seen =
            λ a h. ground (arith, i.visited_seen a, h, seen-extend_path input ns path s a);
        covered = λ a h v f. elim (Bool-cases (same (last_of path) a)) [
          | inl d ↦
              subst (Done (extend_path N input path ns s).seen) ((same_iff _ _).0 d)
                (e, λ k m p. ground (arith, m, p, seen-extend_path input ns path s k))
          | inr d ↦
              let o : Done seen a =
                i.covered a
                  (ground (
                    arith,
                    h,
                    f,
                    seen-extend_path input ns path s a,
                    ends-extend_path input ns path s a,
                  ))
                  v (ground (arith, d, f, ends-extend_path input ns path s a)) in
              (o.0, λ k m p. ground (arith, o.1 k m p, seen-extend_path input ns path s k))
        ];
        firsts = λ h p c d. ground (arith, i.firsts h, p, c, d, seen-extend_path input ns path s h);
      }

  start-IsSearch : IsSearch (start N input)
  unfolding start includes
  start-IsSearch =
      let ns = neighbors_of input.adjacency input.local_node in
      let s : Search = record { queue = []; seen = input.visited } in
      record {
        paths = start_paths-IsPath input ns s (λ n h. h) tt;
        visited_seen = λ a h. ground (arith, h, seen-start_paths input ns s a);
        covered = λ a h v f.
            absurd (
              ground
                (arith, h, v, f, seen-start_paths input ns s a, ends-start_paths input ns s a));
        firsts = λ h p c d. ground (arith, p, c, d, seen-start_paths input ns s h);
      }

  -- No route ends at the target.
  abbrev pub IsUnreachable : Type 0
  IsUnreachable =
      (hop : String) (rest : List String)
      → IsRoute input hop rest
      → end_of hop rest ≢ input.target_node

  abbrev pub IsRouteTo : List String → Type 0
  IsRouteTo path = IsPath input path × (last_of path ≡ input.target_node)

  exhausted-IsUnreachable :
      (seen : List String) → IsSearch (record { queue = []; seen = seen }) → IsUnreachable
  unfolding includes safe
  exhausted-IsUnreachable seen i hop rest r t =
      let done : (a : String) → includes a seen ≡ true → safe N input a ≡ true → Done seen a =
        λ a h k. i.covered a h (ground (arith, k)) refl in
      let (h, k) =
        Walk-closed input rest hop seen (λ a n p q. (done a p q).1 n)
          (i.firsts hop r.neighbor r.connected r.hop_safe) r.hop_safe r.walk in
      absurd (
        ground
          (arith, (done (end_of hop rest) h k).0, t, same_iff (end_of hop rest) input.target_node))

  search_lem :
      (fuel : ℕ) (q : List (List String)) (seen : List String)
      → IsSearch (record { queue = q; seen = seen })
      → length q + unseen seen (all_neighbors input.adjacency) < fuel
      → ((path : List String) × (search N input fuel (record { queue = q; seen = seen })
            ≡ some (some path))
          × IsRouteTo path)
        ⊎ (search N input fuel (record { queue = q; seen = seen }) ≡ some none) × IsUnreachable
  unfolding search
  search_lem zero q seen i l = absurd (omega arith)
  search_lem (suc fuel) [] seen i l = inr (refl, exhausted-IsUnreachable seen i)
  search_lem (suc fuel) (path ∷ q) seen i l =
      let ns = neighbors_of input.adjacency (last_of path) in
      let s : Search = record { queue = q; seen = seen } in
      let less =
        length-extend_path input (all_neighbors input.adjacency) ns path s
          (λ n h. includes-all_neighbors input.adjacency (last_of path) n h) in
      elim (Bool-cases (same (last_of path) input.target_node)) [
        | inl e ↦ inl (path, rw (e, search) refl, (i.paths.0, (same_iff _ _).0 e))
        | inr e ↦
            rw (e, search)
              (search_lem fuel (extend_path N input path ns s).queue
                (extend_path N input path ns s).seen (step-IsSearch path q seen i e)
                (omega (arith, l, less)))
      ]

  fuel_enough :
      length (start N input).queue + unseen (start N input).seen (all_neighbors input.adjacency)
      < route_fuel N input
  unfolding route_fuel start
  fuel_enough =
      let ns = neighbors_of input.adjacency input.local_node in
      let s : Search = record { queue = []; seen = input.visited } in
      omega (
        arith,
        length-start_paths input ns s,
        unseen_le (start_paths N input ns s).seen (all_neighbors input.adjacency),
      )

  -- The search for a path gives a path from the local node over a connected neighbour, from
  -- neighbour to neighbour, to the target, in which every node after the first is alive and not
  -- visited before; and if it gives none then there is no such path.
  pub find_route_path_lem :
      ((path : List String) × (find_route_path N input ≡ some path) × IsRouteTo path)
      ⊎ (find_route_path N input ≡ none) × IsUnreachable
  unfolding find_route_path
  find_route_path_lem =
      elim (search_lem (route_fuel N input) (start N input).queue (start N input).seen
        start-IsSearch fuel_enough) [
          | inl (path, e, p) ↦ inl (path, rw (find_route_path, e) refl, p)
          | inr (e, u) ↦ inr (rw (find_route_path, e) refl, u)
        ]
