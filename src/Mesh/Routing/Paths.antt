-- ===== src/Mesh/Routing/Paths.antt =====
-- What a route is: a walk over safe nodes that begins with a connected neighbour.
use actor_web.Common.{true, List, [], ◌∷◌, ◌++◌, ◌≡◌, refl, ap, String, includes}
use actor_web.Mesh.Incarnation.{Numbers}
use actor_web.Mesh.Routing.{RouteInput, neighbors_of, safe, last_of}

-- Where a walk from a node over the nodes of a list ends.
abbrev pub end_of : String → List String → String
end_of from [] = from
end_of from (n ∷ ns) = end_of n ns

pub end_of-append : (from n : String) (ns : List String) → end_of from (ns ++ n ∷ []) ≡ n
end_of-append from n [] = refl
end_of-append from n (m ∷ ns) = end_of-append m n ns

pub last_of-cons : (x from : String) (ns : List String) → last_of (x ∷ from ∷ ns) ≡ end_of from ns
unfolding last_of
last_of-cons x from [] = refl
last_of-cons x from (n ∷ ns) = last_of-cons from n ns

module _ {N : Numbers} (input : RouteInput N) where
  -- Each node is a neighbour of the one before, and safe: alive and not visited before.
  abbrev pub Walk : String → List String → Type 0
  Walk from [] = Unit
  Walk from (n ∷ ns) =
      (includes n (neighbors_of input.adjacency from) ≡ true) × (safe N input n ≡ true) × Walk n ns

  pub Walk-append :
      (ns : List String) (from n : String)
      → Walk from ns
      → includes n (neighbors_of input.adjacency (end_of from ns)) ≡ true
      → safe N input n ≡ true
      → Walk from (ns ++ n ∷ [])
  Walk-append [] from n w e h = (e, h, tt)
  Walk-append (m ∷ ns) from n (d, k, w) e h = (d, k, Walk-append ns m n w e h)

  -- The walk begins with a connected neighbour of the local node.
  pub record IsRoute (hop : String) (rest : List String) : Type 0 where
    pub neighbor : includes hop (neighbors_of input.adjacency input.local_node) ≡ true
    pub connected : includes hop input.connected_nodes ≡ true
    pub hop_safe : safe N input hop ≡ true
    pub walk : Walk hop rest

  abbrev pub IsPath : List String → Type 0
  IsPath path =
      (hop : String) × (rest : List String) × (path ≡ input.local_node ∷ hop ∷ rest)
      × IsRoute hop rest

  pub IsPath-append :
      (path : List String) (n : String)
      → IsPath path
      → includes n (neighbors_of input.adjacency (last_of path)) ≡ true
      → safe N input n ≡ true
      → IsPath (path ++ n ∷ [])
  IsPath-append path n (hop, rest, p, r) e h =
      let l : last_of path ≡ end_of hop rest = rw p (last_of-cons input.local_node hop rest) in
      (
        hop,
        rest ++ n ∷ [],
        ap (λ (q : List String). q ++ n ∷ []) p,
        record {
          neighbor = r.neighbor;
          connected = r.connected;
          hop_safe = r.hop_safe;
          walk = Walk-append rest hop n r.walk (rw l at e) h;
        },
      )

  -- Every route stays among nodes that are closed under safe neighbours, if its start is.
  pub Walk-closed :
      (ns : List String) (from : String) (seen : List String)
      → ((a k : String)
          → includes a seen ≡ true
          → safe N input a ≡ true
          → includes k (neighbors_of input.adjacency a) ≡ true
          → safe N input k ≡ true
          → includes k seen ≡ true)
      → includes from seen ≡ true
      → safe N input from ≡ true
      → Walk from ns
      → (includes (end_of from ns) seen ≡ true) × (safe N input (end_of from ns) ≡ true)
  Walk-closed [] from seen c p h w = (p, h)
  Walk-closed (n ∷ ns) from seen c p h (e, k, w) = Walk-closed ns n seen c (c from n p h e k) k w
