-- ===== src/Mesh/Routing/Forwarding.antt =====
-- A message that one node after another forwards.
use mathlib.Core.Path.{subst}
use actor_web.Common.{
  Distinct, ◌-◌, ◌≤◌, true, false, ◌||◌, List, [], ◌∷◌, ◌≡◌, refl, arith, ◌∙◌, String, includes,
  same, same_iff, same_refl, length, includes-append, Bool-cases, inl, inr, ◌⊎◌,
}
use actor_web.Mesh.Incarnation.{Numbers}
use actor_web.Mesh.Routing.{
  RouteInput, MeshRouteToken, MeshRouteResult, MeshRouteFailureCode, ok, fail,
  resolve_mesh_next_hop,
}
use actor_web.Mesh.Routing.NextHop.{Explains, resolve_mesh_next_hop-Explains}

result_cases :
    (r : MeshRouteResult)
    → ((next : String) × (token : MeshRouteToken) × (r ≡ ok next token))
      ⊎ ((code : MeshRouteFailureCode) × (r ≡ fail code))
result_cases (ok next token) = inl (next, token, refl)
result_cases (fail code) = inr (code, refl)

module _ {N : Numbers} where
  -- The nodes that a message with the token is sent on to, where each node of the list resolves the
  -- next hop by its own knowledge: until one of them fails or the list ends.
  unfoldable pub hops : List (RouteInput N) → MeshRouteToken → List String
  hops [] token = []
  hops (input ∷ inputs) token = elim (resolve_mesh_next_hop N input token) [
    | ok next token' ↦ next ∷ hops inputs token'
    | fail code ↦ []
  ]

  -- However a message is forwarded, and whatever each node on its way knows, it is forwarded
  -- at most as often as the hop limit of its token says, never to a node that the token names as
  -- visited, and never to the same node twice.
  pub hops_lem :
      (inputs : List (RouteInput N)) (token : MeshRouteToken)
      → (length (hops inputs token) ≤ token.hop_limit)
        × ((n : String)
            → includes n (hops inputs token) ≡ true
            → includes n token.visited_nodes ≡ false)
        × Distinct (hops inputs token)
  unfolding hops includes
  hops_lem [] token = (omega arith, (λ n h. absurd (ground (arith, h))), tt)
  hops_lem (input ∷ inputs) token = elim (result_cases (resolve_mesh_next_hop N input token)) [
    | inr (code, e) ↦ rw (hops, e) (omega arith, (λ n h. absurd (ground (arith, h))), tt)
    | inl (next, token', e) ↦
        let (l, i, t) =
          subst (Explains input token) e (resolve_mesh_next_hop-Explains input token) in
        let (b, f, d) = hops_lem inputs token' in
        let g : (n : String)
            → includes n token'.visited_nodes ≡ includes n token.visited_nodes || same next n =
          λ n. rw t (includes-append n token.visited_nodes (next ∷ []) ∙ ground arith) in
        let m : token'.hop_limit ≡ token.hop_limit - 1 = rw t refl in
        let new : includes next (hops inputs token') ≡ false =
          elim (Bool-cases (includes next (hops inputs token'))) [
            | inr p ↦ p
            | inl p ↦ absurd (ground (arith, f next p, g next, same_refl next))
          ] in
        rw (hops, e)
          (
            omega (arith, l, b, m),
            λ n h. ground (arith, i.fresh, f n, g n, h, same_iff next n),
            (new, d),
          )
  ]
