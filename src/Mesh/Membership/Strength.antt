-- ===== src/Mesh/Membership/Strength.antt =====
-- The strength of a membership record: newer incarnation, then higher rank of the state, then
-- later sighting.
use Prim.Native.Nat.{Ordering}
use actor_web.Common.{ℕ, none, some, ◌≡◌, refl, arith, ◌⊎◌, inl, inr, Bool-cases, ltb, leb, ◌==◌}
use actor_web.Mesh.Incarnation.{
  Numbers, MeshIncarnation, compare_mesh_incarnation, compare_mesh_incarnation-IsOrder, flip,
}
use actor_web.Mesh.Strength.{Below, Strength, Weaker, Weaker-refl, Weaker-trans}
use actor_web.Mesh.Membership.{
  MeshMembershipRecord, membership_state_rank, refusal, refused_over, MeshMembershipMergeCode,
  stale_incarnation, weaker_state, same_record,
}

module _ (N : Numbers) where
  abbrev cmp : MeshIncarnation N → MeshIncarnation N → Ordering
  cmp = compare_mesh_incarnation N

  abbrev rank : MeshMembershipRecord N → ℕ
  rank r = membership_state_rank r.state

  abbrev pub strength : MeshMembershipRecord N → Strength N
  strength r = record {
    incarnation = r.incarnation;
    rank = membership_state_rank r.state;
    time = r.seen_at;
  }

  -- `r` is at most as strong as `c`.
  abbrev pub AtMost : MeshMembershipRecord N → MeshMembershipRecord N → Type 0
  AtMost r c = Weaker N (strength r) (strength c)

  pub AtMost-refl : (r : MeshMembershipRecord N) → AtMost r r
  AtMost-refl r = Weaker-refl N (strength r)

  pub AtMost-trans : (a b c : MeshMembershipRecord N) → AtMost a b → AtMost b c → AtMost a c
  AtMost-trans a b c = Weaker-trans N (strength a) (strength b) (strength c)

  refusal_cases :
      (o : Ordering) (r c : MeshMembershipRecord N)
      → (refusal N o r c ≡ none) × Below (flip o) (rank c) (rank r) c.seen_at r.seen_at
        ⊎ ((code : MeshMembershipMergeCode) × (refusal N o r c ≡ some code))
          × Below o (rank r) (rank c) r.seen_at c.seen_at
  unfolding refusal
  refusal_cases Ordering.lt r c = inr ((stale_incarnation, refl), tt)
  refusal_cases Ordering.gt r c = inl (refl, tt)
  refusal_cases Ordering.eq r c = elim (Bool-cases (ltb (rank r) (rank c))) [
    | inl e ↦ inr ((weaker_state, rw e), ground arith)
    | inr e ↦ elim (Bool-cases (rank r == rank c)) [
      | inr d ↦ inl (rw (e, d), ground arith)
      | inl d ↦ elim (Bool-cases (leb r.seen_at c.seen_at)) [
        | inl l ↦ inr ((same_record, rw (e, d, l)), ground arith)
        | inr l ↦ inl (rw (e, d, l), ground arith)
      ]
    ]
  ]

  -- A record is refused exactly if it is at most as strong as the current one, and else the
  -- current one is at most as strong as it.
  pub refused_cases :
      (r c : MeshMembershipRecord N)
      → (refused_over N r (some c) ≡ none) × AtMost c r
        ⊎ ((code : MeshMembershipMergeCode) × (refused_over N r (some c) ≡ some code)) × AtMost r c
  unfolding refused_over
  refused_cases r c =
      rw ((compare_mesh_incarnation-IsOrder N).flips r.incarnation c.incarnation)
        (refusal_cases (cmp r.incarnation c.incarnation) r c)
