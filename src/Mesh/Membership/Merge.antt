-- ===== src/Mesh/Membership/Merge.antt =====
-- Merging keeps the strongest record of each node, in whatever order the records come.
use mathlib.Core.List.{Memᴰ}
use actor_web.Common.{
  List, [], ◌∷◌, Option, none, some, ◌≡◌, refl, ◌≢◌, arith, ◌⊎◌, inl, inr, sym, ◌∙◌, ap, Bool-cases,
  Option-cases, String, same, same_iff, find, put, find-put, find-put_self, if◌then◌else◌,
}
use actor_web.Mesh.Incarnation.{Numbers}
use actor_web.Mesh.Membership.{
  MeshMembershipRecord, MeshMembershipState, refused_over, merge_mesh_membership_record,
  merge_records, create_mesh_membership_state, is_mesh_node_routeable, is_routeable,
}
use actor_web.Mesh.Membership.Strength.{AtMost, AtMost-refl, AtMost-trans, refused_cases}

module _ (N : Numbers) where
  -- A node's record has strength at least that of `r`.
  abbrev pub Holds : MeshMembershipState N → MeshMembershipRecord N → Type 0
  Holds s r = (c : MeshMembershipRecord N) × (find s r.node_address ≡ some c) × AtMost N r c

  step_cases :
      (s : MeshMembershipState N) (r : MeshMembershipRecord N)
      → (((merge_mesh_membership_record N s r).0 ≡ put s r.node_address r)
          × ((c : MeshMembershipRecord N) → find s r.node_address ≡ some c → AtMost N c r))
        ⊎ (((merge_mesh_membership_record N s r).0 ≡ s) × Holds s r)
  unfolding merge_mesh_membership_record
  step_cases s r = elim (Option-cases (find s r.node_address)) [
    | inl e ↦ inl (
      rw (merge_mesh_membership_record, e) (unfold refused_over in refl),
      λ c k. absurd (ground (arith, e, k)),
    )
    | inr (c, e) ↦ elim (refused_cases N r c) [
      | inl (a, l) ↦
          inl (
            rw (merge_mesh_membership_record, e, a) refl,
            λ d k. let j : c ≡ d = cc in rw (sym j) l,
          )
      | inr ((code, a), l) ↦ inr (rw (merge_mesh_membership_record, e, a) refl, (c, e, l))
    ]
  ]

  step-Holds :
      (s : MeshMembershipState N) (r q : MeshMembershipRecord N)
      → Holds s q
      → Holds (merge_mesh_membership_record N s r).0 q
  step-Holds s r q (c, e, l) = elim (step_cases s r) [
    | inl (p, k) ↦
        rw (p, find-put s r.node_address q.node_address r)
          (elim (Bool-cases (same r.node_address q.node_address)) [
            | inl d ↦
                let f : find s r.node_address ≡ some c = rw ((same_iff _ _).0 d) e in
                rw d (r, refl, AtMost-trans N q c r l (k c f))
            | inr d ↦ rw d (c, e, l)
          ])
    | inr (p, h) ↦ rw p (c, e, l)
  ]

  step-Holds_self :
      (s : MeshMembershipState N) (r : MeshMembershipRecord N)
      → Holds (merge_mesh_membership_record N s r).0 r
  step-Holds_self s r = elim (step_cases s r) [
    | inl (e, k) ↦ rw e (r, find-put_self s r.node_address r, AtMost-refl N r)
    | inr (e, h) ↦ rw e h
  ]

  merge_records-Holds :
      (rs : List (MeshMembershipRecord N)) (s : MeshMembershipState N) (q : MeshMembershipRecord N)
      → Holds s q
      → Holds (merge_records N s rs) q
  unfolding merge_records
  merge_records-Holds [] s q h = h
  merge_records-Holds (r ∷ rs) s q h = merge_records-Holds rs _ q (step-Holds s r q h)

  merge_records-Holds_each :
      (rs : List (MeshMembershipRecord N)) (s : MeshMembershipState N) (q : MeshMembershipRecord N)
      → Memᴰ q rs
      → Holds (merge_records N s rs) q
  unfolding merge_records
  merge_records-Holds_each [] s q m = elim m [ ]
  merge_records-Holds_each (r ∷ rs) s q (Memᴰ.head e) =
      merge_records-Holds rs _ q (rw e (step-Holds_self s r))
  merge_records-Holds_each (r ∷ rs) s q (Memᴰ.tail m) = merge_records-Holds_each rs _ q m

  -- Where the record of a node after a merge comes from.
  abbrev From :
      MeshMembershipState N
      → List (MeshMembershipRecord N)
      → String
      → MeshMembershipRecord N
      → Type 0
  From s rs a c = (find s a ≡ some c) ⊎ Memᴰ c rs × (c.node_address ≡ a)

  step-From :
      (s : MeshMembershipState N) (r : MeshMembershipRecord N) (a : String)
      (c : MeshMembershipRecord N)
      → find (merge_mesh_membership_record N s r).0 a ≡ some c
      → (find s a ≡ some c) ⊎ (c ≡ r) × (c.node_address ≡ a)
  step-From s r a c e = elim (step_cases s r) [
    | inr (p, h) ↦ inl (rw (sym p) e)
    | inl (p, k) ↦
        let f : find (put s r.node_address r) a ≡ some c = rw (sym p) e in
        let g : (if same r.node_address a then some r else find s a) ≡ some c =
          sym (find-put s r.node_address a r) ∙ f in
        elim (Bool-cases (same r.node_address a)) [
          | inl d ↦ let h : c ≡ r = ground (arith, g, d) in inr (h, rw h ((same_iff _ _).0 d))
          | inr d ↦ inl (ground (arith, g, d))
        ]
  ]

  merge_records-From :
      (rs : List (MeshMembershipRecord N)) (s : MeshMembershipState N) (a : String)
      (c : MeshMembershipRecord N)
      → find (merge_records N s rs) a ≡ some c
      → From s rs a c
  unfolding merge_records
  merge_records-From [] s a c e = inl e
  merge_records-From (r ∷ rs) s a c e = elim (merge_records-From rs _ a c e) [
    | inr (m, k) ↦ inr (Memᴰ.tail m, k)
    | inl f ↦ elim (step-From s r a c f) [ inl g ↦ inl g | inr (g, k) ↦ inr (Memᴰ.head g, k) ]
  ]

  -- `o` is what should be known of the node at `a` after the records `rs`: a strongest record of
  -- that node, and nothing if there is none of it.
  abbrev pub IsStrongest :
      List (MeshMembershipRecord N) → String → Option (MeshMembershipRecord N) → Type 0
  IsStrongest rs a none = (q : MeshMembershipRecord N) → Memᴰ q rs → q.node_address ≢ a
  IsStrongest rs a (some c) =
      Memᴰ c rs
      × (c.node_address ≡ a)
      × ((q : MeshMembershipRecord N) → Memᴰ q rs → q.node_address ≡ a → AtMost N q c)

  IsStrongest-merge_records :
      (rs : List (MeshMembershipRecord N)) (a : String) (o : Option (MeshMembershipRecord N))
      → find (merge_records N [] rs) a ≡ o
      → IsStrongest rs a o
  IsStrongest-merge_records rs a none e = λ q m k.
      let h : Holds (merge_records N [] rs) q = merge_records-Holds_each rs [] q m in
      let f : find (merge_records N [] rs) q.node_address ≡ none = rw k e in
      absurd (ground (arith, f, h.1))
  IsStrongest-merge_records rs a (some c) e =
      let at_least : (q : MeshMembershipRecord N) → Memᴰ q rs → q.node_address ≡ a → AtMost N q c =
        λ q m k.
          (let h : Holds (merge_records N [] rs) q = merge_records-Holds_each rs [] q m in
            let f : find (merge_records N [] rs) q.node_address ≡ some c = rw k e in
            let j : h.0 ≡ c = ground (arith, f, h.1) in rw (sym j) h.2) in
      elim (merge_records-From rs [] a c e) [
        | inl f ↦ absurd (unfold find in ground (arith, f))
        | inr (m, k) ↦ (m, k, at_least)
      ]

  -- Whatever the order in which records arrive, the state built from them has for every address a
  -- record among them of that address that is at least as strong as every other one of the address
  -- (newer incarnation, then higher rank of state, then later sighting), and has no record for an
  -- address exactly if none arrived.
  pub create_mesh_membership_state-IsStrongest :
      (rs : List (MeshMembershipRecord N)) (a : String)
      → IsStrongest rs a (find (create_mesh_membership_state N rs) a)
  unfolding create_mesh_membership_state
  create_mesh_membership_state-IsStrongest rs a = IsStrongest-merge_records rs a _ refl

  -- Whether two strongest records are the same.
  IsStrongest-agree :
      (rs qs : List (MeshMembershipRecord N)) (a : String) (o p : Option (MeshMembershipRecord N))
      → ((r : MeshMembershipRecord N) → Memᴰ r rs → Memᴰ r qs)
      → ((r : MeshMembershipRecord N) → Memᴰ r qs → Memᴰ r rs)
      → ((r q : MeshMembershipRecord N)
          → Memᴰ r rs
          → Memᴰ q rs
          → r.node_address ≡ q.node_address
          → AtMost N r q
          → AtMost N q r
          → r ≡ q)
      → IsStrongest rs a o
      → IsStrongest qs a p
      → o ≡ p
  IsStrongest-agree rs qs a none none f g d h k = refl
  IsStrongest-agree rs qs a none (some c) f g d h (m, e, k) = absurd (h c (g c m) e)
  IsStrongest-agree rs qs a (some c) none f g d (m, e, h) k = absurd (k c (f c m) e)
  IsStrongest-agree rs qs a (some b) (some c) f g d (m, e, h) (n, i, k) =
      ap some (d b c m (g c n) (e ∙ sym i) (k b (f b m) e) (h c (g c n) i))

  -- Replicas that have received the same records, in whatever orders and however often, know the
  -- same record of every node and route to the same nodes, if no two records of a node that differ
  -- are equally strong.
  pub create_mesh_membership_state-converges :
      (rs qs : List (MeshMembershipRecord N)) (a : String)
      → ((r : MeshMembershipRecord N) → Memᴰ r rs → Memᴰ r qs)
      → ((r : MeshMembershipRecord N) → Memᴰ r qs → Memᴰ r rs)
      → ((r q : MeshMembershipRecord N)
          → Memᴰ r rs
          → Memᴰ q rs
          → r.node_address ≡ q.node_address
          → AtMost N r q
          → AtMost N q r
          → r ≡ q)
      → (find (create_mesh_membership_state N rs) a ≡ find (create_mesh_membership_state N qs) a)
        × (is_mesh_node_routeable N (create_mesh_membership_state N rs) a
            ≡ is_mesh_node_routeable N (create_mesh_membership_state N qs) a)
  unfolding is_mesh_node_routeable
  create_mesh_membership_state-converges rs qs a f g d =
      let e =
        IsStrongest-agree rs qs a _ _ f g d (create_mesh_membership_state-IsStrongest rs a)
          (create_mesh_membership_state-IsStrongest qs a) in
      (e, ap (is_routeable N) e)
