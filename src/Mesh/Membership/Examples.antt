-- ===== src/Mesh/Membership/Examples.antt =====
-- Two replicas that hear of two nodes in different orders.
use mathlib.Core.List.{Memᴰ}
use actor_web.Common.{◌≡◌, sym, ◌⊎◌, inl, inr, [], ◌∷◌, none, some, refl, ◌∙◌, find, put}
use actor_web.Common.Text.{decimal, digits_of}
use actor_web.Mesh.Incarnation.{
  number, text, to_incarnation_order, compare_orders, compare_mesh_incarnation,
}
use actor_web.Mesh.Numerals.{numerals}
use actor_web.Mesh.Membership.{
  MeshMembershipRecord, alive, dead, create_mesh_membership_state, merge_records,
  merge_mesh_membership_record, refused_over, refusal, is_mesh_node_routeable,
}
use actor_web.Mesh.Membership.Strength.{AtMost}
use actor_web.Mesh.Membership.Merge.{
  IsStrongest, create_mesh_membership_state-IsStrongest, create_mesh_membership_state-converges,
}

program : Unit {0}
unfolding create_mesh_membership_state merge_records merge_mesh_membership_record refused_over
    refusal compare_mesh_incarnation to_incarnation_order compare_orders find put decimal digits_of
program = tt

abbrev a_alive : MeshMembershipRecord numerals
a_alive = record {
  node_address = "a";
  incarnation = number 1;
  state = alive;
  seen_at = 10;
  metadata = none;
}

abbrev a_dead : MeshMembershipRecord numerals
a_dead = record a_alive { state = dead; seen_at = 5 }

abbrev a_again : MeshMembershipRecord numerals
a_again = record a_alive { incarnation = text "2"; seen_at = 3 }

-- A node's death is known, although it was last seen alive.
a_is_dead :
    find (create_mesh_membership_state numerals (a_alive ∷ a_dead ∷ a_alive ∷ [])) "a" ≡ some a_dead
unfolding program
a_is_dead = refl

create_mesh_membership_state-IsStrongest_example :
    IsStrongest numerals
      (a_dead ∷ a_again ∷ [])
      "a"
      (find (create_mesh_membership_state numerals (a_dead ∷ a_again ∷ [])) "a")
create_mesh_membership_state-IsStrongest_example =
    create_mesh_membership_state-IsStrongest numerals (a_dead ∷ a_again ∷ []) "a"

two_cases : (x y r : MeshMembershipRecord numerals) → Memᴰ r (x ∷ y ∷ []) → (r ≡ x) ⊎ (r ≡ y)
two_cases x y r (Memᴰ.head e) = inl e
two_cases x y r (Memᴰ.tail (Memᴰ.head e)) = inr e
two_cases x y r (Memᴰ.tail (Memᴰ.tail m)) = elim m [ ]

turned : (x y r : MeshMembershipRecord numerals) → Memᴰ r (x ∷ y ∷ []) → Memᴰ r (y ∷ x ∷ [])
turned x y r (Memᴰ.head e) = Memᴰ.tail (Memᴰ.head e)
turned x y r (Memᴰ.tail (Memᴰ.head e)) = Memᴰ.head e
turned x y r (Memᴰ.tail (Memᴰ.tail m)) = elim m [ ]

distinct :
    (r q : MeshMembershipRecord numerals)
    → Memᴰ r (a_alive ∷ a_again ∷ [])
    → Memᴰ q (a_alive ∷ a_again ∷ [])
    → r.node_address ≡ q.node_address
    → AtMost numerals r q
    → AtMost numerals q r
    → r ≡ q
unfolding program
distinct r q m n e h k = elim (two_cases a_alive a_again r m) [
  | inl i ↦ elim (two_cases a_alive a_again q n) [
    | inl j ↦ i ∙ sym j
    | inr j ↦ absurd (simp (i, j) at k)
  ]
  | inr i ↦ elim (two_cases a_alive a_again q n) [
    | inl j ↦ absurd (simp (i, j) at h)
    | inr j ↦ i ∙ sym j
  ]
]

create_mesh_membership_state-converges_example :
    (find (create_mesh_membership_state numerals (a_alive ∷ a_again ∷ [])) "a"
      ≡ find (create_mesh_membership_state numerals (a_again ∷ a_alive ∷ [])) "a")
    × (is_mesh_node_routeable numerals
          (create_mesh_membership_state numerals (a_alive ∷ a_again ∷ []))
          "a"
        ≡ is_mesh_node_routeable numerals
            (create_mesh_membership_state numerals (a_again ∷ a_alive ∷ []))
            "a")
create_mesh_membership_state-converges_example =
    create_mesh_membership_state-converges numerals (a_alive ∷ a_again ∷ [])
      (a_again ∷ a_alive ∷ []) "a" (turned a_alive a_again) (turned a_again a_alive) distinct
