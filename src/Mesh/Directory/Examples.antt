-- ===== src/Mesh/Directory/Examples.antt =====
-- Directories of two nodes that both know an actor.
use actor_web.Common.{
  ◌≡◌, ◌≢◌, [], ◌∷◌, none, some, arith, refl, false, true, find, put, sym, same_iff,
}
use actor_web.Common.Text.{decimal}
use actor_web.Mesh.Incarnation.{
  number, compare_mesh_incarnation, to_incarnation_order, compare_orders,
}
use actor_web.Mesh.Numerals.{numerals}
use actor_web.Mesh.Directory.{
  MeshDirectoryEntry, MeshDirectoryState, apply_mesh_directory_entry, merge_mesh_directory_entries,
  refused_over, refusal, create_mesh_directory_state, resolve_mesh_directory_location, location_of,
  expired, export_mesh_directory_entries,
}
use actor_web.Mesh.Directory.Ownership.{AtMost, IsNewest, merge_mesh_directory_entries-IsNewest}
use actor_web.Mesh.Directory.Exchange.{received, received-converges}

program : Unit {0}
unfolding apply_mesh_directory_entry merge_mesh_directory_entries create_mesh_directory_state
    refused_over refusal compare_mesh_incarnation to_incarnation_order compare_orders find put
    received export_mesh_directory_entries resolve_mesh_directory_location location_of expired
program = tt

abbrev first : MeshDirectoryEntry numerals
first = record {
  address = "actor";
  owner_node = "n1";
  owner_incarnation = number 1;
  version = 1;
  updated_at = 10;
  tombstone = false;
  ttl = none;
}

abbrev second : MeshDirectoryEntry numerals
second = record first { version = 2; ttl = some 50 }

abbrev rival : MeshDirectoryEntry numerals
rival = record first { owner_node = "n2"; version = 9 }

abbrev known : MeshDirectoryEntry numerals → MeshDirectoryState numerals
known e = (e.address, e) ∷ []

create_known : create_mesh_directory_state numerals (first ∷ rival ∷ second ∷ []) ≡ known second
unfolding program decimal
create_known = refl

expires : resolve_mesh_directory_location numerals (known second) "actor" (some 50) ≡ none
unfolding program
expires = refl

known_at : (e : MeshDirectoryEntry numerals) → e.address ≡ "actor" → find (known e) "actor" ≡ some e
unfolding program
known_at e h = rw h refl

merge_mesh_directory_entries-IsNewest_example :
    (d : MeshDirectoryEntry numerals) × (find
        (merge_mesh_directory_entries numerals (known first) (rival ∷ second ∷ []))
        "actor"
      ≡ some d)
    × IsNewest numerals (rival ∷ second ∷ []) "actor" first d
merge_mesh_directory_entries-IsNewest_example =
    merge_mesh_directory_entries-IsNewest numerals (rival ∷ second ∷ []) (known first) "actor" first
      (known_at first refl)

is_known :
    (e b : MeshDirectoryEntry numerals)
    → e.address ≡ "actor"
    → find (known e) "actor" ≡ some b
    → e ≡ b
is_known e b h p = ground (arith, known_at e h, p)

agrees :
    (b c : MeshDirectoryEntry numerals)
    → find (known first) "actor" ≡ some b
    → find (known second) "actor" ≡ some c
    → (b.owner_node ≡ c.owner_node) × (AtMost numerals b c → AtMost numerals c b → b ≡ c)
unfolding program decimal
agrees b c p q =
    let i = is_known first b refl p in
    let j = is_known second c refl q in
    (simp (sym i, sym j) refl, λ h k. absurd (let w = simp (sym i, sym j) at k in omega arith))

received-converges_example :
    (find (received numerals (known first) (known second)) "actor"
      ≡ find (received numerals (known second) (known first)) "actor")
    × (resolve_mesh_directory_location numerals
          (received numerals (known first) (known second))
          "actor"
          (some 20)
        ≡ resolve_mesh_directory_location numerals
            (received numerals (known second) (known first))
            "actor"
            (some 20))
received-converges_example =
    received-converges numerals (known first) (known second) "actor" (some 20)
      (refl, (unfold find in refl), tt) (refl, (unfold find in refl), tt) agrees

rival_differs : first.owner_node ≢ rival.owner_node
rival_differs e = let h : false ≡ true = (same_iff "n1" "n2").1 e in cc
