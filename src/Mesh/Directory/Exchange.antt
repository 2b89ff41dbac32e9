-- ===== src/Mesh/Directory/Exchange.antt =====
-- Two nodes that send each other the entries they export.
use mathlib.Core.Path.{subst}
use actor_web.Common.{
  ℕ, List, Option, none, some, ◌≡◌, ◌≢◌, sym, ap, ◌∙◌, arith, ◌⊎◌, inl, inr, Option-cases, String,
  find,
}
use actor_web.Mesh.Incarnation.{Numbers}
use actor_web.Mesh.Directory.{
  MeshDirectoryEntry, MeshDirectoryState, merge_mesh_directory_entries,
  export_mesh_directory_entries, resolve_mesh_directory_location, location_of,
}
use actor_web.Mesh.Directory.Exported.{
  IsDirectory, find-address, find-export, merge-From, merge_known,
}
use actor_web.Mesh.Directory.Ownership.{AtMost, merge_mesh_directory_entries-IsNewest}

module _ (N : Numbers) where
  -- The state of a node that has merged what another exports.
  unfoldable pub received : MeshDirectoryState N → MeshDirectoryState N → MeshDirectoryState N
  received s t = merge_mesh_directory_entries N s (export_mesh_directory_entries N t)

  received-both :
      (s t : MeshDirectoryState N) (a : String) (b c : MeshDirectoryEntry N)
      → IsDirectory N t
      → find s a ≡ some b
      → find t a ≡ some c
      → b.owner_node ≡ c.owner_node
      → (find (received s t) a ≡ some b) × AtMost N c b
        ⊎ (find (received s t) a ≡ some c) × AtMost N b c
  unfolding received
  received-both s t a b c k p q o =
      let (d, f, (i, l, j, from)) =
        merge_mesh_directory_entries-IsNewest N (export_mesh_directory_entries N t) s a b p in
      let (m, e) = find-address N t a c k q in
      let w : AtMost N c d = j c m e (sym o) in
      elim from [
        | inl g ↦ inl (rw g at f, rw g at w)
        | inr (n, g) ↦
            let z = subst (λ (u : String). find t u ≡ some d) g (find-export N t d k n) in
            let y : d ≡ c = ground (arith, z, q) in inr (rw y at f, rw y at l)
      ]

  received-only :
      (s t : MeshDirectoryState N) (a : String) (c : MeshDirectoryEntry N)
      → IsDirectory N t
      → find s a ≡ none
      → find t a ≡ some c
      → find (received s t) a ≡ some c
  unfolding received
  received-only s t a c k p q =
      let (m, e) = find-address N t a c k q in
      let (d, f) = merge_known N (export_mesh_directory_entries N t) s c m in
      let f' = subst (λ (u : String). find (received s t) u ≡ some d) e f in
      let y : d ≡ c = elim (merge-From N (export_mesh_directory_entries N t) s a d f') [
        | inl g ↦ absurd (ground (arith, g, p))
        | inr (n, g) ↦
            let z = subst (λ (u : String). find t u ≡ some d) g (find-export N t d k n) in
            ground (arith, z, q)
      ] in
      rw y at f'

  received-neither :
      (s t : MeshDirectoryState N) (a : String)
      → IsDirectory N t
      → find s a ≡ none
      → find t a ≡ none
      → find (received s t) a ≡ none
  unfolding received
  received-neither s t a k p q = elim (Option-cases (find (received s t) a)) [
    | inl e ↦ e
    | inr (d, e) ↦ elim (merge-From N (export_mesh_directory_entries N t) s a d e) [
      | inl g ↦ absurd (ground (arith, g, p))
      | inr (n, g) ↦
          let z = subst (λ (u : String). find t u ≡ some d) g (find-export N t d k n) in
          absurd (ground (arith, z, q))
    ]
  ]

  received-other :
      (s t : MeshDirectoryState N) (a : String) (b : MeshDirectoryEntry N)
      → IsDirectory N t
      → find s a ≡ some b
      → find t a ≡ none
      → find (received s t) a ≡ some b
  unfolding received
  received-other s t a b k p q =
      let (d, f, (i, l, j, from)) =
        merge_mesh_directory_entries-IsNewest N (export_mesh_directory_entries N t) s a b p in
      elim from [
        | inl g ↦ rw g at f
        | inr (n, g) ↦
            let z = subst (λ (u : String). find t u ≡ some d) g (find-export N t d k n) in
            absurd (ground (arith, z, q))
      ]

  received-agree :
      (s t : MeshDirectoryState N) (a : String) (b c : MeshDirectoryEntry N)
      → IsDirectory N s
      → IsDirectory N t
      → find s a ≡ some b
      → find t a ≡ some c
      → (b.owner_node ≡ c.owner_node) × (AtMost N b c → AtMost N c b → b ≡ c)
      → find (received s t) a ≡ find (received t s) a
  received-agree s t a b c h k p q (o, eq) = elim (received-both s t a b c k p q o) [
    | inl (f, l) ↦ elim (received-both t s a c b h q p (sym o)) [
      | inl (g, m) ↦ f ∙ ap some (eq m l) ∙ sym g
      | inr (g, m) ↦ f ∙ sym g
    ]
    | inr (f, l) ↦ elim (received-both t s a c b h q p (sym o)) [
      | inl (g, m) ↦ f ∙ sym g
      | inr (g, m) ↦ f ∙ ap some (sym (eq l m)) ∙ sym g
    ]
  ]

  -- Two nodes merge each other's exports: `s` and `t` are their directories, each entry under its
  -- address, once. If, where both know the address, the owners are the same, and entries of which
  -- each is at most as new as the other are the same, then both nodes know the same entry
  -- of the address afterwards (none if neither did) and resolve it to the same node at all times.
  pub received-converges :
      (s t : MeshDirectoryState N) (a : String) (now : Option ℕ)
      → IsDirectory N s
      → IsDirectory N t
      → ((b c : MeshDirectoryEntry N)
          → find s a ≡ some b
          → find t a ≡ some c
          → (b.owner_node ≡ c.owner_node) × (AtMost N b c → AtMost N c b → b ≡ c))
      → (find (received s t) a ≡ find (received t s) a)
        × (resolve_mesh_directory_location N (received s t) a now
            ≡ resolve_mesh_directory_location N (received t s) a now)
  unfolding resolve_mesh_directory_location
  received-converges s t a now h k agree =
      let same_entry : find (received s t) a ≡ find (received t s) a =
        elim (Option-cases (find s a)) [
          | inl p ↦ elim (Option-cases (find t a)) [
            | inl q ↦ received-neither s t a k p q ∙ sym (received-neither t s a h q p)
            | inr (c, q) ↦ received-only s t a c k p q ∙ sym (received-other t s a c h q p)
          ]
          | inr (b, p) ↦ elim (Option-cases (find t a)) [
            | inl q ↦ received-other s t a b k p q ∙ sym (received-only t s a b h q p)
            | inr (c, q) ↦ received-agree s t a b c h k p q (agree b c p q)
          ]
        ] in
      (same_entry, ap (λ (o : Option (MeshDirectoryEntry N)). location_of N o now) same_entry)

  -- If two nodes know the address under different owners, then, whatever entries each merges from
  -- then on, in any number, they never agree on its owner again.
  pub merge_mesh_directory_entries-diverge :
      (s t : MeshDirectoryState N) (es fs : List (MeshDirectoryEntry N)) (a : String)
      → (b c : MeshDirectoryEntry N) → find s a ≡ some b
      → find t a ≡ some c
      → b.owner_node ≢ c.owner_node
      → find (merge_mesh_directory_entries N s es) a ≢ find (merge_mesh_directory_entries N t fs) a
  merge_mesh_directory_entries-diverge s t es fs a b c p q n e =
      let (d, f, (i, _, _, _)) = merge_mesh_directory_entries-IsNewest N es s a b p in
      let (g, h, (j, _, _, _)) = merge_mesh_directory_entries-IsNewest N fs t a c q in
      let k : d ≡ g = ground (arith, f, h, e) in
      n (sym i ∙ ap (λ (x : MeshDirectoryEntry N). x.owner_node) k ∙ j)
