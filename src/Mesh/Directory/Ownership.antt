-- ===== src/Mesh/Directory/Ownership.antt =====
-- The first owner of an address keeps it, and its newest entry counts.
use Prim.Native.Nat.{Ordering}
use mathlib.Core.List.{Memᴰ}
use mathlib.Core.Path.{subst}
use actor_web.Common.{
  List, [], ◌∷◌, none, some, ◌≡◌, refl, sym, ◌∙◌, arith, ◌⊎◌, inl, inr, ltb, leb, ◌==◌, ◌&&◌,
  Bool-cases, Option-cases, if◌then◌else◌, String, same, same_iff, find, put, find-put,
  find-put_self,
}
use actor_web.Mesh.Incarnation.{
  Numbers, compare_mesh_incarnation, compare_mesh_incarnation-IsOrder, flip,
}
use actor_web.Mesh.Strength.{Below, Strength, Weaker, Weaker-refl, Weaker-trans}
use actor_web.Mesh.Directory.{
  MeshDirectoryEntry, MeshDirectoryState, MeshDirectoryMergeCode, owner_conflict, stale_incarnation,
  stale_version, same_entry, refusal, refused_over, apply_mesh_directory_entry,
  merge_mesh_directory_entries,
}

module _ (N : Numbers) where
  abbrev pub strength : MeshDirectoryEntry N → Strength N
  strength e = record { incarnation = e.owner_incarnation; rank = e.version; time = e.updated_at }

  -- `e` is at most as new as `c`: by incarnation, version and time of update.
  abbrev pub AtMost : MeshDirectoryEntry N → MeshDirectoryEntry N → Type 0
  AtMost e c = Weaker N (strength e) (strength c)

  refusal_cases :
      (o : Ordering) (e c : MeshDirectoryEntry N)
      → (refusal N o e c ≡ none) × Below (flip o) c.version e.version c.updated_at e.updated_at
        ⊎ ((code : MeshDirectoryMergeCode) × (refusal N o e c ≡ some code))
          × Below o e.version c.version e.updated_at c.updated_at
  unfolding refusal
  refusal_cases Ordering.lt e c = inr ((stale_incarnation, refl), tt)
  refusal_cases Ordering.gt e c = inl (refl, tt)
  refusal_cases Ordering.eq e c = elim (Bool-cases (ltb e.version c.version)) [
    | inl p ↦ inr ((stale_version, rw p), ground arith)
    | inr p ↦ elim (Bool-cases ((e.version == c.version) && leb e.updated_at c.updated_at)) [
      | inl q ↦ inr ((same_entry, rw (p, q)), ground arith)
      | inr q ↦ inl (rw (p, q), ground arith)
    ]
  ]

  refused_cases :
      (e c : MeshDirectoryEntry N)
      → (refused_over N e (some c) ≡ none) × (c.owner_node ≡ e.owner_node) × AtMost c e
        ⊎ ((code : MeshDirectoryMergeCode) × (refused_over N e (some c) ≡ some code))
          × (c.owner_node ≡ e.owner_node → AtMost e c)
  unfolding refused_over
  refused_cases e c = elim (Bool-cases (same c.owner_node e.owner_node)) [
    | inr p ↦ inr (
      (owner_conflict, rw p),
      λ q. absurd (ground (arith, p, q, same_iff c.owner_node e.owner_node)),
    )
    | inl p ↦
        elim (refusal_cases (compare_mesh_incarnation N e.owner_incarnation c.owner_incarnation) e
          c) [
            | inl (a, l) ↦ inl (
              rw p a,
              (same_iff _ _).0 p,
              rw
                  ((compare_mesh_incarnation-IsOrder N).flips e.owner_incarnation
                    c.owner_incarnation)
                  l,
            )
            | inr ((code, a), l) ↦ inr ((code, rw p a), λ q. l)
          ]
  ]

  -- The entry of `a` in `s` has the owner of `c` and is at least as new.
  abbrev pub Succeeds : MeshDirectoryState N → String → MeshDirectoryEntry N → Type 0
  Succeeds s a c =
      (d : MeshDirectoryEntry N) × (find s a ≡ some d) × (d.owner_node ≡ c.owner_node) × AtMost c d

  pub step_cases :
      (s : MeshDirectoryState N) (e : MeshDirectoryEntry N)
      → (((apply_mesh_directory_entry N s e).0 ≡ put s e.address e)
          × ((c : MeshDirectoryEntry N)
              → find s e.address ≡ some c
              → (c.owner_node ≡ e.owner_node) × AtMost c e))
        ⊎ (((apply_mesh_directory_entry N s e).0 ≡ s)
            × ((c : MeshDirectoryEntry N) × (find s e.address ≡ some c)
                × (c.owner_node ≡ e.owner_node → AtMost e c)))
  unfolding apply_mesh_directory_entry
  step_cases s e = elim (Option-cases (find s e.address)) [
    | inl p ↦ inl (
      rw (apply_mesh_directory_entry, p) (unfold refused_over in refl),
      λ c k. absurd (ground (arith, p, k)),
    )
    | inr (c, p) ↦ elim (refused_cases e c) [
      | inl (a, o, l) ↦ inl (
        rw (apply_mesh_directory_entry, p, a) refl,
        λ d k. let j : c ≡ d = cc in rw (sym j) (o, l),
      )
      | inr ((code, a), l) ↦ inr (rw (apply_mesh_directory_entry, p, a) refl, (c, p, l))
    ]
  ]

  step-Succeeds :
      (s : MeshDirectoryState N) (e : MeshDirectoryEntry N) (a : String) (c : MeshDirectoryEntry N)
      → find s a ≡ some c
      → Succeeds (apply_mesh_directory_entry N s e).0 a c
  step-Succeeds s e a c p = elim (step_cases s e) [
    | inr (q, h) ↦ rw q (c, p, refl, Weaker-refl N (strength c))
    | inl (q, k) ↦
        rw (q, find-put s e.address a e)
          (elim (Bool-cases (same e.address a)) [
            | inr d ↦ rw d (c, p, refl, Weaker-refl N (strength c))
            | inl d ↦ let h = k c (rw ((same_iff _ _).0 d) p) in rw d (e, refl, sym h.0, h.1)
          ])
  ]

  step-Succeeds_self :
      (s : MeshDirectoryState N) (e c : MeshDirectoryEntry N)
      → find (apply_mesh_directory_entry N s e).0 e.address ≡ some c
      → c.owner_node ≡ e.owner_node
      → AtMost e c
  step-Succeeds_self s e c p o = elim (step_cases s e) [
    | inl (q, k) ↦
        let f : find (put s e.address e) e.address ≡ some c = rw (sym q) p in
        let j : c ≡ e = ground (arith, f, find-put_self s e.address e) in
        rw j (Weaker-refl N (strength e))
    | inr (q, (d, f, l)) ↦
        let g : find s e.address ≡ some c = rw (sym q) p in
        let j : d ≡ c = ground (arith, f, g) in let h : AtMost e d = l (rw j o) in rw (sym j) h
  ]

  pub step-From :
      (s : MeshDirectoryState N) (e : MeshDirectoryEntry N) (a : String) (c : MeshDirectoryEntry N)
      → find (apply_mesh_directory_entry N s e).0 a ≡ some c
      → (find s a ≡ some c) ⊎ (c ≡ e) × (c.address ≡ a)
  step-From s e a c p = elim (step_cases s e) [
    | inr (q, h) ↦ inl (rw (sym q) p)
    | inl (q, k) ↦
        let g : (if same e.address a then some e else find s a) ≡ some c =
          sym (find-put s e.address a e) ∙ (rw (sym q) p) in
        elim (Bool-cases (same e.address a)) [
          | inl d ↦ let h : c ≡ e = ground (arith, g, d) in inr (h, rw h ((same_iff _ _).0 d))
          | inr d ↦ inl (ground (arith, g, d))
        ]
  ]

  -- What is known of an address once entries are merged: an entry of the owner known at first, at
  -- least as new as the one known and as every entry of that owner among them, and one of these.
  abbrev pub IsNewest :
      List (MeshDirectoryEntry N) → String → MeshDirectoryEntry N → MeshDirectoryEntry N → Type 0
  IsNewest es a c d =
      (d.owner_node ≡ c.owner_node)
      × AtMost c d
      × ((e : MeshDirectoryEntry N)
          → Memᴰ e es
          → e.address ≡ a
          → e.owner_node ≡ c.owner_node
          → AtMost e d)
      × ((d ≡ c) ⊎ Memᴰ d es × (d.address ≡ a))

  IsNewest-step :
      (s : MeshDirectoryState N) (e : MeshDirectoryEntry N) (es : List (MeshDirectoryEntry N))
      (a : String)
      → (b c d : MeshDirectoryEntry N) → find s a ≡ some c
      → find (apply_mesh_directory_entry N s e).0 a ≡ some b
      → b.owner_node ≡ c.owner_node
      → AtMost c b
      → IsNewest es a b d
      → IsNewest (e ∷ es) a c d
  IsNewest-step s e es a b c d p q o l (i, k, j, from) =
      let own : e.address ≡ a → e.owner_node ≡ c.owner_node → AtMost e d = λ y z.
        Weaker-trans N (strength e) (strength b) (strength d)
          (step-Succeeds_self s e b
            (subst (λ (t : String). find (apply_mesh_directory_entry N s e).0 t ≡ some b) (sym y) q)
            (o ∙ sym z))
          k in
      let each : (x : MeshDirectoryEntry N)
          → Memᴰ x (e ∷ es)
          → x.address ≡ a
          → x.owner_node ≡ c.owner_node
          → AtMost x d =
        λ x m. elim m [ Memᴰ.head h ↦ rw h own | Memᴰ.tail n ↦ λ y z. j x n y (z ∙ sym o) ] in
      let origin : (d ≡ c) ⊎ Memᴰ d (e ∷ es) × (d.address ≡ a) = elim from [
        | inr (m, h) ↦ inr (Memᴰ.tail m, h)
        | inl h ↦ elim (step-From s e a b q) [
          | inl g ↦ inl (h ∙ ground (arith, g, p))
          | inr (g, y) ↦ inr (Memᴰ.head (h ∙ g), rw h y)
        ]
      ] in
      (i ∙ o, Weaker-trans N (strength c) (strength b) (strength d) l k, each, origin)

  -- If an address is known, then after any entries are merged the address has an entry of the same
  -- owner; it is at least as new (by incarnation, version and time of update) as the one known
  -- before and as every merged entry of the address by that owner, and it is one of these.
  -- Entries of other owners never take the address over.
  pub merge_mesh_directory_entries-IsNewest :
      (es : List (MeshDirectoryEntry N)) (s : MeshDirectoryState N) (a : String)
      (c : MeshDirectoryEntry N)
      → find s a ≡ some c
      → (d : MeshDirectoryEntry N) × (find (merge_mesh_directory_entries N s es) a ≡ some d)
        × IsNewest es a c d
  unfolding merge_mesh_directory_entries
  merge_mesh_directory_entries-IsNewest [] s a c p =
      (c, p, (refl, Weaker-refl N (strength c), (λ e m. elim m [ ]), inl refl))
  merge_mesh_directory_entries-IsNewest (e ∷ es) s a c p =
      let (b, q, o, l) = step-Succeeds s e a c p in
      let (d, f, h) = merge_mesh_directory_entries-IsNewest es _ a b q in
      (d, f, IsNewest-step s e es a b c d p q o l h)
