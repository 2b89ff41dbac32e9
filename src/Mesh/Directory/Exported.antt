-- ===== src/Mesh/Directory/Exported.antt =====
-- The entries that a directory exports, and where the entries of merged directories come from.
use mathlib.Core.List.{Memᴰ}
use mathlib.Core.Path.{subst}
use actor_web.Common.{
  List, [], ◌∷◌, none, some, ◌≡◌, refl, sym, ap, ◌∙◌, arith, ◌⊎◌, inl, inr, Bool-cases,
  Option-cases, String, same, same_iff, find, put, find-put, find-put_self,
}
use actor_web.Mesh.Incarnation.{Numbers}
use actor_web.Mesh.Directory.{
  MeshDirectoryEntry, MeshDirectoryState, apply_mesh_directory_entry, merge_mesh_directory_entries,
  refused_over, export_mesh_directory_entries,
}
use actor_web.Mesh.Directory.Ownership.{
  step_cases, step-From, merge_mesh_directory_entries-IsNewest,
}

module _ (N : Numbers) where
  -- Each entry stands under its address, once.
  abbrev pub IsDirectory : MeshDirectoryState N → Type 0
  IsDirectory [] = Unit
  IsDirectory (e ∷ s) = (e.0 ≡ e.1.address) × (find s e.0 ≡ none) × IsDirectory s

  put-IsDirectory :
      (s : MeshDirectoryState N) (e : MeshDirectoryEntry N)
      → IsDirectory s
      → IsDirectory (put s e.address e)
  unfolding put
  put-IsDirectory [] e h = (refl, unfold find in refl, tt)
  put-IsDirectory (x ∷ s) e (p, q, h) = elim (Bool-cases (same x.0 e.address)) [
    | inl d ↦ rw d (refl, subst (λ (t : String). find s t ≡ none) ((same_iff _ _).0 d) q, h)
    | inr d ↦ rw d (
      p,
      ground
          (arith, find-put s e.address x.0 e, q, d, same_iff x.0 e.address, same_iff e.address x.0),
      put-IsDirectory s e h,
    )
  ]

  apply-IsDirectory :
      (s : MeshDirectoryState N) (e : MeshDirectoryEntry N)
      → IsDirectory s
      → IsDirectory (apply_mesh_directory_entry N s e).0
  unfolding apply_mesh_directory_entry
  apply-IsDirectory s e h = elim (Option-cases (refused_over N e (find s e.address))) [
    | inl p ↦ rw (apply_mesh_directory_entry, p) (put-IsDirectory s e h)
    | inr (code, p) ↦ rw (apply_mesh_directory_entry, p) h
  ]

  pub merge-IsDirectory :
      (es : List (MeshDirectoryEntry N)) (s : MeshDirectoryState N)
      → IsDirectory s
      → IsDirectory (merge_mesh_directory_entries N s es)
  unfolding merge_mesh_directory_entries
  merge-IsDirectory [] s h = h
  merge-IsDirectory (e ∷ es) s h = merge-IsDirectory es _ (apply-IsDirectory s e h)

  pub find-address :
      (s : MeshDirectoryState N) (a : String) (c : MeshDirectoryEntry N)
      → IsDirectory s
      → find s a ≡ some c
      → Memᴰ c (export_mesh_directory_entries N s) × (c.address ≡ a)
  unfolding find export_mesh_directory_entries
  find-address [] a c h p = absurd (ground (arith, p))
  find-address (x ∷ s) a c (k, q, h) p = elim (Bool-cases (same x.0 a)) [
    | inl d ↦
        let j : c ≡ x.1 = ground (arith, p, d) in (Memᴰ.head j, rw j (sym k ∙ (same_iff _ _).0 d))
    | inr d ↦ let (m, e) = find-address s a c h (rw d at p) in (Memᴰ.tail m, e)
  ]

  pub find-export :
      (s : MeshDirectoryState N) (c : MeshDirectoryEntry N)
      → IsDirectory s
      → Memᴰ c (export_mesh_directory_entries N s)
      → find s c.address ≡ some c
  unfolding find export_mesh_directory_entries
  find-export [] c h m = elim m [ ]
  find-export (x ∷ s) c (k, q, h) (Memᴰ.head e) = rw⁻¹ e (
      let g =
        (same_iff x.0 c.address).1 (k ∙ ap (λ (y : MeshDirectoryEntry N). y.address) (sym e)) in
      rw g refl)
  find-export (x ∷ s) c (k, q, h) (Memᴰ.tail m) =
      let f = find-export s c h m in
      elim (Bool-cases (same x.0 c.address)) [
        | inl d ↦
            (let g = subst (λ (t : String). find s t ≡ some c) (sym ((same_iff _ _).0 d)) f in
              absurd (ground (arith, g, q)))
        | inr d ↦ rw d f
      ]

  pub merge-From :
      (es : List (MeshDirectoryEntry N)) (s : MeshDirectoryState N) (a : String)
      (d : MeshDirectoryEntry N)
      → find (merge_mesh_directory_entries N s es) a ≡ some d
      → (find s a ≡ some d) ⊎ Memᴰ d es × (d.address ≡ a)
  unfolding merge_mesh_directory_entries
  merge-From [] s a d p = inl p
  merge-From (e ∷ es) s a d p = elim (merge-From es _ a d p) [
    | inr (m, k) ↦ inr (Memᴰ.tail m, k)
    | inl f ↦ elim (step-From N s e a d f) [ inl g ↦ inl g | inr (g, k) ↦ inr (Memᴰ.head g, k) ]
  ]

  step_known :
      (s : MeshDirectoryState N) (e : MeshDirectoryEntry N)
      → (d : MeshDirectoryEntry N) × (find (apply_mesh_directory_entry N s e).0 e.address ≡ some d)
  step_known s e = elim (step_cases N s e) [
    | inl (p, k) ↦ (e, rw p (find-put_self s e.address e))
    | inr (p, (d, f, l)) ↦ (d, rw p f)
  ]

  pub merge_known :
      (es : List (MeshDirectoryEntry N)) (s : MeshDirectoryState N) (c : MeshDirectoryEntry N)
      → Memᴰ c es
      → (d : MeshDirectoryEntry N) × (find (merge_mesh_directory_entries N s es) c.address ≡ some d)
  unfolding merge_mesh_directory_entries
  merge_known [] s c m = elim m [ ]
  merge_known (e ∷ es) s c (Memᴰ.head h) =
      let (d, p) = step_known s e in
      let (b, q, _) = merge_mesh_directory_entries-IsNewest N es _ e.address d p in
      (
        b,
        subst
            (λ (u : String).
              find (merge_mesh_directory_entries N (apply_mesh_directory_entry N s e).0 es) u
              ≡ some b)
            (ap (λ (y : MeshDirectoryEntry N). y.address) (sym h)) q,
      )
  merge_known (e ∷ es) s c (Memᴰ.tail m) = merge_known es _ c m
