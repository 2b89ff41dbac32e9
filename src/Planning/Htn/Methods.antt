-- ===== src/Planning/Htn/Methods.antt =====
-- The methods of a task in the order in which they are tried: sorting loses none.
use actor_web.Common.{true, List, [], ◌∷◌, ◌≡◌, refl, ◌↔◌, ◌⊎◌, inl, inr, leb, arith, Bool-cases}
use actor_web.Planning.Htn.{TaskMethod, check_preconditions, insert_method, sorted_methods}
use actor_web.Planning.Htn.Solved.{Any}

module _ {T W : Type 0} (P : TaskMethod T W → Type 0) where
  Any-insert_method :
      (m : TaskMethod T W) (xs : List (TaskMethod T W))
      → Any P (insert_method m xs)
      → P m ⊎ Any P xs
  unfolding insert_method
  Any-insert_method m [] h = h
  Any-insert_method m (x ∷ xs) h = elim (Bool-cases (leb x.priority m.priority)) [
    | inl e ↦ rw e at h
    | inr e ↦
        let h' : P x ⊎ Any P (insert_method m xs) = (rw e at h) in
        elim h' [
          | inl px ↦ inr (inl px)
          | inr more ↦ elim (Any-insert_method m xs more) [ inl pm ↦ inl pm | inr r ↦ inr (inr r) ]
        ]
  ]

  insert_method-Any :
      (m : TaskMethod T W) (xs : List (TaskMethod T W))
      → P m ⊎ Any P xs
      → Any P (insert_method m xs)
  unfolding insert_method
  insert_method-Any m [] h = h
  insert_method-Any m (x ∷ xs) h = elim (Bool-cases (leb x.priority m.priority)) [
    | inl e ↦ rw e h
    | inr e ↦ rw e (elim h [
      | inl pm ↦ inr (insert_method-Any m xs (inl pm))
      | inr more ↦ elim more [ inl px ↦ inl px | inr r ↦ inr (insert_method-Any m xs (inr r)) ]
    ])
  ]

  -- Some method to be tried has a property exactly if some method has it whose preconditions hold.
  pub Any-sorted_methods :
      (ms : List (TaskMethod T W)) (s : W)
      → Any P (sorted_methods ms s)
        ↔ Any (λ m. (check_preconditions m.preconditions s ≡ true) × P m) ms
  unfolding sorted_methods
  Any-sorted_methods [] s = (λ h. h, λ h. h)
  Any-sorted_methods (m ∷ ms) s = elim (Bool-cases (check_preconditions m.preconditions s)) [
    | inl e ↦ rw e (
      λ h. elim (Any-insert_method m (sorted_methods ms s) h) [
        | inl pm ↦ inl (refl, pm)
        | inr more ↦ inr ((Any-sorted_methods ms s).0 more)
      ],
      λ h. elim h [
        | inl pm ↦ insert_method-Any m (sorted_methods ms s) (inl pm.1)
        | inr more ↦
            insert_method-Any m (sorted_methods ms s) (inr ((Any-sorted_methods ms s).1 more))
      ],
    )
    | inr e ↦ rw e (
      λ h. inr ((Any-sorted_methods ms s).0 h),
      λ h. elim h [
        | inl pm ↦ absurd (ground (arith, pm.0))
        | inr more ↦ (Any-sorted_methods ms s).1 more
      ],
    )
  ]
