-- ===== src/Planning/Htn/Solved.antt =====
-- What a plan is, apart from how it is found.
use actor_web.Common.{ℕ, zero, suc, true, List, [], ◌∷◌, ◌++◌, some, ◌≡◌, ◌⊎◌, Dict}
use actor_web.Planning.Htn.{
  Condition, TaskMethod, TaskType, primitive, compound, Task, check_preconditions, apply_effects,
  is_admissible, methods_of,
}

-- Some element of a list has a property.
abbrev pub Any {ℓ} : {A : Type ℓ} → (A → Type 0) → List A → Type 0
Any P [] = ⊥
Any P (x ∷ xs) = P x ⊎ Any P xs

module _ {T W : Type 0} (look : T → Task T W) (registry : Dict (List (TaskMethod T W)))
    (constraints : List (Condition W)) where
  -- A plan for tasks that are done in order is one for each, in the states that their effects lead
  -- to.
  abbrev pub Chain : (T → W → List T → Type 0) → List T → W → List T → Type 0
  Chain R [] s p = p ≡ []
  Chain R (t ∷ ts) s p =
      (q : List T) × (r : List T) × (p ≡ q ++ r)
      × R t s q
      × Chain R ts (apply_effects (look t).effects s) r

  -- A method whose preconditions hold decomposes the task into tasks with that plan.
  abbrev pub Decomposes : (T → W → List T → Type 0) → T → W → List T → TaskMethod T W → Type 0
  Decomposes R t s p m =
      (check_preconditions m.preconditions s ≡ true)
      × ((ts : List T) × (m.decompose t s ≡ some ts) × Chain R ts s p)

  abbrev pub SolvesBy : (T → W → List T → Type 0) → T → W → List T → TaskType T W → Type 0
  SolvesBy R t s p primitive = p ≡ t ∷ []
  SolvesBy R t s p (compound own) =
      Any (Decomposes R t s p) (methods_of look registry constraints t own)

  -- The plan results from the task by decompositions, at most so many one below the other. Which
  -- methods are taken is left open.
  abbrev pub Solves : ℕ → T → W → List T → Type 0
  Solves zero t s p = ⊥
  Solves (suc n) t s p =
      (is_admissible look registry constraints t s ≡ true) × SolvesBy (Solves n) t s p (look t).type
