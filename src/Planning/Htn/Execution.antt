-- ===== src/Planning/Htn/Execution.antt =====
-- The plans that can be carried out as they stand.
use actor_web.Common.{
  ℕ, zero, suc, true, List, [], ◌∷◌, ◌++◌, some, ◌≡◌, refl, ap, ◌∙◌, inl, inr, Dict, All,
}
use actor_web.Planning.Htn.{
  Condition, TaskMethod, TaskType, primitive, compound, Task, Stats, planned, check_preconditions,
  apply_effects, is_admissible, methods_of, plan,
}
use actor_web.Planning.Htn.Solved.{Any, Chain, Decomposes, SolvesBy, Solves}
use actor_web.Planning.Htn.Complete.{plan-Solves}

module _ {T W : Type 0} (look : T → Task T W) (registry : Dict (List (TaskMethod T W)))
    (constraints : List (Condition W)) where
  -- The state after the effects of tasks, one after the other.
  abbrev pub run : List T → W → W
  run [] s = s
  run (t ∷ ts) s = run ts (apply_effects (look t).effects s)

  -- Each task is a primitive one, and is admissible where it is carried out.
  abbrev pub Executable : List T → W → Type 0
  Executable [] s = Unit
  Executable (t ∷ p) s =
      ((look t).type ≡ primitive)
      × (is_admissible look registry constraints t s ≡ true)
      × Executable p (apply_effects (look t).effects s)

  -- The subtasks that a method gives, if its preconditions hold, have together the effects that the task declares.
  abbrev pub IsExact : T → W → TaskMethod T W → Type 0
  IsExact t s m =
      check_preconditions m.preconditions s ≡ true
      → (ts : List T) → m.decompose t s ≡ some ts
      → run ts s ≡ apply_effects (look t).effects s

  abbrev ExactBy : T → W → TaskType T W → Type 0
  ExactBy t s primitive = Unit
  ExactBy t s (compound own) = All (IsExact t s) (methods_of look registry constraints t own)

  abbrev pub Exact : Type 0
  Exact = (t : T) (s : W) → ExactBy t s (look t).type

  run-append : (p q : List T) (s : W) → run (p ++ q) s ≡ run q (run p s)
  run-append [] q s = refl
  run-append (t ∷ p) q s = run-append p q (apply_effects (look t).effects s)

  Executable-append :
      (p q : List T) (s : W) → Executable p s → Executable q (run p s) → Executable (p ++ q) s
  Executable-append [] q s h k = k
  Executable-append (t ∷ p) q s h k =
      (h.0, h.1, Executable-append p q (apply_effects (look t).effects s) h.2 k)

  -- What a plan for a task is to do.
  Achieves : T → W → List T → Type 0
  Achieves t s p = Executable p s × (run p s ≡ apply_effects (look t).effects s)

  module _ (R : T → W → List T → Type 0)
      (achieves : (t : T) (s : W) (p : List T) → R t s p → Achieves t s p) where
    Chain-Executable :
        (ts : List T) (s : W) (p : List T)
        → Chain look registry constraints R ts s p
        → Executable p s × (run p s ≡ run ts s)
    unfolding Achieves
    Chain-Executable [] s p h = rw h (tt, refl)
    Chain-Executable (t ∷ ts) s p (q, r, e, one, more) =
        let (x, x') = achieves t s q one in
        let (y, y') = Chain-Executable ts (apply_effects (look t).effects s) r more in
        rw e (Executable-append q r s x (rw x' y), run-append q r s ∙ ap (run r) x' ∙ y')

    Any-Achieves :
        (t : T) (s : W) (p : List T) (ms : List (TaskMethod T W))
        → All (IsExact t s) ms
        → Any (Decomposes look registry constraints R t s p) ms
        → Achieves t s p
    unfolding Achieves
    Any-Achieves t s p [] all h = absurd h
    Any-Achieves t s p (m ∷ ms) all (inl (ok, (ts, e, c))) =
        let (x, x') = Chain-Executable ts s p c in (x, x' ∙ all.0 ok ts e)
    Any-Achieves t s p (m ∷ ms) all (inr more) = Any-Achieves t s p ms all.1 more

    SolvesBy-Achieves :
        (t : T) (s : W) (p : List T) (k : TaskType T W)
        → (look t).type ≡ k
        → is_admissible look registry constraints t s ≡ true
        → ExactBy t s k
        → SolvesBy look registry constraints R t s p k
        → Achieves t s p
    unfolding Achieves
    SolvesBy-Achieves t s p primitive is ok exact h = rw h ((is, ok, tt), refl)
    SolvesBy-Achieves t s p (compound own) is ok exact h =
        Any-Achieves t s p (methods_of look registry constraints t own) exact h

  Solves-Achieves :
      Exact
      → (n : ℕ) (t : T) (s : W) (p : List T) → Solves look registry constraints n t s p
      → Achieves t s p
  Solves-Achieves exact zero t s p h = absurd h
  Solves-Achieves exact (suc n) t s p (ok, by) =
      SolvesBy-Achieves (Solves look registry constraints n) (Solves-Achieves exact n) t s p
        (look t).type refl ok (exact t s) by

  -- If each compound task declares the effects that its subtasks have together, then a plan that the
  -- planner returns can be carried out: it has primitive tasks only, each with its preconditions and
  -- the constraints met in the state that those before it leave, and in the end the effects of the
  -- task are there.
  pub plan-Executable :
      (max_depth : ℕ) (t : T) (s : W) (p : List T) (st : Stats)
      → Exact
      → plan look registry constraints max_depth t s ≡ planned p st
      → Executable p s × (run p s ≡ apply_effects (look t).effects s)
  unfolding Achieves
  plan-Executable max_depth t s p st exact h =
      Solves-Achieves exact (suc max_depth) t s p
        (plan-Solves look registry constraints max_depth t s p st h)
