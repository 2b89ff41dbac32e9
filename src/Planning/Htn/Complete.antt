-- ===== src/Planning/Htn/Complete.antt =====
-- The planner finds a plan where there is one, and what it finds is one.
use actor_web.Common.{
  ℕ, zero, suc, List, [], ◌∷◌, ◌++◌, append_assoc, append-nil, none, some, ◌≡◌, refl, ◌∙◌, ◌⊎◌, inl,
  inr, Dict, arith, Bool-cases, Option-cases, and-true,
}
use actor_web.Planning.Htn.{
  Condition, TaskMethod, TaskType, primitive, compound, Task, Stats, PlanningResult, PlanningError,
  planned, failed, constraints_not_satisfied, preconditions_not_satisfied, check_preconditions,
  apply_effects, is_admissible, methods_of, add_stats, no_stats, sorted_methods, plan_subtasks,
  try_methods, decompose_by, plan_by_type, plan_internal, plan,
}
use actor_web.Planning.Htn.Solved.{Any, Chain, Decomposes, SolvesBy, Solves}
use actor_web.Planning.Htn.Methods.{Any-sorted_methods}

pub result-cases :
    {T : Type 0} (r : PlanningResult T)
    → ((p : List T) × (st : Stats) × (r ≡ planned p st))
      ⊎ ((e : PlanningError) × (st : Stats) × (r ≡ failed e st))
result-cases (planned p st) = inl (p, st, refl)
result-cases (failed e st) = inr (e, st, refl)

module _ {T W : Type 0} (look : T → Task T W) (registry : Dict (List (TaskMethod T W)))
    (constraints : List (Condition W)) where
  module _ (R : T → W → List T → Type 0) (plan_one : T → W → PlanningResult T)
      (sound : (t : T) (s : W) (p : List T) (st : Stats) → plan_one t s ≡ planned p st → R t s p)
      (complete : (t : T) (s : W) (p : List T)
        → R t s p
        → (q : List T) × (st : Stats) × (plan_one t s ≡ planned q st)) where
    plan_subtasks-Chain :
        (ts : List T) (s : W) (acc p : List T) (st st' : Stats)
        → plan_subtasks look registry constraints plan_one ts s acc st ≡ some (p, st')
        → (q : List T) × (p ≡ acc ++ q) × Chain look registry constraints R ts s q
    unfolding plan_subtasks
    plan_subtasks-Chain [] s acc p st st' h = ([], ground (arith, h, append-nil acc), refl)
    plan_subtasks-Chain (t ∷ ts) s acc p st st' h = elim (result-cases (plan_one t s)) [
      | inl (q, st1, e) ↦
          let (r, e', c) =
            plan_subtasks-Chain ts (apply_effects (look t).effects s) (acc ++ q) p
              (add_stats st st1) st' (rw e at h) in
          (q ++ r, e' ∙ append_assoc acc q r, (q, r, refl, sound t s q st1 e, c))
      | inr (x, st1, e) ↦ absurd (let h' : none ≡ some (p, st') = (rw e at h) in cc)
    ]

    plan_subtasks_complete :
        (ts : List T) (s : W) (acc q : List T) (st : Stats)
        → Chain look registry constraints R ts s q
        → (r : List T × Stats) × (plan_subtasks look registry constraints plan_one ts s acc st
            ≡ some r)
    unfolding plan_subtasks
    plan_subtasks_complete [] s acc q st h = ((acc, st), refl)
    plan_subtasks_complete (t ∷ ts) s acc q st (q1, q2, e, one, more) =
        let (p, st1, found) = complete t s q1 one in
        rw found (
          plan_subtasks_complete ts (apply_effects (look t).effects s) (acc ++ p) q2
            (add_stats st st1) more)

    -- A method whose decomposition has a plan.
    abbrev Works : T → W → List T → TaskMethod T W → Type 0
    Works t s p m =
        (ts : List T) × (m.decompose t s ≡ some ts) × Chain look registry constraints R ts s p

    try_methods-Any :
        (depth : ℕ) (t : T) (s : W) (ms : List (TaskMethod T W)) (p : List T) (st : Stats)
        → try_methods look registry constraints plan_one depth t s ms ≡ planned p st
        → Any (Works t s p) ms
    unfolding try_methods
    try_methods-Any depth t s [] p st h = absurd (cc)
    try_methods-Any depth t s (m ∷ ms) p st h = elim (Option-cases (m.decompose t s)) [
      | inl e ↦ inr (try_methods-Any depth t s ms p st (rw e at h))
      | inr (ts, e) ↦
          elim (Option-cases
            (plan_subtasks look registry constraints plan_one ts s [] (no_stats 0 1 depth))) [
              | inl e' ↦ inr (try_methods-Any depth t s ms p st (rw (e, e') at h))
              | inr (r, e') ↦
                  let h' : planned r.0 r.1 ≡ planned p st = (rw (e, e') at h) in
                  let (q, eq, c) =
                    plan_subtasks-Chain ts s [] p (no_stats 0 1 depth) st
                      (ground (arith, e', h')) in
                  inl (ts, e, rw eq c)
            ]
    ]

    try_methods_complete :
        (depth : ℕ) (t : T) (s : W) (ms : List (TaskMethod T W)) (p : List T)
        → Any (Works t s p) ms
        → (q : List T) × (st : Stats) × (try_methods look registry constraints plan_one depth t s ms
            ≡ planned q st)
    unfolding try_methods
    try_methods_complete depth t s [] p h = absurd h
    try_methods_complete depth t s (m ∷ ms) p (inl (ts, e, c)) =
        let (r, found) = plan_subtasks_complete ts s [] p (no_stats 0 1 depth) c in
        (r.0, r.1, rw (e, found))
    try_methods_complete depth t s (m ∷ ms) p (inr more) =
        let (q, st, later) = try_methods_complete depth t s ms p more in
        elim (Option-cases (m.decompose t s)) [
          | inl e ↦ (q, st, rw e later)
          | inr (ts, e) ↦
              elim (Option-cases
                (plan_subtasks look registry constraints plan_one ts s [] (no_stats 0 1 depth))) [
                  | inl e' ↦ (q, st, rw (e, e') later)
                  | inr (r, e') ↦ (r.0, r.1, rw (e, e'))
                ]
        ]

    decompose_by-Any :
        (depth : ℕ) (t : T) (s : W) (ms : List (TaskMethod T W)) (p : List T) (st : Stats)
        → decompose_by look registry constraints plan_one depth t s ms ≡ planned p st
        → Any (Decomposes look registry constraints R t s p) ms
    unfolding decompose_by
    decompose_by-Any depth t s [] p st h = absurd (cc)
    decompose_by-Any depth t s (m ∷ ms) p st h =
        (Any-sorted_methods (Works t s p) (m ∷ ms) s).0
          (try_methods-Any depth t s (sorted_methods (m ∷ ms) s) p st h)

    decompose_by_complete :
        (depth : ℕ) (t : T) (s : W) (ms : List (TaskMethod T W)) (p : List T)
        → Any (Decomposes look registry constraints R t s p) ms
        → (q : List T) × (st : Stats) × (decompose_by look registry constraints plan_one depth t s
              ms
            ≡ planned q st)
    unfolding decompose_by
    decompose_by_complete depth t s [] p h = absurd h
    decompose_by_complete depth t s (m ∷ ms) p h =
        try_methods_complete depth t s (sorted_methods (m ∷ ms) s) p
          ((Any-sorted_methods (Works t s p) (m ∷ ms) s).1 h)

    plan_by_type-SolvesBy :
        (depth : ℕ) (t : T) (s : W) (k : TaskType T W) (p : List T) (st : Stats)
        → plan_by_type look registry constraints plan_one depth t s k ≡ planned p st
        → SolvesBy look registry constraints R t s p k
    unfolding plan_by_type
    plan_by_type-SolvesBy depth t s primitive p st h = ground (arith, h)
    plan_by_type-SolvesBy depth t s (compound own) p st h =
        decompose_by-Any depth t s (methods_of look registry constraints t own) p st h

    plan_by_type_complete :
        (depth : ℕ) (t : T) (s : W) (k : TaskType T W) (p : List T)
        → SolvesBy look registry constraints R t s p k
        → (q : List T) × (st : Stats) × (plan_by_type look registry constraints plan_one depth t s k
            ≡ planned q st)
    unfolding plan_by_type
    plan_by_type_complete depth t s primitive p h = (t ∷ [], no_stats 1 0 depth, refl)
    plan_by_type_complete depth t s (compound own) p h =
        decompose_by_complete depth t s (methods_of look registry constraints t own) p h

  Sound : ℕ → ℕ → Type 0
  Sound left depth =
      (t : T) (s : W) (p : List T) (st : Stats)
      → plan_internal look registry constraints left depth t s ≡ planned p st
      → Solves look registry constraints left t s p

  Complete : ℕ → ℕ → Type 0
  Complete left depth =
      (t : T) (s : W) (p : List T)
      → Solves look registry constraints left t s p
      → (q : List T) × (st : Stats) × (plan_internal look registry constraints left depth t s
          ≡ planned q st)

  plan_internal-Sound :
      (left depth : ℕ) → Sound left (suc depth) → Complete left (suc depth) → Sound (suc left) depth
  unfolding Sound Complete plan_internal is_admissible
  plan_internal-Sound left depth sound complete t s p st h =
      elim (Bool-cases (check_preconditions (look t).preconditions s)) [
        | inl e ↦ elim (Bool-cases (check_preconditions constraints s)) [
          | inl e' ↦ (
            rw (e, e') refl,
            plan_by_type-SolvesBy (Solves look registry constraints left)
                (plan_internal look registry constraints left (suc depth)) sound complete depth t s
                (look t).type p st (rw (e, e') at h),
          )
          | inr e' ↦ absurd (
              let h' : failed constraints_not_satisfied (no_stats 0 0 depth) ≡ planned p st =
                (rw (e, e') at h) in
              cc)
        ]
        | inr e ↦ absurd (
            let h' : failed (preconditions_not_satisfied (look t).name) (no_stats 0 0 depth)
                ≡ planned p st =
              (rw e at h) in
            cc)
      ]

  plan_internal-Complete :
      (left depth : ℕ)
      → Sound left (suc depth)
      → Complete left (suc depth)
      → Complete (suc left) depth
  unfolding Sound Complete plan_internal is_admissible
  plan_internal-Complete left depth sound complete t s p (ok, by) =
      let (e, e') =
        and-true (check_preconditions (look t).preconditions s) (check_preconditions constraints s)
          ok in
      rw (e, e')
        (plan_by_type_complete (Solves look registry constraints left)
          (plan_internal look registry constraints left (suc depth)) sound complete depth t s
          (look t).type p by)

  plan_internal_lem : (left depth : ℕ) → Sound left depth × Complete left depth
  unfolding Sound Complete plan_internal
  plan_internal_lem zero depth = (λ t s p st h. absurd (cc), λ t s p h. absurd h)
  plan_internal_lem (suc left) depth =
      let (sound, complete) = plan_internal_lem left (suc depth) in
      (
        plan_internal-Sound left depth sound complete,
        plan_internal-Complete left depth sound complete,
      )

  -- What the planner returns for a task results from it by decompositions into subtasks, each done
  -- where its preconditions and the constraints hold, by methods whose preconditions hold, at most
  -- `max_depth + 1` tasks one below the other, in the states that the declared effects of the tasks
  -- before it lead to.
  pub plan-Solves :
      (max_depth : ℕ) (t : T) (s : W) (p : List T) (st : Stats)
      → plan look registry constraints max_depth t s ≡ planned p st
      → Solves look registry constraints (suc max_depth) t s p
  unfolding plan Sound
  plan-Solves max_depth t s p st h = (plan_internal_lem (suc max_depth) 0).0 t s p st h

  -- If some plan results from the task by decompositions into subtasks, at most `max_depth + 1`
  -- tasks one below the other, each task done where its preconditions and the constraints hold, by
  -- methods whose preconditions hold, in the states that the declared effects of the tasks before it
  -- lead to (for a compound task its own effects, not those of its plan): then the planner returns a
  -- plan, perhaps another one, whatever other methods fail or throw, and also where methods of higher
  -- priority end nowhere. Nothing is said of a task whose plans all need a deeper decomposition.
  pub plan_complete :
      (max_depth : ℕ) (t : T) (s : W) (p : List T)
      → Solves look registry constraints (suc max_depth) t s p
      → (q : List T) × (st : Stats) × (plan look registry constraints max_depth t s ≡ planned q st)
  unfolding plan Complete
  plan_complete max_depth t s p h = (plan_internal_lem (suc max_depth) 0).1 t s p h
