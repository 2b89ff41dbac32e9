-- ===== src/Planning/Htn.antt =====
-- The planner of hierarchical task networks: packages/actor-core-runtime/src/planning/
-- hierarchical-task-network.ts, class HTNPlanner. A task object is a reference of the type T, and
-- `look` reads it; states of the world are of a type W. The conditions, effects and methods that a
-- caller registers are functions that may throw, which is `none`, and change nothing.
pub mod Solved
pub mod Methods
pub mod Complete
pub mod Execution
mod Examples
use actor_web.Common.{
  ℕ, zero, suc, ◌+◌, Bool, true, false, ◌&&◌, List, [], ◌∷◌, ◌++◌, Option, none, some, String,
  if◌then◌else◌, leb, max, given, Dict, find,
}

pub record Condition (W : Type 0) : Type 0 where
  pub id : String
  pub predicate : W → Option Bool

pub record Effect (W : Type 0) : Type 0 where
  pub id : String
  pub apply : W → Option W

pub record TaskMethod (T W : Type 0) : Type 0 where
  pub id : String
  pub preconditions : List (Condition W)
  pub decompose : T → W → Option (List T)
  pub priority : ℕ

pub data TaskType (T W : Type 0) : Type 0 where
  primitive : TaskType T W
  compound : List (TaskMethod T W) → TaskType T W

pub record Task (T W : Type 0) : Type 0 where
  pub id : String
  pub name : String
  pub type : TaskType T W
  pub preconditions : List (Condition W)
  pub effects : List (Effect W)

pub record Stats : Type 0 where
  pub tasks_explored : ℕ
  pub decompositions : ℕ
  pub depth : ℕ

pub data PlanningError : Type 0 where
  max_depth_exceeded : PlanningError
  preconditions_not_satisfied : String → PlanningError
  constraints_not_satisfied : PlanningError
  no_methods_available : String → PlanningError
  no_applicable_methods : String → PlanningError

pub data PlanningResult (T : Type 0) : Type 0 where
  planned : List T → Stats → PlanningResult T
  failed : PlanningError → Stats → PlanningResult T

abbrev pub if_planned {ℓ} :
    {T : Type 0} {A : Type ℓ} → PlanningResult T → A → (List T → Stats → A) → A
if_planned (planned p st) x f = f p st
if_planned (failed e st) x f = x

-- `checkPreconditions`: a condition that throws does not hold.
unfoldable pub check_preconditions : {W : Type 0} → List (Condition W) → W → Bool
check_preconditions [] s = true
check_preconditions (c ∷ cs) s = given (c.predicate s) false (λ b. b) && check_preconditions cs s

-- `applyEffects`: an effect that throws is left out.
unfoldable pub apply_effects : {W : Type 0} → List (Effect W) → W → W
apply_effects [] s = s
apply_effects (e ∷ es) s = apply_effects es (given (e.apply s) s (λ s'. s'))

-- `sort`, which keeps the order of methods of one priority.
unfoldable pub insert_method :
    {T W : Type 0} → TaskMethod T W → List (TaskMethod T W) → List (TaskMethod T W)
insert_method m [] = m ∷ []
insert_method m (x ∷ xs) = if leb x.priority m.priority then m ∷ x ∷ xs else x ∷ insert_method m xs

-- The methods whose preconditions hold, in the order of priority.
unfoldable pub sorted_methods : {T W : Type 0} → List (TaskMethod T W) → W → List (TaskMethod T W)
unfolding insert_method
sorted_methods [] s = []
sorted_methods (m ∷ ms) s =
    let rest = sorted_methods ms s in
    if check_preconditions m.preconditions s then insert_method m rest else rest

unfoldable pub add_stats : Stats → Stats → Stats
add_stats a b = record {
  tasks_explored = a.tasks_explored + b.tasks_explored;
  decompositions = a.decompositions + b.decompositions;
  depth = max a.depth b.depth;
}

unfoldable pub no_stats : ℕ → ℕ → ℕ → Stats
no_stats explored decompositions depth = record {
  tasks_explored = explored;
  decompositions = decompositions;
  depth = depth;
}

module _ {T W : Type 0} (look : T → Task T W) (registry : Dict (List (TaskMethod T W)))
    (constraints : List (Condition W)) where
  -- Whether a task may be planned in a state: what `planInternal` checks first.
  unfoldable pub is_admissible : T → W → Bool
  is_admissible t s =
      check_preconditions (look t).preconditions s && check_preconditions constraints s

  -- The methods that are registered for a task replace its own.
  unfoldable pub methods_of : T → List (TaskMethod T W) → List (TaskMethod T W)
  methods_of t own = given (find registry (look t).id) own (λ ms. ms)

  -- The loop over the subtasks of a method. Each is planned in the state that the effects of those
  -- before it lead to.
  unfoldable pub plan_subtasks :
      (T → W → PlanningResult T) → List T → W → List T → Stats → Option (List T × Stats)
  plan_subtasks plan_one [] s plan stats = some (plan, stats)
  plan_subtasks plan_one (t ∷ ts) s plan stats = if_planned (plan_one t s) none (λ p st.
      plan_subtasks plan_one ts (apply_effects (look t).effects s) (plan ++ p) (add_stats stats st))

  -- The loop over the methods: one that throws, or with a subtask that fails, is given up.
  unfoldable pub try_methods :
      (T → W → PlanningResult T) → ℕ → T → W → List (TaskMethod T W) → PlanningResult T
  unfolding plan_subtasks no_stats
  try_methods plan_one depth t s [] =
      failed (no_applicable_methods (look t).name) (no_stats 0 0 depth)
  try_methods plan_one depth t s (m ∷ ms) =
      let rest = try_methods plan_one depth t s ms in
      given (m.decompose t s) rest (λ ts.
        given (plan_subtasks plan_one ts s [] (no_stats 0 1 depth)) rest (λ r. planned r.0 r.1))

  unfoldable pub decompose_by :
      (T → W → PlanningResult T) → ℕ → T → W → List (TaskMethod T W) → PlanningResult T
  unfolding no_stats
  decompose_by plan_one depth t s [] =
      failed (no_methods_available (look t).name) (no_stats 0 0 depth)
  decompose_by plan_one depth t s (m ∷ ms) =
      try_methods plan_one depth t s (sorted_methods (m ∷ ms) s)

  unfoldable pub plan_by_type :
      (T → W → PlanningResult T) → ℕ → T → W → TaskType T W → PlanningResult T
  unfolding no_stats methods_of decompose_by
  plan_by_type plan_one depth t s primitive = planned (t ∷ []) (no_stats 1 0 depth)
  plan_by_type plan_one depth t s (compound own) =
      decompose_by plan_one depth t s (methods_of t own)

  -- `planInternal`, where `left` is `maxDepth + 1 - depth`.
  unfoldable pub plan_internal : ℕ → ℕ → T → W → PlanningResult T
  unfolding no_stats plan_by_type
  plan_internal zero depth t s = failed max_depth_exceeded (no_stats 0 0 depth)
  plan_internal (suc left) depth t s =
      if check_preconditions (look t).preconditions s
      then if check_preconditions constraints s
        then plan_by_type (plan_internal left (suc depth)) depth t s (look t).type
        else failed constraints_not_satisfied (no_stats 0 0 depth)
      else failed (preconditions_not_satisfied (look t).name) (no_stats 0 0 depth)

  -- `plan`
  unfoldable pub plan : ℕ → T → W → PlanningResult T
  unfolding plan_internal
  plan max_depth t s = plan_internal (suc max_depth) 0 t s
