-- ===== src/Planning/Htn/Examples.antt =====
-- A delivery: a truck is loaded and driven. The method of higher priority drives first, which is
-- given up, since a truck that is not loaded may not be driven. The state counts what was done.
use actor_web.Common.{ℕ, zero, suc, ◌+◌, List, [], ◌∷◌, some, leb, ◌≡◌, refl, find, arith}
use actor_web.Planning.Htn.{
  Condition, Effect, TaskMethod, primitive, compound, Task, Stats, no_stats, planned, plan,
  check_preconditions, apply_effects, try_methods, sorted_methods, add_stats, methods_of,
}
use actor_web.Planning.Htn.Solved.{Solves}
use actor_web.Planning.Htn.Complete.{plan-Solves, plan_complete}
use actor_web.Planning.Htn.Execution.{Exact, Executable, run, plan-Executable}

abbrev loaded : Condition ℕ
loaded = record { id = "loaded"; predicate = λ s. some (leb 1 s) }

abbrev adds : ℕ → Effect ℕ
adds n = record { id = "adds"; apply = λ s. some (s + n) }

abbrev method : List ℕ → ℕ → TaskMethod ℕ ℕ
method ts p = record { id = "method"; preconditions = []; decompose = λ t s. some ts; priority = p }

abbrev look : ℕ → Task ℕ ℕ
look zero = record {
  id = "deliver";
  name = "deliver";
  type = compound (method (1 ∷ 2 ∷ []) 5 ∷ method (2 ∷ 1 ∷ []) 9 ∷ []);
  preconditions = [];
  effects = adds 11 ∷ [];
}
look (suc zero) = record {
  id = "load";
  name = "load";
  type = primitive;
  preconditions = [];
  effects = adds 1 ∷ [];
}
look (suc (suc n)) = record {
  id = "drive";
  name = "drive";
  type = primitive;
  preconditions = loaded ∷ [];
  effects = adds 10 ∷ [];
}

delivers : plan look [] [] 3 0 0 ≡ planned (1 ∷ 2 ∷ []) (no_stats 2 1 1)
unfolding plan no_stats check_preconditions find try_methods sorted_methods apply_effects add_stats
delivers = refl

solved : Solves look [] [] 4 0 0 (1 ∷ 2 ∷ [])
solved = plan-Solves look [] [] 3 0 0 (1 ∷ 2 ∷ []) (no_stats 2 1 1) delivers

plan_complete_example : (q : List ℕ) × (st : Stats) × (plan look [] [] 3 0 0 ≡ planned q st)
plan_complete_example = plan_complete look [] [] 3 0 0 (1 ∷ 2 ∷ []) solved

exact : Exact look [] []
unfolding apply_effects methods_of find
exact zero s = (λ ok ts e. ground (arith, e), (λ ok ts e. ground (arith, e), tt))
exact (suc zero) s = tt
exact (suc (suc n)) s = tt

plan-Executable_example :
    Executable look [] [] (1 ∷ 2 ∷ []) 0 × (run look [] [] (1 ∷ 2 ∷ []) 0 ≡ 11)
unfolding apply_effects
plan-Executable_example =
    plan-Executable look [] [] 3 0 0 (1 ∷ 2 ∷ []) (no_stats 2 1 1) exact delivers
