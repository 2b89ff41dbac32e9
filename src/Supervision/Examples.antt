-- ===== src/Supervision/Examples.antt =====
-- The decisions and the budget at concrete failures.
use actor_web.Common.{
  ℕ, true, false, List, [], ◌∷◌, none, some, arith, ◌≡◌, refl, ◌≤◌, length, includes,
}
use actor_web.Supervision.{
  Strategy, Policy, Group, rest_for_one, from_failed, resolve_supervision_decision,
  resolve_tree_supervision_decision, apply_supervision_strategy, restart_members, backoff_delay,
}
use actor_web.Supervision.Budget.{
  Failure, fail_once, restarts, in_window, never_restarted, restarts_bounded, length-restarts-le,
}

program : Unit {0}
unfolding resolve_supervision_decision resolve_tree_supervision_decision from_failed includes
    apply_supervision_strategy fail_once restarts in_window backoff_delay
program = tt

abbrev at : ℕ → Failure
at t = record { decided_at = t; restarted_at = t }

-- Four failures, 29 seconds apart.
abbrev slow : List Failure
slow = at 1000 ∷ at 30000 ∷ at 59000 ∷ at 88000 ∷ []

-- The fourth failure is final, although no 30 seconds hold more than two of them.
slow_stops : restarts none slow never_restarted ≡ 1000 ∷ 30000 ∷ 59000 ∷ []
unfolding program
slow_stops = refl

last_delay : backoff_delay 2 ≡ 4000
unfolding program
last_delay = refl

restarts_bounded_example : in_window 30000 30000 (restarts none slow never_restarted) ≤ 3
restarts_bounded_example = restarts_bounded none 30000 slow (omega arith)

length-restarts-le_example : length (restarts none slow never_restarted) ≤ 3
length-restarts-le_example =
    length-restarts-le none (at 1000) (at 30000 ∷ at 59000 ∷ at 88000 ∷ []) (omega arith)

abbrev pipeline : Group
pipeline = record { key = "pipeline"; strategy = rest_for_one; children = "a" ∷ "b" ∷ "c" ∷ [] }

abbrev once : Policy
once = record { strategy = Strategy.escalate; max_restarts = some 1; within_ms = none }

-- An escalating child of the group is restarted with it, within its own bounds.
escalating_child :
    apply_supervision_strategy false true (some once) (some pipeline) "c" 5 6 never_restarted
    ≡ (restart_members ("c" ∷ []) ("c" ∷ []), never_restarted)
unfolding program
escalating_child = refl
