-- ===== src/Supervision/Apply.antt =====
-- What `applySupervisionStrategy` executes, against the bounds of the failed actor's policy.
use actor_web.Common.{ℕ, Bool, List, Option, arith, ◌≡◌, ◌<◌, String, ◌⊎◌}
use actor_web.Supervision.{
  Strategy, Policy, Bookkeeping, restart, Group, resolve_supervision_decision,
  resolve_tree_supervision_decision, apply_supervision_strategy, restart_members, by_decision,
  Directive, max_restarts_of, strategy_of,
}

module _ (p : Option Policy) (g : Option Group) (path : String) (now later : ℕ)
    (k : Bookkeeping) where
  -- Whatever the actor's policy and group are: if a failure restarts the actor, alone or with
  -- members of its group, then the policy is to restart or to escalate, and the count of restarts
  -- that is written back is below the policy's (or the default) bound, also where an escalating
  -- child's failure restarts a group.
  pub apply_supervision_strategy_bounded :
      (in_flight known : Bool) (n m : ℕ) (stops respawns : List String) {d : Directive}
      {k' : Bookkeeping}
      → apply_supervision_strategy in_flight known p g path now later k ≡ (d, k')
      → (d ≡ restart_members stops respawns) ⊎ (d ≡ by_decision (restart n m))
      → ((strategy_of p ≡ Strategy.restart) ⊎ (strategy_of p ≡ Strategy.escalate))
        × (k'.restart_count < max_restarts_of p)
  unfolding apply_supervision_strategy resolve_supervision_decision
      resolve_tree_supervision_decision
  apply_supervision_strategy_bounded in_flight known n m stops respawns h e = ground arith
