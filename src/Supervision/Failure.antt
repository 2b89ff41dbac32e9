-- ===== src/Supervision/Failure.antt =====
-- What a failure of an actor does to the system: applySupervisionStrategy of packages/
-- actor-core-runtime/src/actor-system-impl.ts, with the drivers that it calls.
pub mod Times
pub mod Drivers
pub mod Once
pub mod Refined
mod Examples
use actor_web.Common.{
  ℕ, ◌==◌, Bool, true, false, List, [], ◌∷◌, ◌++◌, Option, none, some, String, includes,
  if◌then◌else◌, given,
}
use actor_web.Supervision.{
  or_default, Decision, restart, stop_permanent, stop, escalate, resume, Group, Bookkeeping,
  Directive, ignore_in_flight, no_behavior, restart_members, stop_members, by_decision,
  apply_supervision_strategy,
}
use actor_web.Supervision.Actors.{
  Slot, System, Event, actor_resumed, actor_escalated_alone, max_restarts, supervision_stop,
  no_reason, StopReason, Fate, is_return, update, stop_actor, stop_events,
}
use actor_web.Supervision.Driver.{
  restart_supervisor_group, stop_supervisor_group, restart_actor_with_limits,
}

-- An entry that is missing reads as 0.
abbrev pub book : {B : Type 0} → Slot B → Bookkeeping
book x = record {
  restart_count = or_default x.restart_count 0;
  last_restart_time = or_default x.last_restart_time 0;
}

-- The count that is written back. One that is written as it was is left.
unfoldable pub write_count : {B : Type 0} → Bookkeeping → Slot B → Slot B
write_count k x =
    if k.restart_count == or_default x.restart_count 0
    then x
    else record x { restart_count = some k.restart_count }

unfoldable pub is_in_flight : {B : Type 0} → Option Group → System B → Bool
is_in_flight group s = given group false (λ g. includes g.key s.restarting_groups)

module _ {B : Type 0} (stop_fate spawn_fate : String → Fate) (meanwhile : System B → System B)
    (p : String) where
  unfoldable pub stop_one : StopReason → System B → System B × List Event
  unfolding stop_actor
  stop_one why s =
      (record s { slots = stop_actor (stop_fate p) p s.slots }, stop_events (stop_fate p) p why)

  -- The `switch` over the actor's own decision.
  unfoldable pub apply_decision : B → ℕ → Decision → System B → System B × List Event
  unfolding stop_one restart_actor_with_limits
  apply_decision behavior begun (restart n m) s =
      restart_actor_with_limits stop_fate spawn_fate meanwhile p behavior begun s
  apply_decision behavior begun (stop_permanent n m) s = stop_one max_restarts s
  apply_decision behavior begun stop s = stop_one supervision_stop s
  apply_decision behavior begun escalate s =
      let r = stop_one no_reason s in
      (r.0, r.1 ++ (if is_return (stop_fate p) then actor_escalated_alone p ∷ [] else []))
  apply_decision behavior begun resume s = (s, actor_resumed p ∷ [])

  unfoldable pub carry_out : String → B → ℕ → Directive → System B → System B × List Event
  unfolding apply_decision restart_supervisor_group stop_supervisor_group
  carry_out key behavior begun ignore_in_flight s = (s, [])
  carry_out key behavior begun no_behavior s = (s, [])
  carry_out key behavior begun (restart_members stops respawns) s =
      restart_supervisor_group stop_fate spawn_fate meanwhile key p stops respawns begun s
  carry_out key behavior begun (stop_members stops reason) s =
      stop_supervisor_group stop_fate spawn_fate key p stops reason s
  carry_out key behavior begun (by_decision d) s = apply_decision behavior begun d s

  -- `applySupervisionStrategy` for an actor with that group, whose normalized behavior is `behavior`.
  -- The clock is read up to three times.
  unfoldable pub fail : Option Group → B → ℕ → ℕ → ℕ → System B → System B × List Event
  unfolding carry_out write_count is_in_flight
  fail group behavior now later begun s =
      let r =
        apply_supervision_strategy (is_in_flight group s) (s.slots p).registered (s.slots p).policy
          group p now later (book (s.slots p)) in
      carry_out (given group "" (λ g. g.key)) behavior begun r.0
        (record s { slots = update s.slots p (write_count r.1 (s.slots p)) })
