-- ===== src/Supervision/Driver.antt =====
-- The restart and the end of a supervisor group, and the restart of one actor: restartSupervisorGroup,
-- stopSupervisorGroup and restartActorWithLimits of packages/actor-core-runtime/src/
-- actor-system-impl.ts. What other work does while a driver waits for the backoff is the argument `meanwhile`;
-- stops and respawns follow one another at once.
pub mod Members
pub mod Restarted
pub mod Ended
pub mod Events
mod Examples
use actor_web.Common.{
  ℕ, ◌+◌, Bool, true, false, not, ◌&&◌, List, [], ◌∷◌, ◌++◌, Option, none, some, String, same,
  includes, if◌then◌else◌, given, Dict, find, erase,
}
use actor_web.Supervision.Actors.{
  Slot, empty_slot, System, StopReason, supervisor_restart, supervisor_group_restart, max_restarts,
  supervisor_max_restarts, supervisor_escalation, Event, actor_stopped, actor_restarted,
  actor_respawn_failed, actor_escalated, Fate, returns, throws_before, throws_after, is_return,
  update, stop_actor, stop_events, Member, spawn_slot, spawn,
}
use actor_web.Supervision.{
  Policy, or_default, GiveUpReason, max_restarts_exceeded, supervisor_escalated,
}

unfoldable pub without : String → List String → List String
without key [] = []
without key (k ∷ ks) = if same k key then without key ks else k ∷ without key ks

-- What a driver has done so far: the maps, the members that are to be respawned, and the events.
pub record Progress (B : Type 0) : Type 0 where
  pub slots : String → Slot B
  pub captured : Dict (Member B)
  pub events : List Event

-- `memberReason`
unfoldable pub member_reason : GiveUpReason → String → String → StopReason
member_reason supervisor_escalated failed p = supervisor_escalation
member_reason max_restarts_exceeded failed p =
    if same p failed then max_restarts else supervisor_max_restarts

-- The members with a behavior, as they are before any is stopped.
unfoldable pub capture : {B : Type 0} → List String → (String → Slot B) → Dict (Member B)
capture [] slots = []
capture (p ∷ ps) slots =
    let rest = capture ps slots in
    given (slots p).behavior rest
      (λ b. (p, record { behavior = b; policy = (slots p).policy }) ∷ rest)

unfoldable pub note_restart : {B : Type 0} → ℕ → ℕ → Slot B → Slot B
note_restart count now x = record x {
  restart_count = some (count + 1);
  last_restart_time = some now;
}

-- What is left of the failed actor's bookkeeping.
unfoldable pub restore_bookkeeping : {B : Type 0} → String → ℕ → ℕ → Progress B → String → Slot B
unfolding update note_restart
restore_bookkeeping failed count now d =
    given (find d.captured failed) d.slots
      (λ m. update d.slots failed (note_restart count now (d.slots failed)))

-- The fates of the calls that a driver makes, by path.
module _ {B : Type 0} (stop_fate spawn_fate : String → Fate) where
  -- A captured member that is registered is stopped. One that is not registered any more, or that
  -- stays registered when its stop fails, is not respawned.
  unfoldable pub stop_member : String → Progress B → Progress B
  unfolding stop_actor
  stop_member p d = given (find d.captured p) d (λ m.
      let after = stop_actor (stop_fate p) p d.slots in
      if (d.slots p).registered
      then record d {
        slots = after;
        events = d.events ++ stop_events (stop_fate p) p supervisor_group_restart;
        captured =
            if not (is_return (stop_fate p)) && (after p).registered
            then erase d.captured p
            else d.captured;
      }
      else record d { captured = erase d.captured p })

  unfoldable pub stop_members : List String → Progress B → Progress B
  unfolding stop_member
  stop_members [] d = d
  stop_members (p ∷ ps) d = stop_members ps (stop_member p d)

  unfoldable pub respawn_member : String → ℕ → String → Progress B → Progress B
  unfolding spawn
  respawn_member failed count p d = given (find d.captured p) d (λ m. record d {
    slots = spawn (spawn_fate p) p m d.slots;
    events =
        d.events
        ++ (if is_return (spawn_fate p)
            then actor_restarted p (if same p failed then count + 1 else 1) ∷ []
            else []);
  })

  unfoldable pub respawn_members : String → ℕ → List String → Progress B → Progress B
  unfolding respawn_member
  respawn_members failed count [] d = d
  respawn_members failed count (p ∷ ps) d =
      respawn_members failed count ps (respawn_member failed count p d)

  -- The stops and respawns of `restartSupervisorGroup`, with the maps before and after the backoff.
  unfoldable pub drive_restart :
      String → List String → List String → (String → Slot B) → (String → Slot B) → Progress B
  unfolding capture stop_members respawn_members
  drive_restart failed stop_order respawn_order before after =
      respawn_members failed (or_default (before failed).restart_count 0) respawn_order (
        stop_members stop_order
          (record { slots = after; captured = capture respawn_order before; events = [] }))

  -- `restartSupervisorGroup`, with the events that it emits.
  unfoldable pub restart_supervisor_group :
      (System B → System B)
      → String
      → String
      → List String
      → List String
      → ℕ
      → System B
      → System B × List Event
  unfolding drive_restart restore_bookkeeping without
  restart_supervisor_group meanwhile key failed stop_order respawn_order now s =
      let s1 = meanwhile (record s { restarting_groups = key ∷ s.restarting_groups }) in
      let d = drive_restart failed stop_order respawn_order s.slots s1.slots in
      (
        record {
          slots = restore_bookkeeping failed (or_default (s.slots failed).restart_count 0) now d;
          restarting_groups = without key s1.restarting_groups;
        },
        d.events,
      )

  unfoldable pub stop_children :
      GiveUpReason → String → List String → (String → Slot B) → (String → Slot B) × List Event
  unfolding stop_actor member_reason
  stop_children reason failed [] slots = (slots, [])
  stop_children reason failed (p ∷ ps) slots =
      let after = if (slots p).registered then stop_actor (stop_fate p) p slots else slots in
      let rest = stop_children reason failed ps after in
      (
        rest.0,
        (if (slots p).registered
              then stop_events (stop_fate p) p (member_reason reason failed p)
              else [])
            ++ rest.1,
      )

  -- `stopSupervisorGroup`: nothing in it waits before the first stop.
  unfoldable pub stop_supervisor_group :
      String → String → List String → GiveUpReason → System B → System B × List Event
  unfolding stop_children without
  stop_supervisor_group key failed stop_order reason s =
      let r = stop_children reason failed stop_order s.slots in
      (
        record { slots = r.0; restarting_groups = without key (key ∷ s.restarting_groups) },
        r.1 ++ (actor_escalated failed reason ∷ []),
      )

  -- The end of `restartActorWithLimits` once the actor is stopped.
  unfoldable pub respawn_actor :
      String → Member B → ℕ → ℕ → (String → Slot B) → (String → Slot B) × List Event
  unfolding spawn update note_restart
  respawn_actor p m count now slots =
      let after = spawn (spawn_fate p) p m slots in
      if is_return (spawn_fate p)
      then (update after p (note_restart count now (after p)), actor_restarted p (count + 1) ∷ [])
      else (after, actor_respawn_failed p (count + 1) ∷ [])

  -- `restartActorWithLimits`, for an actor whose normalized behavior is `behavior`. The message to
  -- the guardian that follows a failure is left out.
  unfoldable pub restart_actor_with_limits :
      (System B → System B) → String → B → ℕ → System B → System B × List Event
  unfolding stop_actor respawn_actor
  restart_actor_with_limits meanwhile p behavior now s =
      let count = or_default (s.slots p).restart_count 0 in
      let m : Member B = record {
        behavior = or_default (s.slots p).behavior behavior;
        policy = (s.slots p).policy;
      } in
      let s1 = meanwhile s in
      let after = stop_actor (stop_fate p) p s1.slots in
      let r = respawn_actor p m count now after in
      if is_return (stop_fate p)
      then (record s1 { slots = r.0 }, stop_events (stop_fate p) p supervisor_restart ++ r.1)
      else (record s1 { slots = after }, actor_respawn_failed p (count + 1) ∷ [])
