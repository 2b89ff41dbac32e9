-- ===== src/Supervision/Actors.antt =====
-- The actors that a system holds, and what stopActor and spawn of packages/actor-core-runtime/src/
-- actor-system-impl.ts do to the maps that supervision reads. The events that tell of a beginning, as
-- `actorStopping`, are left out. Behaviors are of a type B.
use actor_web.Common.{
  ℕ, Bool, true, false, List, [], ◌∷◌, Option, none, some, String, same, if◌then◌else◌, given,
}
use actor_web.Supervision.{Policy, GiveUpReason}

-- What the maps of the system that have paths as keys hold for one path: `actors`,
-- `actorOriginalBehaviors`, `actorSupervisionPolicies`, `actorRestartCounts` and
-- `actorLastRestartTime`.
pub record Slot (B : Type 0) : Type 0 where
  pub registered : Bool
  pub behavior : Option B
  pub policy : Option Policy
  pub restart_count : Option ℕ
  pub last_restart_time : Option ℕ

abbrev pub empty_slot : {B : Type 0} → Slot B
empty_slot = record {
  registered = false;
  behavior = none;
  policy = none;
  restart_count = none;
  last_restart_time = none;
}

pub record System (B : Type 0) : Type 0 where
  pub slots : String → Slot B
  pub restarting_groups : List String

pub data StopReason : Type 0 where
  supervisor_restart supervisor_group_restart : StopReason
  max_restarts supervisor_max_restarts supervisor_escalation : StopReason
  supervision_stop no_reason : StopReason

pub data Event : Type 0 where
  actor_stopped : String → StopReason → Event
  actor_restarted : String → ℕ → Event
  actor_respawn_failed : String → ℕ → Event
  actor_escalated : String → GiveUpReason → Event
  actor_resumed : String → Event
  actor_escalated_alone : String → Event

-- How a call of `stopActor` or `spawn` ends: it returns, or it throws before or after the maps are
-- written.
pub data Fate : Type 0 where
  returns throws_before throws_after : Fate

abbrev pub is_return : Fate → Bool
is_return returns = true
is_return _ = false

unfoldable pub update : {B : Type 0} → (String → Slot B) → String → Slot B → String → Slot B
update slots p x q = if same p q then x else slots q

-- `stopActor`
unfoldable pub stop_actor : {B : Type 0} → Fate → String → (String → Slot B) → String → Slot B
unfolding update
stop_actor throws_before p slots = slots
stop_actor returns p slots = update slots p empty_slot
stop_actor throws_after p slots = update slots p empty_slot

abbrev pub stop_events : Fate → String → StopReason → List Event
stop_events returns p why = actor_stopped p why ∷ []
stop_events _ p why = []

pub record Member (B : Type 0) : Type 0 where
  pub behavior : B
  pub policy : Option Policy

-- A spawn without a policy leaves the one that is there.
unfoldable pub spawn_slot : {B : Type 0} → Member B → Slot B → Slot B
spawn_slot m x = record x {
  registered = true;
  behavior = some m.behavior;
  policy = given m.policy x.policy (λ policy. some policy);
}

-- `spawn`
unfoldable pub spawn : {B : Type 0} → Fate → String → Member B → (String → Slot B) → String → Slot B
unfolding update spawn_slot
spawn throws_before p m slots = slots
spawn returns p m slots = update slots p (spawn_slot m (slots p))
spawn throws_after p m slots = update slots p (spawn_slot m (slots p))
