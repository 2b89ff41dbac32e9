-- ===== src/Supervision/Failure/Drivers.antt =====
-- How often the drivers of supervision stop an actor.
use actor_web.Common.{
  ℕ, ◌+◌, ◌≤◌, List, [], ◌∷◌, String, same, if◌then◌else◌, find, arith, ◌≡◌, refl, ◌∙◌, inl, inr,
  Bool-cases, Option-cases,
}
use actor_web.Supervision.{or_default, GiveUpReason}
use actor_web.Supervision.Actors.{
  Slot, System, actor_restarted, actor_escalated, is_return, Member, supervisor_group_restart,
  supervisor_restart, Fate, stop_actor, stop_events,
}
use actor_web.Supervision.Driver.{
  Progress, capture, stop_member, respawn_member, respawn_members, drive_restart,
  restart_supervisor_group, stop_children, stop_supervisor_group, restart_actor_with_limits,
  respawn_actor, member_reason,
}
use actor_web.Supervision.Driver
use actor_web.Supervision.Failure.Times.{
  times, stopped_times, stopped_times-append, stop_events-times, stop_events-once,
}

module _ {B : Type 0} (stop_fate spawn_fate : String → Fate) (q : String) where
  stop_member-times :
      (p : String) (d : Progress B)
      → stopped_times q (stop_member stop_fate spawn_fate p d).events
        ≤ stopped_times q d.events + (if same p q then 1 else 0)
  unfolding stop_member
  stop_member-times p d = elim (Option-cases (find d.captured p)) [
    | inl e ↦ rw e (omega arith)
    | inr (m, e) ↦ elim (Bool-cases (d.slots p).registered) [
      | inl r ↦
          rw (e, r)
            (omega (
              arith,
              stopped_times-append q d.events
                  (stop_events (stop_fate p) p supervisor_group_restart),
              stop_events-times (stop_fate p) p supervisor_group_restart q,
            ))
      | inr r ↦ rw (e, r) (omega arith)
    ]
  ]

  stop_members-times :
      (ps : List String) (d : Progress B)
      → stopped_times q (Driver.stop_members stop_fate spawn_fate ps d).events
        ≤ stopped_times q d.events + times q ps
  unfolding Driver.stop_members times
  stop_members-times [] d = omega arith
  stop_members-times (p ∷ ps) d =
      omega
        (arith, stop_members-times ps (stop_member stop_fate spawn_fate p d), stop_member-times p d)

  respawn_member-times :
      (failed : String) (count : ℕ) (p : String) (d : Progress B)
      → stopped_times q (respawn_member stop_fate spawn_fate failed count p d).events
        ≡ stopped_times q d.events
  unfolding respawn_member stopped_times
  respawn_member-times failed count p d = elim (Option-cases (find d.captured p)) [
    | inl e ↦ rw e refl
    | inr (m, e) ↦ elim (Bool-cases (is_return (spawn_fate p))) [
      | inl r ↦
          rw (e, r)
            (omega (
              arith,
              stopped_times-append q d.events
                  (actor_restarted p (if same p failed then count + 1 else 1) ∷ []),
            ))
      | inr r ↦ rw (e, r) (omega (arith, stopped_times-append q d.events []))
    ]
  ]

  respawn_members-times :
      (failed : String) (count : ℕ) (ps : List String) (d : Progress B)
      → stopped_times q (respawn_members stop_fate spawn_fate failed count ps d).events
        ≡ stopped_times q d.events
  unfolding respawn_members
  respawn_members-times failed count [] d = refl
  respawn_members-times failed count (p ∷ ps) d =
      respawn_members-times failed count ps (respawn_member stop_fate spawn_fate failed count p d)
      ∙ respawn_member-times failed count p d

  stop_children-times :
      (reason : GiveUpReason) (failed : String) (ps : List String) (slots : String → Slot B)
      → stopped_times q (stop_children stop_fate spawn_fate reason failed ps slots).1 ≤ times q ps
  unfolding stop_children times stopped_times
  stop_children-times reason failed [] slots = omega arith
  stop_children-times reason failed (p ∷ ps) slots = elim (Bool-cases (slots p).registered) [
    | inl r ↦
        let after = stop_actor (stop_fate p) p slots in
        let why = member_reason reason failed p in
        rw r (
          omega (
            arith,
            stopped_times-append q (stop_events (stop_fate p) p why)
                (stop_children stop_fate spawn_fate reason failed ps after).1,
            stop_events-times (stop_fate p) p why q,
            stop_children-times reason failed ps after,
          ))
    | inr r ↦ rw r (omega (arith, stop_children-times reason failed ps slots))
  ]

  pub restart_supervisor_group-times :
      (meanwhile : System B → System B) (key failed : String) (stops respawns : List String)
      (now : ℕ) (s : System B)
      → stopped_times q
          (restart_supervisor_group stop_fate spawn_fate meanwhile key failed stops respawns now
            s).1
        ≤ times q stops
  unfolding restart_supervisor_group drive_restart stopped_times
  restart_supervisor_group-times meanwhile key failed stops respawns now s =
      let waited = meanwhile (record s { restarting_groups = key ∷ s.restarting_groups }) in
      let d0 : Progress B = record {
        slots = waited.slots;
        captured = capture respawns s.slots;
        events = [];
      } in
      let d1 = Driver.stop_members stop_fate spawn_fate stops d0 in
      omega (
        arith,
        respawn_members-times failed (or_default (s.slots failed).restart_count 0) respawns d1,
        stop_members-times stops d0,
      )

  pub stop_supervisor_group-times :
      (key failed : String) (stops : List String) (reason : GiveUpReason) (s : System B)
      → stopped_times q (stop_supervisor_group stop_fate spawn_fate key failed stops reason s).1
        ≤ times q stops
  unfolding stop_supervisor_group stopped_times
  stop_supervisor_group-times key failed stops reason s = omega (
    arith,
    stop_children-times reason failed stops s.slots,
    stopped_times-append q (stop_children stop_fate spawn_fate reason failed stops s.slots).1
        (actor_escalated failed reason ∷ []),
  )

  respawn_actor-times :
      (p : String) (m : Member B) (count now : ℕ) (slots : String → Slot B)
      → stopped_times q (respawn_actor stop_fate spawn_fate p m count now slots).1 ≡ 0
  unfolding respawn_actor stopped_times
  respawn_actor-times p m count now slots = elim (Bool-cases (is_return (spawn_fate p))) [
    | inl r ↦ rw r refl
    | inr r ↦ rw r refl
  ]

  pub restart_actor_with_limits-times :
      (meanwhile : System B → System B) (p : String) (behavior : B) (now : ℕ) (s : System B)
      → stopped_times q
          (restart_actor_with_limits stop_fate spawn_fate meanwhile p behavior now s).1
        ≤ 1
  unfolding restart_actor_with_limits stopped_times
  restart_actor_with_limits-times meanwhile p behavior now s =
      elim (Bool-cases (is_return (stop_fate p))) [
        | inl r ↦
            let count = or_default (s.slots p).restart_count 0 in
            let m : Member B = record {
              behavior = or_default (s.slots p).behavior behavior;
              policy = (s.slots p).policy;
            } in
            let after = stop_actor (stop_fate p) p (meanwhile s).slots in
            rw r (
              omega (
                arith,
                stopped_times-append q (stop_events (stop_fate p) p supervisor_restart)
                    (respawn_actor stop_fate spawn_fate p m count now after).1,
                respawn_actor-times p m count now after,
                stop_events-once (stop_fate p) p supervisor_restart q,
              ))
        | inr r ↦ rw r (omega arith)
      ]
