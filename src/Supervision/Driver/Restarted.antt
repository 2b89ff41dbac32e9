-- ===== src/Supervision/Driver/Restarted.antt =====
-- What the restart of a group leaves of each actor.
use actor_web.Common.{
  ℕ, Bool, true, List, [], ◌∷◌, Option, none, some, String, same, same_refl, same_iff, same-same,
  includes, Distinct, if◌then◌else◌, given, arith, ◌≡◌, sym, ap, ◌∙◌, inl, inr, Bool-cases,
}
use actor_web.Supervision.{or_default}
use actor_web.Supervision.Actors.{
  Slot, empty_slot, System, Fate, returns, throws_before, throws_after, update, Member, spawn_slot,
}
use actor_web.Supervision.Driver.{
  Progress, capture, stop_members, note_restart, restore_bookkeeping, drive_restart,
  restart_supervisor_group,
}
use actor_web.Supervision.Driver.Members.{
  place, stop_place, respawn_place, place-stop_members, place-respawn_members, member_of,
  find-capture,
}

-- The bookkeeping that an actor is left with: one restart more for the actor that failed, and
-- nothing for the others.
abbrev pub counted : {B : Type 0} → Bool → ℕ → ℕ → Slot B → Slot B
counted failed count now x = if failed then note_restart count now x else x

-- The actor as new, with its behavior and policy.
abbrev pub fresh : {B : Type 0} → Member B → Slot B
fresh m = record {
  registered = true;
  behavior = some m.behavior;
  policy = m.policy;
  restart_count = none;
  last_restart_time = none;
}

-- What becomes of a registered actor, by how its stop and its respawn end.
abbrev pub restarted : {B : Type 0} → Fate → Fate → Member B → (Slot B → Slot B) → Slot B → Slot B
restarted throws_before spawn m mark x = x
restarted returns throws_before m mark x = mark empty_slot
restarted returns returns m mark x = mark (fresh m)
restarted returns throws_after m mark x = mark (fresh m)
restarted throws_after throws_before m mark x = mark empty_slot
restarted throws_after returns m mark x = mark (fresh m)
restarted throws_after throws_after m mark x = mark (fresh m)

abbrev pub restarted_slot :
    {B : Type 0} → Fate → Fate → Option (Member B) → (Slot B → Slot B) → Slot B → Slot B
restarted_slot stop spawn none mark x = x
restarted_slot stop spawn (some m) mark x =
    if x.registered then restarted stop spawn m mark x else x

-- Stopping and respawning in place, with the bookkeeping restored if the actor is still captured.
both_places :
    {B : Type 0} (f g : Fate) (b : Bool) (count now : ℕ) (x : Slot B) (o : Option (Member B))
    → let r = respawn_place g (stop_place f x o).0 (stop_place f x o).1 in
      (if b then given r.1 r.0 (λ m. note_restart count now r.0) else r.0)
      ≡ restarted_slot f g o (counted b count now) x
unfolding spawn_slot note_restart
both_places f g b count now x none = ground arith
both_places throws_before g b count now x (some m) = ground arith
both_places returns throws_before b count now x (some m) = ground arith
both_places returns returns b count now x (some m) = ground arith
both_places returns throws_after b count now x (some m) = ground arith
both_places throws_after throws_before b count now x (some m) = ground arith
both_places throws_after returns b count now x (some m) = ground arith
both_places throws_after throws_after b count now x (some m) = ground arith

-- The slot that a driver leaves, from what it keeps for the path at last.
abbrev left : {B : Type 0} → Bool → ℕ → ℕ → Slot B × Option (Member B) → Slot B
left b count now v = if b then given v.1 v.0 (λ m. note_restart count now v.0) else v.0

restore_bookkeeping-left :
    {B : Type 0} (failed : String) (count now : ℕ) (d : Progress B) (p : String)
    → restore_bookkeeping failed count now d p ≡ left (same p failed) count now (place p d)
unfolding restore_bookkeeping update
restore_bookkeeping-left failed count now d p = elim (Bool-cases (same p failed)) [
  | inl e ↦
      let p≡failed = (same_iff p failed).0 e in rw (e, p≡failed) (ground (arith, same_refl failed))
  | inr e ↦ ground (arith, e, same-same failed p p failed sym sym)
]

module _ {B : Type 0} (stop_fate spawn_fate : String → Fate) where
  drive_restart-place :
      (failed : String) (stops respawns : List String) (before after : String → Slot B) (p : String)
      → Distinct stops
      → Distinct respawns
      → includes p stops ≡ includes p respawns
      → place p (drive_restart stop_fate spawn_fate failed stops respawns before after) ≡ (
          if includes p respawns
          then respawn_place
              (spawn_fate p)
              (stop_place (stop_fate p) (after p) (member_of (before p))).0
              (stop_place (stop_fate p) (after p) (member_of (before p))).1
          else (after p, none))
  unfolding drive_restart
  drive_restart-place failed stops respawns before after p ds dr e =
      let d0 : Progress B = record {
        slots = after;
        captured = capture respawns before;
        events = [];
      } in
      let d1 = stop_members stop_fate spawn_fate stops d0 in
      let count = or_default (before failed).restart_count 0 in
      let found = find-capture p respawns before in
      let stopped = place-stop_members stop_fate spawn_fate p stops d0 ds in
      place-respawn_members stop_fate spawn_fate p failed count respawns d1 dr
      ∙ elim (Bool-cases (includes p respawns)) [
        | inl i ↦
            let there : place p d1 ≡ stop_place (stop_fate p) (after p) (member_of (before p)) =
              (rw (e, i, found, i) at stopped) in
            rw i
              (ap (λ (v : Slot B × Option (Member B)). respawn_place (spawn_fate p) v.0 v.1) there)
        | inr i ↦
            let away : place p d1 ≡ (after p, none) = (rw (e, i, found, i) at stopped) in rw i away
      ]

  -- What the restart of a group leaves of any actor depends on that actor alone, however the stops
  -- and respawns of the others end. An actor outside the group, one without a behavior when the
  -- restart begins, one that is not registered any more after the backoff, and one that stays
  -- registered since its stop fails are left as they are then. Any other is stopped, and is
  -- registered again with the behavior and policy that it had before, unless its respawn is refused.
  -- It has no restarts to its account, but the actor that failed has one more than before, also if it
  -- is not respawned. The paths to stop are those to respawn, and each is there once.
  pub restart_supervisor_group-restarted_slot :
      (meanwhile : System B → System B) (key failed : String) (stops respawns : List String)
      (now : ℕ) (s : System B) (p : String)
      → Distinct stops
      → Distinct respawns
      → includes p stops ≡ includes p respawns
      → let waited = meanwhile (record s { restarting_groups = key ∷ s.restarting_groups }) in
        (restart_supervisor_group stop_fate spawn_fate meanwhile key failed stops respawns now
            s).0.slots
          p
        ≡ (if includes p respawns
            then restarted_slot
                (stop_fate p)
                (spawn_fate p)
                (member_of (s.slots p))
                (counted (same p failed) (or_default (s.slots failed).restart_count 0) now)
                (waited.slots p)
            else waited.slots p)
  unfolding restart_supervisor_group
  restart_supervisor_group-restarted_slot meanwhile key failed stops respawns now s p ds dr e =
      let waited = meanwhile (record s { restarting_groups = key ∷ s.restarting_groups }) in
      let count = or_default (s.slots failed).restart_count 0 in
      restore_bookkeeping-left failed count now
        (drive_restart stop_fate spawn_fate failed stops respawns s.slots waited.slots) p
      ∙ ap (left (same p failed) count now)
          (drive_restart-place failed stops respawns s.slots waited.slots p ds dr e)
      ∙ elim (Bool-cases (includes p respawns)) [
        | inl i ↦ rw i (
            both_places (stop_fate p) (spawn_fate p) (same p failed) count now (waited.slots p)
              (member_of (s.slots p)))
        | inr i ↦ rw i (ground arith)
      ]
