-- ===== src/Supervision/Driver/Examples.antt =====
-- A group of three actors. The third is stopped by other work while the driver waits.
use actor_web.Common.{
  ℕ, true, false, List, [], ◌∷◌, none, some, String, same, includes, Distinct, ◌≡◌, refl,
  if◌then◌else◌, arith,
}
use actor_web.Supervision.{max_restarts_exceeded}
use actor_web.Supervision.Actors.{
  Slot, empty_slot, System, actor_stopped, actor_restarted, actor_escalated,
  supervisor_group_restart, max_restarts, supervisor_max_restarts, Fate, returns,
}
use actor_web.Supervision.Driver.{
  restart_supervisor_group, stop_supervisor_group, note_restart, member_reason,
}
use actor_web.Supervision.Driver.Restarted.{restart_supervisor_group-restarted_slot}
use actor_web.Supervision.Driver.Ended.{registered_of, stop_supervisor_group_lem}
use actor_web.Supervision.Driver.Events.{those, restart_supervisor_group_events}

abbrev fine : String → Fate
fine p = returns

abbrev running : ℕ → Slot ℕ
running n = record {
  registered = true;
  behavior = some n;
  policy = none;
  restart_count = some 2;
  last_restart_time = some 100;
}

abbrev slots : String → Slot ℕ
slots p =
    if same p "a"
    then running 1
    else if same p "b"
    then running 2
    else if same p "c"
    then running 3
    else empty_slot

abbrev system : System ℕ
system = record { slots = slots; restarting_groups = [] }

-- Other work stops the actor `c`.
abbrev meanwhile : System ℕ → System ℕ
meanwhile s = record s { slots = λ p. if same p "c" then empty_slot else s.slots p }

abbrev respawns : List String
respawns = "a" ∷ "b" ∷ "c" ∷ []

abbrev stops : List String
stops = "c" ∷ "b" ∷ "a" ∷ []

distinct : Distinct stops × Distinct respawns
unfolding includes
distinct = ((refl, (refl, (refl, tt))), (refl, (refl, (refl, tt))))

children-Distinct : Distinct ("c" ∷ "b" ∷ "d" ∷ [])
unfolding includes
children-Distinct = (refl, (refl, (refl, tt)))

same_paths : (p : String) → includes p stops ≡ includes p respawns
unfolding includes
same_paths p = ground arith

restart_supervisor_group-restarted_slot_example :
    (restart_supervisor_group fine fine meanwhile "g" "b" stops respawns 500 system).0.slots "b"
    ≡ record {
      registered = true;
      behavior = some 2;
      policy = none;
      restart_count = some 3;
      last_restart_time = some 500;
    }
unfolding includes note_restart
restart_supervisor_group-restarted_slot_example =
    restart_supervisor_group-restarted_slot fine fine meanwhile "g" "b" stops respawns 500 system
      "b" distinct.0 distinct.1 (same_paths "b")

restart_supervisor_group_events_example :
    (restart_supervisor_group fine fine meanwhile "g" "b" stops respawns 500 system).1
    ≡ actor_stopped "b" supervisor_group_restart
      ∷ actor_stopped "a" supervisor_group_restart
      ∷ actor_restarted "a" 1
      ∷ actor_restarted "b" 3
      ∷ []
unfolding those
restart_supervisor_group_events_example =
    restart_supervisor_group_events fine fine (λ p. refl) (λ p. refl) meanwhile "g" "b" stops
      respawns 500 system distinct.0 distinct.1 same_paths

stop_supervisor_group_lem_example :
    let r =
      stop_supervisor_group fine fine "g" "b" ("c" ∷ "b" ∷ "d" ∷ []) max_restarts_exceeded system in
    (r.1
      ≡ actor_stopped "c" supervisor_max_restarts
        ∷ actor_stopped "b" max_restarts
        ∷ actor_escalated "b" max_restarts_exceeded
        ∷ [])
    × (r.0.slots "b" ≡ empty_slot)
    × (includes "g" r.0.restarting_groups ≡ false)
unfolding registered_of includes member_reason
stop_supervisor_group_lem_example =
    stop_supervisor_group_lem fine fine (λ p. refl) "g" "b" ("c" ∷ "b" ∷ "d" ∷ [])
      max_restarts_exceeded system "b" children-Distinct
