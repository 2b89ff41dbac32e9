-- ===== src/Supervision/Failure/Examples.antt =====
-- A failure in a group of which all members are restarted.
use actor_web.Common.{◌≡◌, ℕ, ◌≤◌, [], ◌∷◌, none, some, String, true, includes, if◌then◌else◌, refl}
use actor_web.Supervision.{Group, one_for_all}
use actor_web.Supervision.Actors.{empty_slot, System, Fate, returns}
use actor_web.Supervision.Budget.{fail_once}
use actor_web.Supervision.{resolve_supervision_decision}
use actor_web.Supervision.Failure.{fail}
use actor_web.Supervision.Failure.Times.{stopped_times}
use actor_web.Supervision.Failure.Once.{stops_once}
use actor_web.Supervision.Failure.Refined.{restarted_with, fail-fail_once}

abbrev fine : String → Fate
fine p = returns

abbrev group : Group
group = record { key = "g"; strategy = one_for_all; children = "a" ∷ "b" ∷ [] }

abbrev system : System ℕ
system = record {
  slots = λ p.
      if includes p ("a" ∷ "b" ∷ [])
      then record {
        registered = true;
        behavior = some 1;
        policy = none;
        restart_count = none;
        last_restart_time = none;
      }
      else empty_slot;
  restarting_groups = [];
}

stops_once_example :
    stopped_times "b" (fail fine fine (λ s. s) "a" (some group) 1 10 10 10 system).1 ≤ 1
unfolding includes
stops_once_example =
    stops_once fine fine (λ s. s) "a" "b" (some group) 1 10 10 10 system (refl, (refl, tt))

fail-fail_once_example :
    (fail fine fine (λ s. s) "a" none 1 10 10 20 system).0.slots "a"
    ≡ restarted_with 1 none (record { restart_count = 1; last_restart_time = 20 })
unfolding includes fail_once resolve_supervision_decision
fail-fail_once_example =
    fail-fail_once fine fine (λ s. s) "a" refl refl 1 10 10 20 system
      (record { restart_count = 1; last_restart_time = 20 }) refl refl
