-- ===== src/Supervision/Failure/Once.antt =====
-- However calls end, one failure stops no actor twice.
use actor_web.Common.{
  ℕ, ◌≤◌, Bool, true, false, List, [], Option, none, some, String, includes, Distinct, given, arith,
  ◌≡◌, refl, inl, inr, Bool-cases,
}
use actor_web.Supervision.{
  Decision, restart, stop_permanent, stop, escalate, resume, Policy, Bookkeeping, Group,
  GroupStrategy, one_for_one, one_for_all, rest_for_one, TreeDecision, pass_through, restart_group,
  give_up_group, from_failed, widen, by_child, resolve_tree_supervision_decision, Directive,
  ignore_in_flight, no_behavior, restart_members, stop_members, by_decision, execute,
  child_decision, resolve_supervision_decision, apply_supervision_strategy,
}
use actor_web.Supervision.Actors.{System, update, Fate}
use actor_web.Supervision.Failure.{is_in_flight, book, write_count, apply_decision, carry_out, fail}
use actor_web.Supervision.Failure.Times.{
  times, stopped_times, times-Distinct, times-reverse, times-from_failed,
}
use actor_web.Supervision.Failure.Drivers.{
  restart_supervisor_group-times, stop_supervisor_group-times, restart_actor_with_limits-times,
}

-- The paths that a decision on a group, or a directive, stops as members of the group.
abbrev tree_stops : TreeDecision → List String
tree_stops pass_through = []
tree_stops (restart_group stops respawns) = stops
tree_stops (give_up_group stops reason) = stops

abbrev directive_stops : Directive → List String
directive_stops (restart_members stops respawns) = stops
directive_stops (stop_members stops reason) = stops
directive_stops _ = []

widen-times :
    (q : String) (permanent : Bool) (k : GroupStrategy) (children : List String) (path : String)
    → times q (tree_stops (widen permanent k children path)) ≤ times q children
unfolding widen times
widen-times q permanent GroupStrategy.escalate children path =
    omega (arith, times-reverse q children)
widen-times q permanent one_for_one children path = omega arith
widen-times q true one_for_all children path = omega (arith, times-reverse q children)
widen-times q true rest_for_one children path = omega (arith, times-reverse q children)
widen-times q false one_for_all children path = omega (arith, times-reverse q children)
widen-times q false rest_for_one children path =
    omega (arith, times-reverse q (from_failed path children), times-from_failed q path children)

by_child-times :
    (q : String) (d : Decision) (g : Group) (path : String)
    → times q (tree_stops (by_child d g path)) ≤ times q g.children
unfolding by_child times
by_child-times q stop g path = omega arith
by_child-times q resume g path = omega arith
by_child-times q (stop_permanent n m) g path = widen-times q true g.strategy g.children path
by_child-times q (restart n m) g path = widen-times q false g.strategy g.children path
by_child-times q escalate g path = widen-times q false g.strategy g.children path

abbrev children_of : Option Group → List String
children_of none = []
children_of (some g) = g.children

resolve_tree-times :
    (q : String) (d : Decision) (g : Option Group) (path : String)
    → times q (tree_stops (resolve_tree_supervision_decision d g path)) ≤ times q (children_of g)
unfolding resolve_tree_supervision_decision times
resolve_tree-times q d none path = omega arith
resolve_tree-times q d (some g) path = elim (Bool-cases (includes path g.children)) [
  | inl e ↦ rw e (by_child-times q d g path)
  | inr e ↦ rw e (omega arith)
]

execute-times :
    (q : String) (own child : Decision) (t : TreeDecision) (k : Bookkeeping)
    → times q (directive_stops (execute own child t k).0) ≡ times q (tree_stops t)
unfolding execute times
execute-times q own child pass_through k = refl
execute-times q own child (restart_group stops respawns) k = refl
execute-times q own child (give_up_group stops reason) k = refl

apply_supervision_strategy-times :
    (q : String) (in_flight known : Bool) (policy : Option Policy) (g : Option Group)
    (path : String) (now later : ℕ) (k : Bookkeeping)
    → times q
        (directive_stops (apply_supervision_strategy in_flight known policy g path now later k).0)
      ≤ times q (children_of g)
unfolding apply_supervision_strategy times
apply_supervision_strategy-times q true known policy g path now later k = omega arith
apply_supervision_strategy-times q false false policy g path now later k = omega arith
apply_supervision_strategy-times q false true policy g path now later k =
    let child = child_decision policy g now later k in
    omega (
      arith,
      execute-times q (resolve_supervision_decision policy now k) child
          (resolve_tree_supervision_decision child g path) k,
      resolve_tree-times q child g path,
    )

module _ {B : Type 0} (stop_fate spawn_fate : String → Fate) (meanwhile : System B → System B)
    (p q : String) where
  apply_decision-times :
      (behavior : B) (begun : ℕ) (d : Decision) (s : System B)
      → stopped_times q (apply_decision stop_fate spawn_fate meanwhile p behavior begun d s).1 ≤ 1
  unfolding apply_decision stopped_times
  apply_decision-times behavior begun (restart n m) s =
      restart_actor_with_limits-times stop_fate spawn_fate q meanwhile p behavior begun s
  apply_decision-times behavior begun (stop_permanent n m) s = ground arith
  apply_decision-times behavior begun stop s = ground arith
  apply_decision-times behavior begun escalate s = ground arith
  apply_decision-times behavior begun resume s = ground arith

  carry_out-times :
      (key : String) (behavior : B) (begun : ℕ) (d : Directive) (s : System B)
      → times q (directive_stops d) ≤ 1
      → stopped_times q (carry_out stop_fate spawn_fate meanwhile p key behavior begun d s).1 ≤ 1
  unfolding carry_out stopped_times
  carry_out-times key behavior begun ignore_in_flight s h = omega arith
  carry_out-times key behavior begun no_behavior s h = omega arith
  carry_out-times key behavior begun (restart_members stops respawns) s h = omega (
    arith,
    restart_supervisor_group-times stop_fate spawn_fate q meanwhile key p stops respawns begun s,
  )
  carry_out-times key behavior begun (stop_members stops reason) s h =
      omega (arith, stop_supervisor_group-times stop_fate spawn_fate q key p stops reason s)
  carry_out-times key behavior begun (by_decision d) s h = apply_decision-times behavior begun d s

  -- One failure of an actor has at most one terminal event for each actor, itself and the members of
  -- its group, whatever its policy and its group decide, and however the stops and respawns end. The
  -- children of the group are distinct.
  pub stops_once :
      (g : Option Group) (behavior : B) (now later begun : ℕ) (s : System B)
      → Distinct (children_of g)
      → stopped_times q (fail stop_fate spawn_fate meanwhile p g behavior now later begun s).1 ≤ 1
  unfolding fail
  stops_once g behavior now later begun s h =
      let r =
        apply_supervision_strategy (is_in_flight g s) (s.slots p).registered (s.slots p).policy g p
          now later (book (s.slots p)) in
      carry_out-times (given g "" (λ x. x.key)) behavior begun r.0
        (record s { slots = update s.slots p (write_count r.1 (s.slots p)) })
        (omega (
          arith,
          apply_supervision_strategy-times q (is_in_flight g s) (s.slots p).registered
              (s.slots p).policy g p now later (book (s.slots p)),
          times-Distinct q (children_of g) h,
        ))
