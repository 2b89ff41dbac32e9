-- ===== src/Supervision/Failure/Refined.antt =====
-- The drivers keep the books that the budget of restarts counts on.
use actor_web.Common.{
  ℕ, ◌+◌, true, false, Option, none, some, String, same, same_refl, if_true, given, arith, ◌≡◌,
  refl, ap, ◌∙◌,
}
use actor_web.Supervision.{
  or_default, Policy, Bookkeeping, Decision, restart, stop_permanent, stop, escalate, resume,
  Directive, by_decision, synced, after_restart, apply_supervision_strategy,
  resolve_tree_supervision_decision, resolve_supervision_decision,
}
use actor_web.Supervision.Actors.{Slot, System, Fate, returns, update}
use actor_web.Supervision.Driver.{respawn_actor, restart_actor_with_limits}
use actor_web.Supervision.Budget.{restart_if, fail_once}
use actor_web.Supervision.Failure.{book, write_count, apply_decision, carry_out, fail}

-- The slot of an actor that was restarted, with the books given.
abbrev pub restarted_with : {B : Type 0} → B → Option Policy → Bookkeeping → Slot B
restarted_with behavior policy k = record {
  registered = true;
  behavior = some behavior;
  policy = policy;
  restart_count = some k.restart_count;
  last_restart_time = some k.last_restart_time;
}

count-write_count :
    {B : Type 0} (k : Bookkeeping) (x : Slot B)
    → or_default (write_count k x).restart_count 0 ≡ k.restart_count
unfolding write_count
count-write_count k x = ground arith

write_count-rest :
    {B : Type 0} (k : Bookkeeping) (x : Slot B)
    → ((write_count k x).behavior ≡ x.behavior) × ((write_count k x).policy ≡ x.policy)
unfolding write_count
write_count-rest k x = ground arith

policy_again : (o : Option Policy) → given o none (λ x. some x) ≡ o
policy_again none = refl
policy_again (some p) = refl

module _ {B : Type 0} (stop_fate spawn_fate : String → Fate) (meanwhile : System B → System B)
    (p : String) (stops : stop_fate p ≡ returns) (spawns : spawn_fate p ≡ returns) where
  restart_actor-slot :
      (behavior : B) (begun : ℕ) (s : System B)
      → (restart_actor_with_limits stop_fate spawn_fate meanwhile p behavior begun s).0.slots p
        ≡ restarted_with (or_default (s.slots p).behavior behavior) (s.slots p).policy (record {
          restart_count = or_default (s.slots p).restart_count 0 + 1;
          last_restart_time = begun;
        })
  unfolding restart_actor_with_limits respawn_actor
  restart_actor-slot behavior begun s =
      rw (stops, spawns) (rw (same_refl p) (rw (policy_again (s.slots p).policy) refl))

  -- The decision is carried out on the system in which the count was written back.
  apply_decision-slot :
      (behavior : B) (begun : ℕ) (d : Decision) (s : System B) (k' : Bookkeeping)
      → restart_if d begun (book (s.slots p)) ≡ some k'
      → (apply_decision stop_fate spawn_fate meanwhile p behavior begun d (record s {
        slots = update s.slots p (write_count (synced d (book (s.slots p))) (s.slots p));
      })).0.slots
          p
        ≡ restarted_with (or_default (s.slots p).behavior behavior) (s.slots p).policy k'
  unfolding restart_if apply_decision after_restart
  apply_decision-slot behavior begun (restart n m) s k' h =
      let x = s.slots p in
      let k = synced (restart n m) (book x) in
      let there : update s.slots p (write_count k x) p ≡ write_count k x =
        unfold update in if_true (same p p) _ _ (same_refl p) in
      restart_actor-slot behavior begun (record s { slots = update s.slots p (write_count k x) })
      ∙ ap
          (λ (y : Slot B). restarted_with (or_default y.behavior behavior) y.policy (record {
            restart_count = or_default y.restart_count 0 + 1;
            last_restart_time = begun;
          }))
          there
      ∙ (let (b, o) = write_count-rest k x in
          rw (count-write_count k x, b, o)
            (ap (restarted_with (or_default x.behavior behavior) x.policy) (ground (arith, h))))
  apply_decision-slot behavior begun (stop_permanent n m) s k' h = absurd (ground arith)
  apply_decision-slot behavior begun stop s k' h = absurd (ground arith)
  apply_decision-slot behavior begun escalate s k' h = absurd (ground arith)
  apply_decision-slot behavior begun resume s k' h = absurd (ground arith)

  apply_alone :
      (policy : Option Policy) (now later : ℕ) (k : Bookkeeping)
      → apply_supervision_strategy false true policy none p now later k ≡ (
        by_decision (resolve_supervision_decision policy now k),
        synced (resolve_supervision_decision policy now k) k,
      )
  unfolding apply_supervision_strategy resolve_tree_supervision_decision
  apply_alone none now later k = refl
  apply_alone (some policy) now later k = refl

  -- If an actor with no group fails, and its books admit a restart in the model in which restarts are
  -- counted, then the system restarts it, if the stop and the respawn succeed: it is registered with
  -- the behavior and policy that it had, and its books are those of that model, whatever other work
  -- does while the driver waits.
  pub fail-fail_once :
      (behavior : B) (now later begun : ℕ) (s : System B) (k' : Bookkeeping)
      → (s.slots p).registered ≡ true
      → fail_once
          (s.slots p).policy
          (record { decided_at = now; restarted_at = begun })
          (book (s.slots p))
        ≡ some k'
      → (fail stop_fate spawn_fate meanwhile p none behavior now later begun s).0.slots p
        ≡ restarted_with (or_default (s.slots p).behavior behavior) (s.slots p).policy k'
  unfolding fail fail_once carry_out
  fail-fail_once behavior now later begun s k' there h =
      let x = s.slots p in
      let decided : apply_supervision_strategy false x.registered x.policy none p now later (book x)
          ≡ (
            by_decision (resolve_supervision_decision x.policy now (book x)),
            synced (resolve_supervision_decision x.policy now (book x)) (book x),
          ) =
        rw there (apply_alone x.policy now later (book x)) in
      ap
        (λ (r : Directive × Bookkeeping).
          (carry_out stop_fate spawn_fate meanwhile p "" behavior begun r.0
              (record s { slots = update s.slots p (write_count r.1 x) })).0.slots
            p)
        decided
      ∙ apply_decision-slot behavior begun (resolve_supervision_decision x.policy now (book x)) s k'
          h
