-- ===== src/Supervision.antt =====
-- The supervision decisions of packages/actor-core-runtime/src/actor-system-impl.ts: what a failure
-- of one actor leads to, what it leads to for the actor's group, and which of the two is executed.
-- Times are in milliseconds; actor paths are texts.
use actor_web.Common.{
  ℕ, zero, suc, ◌+◌, ◌*◌, ◌^◌, ◌<◌, Bool, true, false, not, ◌&&◌, ◌||◌, List, [], ◌∷◌, ◌++◌, Option,
  none, some, ltb, leb, ◌==◌, if◌then◌else◌, String, same, includes, reverse,
}
pub mod Budget
pub mod Tree
pub mod Apply
pub mod Actors
pub mod Driver
pub mod Failure
mod Examples

pub data Strategy : Type 0 where
  restart resume stop escalate : Strategy

pub record Policy : Type 0 where
  pub strategy : Strategy
  pub max_restarts : Option ℕ
  pub within_ms : Option ℕ

abbrev pub max_restart_attempts : ℕ
max_restart_attempts = 3

abbrev pub restart_window_ms : ℕ
restart_window_ms = 30000

abbrev pub restart_backoff_ms : ℕ
restart_backoff_ms = 1000

-- `actorRestartCounts` and `actorLastRestartTime` of one actor; a missing entry reads as 0.
pub record Bookkeeping : Type 0 where
  pub restart_count : ℕ
  pub last_restart_time : ℕ

pub data Decision : Type 0 where
  restart : ℕ → ℕ → Decision
  stop_permanent : ℕ → ℕ → Decision
  stop : Decision
  escalate : Decision
  resume : Decision

-- `x ?? d`
abbrev pub or_default {ℓ} : {A : Type ℓ} → Option A → A → A
or_default none d = d
or_default (some x) d = x

abbrev pub strategy_of : Option Policy → Strategy
strategy_of none = Strategy.restart
strategy_of (some p) = p.strategy

abbrev pub max_restarts_of : Option Policy → ℕ
max_restarts_of none = max_restart_attempts
max_restarts_of (some p) = or_default p.max_restarts max_restart_attempts

abbrev pub within_ms_of : Option Policy → ℕ
within_ms_of none = restart_window_ms
within_ms_of (some p) = or_default p.within_ms restart_window_ms

-- The count after the window's expiry: `nowMs - lastRestartTimeMs > withinMs`.
unfoldable pub effective_count : ℕ → ℕ → Bookkeeping → ℕ
effective_count within now k =
    if ltb 0 k.restart_count && ltb (k.last_restart_time + within) now then 0 else k.restart_count

unfoldable pub resolve_restart : ℕ → ℕ → Decision
resolve_restart count bound =
    if leb bound count then stop_permanent count bound else restart count bound

unfoldable pub resolve_with : Strategy → Option Policy → ℕ → Bookkeeping → Decision
resolve_with Strategy.stop policy now k = stop
resolve_with Strategy.escalate policy now k = escalate
resolve_with Strategy.resume policy now k = resume
resolve_with Strategy.restart policy now k =
    resolve_restart (effective_count (within_ms_of policy) now k) (max_restarts_of policy)

unfoldable pub resolve_supervision_decision : Option Policy → ℕ → Bookkeeping → Decision
unfolding resolve_with resolve_restart effective_count
resolve_supervision_decision policy now k = resolve_with (strategy_of policy) policy now k

pub data GroupStrategy : Type 0 where
  one_for_one one_for_all rest_for_one escalate : GroupStrategy

pub record Group : Type 0 where
  pub key : String
  pub strategy : GroupStrategy
  pub children : List String

pub data GiveUpReason : Type 0 where
  max_restarts_exceeded supervisor_escalated : GiveUpReason

pub data TreeDecision : Type 0 where
  pass_through : TreeDecision
  restart_group : List String → List String → TreeDecision
  give_up_group : List String → GiveUpReason → TreeDecision

-- `children.slice(children.indexOf(path))`, for a path among the children.
unfoldable pub from_failed : String → List String → List String
from_failed path [] = []
from_failed path (c ∷ cs) = if same c path then c ∷ cs else from_failed path cs

abbrev pub restart_of : List String → TreeDecision
restart_of respawn = restart_group (reverse respawn) respawn

-- The rest of the decision for a member of the group whose own decision is neither to stop nor to
-- resume; `permanent` tells that it is to stop for good.
unfoldable pub widen : Bool → GroupStrategy → List String → String → TreeDecision
widen permanent GroupStrategy.escalate children path =
    give_up_group (reverse children) supervisor_escalated
widen permanent one_for_one children path = pass_through
widen true one_for_all children path = give_up_group (reverse children) max_restarts_exceeded
widen true rest_for_one children path = give_up_group (reverse children) max_restarts_exceeded
widen false one_for_all children path = restart_of children
widen false rest_for_one children path = restart_of (from_failed path children)

unfoldable pub by_child : Decision → Group → String → TreeDecision
by_child stop g path = pass_through
by_child resume g path = pass_through
by_child (stop_permanent n m) g path = widen true g.strategy g.children path
by_child (restart n m) g path = widen false g.strategy g.children path
by_child escalate g path = widen false g.strategy g.children path

unfoldable pub resolve_tree_supervision_decision : Decision → Option Group → String → TreeDecision
unfolding by_child widen
resolve_tree_supervision_decision child none path = pass_through
resolve_tree_supervision_decision child (some g) path =
    if not (includes path g.children) then pass_through else by_child child g path

abbrev pub is_widening : GroupStrategy → Bool
is_widening one_for_all = true
is_widening rest_for_one = true
is_widening one_for_one = false
is_widening GroupStrategy.escalate = false

-- The decision that `applySupervisionStrategy` hands to the group: an escalating child of a
-- widening group is decided again under the restart strategy, with its own bounds and the clock
-- read again.
unfoldable pub child_decision : Option Policy → Option Group → ℕ → ℕ → Bookkeeping → Decision
child_decision (some p) (some g) now later k = elim (resolve_supervision_decision (some p) now k) [
  | escalate ↦
      if is_widening g.strategy
      then resolve_supervision_decision (some (record p { strategy = Strategy.restart })) later k
      else escalate
  | d ↦ d
]
child_decision p g now later k = resolve_supervision_decision p now k

-- What `applySupervisionStrategy` executes.
pub data Directive : Type 0 where
  ignore_in_flight : Directive
  no_behavior : Directive
  restart_members : List String → List String → Directive
  stop_members : List String → GiveUpReason → Directive
  by_decision : Decision → Directive

-- The count that is written back before the directive is executed.
abbrev pub synced : Decision → Bookkeeping → Bookkeeping
synced (restart n m) k = record k { restart_count = n }
synced d k = k

unfoldable pub execute : Decision → Decision → TreeDecision → Bookkeeping → Directive × Bookkeeping
execute own child pass_through k = (by_decision own, synced own k)
execute own child (restart_group stops respawns) k =
    (restart_members stops respawns, synced child k)
execute own child (give_up_group stops reason) k = (stop_members stops reason, k)

-- `in_flight`: an action of the actor's group is running; `known`: the actor has a behavior.
unfoldable pub apply_supervision_strategy :
    Bool
    → Bool
    → Option Policy
    → Option Group
    → String
    → ℕ
    → ℕ
    → Bookkeeping
    → Directive × Bookkeeping
unfolding execute child_decision
apply_supervision_strategy in_flight known policy group path now later k =
    if in_flight
    then (ignore_in_flight, k)
    else if not known
    then (no_behavior, k)
    else let child = child_decision policy group now later k in
      execute (resolve_supervision_decision policy now k) child
        (resolve_tree_supervision_decision child group path) k

-- The wait of `restartActorWithLimits` and `restartSupervisorGroup` before they restart.
unfoldable pub backoff_delay : ℕ → ℕ
backoff_delay restart_count = restart_backoff_ms * 2 ^ restart_count

-- The bookkeeping after a restart that succeeds: `stopActor` clears it, and it is then restored
-- with one restart more and the time at which the restart began.
unfoldable pub after_restart : ℕ → Bookkeeping → Bookkeeping
after_restart now k = record { restart_count = k.restart_count + 1; last_restart_time = now }
