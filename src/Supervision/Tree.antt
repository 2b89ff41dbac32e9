-- ===== src/Supervision/Tree.antt =====
-- What a failure does to the other members of the group.
use actor_web.Common.{
  ℕ, true, false, List, [], ◌∷◌, ◌++◌, some, if◌then◌else◌, arith, ◌≡◌, refl, Bool-cases, inl, inr,
  String, same, includes, same_iff, reverse, ◌⊎◌,
}
use actor_web.Supervision.{
  Decision, stop_permanent, Group, GroupStrategy, one_for_one, one_for_all, rest_for_one,
  restart_group, give_up_group, GiveUpReason, max_restarts_exceeded, supervisor_escalated,
  from_failed, resolve_tree_supervision_decision,
}

-- The members declared before the failed one.
before : String → List String → List String
before path [] = []
before path (c ∷ cs) = if same c path then [] else c ∷ before path cs

before-from_failed : (path : String) (cs : List String) → before path cs ++ from_failed path cs ≡ cs
unfolding before from_failed
before-from_failed path [] = refl
before-from_failed path (c ∷ cs) = ground (arith, before-from_failed path cs)

includes-before : (path : String) (cs : List String) → includes path (before path cs) ≡ false
unfolding before includes
includes-before path [] = refl
includes-before path (c ∷ cs) = ground (arith, includes-before path cs)

includes-from_failed :
    (path : String) (cs : List String) → includes path (from_failed path cs) ≡ includes path cs
unfolding from_failed includes
includes-from_failed path [] = refl
includes-from_failed path (c ∷ cs) = ground (arith, includes-from_failed path cs)

from_failed-cons :
    (path : String) (cs : List String)
    → includes path cs ≡ true
    → (rest : List String) × (from_failed path cs ≡ path ∷ rest)
unfolding from_failed includes
from_failed-cons path [] h = cc
from_failed-cons path (c ∷ cs) h = elim (Bool-cases (same c path)) [
  | inl e ↦ (cs, rw (e, (same_iff c path).0 e))
  | inr e ↦ rw e (from_failed-cons path cs (ground arith))
]

-- The members that a restart of the group leaves alone.
kept_by : GroupStrategy → String → List String → List String
kept_by one_for_all path cs = []
kept_by one_for_one path cs = before path cs
kept_by rest_for_one path cs = before path cs
kept_by GroupStrategy.escalate path cs = before path cs

restart_shape :
    (d : Decision) (g : Group) (path : String) {stops respawns : List String}
    → resolve_tree_supervision_decision d (some g) path ≡ restart_group stops respawns
    → (g.strategy ≡ one_for_all) × (kept_by g.strategy path g.children ≡ [])
      ⊎ (g.strategy ≡ rest_for_one) × ((rest : List String) × (respawns ≡ path ∷ rest))
unfolding resolve_tree_supervision_decision kept_by
restart_shape d g path {stops} {respawns} h = elim (Bool-cases (includes path g.children)) [
  | inl e ↦ let (rest, c) = from_failed-cons path g.children e in ground arith
  | inr e ↦ absurd (ground arith)
]

-- If a failure restarts members of the group, then these are a tail of the declared children that
-- holds the failed actor, and the failed actor is not among the children before it; they are
-- stopped in the reverse of the order in which they are started again; and either the group is
-- one-for-all and the tail is all children, or it is rest-for-one and the tail begins with the
-- failed actor.
pub restart_group_tail :
    (d : Decision) (g : Group) (path : String) {stops respawns : List String}
    → resolve_tree_supervision_decision d (some g) path ≡ restart_group stops respawns
    → (kept : List String) × (kept ++ respawns ≡ g.children)
      × (stops ≡ reverse respawns)
      × (includes path respawns ≡ true)
      × (includes path kept ≡ false)
      × ((g.strategy ≡ one_for_all) × (kept ≡ [])
          ⊎ (g.strategy ≡ rest_for_one) × ((rest : List String) × (respawns ≡ path ∷ rest)))
unfolding resolve_tree_supervision_decision kept_by includes
restart_group_tail d g path h =
    let cs = g.children in
    (
      kept_by g.strategy path cs,
      ground (arith, before-from_failed path cs),
      ground arith,
      ground (arith, includes-from_failed path cs),
      ground (arith, includes-before path cs),
      restart_shape d g path h,
    )

-- A group is stopped only as a whole, in the reverse of the declared order: when the failed child
-- is a member that neither stops nor resumes, and either the group escalates, or it is a widening
-- group and the child has used up its restarts.
pub give_up_group_all :
    (d : Decision) (g : Group) (path : String) {stops : List String} {reason : GiveUpReason}
    → resolve_tree_supervision_decision d (some g) path ≡ give_up_group stops reason
    → (stops ≡ reverse g.children)
      × (includes path g.children ≡ true)
      × ((reason ≡ supervisor_escalated) × (g.strategy ≡ GroupStrategy.escalate)
          ⊎ (reason ≡ max_restarts_exceeded) × ((n : ℕ) × (m : ℕ) × (d ≡ stop_permanent n m)))
unfolding resolve_tree_supervision_decision
give_up_group_all d g path h = ground arith
