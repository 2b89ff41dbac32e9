-- ===== src/Supervision/Driver/Ended.antt =====
-- The end of a group: what is stopped, and what is told of it.
use actor_web.Common.{
  false, ◌&&◌, List, [], ◌∷◌, ◌++◌, String, same, same_iff, same-same, includes, Distinct,
  if◌then◌else◌, arith, ◌≡◌, refl, sym, ap, ◌∙◌, subst, inl, inr, map, Bool-cases, or-false,
}
use actor_web.Supervision.{GiveUpReason}
use actor_web.Supervision.Actors.{
  Slot, empty_slot, System, actor_stopped, actor_escalated, Fate, returns, update,
}
use actor_web.Supervision.Driver.{member_reason, stop_children, stop_supervisor_group, without}

-- The paths at which an actor is registered.
unfoldable pub registered_of : {B : Type 0} → List String → (String → Slot B) → List String
registered_of [] slots = []
registered_of (p ∷ ps) slots =
    let rest = registered_of ps slots in if (slots p).registered then p ∷ rest else rest

registered_of-update :
    {B : Type 0} (ps : List String) (q : String) (x : Slot B) (slots : String → Slot B)
    → includes q ps ≡ false
    → registered_of ps (update slots q x) ≡ registered_of ps slots
unfolding registered_of includes update
registered_of-update [] q x slots n = refl
registered_of-update (p ∷ ps) q x slots n =
    let (n1, n2) = or-false (same p q) (includes q ps) n in
    ground (arith, registered_of-update ps q x slots n2, same-same q p p q sym sym, n1)

pub includes-without : (key : String) (ks : List String) → includes key (without key ks) ≡ false
unfolding includes without
includes-without key [] = refl
includes-without key (k ∷ ks) = ground (arith, includes-without key ks)

module _ {B : Type 0} (stop_fate spawn_fate : String → Fate)
    (fine : (p : String) → stop_fate p ≡ returns) where
  stop_children_events :
      (reason : GiveUpReason) (failed : String) (ps : List String) (slots : String → Slot B)
      → Distinct ps
      → (stop_children stop_fate spawn_fate reason failed ps slots).1
        ≡ map (λ p. actor_stopped p (member_reason reason failed p)) (registered_of ps slots)
  unfolding stop_children registered_of
  stop_children_events reason failed [] slots h = refl
  stop_children_events reason failed (p ∷ ps) slots h = elim (Bool-cases (slots p).registered) [
    | inl e ↦
        rw (e, fine p)
          (ap (λ es. actor_stopped p (member_reason reason failed p) ∷ es)
            (stop_children_events reason failed ps (update slots p empty_slot) h.1
              ∙ ap (map (λ q. actor_stopped q (member_reason reason failed q)))
                  (registered_of-update ps p empty_slot slots h.0)))
    | inr e ↦ rw e (stop_children_events reason failed ps slots h.1)
  ]

  stop_children_other :
      (reason : GiveUpReason) (failed : String) (ps : List String) (slots : String → Slot B)
      (p : String)
      → includes p ps ≡ false
      → (stop_children stop_fate spawn_fate reason failed ps slots).0 p ≡ slots p
  unfolding stop_children includes update
  stop_children_other reason failed [] slots p n = refl
  stop_children_other reason failed (q ∷ qs) slots p n =
      let (n1, n2) = or-false (same q p) (includes p qs) n in
      elim (Bool-cases (slots q).registered) [
        | inl e ↦
            rw (e, fine q)
              (stop_children_other reason failed qs (update slots q empty_slot) p n2 ∙ rw n1 refl)
        | inr e ↦ rw e (stop_children_other reason failed qs slots p n2)
      ]

  stop_children_slots :
      (reason : GiveUpReason) (failed : String) (ps : List String) (slots : String → Slot B)
      (p : String)
      → Distinct ps
      → (stop_children stop_fate spawn_fate reason failed ps slots).0 p
        ≡ (if includes p ps && (slots p).registered then empty_slot else slots p)
  unfolding stop_children includes update
  stop_children_slots reason failed [] slots p h = refl
  stop_children_slots reason failed (q ∷ qs) slots p h = elim (Bool-cases (same q p)) [
    | inl e ↦
        let q≡p = (same_iff q p).0 e in
        let rest = λ (t : String → Slot B).
          stop_children_other reason failed qs t p (subst (λ x. includes x qs ≡ false) q≡p h.0) in
        elim (Bool-cases (slots q).registered) [
          | inl r ↦
              rw (r, fine q)
                (rest (update slots q empty_slot)
                  ∙ ground (arith, e, r, ap (λ (x : String). (slots x).registered) q≡p))
          | inr r ↦
              rw r
                (rest slots ∙ ground (arith, e, r, ap (λ (x : String). (slots x).registered) q≡p))
        ]
    | inr e ↦ elim (Bool-cases (slots q).registered) [
      | inl r ↦
          rw (r, fine q)
            (stop_children_slots reason failed qs (update slots q empty_slot) p h.1 ∙ rw e refl)
      | inr r ↦ rw r (stop_children_slots reason failed qs slots p h.1 ∙ rw e refl)
    ]
  ]

  -- When a group is given up and its stops succeed, each child that is registered is stopped, in the
  -- given order and with one terminal event, which tells the failed child from the others; a child
  -- that is not registered has none. One escalation follows. The children's maps are cleared, those
  -- of other actors are as before, and the group's action is not in flight any more. Each path is
  -- given once.
  pub stop_supervisor_group_lem :
      (key failed : String) (stop_order : List String) (reason : GiveUpReason) (s : System B)
      (p : String)
      → Distinct stop_order
      → let r = stop_supervisor_group stop_fate spawn_fate key failed stop_order reason s in
        (r.1
          ≡ map
              (λ q. actor_stopped q (member_reason reason failed q))
              (registered_of stop_order s.slots)
            ++ (actor_escalated failed reason ∷ []))
        × (r.0.slots p
            ≡ (if includes p stop_order && (s.slots p).registered then empty_slot else s.slots p))
        × (includes key r.0.restarting_groups ≡ false)
  unfolding stop_supervisor_group
  stop_supervisor_group_lem key failed stop_order reason s p h = (
    ap (λ es. es ++ (actor_escalated failed reason ∷ []))
        (stop_children_events reason failed stop_order s.slots h),
    stop_children_slots reason failed stop_order s.slots p h,
    includes-without key (key ∷ s.restarting_groups),
  )
