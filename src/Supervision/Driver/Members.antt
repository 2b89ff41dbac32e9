-- ===== src/Supervision/Driver/Members.antt =====
-- The loops of a group restart, seen from one path: each touches what it keeps for a path only when
-- it comes to that path.
use actor_web.Common.{
  ℕ, false, List, [], ◌∷◌, Option, none, some, String, same, same_refl, same_iff, includes,
  Distinct, if◌then◌else◌, find, find-erase, arith, ◌≡◌, refl, ap, ◌∙◌, inl, inr, given, or-false,
  subst, Bool-cases, Option-cases,
}
use actor_web.Supervision.Actors.{
  Slot, empty_slot, Fate, returns, throws_before, throws_after, update, Member, spawn_slot,
}
use actor_web.Supervision.Driver.{
  Progress, stop_member, stop_members, respawn_member, respawn_members, capture,
}

-- What a driver keeps for a path.
abbrev pub Place : Type 0 → Type 0
Place B = Slot B × Option (Member B)

abbrev pub stopped : {B : Type 0} → Fate → Member B → Slot B → Place B
stopped throws_before m x = (x, none)
stopped returns m x = (empty_slot, some m)
stopped throws_after m x = (empty_slot, some m)

abbrev pub stop_place : {B : Type 0} → Fate → Slot B → Option (Member B) → Place B
stop_place f x none = (x, none)
stop_place f x (some m) = if x.registered then stopped f m x else (x, none)

abbrev pub respawned : {B : Type 0} → Fate → Member B → Slot B → Slot B
respawned throws_before m x = x
respawned returns m x = spawn_slot m x
respawned throws_after m x = spawn_slot m x

abbrev pub respawn_place : {B : Type 0} → Fate → Slot B → Option (Member B) → Place B
respawn_place f x none = (x, none)
respawn_place f x (some m) = (respawned f m x, some m)

abbrev pub place : {B : Type 0} → String → Progress B → Place B
place p d = (d.slots p, find d.captured p)

module _ {B : Type 0} (stop_fate spawn_fate : String → Fate) where
  place-stop_member_self :
      (p : String) (d : Progress B)
      → place p (stop_member stop_fate spawn_fate p d)
        ≡ stop_place (stop_fate p) (d.slots p) (find d.captured p)
  unfolding stop_member update
  place-stop_member_self p d = elim (Option-cases (find d.captured p)) [
    | inl e ↦ rw e (rw e refl)
    | inr (m, e) ↦ ground (arith, e, same_refl p, find-erase d.captured p p)
  ]

  pub place-stop_member_other :
      (p q : String) (d : Progress B)
      → same q p ≡ false
      → place p (stop_member stop_fate spawn_fate q d) ≡ place p d
  unfolding stop_member update
  place-stop_member_other p q d n = ground (arith, n, find-erase d.captured q p)

  place-respawn_member_self :
      (failed : String) (count : ℕ) (p : String) (d : Progress B)
      → place p (respawn_member stop_fate spawn_fate failed count p d)
        ≡ respawn_place (spawn_fate p) (d.slots p) (find d.captured p)
  unfolding respawn_member update
  place-respawn_member_self failed count p d = elim (Option-cases (find d.captured p)) [
    | inl e ↦ rw e (rw e refl)
    | inr (m, e) ↦ ground (arith, e, same_refl p)
  ]

  pub place-respawn_member_other :
      (failed : String) (count : ℕ) (p q : String) (d : Progress B)
      → same q p ≡ false
      → place p (respawn_member stop_fate spawn_fate failed count q d) ≡ place p d
  unfolding respawn_member update
  place-respawn_member_other failed count p q d n = ground (arith, n)

-- A loop over paths of which each touches what is seen of `p` only if it is `p`.
module _ {D V : Type 0} (p : String) (view : D → V) (f : V → V) (step : String → D → D)
    (loop : List String → D → D) (done : (d : D) → loop [] d ≡ d)
    (more : (q : String) (qs : List String) (d : D) → loop (q ∷ qs) d ≡ loop qs (step q d))
    (self : (d : D) → view (step p d) ≡ f (view d))
    (other : (q : String) (d : D) → same q p ≡ false → view (step q d) ≡ view d) where
  loop_other : (ps : List String) (d : D) → includes p ps ≡ false → view (loop ps d) ≡ view d
  unfolding includes
  loop_other [] d n = ap view (done d)
  loop_other (q ∷ qs) d n =
      let (n1, n2) = or-false (same q p) (includes p qs) n in
      ap view (more q qs d) ∙ loop_other qs (step q d) n2 ∙ other q d n1

  loop_once :
      (ps : List String) (d : D)
      → Distinct ps
      → view (loop ps d) ≡ (if includes p ps then f (view d) else view d)
  unfolding includes
  loop_once [] d h = ap view (done d)
  loop_once (q ∷ qs) d h = elim (Bool-cases (same q p)) [
    | inl e ↦
        let q≡p = (same_iff q p).0 e in
        rw e (
          ap view (more q qs d)
          ∙ loop_other qs (step q d) (subst (λ x. includes x qs ≡ false) q≡p h.0)
          ∙ rw q≡p (self d))
    | inr e ↦ rw e (ap view (more q qs d) ∙ loop_once qs (step q d) h.1 ∙ rw (other q d e) refl)
  ]

module _ {B : Type 0} (stop_fate spawn_fate : String → Fate) (p : String) where
  pub place-stop_members :
      (ps : List String) (d : Progress B)
      → Distinct ps
      → place p (stop_members stop_fate spawn_fate ps d) ≡ (
          if includes p ps
          then stop_place (stop_fate p) (d.slots p) (find d.captured p)
          else place p d)
  unfolding stop_members
  place-stop_members =
      loop_once p (place p) (λ v. stop_place (stop_fate p) v.0 v.1)
        (stop_member stop_fate spawn_fate) (stop_members stop_fate spawn_fate) (λ d. refl)
        (λ q qs d. refl) (place-stop_member_self stop_fate spawn_fate p)
        (λ q d n. place-stop_member_other stop_fate spawn_fate p q d n)

  pub place-respawn_members :
      (failed : String) (count : ℕ) (ps : List String) (d : Progress B)
      → Distinct ps
      → place p (respawn_members stop_fate spawn_fate failed count ps d) ≡ (
          if includes p ps
          then respawn_place (spawn_fate p) (d.slots p) (find d.captured p)
          else place p d)
  unfolding respawn_members
  place-respawn_members failed count =
      loop_once p (place p) (λ v. respawn_place (spawn_fate p) v.0 v.1)
        (respawn_member stop_fate spawn_fate failed count)
        (respawn_members stop_fate spawn_fate failed count) (λ d. refl) (λ q qs d. refl)
        (place-respawn_member_self stop_fate spawn_fate failed count p)
        (λ q d n. place-respawn_member_other stop_fate spawn_fate failed count p q d n)

-- What is captured of a path is what stands there before.
abbrev pub member_of : {B : Type 0} → Slot B → Option (Member B)
member_of x = given x.behavior none (λ b. some (record { behavior = b; policy = x.policy }))

pub find-capture :
    {B : Type 0} (p : String) (ps : List String) (slots : String → Slot B)
    → find (capture ps slots) p ≡ (if includes p ps then member_of (slots p) else none)
unfolding capture includes find
find-capture p [] slots = refl
find-capture p (q ∷ qs) slots = elim (Bool-cases (same q p)) [
  | inl e ↦ ground (arith, e, find-capture p qs slots, ap slots ((same_iff q p).0 e))
  | inr e ↦ ground (arith, e, find-capture p qs slots)
]
