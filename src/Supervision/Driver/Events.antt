-- ===== src/Supervision/Driver/Events.antt =====
-- The order in which the members of a group are stopped and respawned.
use actor_web.Common.{
  ℕ, ◌+◌, Bool, true, false, ◌&&◌, List, [], ◌∷◌, ◌++◌, Option, none, some, String, same, same_iff,
  same_refl, includes, Distinct, if◌then◌else◌, find, arith, ◌≡◌, refl, sym, ap, ◌∙◌, inl, inr, map,
  append_assoc, append-nil, Bool-cases, Option-cases, if_true, Dict,
}
use actor_web.Supervision.{or_default}
use actor_web.Supervision.Actors.{
  Slot, System, Event, actor_stopped, actor_restarted, supervisor_group_restart, Fate, returns,
  Member,
}
use actor_web.Supervision.Driver.{
  Progress, stop_member, stop_members, respawn_member, respawn_members, capture, drive_restart,
  restart_supervisor_group,
}
use actor_web.Supervision.Driver.Members.{
  place-stop_member_other, place-stop_members, stop_place, member_of, find-capture,
}

abbrev is_some : {A : Type 0} → Option A → Bool
is_some none = false
is_some (some a) = true

-- The paths with a property.
unfoldable pub those : (String → Bool) → List String → List String
those f [] = []
those f (p ∷ ps) = let rest = those f ps in if f p then p ∷ rest else rest

-- Properties that agree on the paths of a list pick the same of them.
those-those :
    (f g : String → Bool) (ps : List String)
    → ((p : String) → includes p ps ≡ true → f p ≡ g p)
    → those f ps ≡ those g ps
unfolding those includes
those-those f g [] h = refl
those-those f g (p ∷ ps) h =
    ground (arith, h p, same_refl p, those-those f g ps (λ q i. h q (ground (arith, i))))

apart :
    (p q : String) (ps : List String)
    → includes p ps ≡ false
    → includes q ps ≡ true
    → same p q ≡ false
apart p q ps n i = elim (Bool-cases (same p q)) [
  | inl e ↦
      let i' : includes p ps ≡ true = (rw (sym ((same_iff p q).0 e)) at i) in
      absurd (ground (arith, n, i'))
  | inr e ↦ e
]

is_some-member_of : {B : Type 0} (x : Slot B) → is_some (member_of x) ≡ is_some x.behavior
is_some-member_of x = ground arith

stop_place-taken :
    {B : Type 0} (x y : Slot B)
    → is_some (stop_place returns x (member_of y)).1 ≡ is_some y.behavior && x.registered
stop_place-taken x y = ground arith

abbrev restart_of : String → ℕ → String → Event
restart_of failed count p = actor_restarted p (if same p failed then count + 1 else 1)

module _ {B : Type 0} (stop_fate spawn_fate : String → Fate)
    (stops_fine : (p : String) → stop_fate p ≡ returns)
    (spawns_fine : (p : String) → spawn_fate p ≡ returns) where
  -- A member that is stopped when its turn comes.
  abbrev is_live : Progress B → String → Bool
  is_live d p = is_some (find d.captured p) && (d.slots p).registered

  stop_member-events :
      (p : String) (d : Progress B)
      → (stop_member stop_fate spawn_fate p d).events
        ≡ d.events ++ (if is_live d p then actor_stopped p supervisor_group_restart ∷ [] else [])
  unfolding stop_member
  stop_member-events p d = elim (Option-cases (find d.captured p)) [
    | inl e ↦ rw e (sym (append-nil d.events))
    | inr (m, e) ↦ elim (Bool-cases (d.slots p).registered) [
      | inl r ↦ rw (e, r, stops_fine p) refl
      | inr r ↦ rw (e, r) (sym (append-nil d.events))
    ]
  ]

  stop_members-events :
      (ps : List String) (d : Progress B)
      → Distinct ps
      → (stop_members stop_fate spawn_fate ps d).events
        ≡ d.events ++ map (λ p. actor_stopped p supervisor_group_restart) (those (is_live d) ps)
  unfolding stop_members those
  stop_members-events [] d h = sym (append-nil d.events)
  stop_members-events (p ∷ ps) d h =
      let d' = stop_member stop_fate spawn_fate p d in
      let rest : those (is_live d') ps ≡ those (is_live d) ps =
        those-those (is_live d') (is_live d) ps (λ q i.
          ap (λ (v : Slot B × Option (Member B)). is_some v.1 && v.0.registered)
            (place-stop_member_other stop_fate spawn_fate q p d (apart p q ps h.0 i))) in
      stop_members-events ps d' h.1
      ∙ rw (rest, stop_member-events p d)
          (elim (Bool-cases (is_live d p)) [
            | inl e ↦ rw e (
                append_assoc d.events (actor_stopped p supervisor_group_restart ∷ [])
                  (map (λ q. actor_stopped q supervisor_group_restart) (those (is_live d) ps)))
            | inr e ↦ rw e (rw (append-nil d.events) refl)
          ])

  -- A member that is respawned when its turn comes.
  abbrev is_kept : Dict (Member B) → String → Bool
  is_kept captured p = is_some (find captured p)

  module _ (failed : String) (count : ℕ) where
    respawn_member-captured :
        (p : String) (d : Progress B)
        → (respawn_member stop_fate spawn_fate failed count p d).captured ≡ d.captured
    unfolding respawn_member
    respawn_member-captured p d = ground arith

    respawn_member-events :
        (p : String) (d : Progress B)
        → (respawn_member stop_fate spawn_fate failed count p d).events
          ≡ d.events ++ (if is_kept d.captured p then restart_of failed count p ∷ [] else [])
    unfolding respawn_member
    respawn_member-events p d = elim (Option-cases (find d.captured p)) [
      | inl e ↦ rw e (sym (append-nil d.events))
      | inr (m, e) ↦ rw (e, spawns_fine p) refl
    ]

    respawn_members-events :
        (ps : List String) (d : Progress B)
        → (respawn_members stop_fate spawn_fate failed count ps d).events
          ≡ d.events ++ map (restart_of failed count) (those (is_kept d.captured) ps)
    unfolding respawn_members those
    respawn_members-events [] d = sym (append-nil d.events)
    respawn_members-events (p ∷ ps) d =
        respawn_members-events ps (respawn_member stop_fate spawn_fate failed count p d)
        ∙ rw (respawn_member-captured p d, respawn_member-events p d)
            (elim (Bool-cases (is_kept d.captured p)) [
              | inl e ↦ rw e (
                  append_assoc d.events (restart_of failed count p ∷ [])
                    (map (restart_of failed count) (those (is_kept d.captured) ps)))
              | inr e ↦ rw e (rw (append-nil d.events) refl)
            ])

  -- The members that a restart of the group takes: those with a behavior before it, if they are still
  -- registered after the backoff.
  abbrev pub is_taken : (String → Slot B) → (String → Slot B) → String → Bool
  is_taken before after p = is_some (before p).behavior && (after p).registered

  -- If stops and respawns succeed, the members that the restart of a group takes are all stopped, in
  -- the one order, before the first is respawned; then they are respawned, in the other order. The
  -- failed actor's restart is counted on from those before, any other's is its first. The paths to
  -- stop are those to respawn, and each is there once.
  pub restart_supervisor_group_events :
      (meanwhile : System B → System B) (key failed : String) (stops respawns : List String)
      (now : ℕ) (s : System B)
      → Distinct stops
      → Distinct respawns
      → ((p : String) → includes p stops ≡ includes p respawns)
      → let waited = meanwhile (record s { restarting_groups = key ∷ s.restarting_groups }) in
        let count = or_default (s.slots failed).restart_count 0 in
        (restart_supervisor_group stop_fate spawn_fate meanwhile key failed stops respawns now s).1
        ≡ map
            (λ p. actor_stopped p supervisor_group_restart)
            (those (is_taken s.slots waited.slots) stops)
          ++ map
              (λ p. actor_restarted p (if same p failed then count + 1 else 1))
              (those (is_taken s.slots waited.slots) respawns)
  unfolding restart_supervisor_group drive_restart
  restart_supervisor_group_events meanwhile key failed stops respawns now s ds dr both =
      let waited = meanwhile (record s { restarting_groups = key ∷ s.restarting_groups }) in
      let count = or_default (s.slots failed).restart_count 0 in
      let d0 : Progress B = record {
        slots = waited.slots;
        captured = capture respawns s.slots;
        events = [];
      } in
      let d1 = stop_members stop_fate spawn_fate stops d0 in
      let taken = is_taken s.slots waited.slots in
      let found = λ (p : String) (i : includes p respawns ≡ true).
        find-capture p respawns s.slots
        ∙ if_true (includes p respawns) (member_of (s.slots p)) none i in
      let stopped : those (is_live d0) stops ≡ those taken stops =
        those-those (is_live d0) taken stops
          (λ p i. rw (found p (sym (both p) ∙ i), is_some-member_of (s.slots p)) refl) in
      let kept : those (is_kept d1.captured) respawns ≡ those taken respawns =
        those-those (is_kept d1.captured) taken respawns (λ p i.
          ap (λ (v : Slot B × Option (Member B)). is_some v.1)
            (place-stop_members stop_fate spawn_fate p stops d0 ds)
          ∙ rw (both p, i, stops_fine p, found p i)
              (stop_place-taken (waited.slots p) (s.slots p))) in
      respawn_members-events failed count respawns d1
      ∙ rw (kept, stop_members-events stops d0 ds, stopped) refl
