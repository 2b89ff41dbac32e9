-- ===== src/Supervision/Failure/Times.antt =====
-- How often events tell that an actor is stopped.
use actor_web.Common.{
  ℕ, ◌+◌, ◌≤◌, Bool, false, List, [], ◌∷◌, ◌++◌, String, same, same_iff, subst, includes, Distinct,
  if◌then◌else◌, reverse, arith, ◌≡◌, refl, ap, ◌∙◌, inl, inr, Bool-cases,
}
use mathlib.Core.List.{reverse-append}
use actor_web.Supervision.{from_failed}
use actor_web.Supervision.Actors.{
  Event, actor_stopped, StopReason, Fate, returns, throws_before, throws_after, stop_events,
}

-- How often a path stands in a list.
unfoldable pub times : String → List String → ℕ
times q [] = 0
times q (p ∷ ps) = (if same p q then 1 else 0) + times q ps

abbrev pub tells_stop : String → Event → Bool
tells_stop q (actor_stopped p why) = same p q
tells_stop q _ = false

-- How often events tell that an actor is stopped.
unfoldable pub stopped_times : String → List Event → ℕ
stopped_times q [] = 0
stopped_times q (e ∷ es) = (if tells_stop q e then 1 else 0) + stopped_times q es

pub stopped_times-append :
    (q : String) (es fs : List Event)
    → stopped_times q (es ++ fs) ≡ stopped_times q es + stopped_times q fs
unfolding stopped_times
stopped_times-append q [] fs = ground arith
stopped_times-append q (e ∷ es) fs = ground (arith, stopped_times-append q es fs)

times-append : (q : String) (ps qs : List String) → times q (ps ++ qs) ≡ times q ps + times q qs
unfolding times
times-append q [] qs = ground arith
times-append q (p ∷ ps) qs = ground (arith, times-append q ps qs)

times_absent : (q : String) (ps : List String) → includes q ps ≡ false → times q ps ≡ 0
unfolding times includes
times_absent q [] n = refl
times_absent q (p ∷ ps) n = ground (arith, times_absent q ps)

pub times-Distinct : (q : String) (ps : List String) → Distinct ps → times q ps ≤ 1
unfolding times
times-Distinct q [] h = omega arith
times-Distinct q (p ∷ ps) h = elim (Bool-cases (same p q)) [
  | inl e ↦
      let none_left =
        times_absent q ps (subst (λ x. includes x ps ≡ false) ((same_iff p q).0 e) h.0) in
      ground (arith, e, none_left)
  | inr e ↦ ground (arith, times-Distinct q ps h.1, e)
]

pub times-reverse : (q : String) (ps : List String) → times q (reverse ps) ≡ times q ps
unfolding times
times-reverse q [] = refl
times-reverse q (p ∷ ps) =
    ap (times q) (reverse-append (p ∷ []) ps)
    ∙ ground (arith, times-append q (reverse ps) (p ∷ []), times-reverse q ps)

pub times-from_failed : (q p : String) (ps : List String) → times q (from_failed p ps) ≤ times q ps
unfolding times from_failed
times-from_failed q p [] = omega arith
times-from_failed q p (c ∷ cs) = ground (arith, times-from_failed q p cs)

pub stop_events-times :
    (f : Fate) (p : String) (why : StopReason) (q : String)
    → stopped_times q (stop_events f p why) ≤ (if same p q then 1 else 0)
unfolding stopped_times
stop_events-times returns p why q = ground arith
stop_events-times throws_before p why q = ground arith
stop_events-times throws_after p why q = ground arith

pub stop_events-once :
    (f : Fate) (p : String) (why : StopReason) (q : String)
    → stopped_times q (stop_events f p why) ≤ 1
stop_events-once f p why q = ground (arith, stop_events-times f p why q)
