-- ===== src/Supervision/Budget.antt =====
-- The restarts that one actor gets over its history of failures.
use actor_web.Common.{
  ℕ, ◌+◌, ◌-◌, ◌≤◌, ◌&&◌, List, [], ◌∷◌, Option, none, some, ltb, leb, if◌then◌else◌, arith, length,
  ◌≡◌, Option-cases, inl, inr,
}
use actor_web.Supervision.{
  Policy, Bookkeeping, Decision, restart, stop_permanent, stop, escalate, resume, max_restarts_of,
  within_ms_of, effective_count, resolve_supervision_decision, synced, after_restart,
}

-- A failure of an actor with no group: when it is decided, and when the restart begins.
pub record Failure : Type 0 where
  pub decided_at : ℕ
  pub restarted_at : ℕ

-- The restart that a decision leads to, with its time, and the bookkeeping after it.
unfoldable pub restart_if : Decision → ℕ → Bookkeeping → Option Bookkeeping
restart_if (restart n m) now k = some (after_restart now (synced (restart n m) k))
restart_if (stop_permanent n m) now k = none
restart_if stop now k = none
restart_if escalate now k = none
restart_if resume now k = none

unfoldable pub fail_once : Option Policy → Failure → Bookkeeping → Option Bookkeeping
unfolding restart_if after_restart
fail_once policy f k =
    restart_if (resolve_supervision_decision policy f.decided_at k) f.restarted_at k

-- The times of the restarts of an actor that fails again and again, up to the failure after which
-- it is not restarted.
unfoldable pub restarts : Option Policy → List Failure → Bookkeeping → List ℕ
restarts policy [] k = []
restarts policy (f ∷ fs) k = elim (fail_once policy f k) [
  | none ↦ []
  | some k' ↦ f.restarted_at ∷ restarts policy fs k'
]

-- How many of the times lie in the `width` milliseconds that begin at `start`.
unfoldable pub in_window : ℕ → ℕ → List ℕ → ℕ
in_window start width [] = 0
in_window start width (t ∷ ts) =
    (if leb start t && leb t (start + width) then 1 else 0) + in_window start width ts

abbrev pub never_restarted : Bookkeeping
never_restarted = record { restart_count = 0; last_restart_time = 0 }

-- The clock does not go back.
abbrev pub InOrder : ℕ → List Failure → Type 0
InOrder last [] = Unit
InOrder last (f ∷ fs) =
    (last ≤ f.decided_at) × (f.decided_at ≤ f.restarted_at) × InOrder f.restarted_at fs

-- Every failure comes within `width` of the restart before it.
abbrev pub Chained : ℕ → ℕ → List Failure → Type 0
Chained width last [] = Unit
Chained width last (f ∷ fs) = (f.decided_at ≤ last + width) × Chained width f.restarted_at fs

fail_once_lem :
    (p : Option Policy) (f : Failure) (k k' : Bookkeeping)
    → fail_once p f k ≡ some k'
    → (k'.last_restart_time ≡ f.restarted_at)
      × (k'.restart_count ≡ effective_count (within_ms_of p) f.decided_at k + 1)
      × (k'.restart_count ≤ max_restarts_of p)
unfolding fail_once resolve_supervision_decision
fail_once_lem p f k k' h = ground arith

-- How many restarts may still fall into the window: all of the bound, if the last restart lies
-- before the window; what the count leaves, if it lies in it; none after it.
left_over : ℕ → ℕ → ℕ → Bookkeeping → ℕ
left_over start width bound k =
    if ltb (start + width) k.last_restart_time
    then 0
    else if leb start k.last_restart_time
    then bound - k.restart_count
    else bound

in_window-restarts :
    (p : Option Policy) (start : ℕ) (fs : List Failure) (k : Bookkeeping)
    → InOrder k.last_restart_time fs
    → in_window start (within_ms_of p) (restarts p fs k)
      ≤ left_over start (within_ms_of p) (max_restarts_of p) k
unfolding restarts in_window left_over effective_count
in_window-restarts p start [] k o = omega arith
in_window-restarts p start (f ∷ fs) k o = elim (Option-cases (fail_once p f k)) [
  | inl e ↦ rw (e, restarts) (omega arith)
  | inr (k', e) ↦
      let (l, c, m) = fail_once_lem p f k k' e in
      let ih = in_window-restarts p start fs k' (rw l o.2) in
      rw (e, restarts) (ground (arith, ih, l, c, m))
]

-- However an actor with no group fails, as long as the clock does not go back: no window as long
-- as its policy's (or the default) window holds more restarts than the policy's (or the default)
-- bound.
pub restarts_bounded :
    (p : Option Policy) (start : ℕ) (fs : List Failure)
    → InOrder 0 fs
    → in_window start (within_ms_of p) (restarts p fs never_restarted) ≤ max_restarts_of p
unfolding left_over
restarts_bounded p start fs o = ground (arith, in_window-restarts p start fs never_restarted o)

length-restarts :
    (p : Option Policy) (fs : List Failure) (k : Bookkeeping)
    → Chained (within_ms_of p) k.last_restart_time fs
    → length (restarts p fs k) ≤ max_restarts_of p - k.restart_count
unfolding restarts effective_count
length-restarts p [] k o = omega arith
length-restarts p (f ∷ fs) k o = elim (Option-cases (fail_once p f k)) [
  | inl e ↦ rw (e, restarts) (omega arith)
  | inr (k', e) ↦
      let (l, c, m) = fail_once_lem p f k k' e in
      let ih = length-restarts p fs k' (rw l o.1) in rw (e, restarts) (ground (arith, ih, l, c, m))
]

-- An actor with no group that fails again and again, each time within the window of the restart
-- before, is restarted no more often than the bound in all, however long the chain lasts.
pub length-restarts-le :
    (p : Option Policy) (f : Failure) (fs : List Failure)
    → Chained (within_ms_of p) f.restarted_at fs
    → length (restarts p (f ∷ fs) never_restarted) ≤ max_restarts_of p
unfolding restarts effective_count
length-restarts-le p f fs o = elim (Option-cases (fail_once p f never_restarted)) [
  | inl e ↦ rw (e, restarts) (omega arith)
  | inr (k', e) ↦
      let (l, c, m) = fail_once_lem p f never_restarted k' e in
      let ih = length-restarts p fs k' (rw l o) in rw (e, restarts) (ground (arith, ih, l, c, m))
]
