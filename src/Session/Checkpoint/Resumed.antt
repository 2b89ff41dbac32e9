-- ===== src/Session/Checkpoint/Resumed.antt =====
-- When a session is resumed from its checkpoint.
use actor_web.Common.{
  ℕ, ◌<◌, Bool, true, false, not, ◌||◌, List, [], ◌∷◌, Option, none, some, String, if◌then◌else◌,
  given, Dict, find, arith, ◌≡◌, ◌≢◌, refl, ap, ◌∙◌, ◌↔◌, inl, inr, Option-cases, or-false,
  if_false,
}
use actor_web.Session.Checkpoint.{
  EffectState, Continuation, Format, Disposition, missing, present, stale, expired, redacted,
  nothing_redacted, metadata_only, ReconciliationStatus, clear, pending, required, Envelope,
  Rehydration, resumed, is_empty, told_fields, to_date_ms, is_past, continuation_is_past,
  is_redacted, classify, read, supports, needs_reconciliation, is_unsettled, is_clear,
  rehydrate_present, rehydrate,
}

-- A date, if it is there, is after `now`.
abbrev pub Later : Option ℕ → ℕ → Type 0
Later none now = Unit
Later (some ms) now = now < ms

-- The continuation, if there is one, is whole, is not expired and has a format that is supported.
abbrev pub Fits :
    {J : Type 0} → (String → Option ℕ) → List Format → Option (Continuation J) → ℕ → Type 0
Fits parse_date formats none now = Unit
Fits parse_date formats (some c) now =
    Later (to_date_ms parse_date c.expires_at) now
    × (c.disposition ≡ nothing_redacted)
    × (supports formats c.format ≡ true)

-- The effect, if there is one, is not an irreversible one that was begun and has no receipt, nor one
-- that asks for reconciliation.
abbrev pub Settled : {J : Type 0} → Option (EffectState J) → Type 0
Settled none = Unit
Settled (some f) = (is_unsettled f ≡ false) × (needs_reconciliation f.phase ≡ false)

pub record IsResumable {J : Type 0} (parse_date : String → Option ℕ) (formats : List Format)
    (now : ℕ) (e : Envelope J) : Type 0 where
  pub unexpired : Later (to_date_ms parse_date e.expires_at) now
  pub fresh : Later (to_date_ms parse_date e.stale_at) now
  pub whole : e.redacted_fields ≡ []
  pub fits : Fits parse_date formats e.continuation now
  pub settled : Settled e.effect
  pub reconciled : e.reconciliation ≡ clear

is_past-Later :
    (parse_date : String → Option ℕ) (date : Option String) (now : ℕ)
    → (is_past parse_date date now ≡ false) ↔ Later (to_date_ms parse_date date) now
unfolding is_past
is_past-Later parse_date date now = elim (Option-cases (to_date_ms parse_date date)) [
  | inl e ↦ rw e (λ h. tt, λ h. refl)
  | inr (ms, e) ↦ rw e (λ h. ground (arith, h), λ h. ground (arith, h))
]

-- A guard in front of what is resumed.
guard_passed :
    {A J : Type 0} (f : A → Rehydration J) (b : Bool) (x y : A) (e : Envelope J)
    → f x ≢ resumed e
    → f (if b then x else y) ≡ resumed e
    → (b ≡ false) × (f y ≡ resumed e)
guard_passed f true x y e n h = absurd (n h)
guard_passed f false x y e n h = (refl, h)

is_clear-clear : (r : ReconciliationStatus) → is_clear r ≡ true → r ≡ clear
is_clear-clear clear h = refl
is_clear-clear pending h = absurd (ground arith)
is_clear-clear required h = absurd (ground arith)

is_empty-nil : (xs : List String) → is_empty xs ≡ true → xs ≡ []
is_empty-nil [] h = refl
is_empty-nil (x ∷ xs) h = absurd (ground arith)

given-Fits :
    {J : Type 0} (parse_date : String → Option ℕ) (formats : List Format)
    (c : Option (Continuation J)) (now : ℕ)
    → continuation_is_past parse_date c now ≡ false
    → is_redacted c ≡ false
    → given c false (λ c'. not (supports formats c'.format)) ≡ false
    → Fits parse_date formats c now
unfolding continuation_is_past
given-Fits parse_date formats none now p r u = tt
given-Fits parse_date formats (some c) now p r u =
    ((is_past-Later parse_date c.expires_at now).0 p, whole c.disposition r, ground (arith, u))
  where
    whole :
        (d : Disposition)
        → (elim d [ metadata_only ↦ true | nothing_redacted ↦ false ]) ≡ false
        → d ≡ nothing_redacted
    whole nothing_redacted h = refl
    whole metadata_only h = absurd (ground arith)

given-Settled :
    {J : Type 0} (f : Option (EffectState J))
    → given f false is_unsettled ≡ false
    → given f false (λ f'. needs_reconciliation f'.phase) ≡ false
    → Settled f
given-Settled none u n = tt
given-Settled (some f) u n = (u, n)

Fits_lem :
    {J : Type 0} (parse_date : String → Option ℕ) (formats : List Format)
    (c : Option (Continuation J)) (now : ℕ)
    → Fits parse_date formats c now
    → (continuation_is_past parse_date c now ≡ false)
      × (is_redacted c ≡ false)
      × (given c false (λ c'. not (supports formats c'.format)) ≡ false)
unfolding continuation_is_past
Fits_lem parse_date formats none now h = (refl, refl, refl)
Fits_lem parse_date formats (some c) now h =
    ((is_past-Later parse_date c.expires_at now).1 h.0, rw h.1 refl, rw h.2 refl)

Settled_lem :
    {J : Type 0} (f : Option (EffectState J))
    → Settled f
    → (given f false is_unsettled ≡ false)
      × (given f false (λ f'. needs_reconciliation f'.phase) ≡ false)
Settled_lem none h = (refl, refl)
Settled_lem (some f) h = h

module _ {J : Type 0} (parse_date : String → Option ℕ) (formats : List Format) (now : ℕ)
    (e e' : Envelope J) where
  resumed-IsResumable :
      rehydrate formats (classify parse_date e now) ≡ resumed e'
      → (e ≡ e') × IsResumable parse_date formats now e
  unfolding classify rehydrate rehydrate_present
  resumed-IsResumable h =
      let read_as = rehydrate formats in
      let kept = λ (r : Rehydration J). r in
      let (p1, h1) =
        guard_passed read_as (is_past parse_date e.expires_at now) (expired e) _ e' (λ x. cc) h in
      let (p2, h2) =
        guard_passed read_as (continuation_is_past parse_date e.continuation now) (expired e) _ e'
          (λ x. cc) h1 in
      let (p3, h3) =
        guard_passed read_as (is_past parse_date e.stale_at now) (stale e) _ e' (λ x. cc) h2 in
      let (p4, h4) =
        guard_passed read_as (not (is_empty e.redacted_fields) || is_redacted e.continuation)
          (redacted e (told_fields e)) _ e' (λ x. cc) h3 in
      let (w, r) = or-false (not (is_empty e.redacted_fields)) (is_redacted e.continuation) p4 in
      let (p5, h5) = guard_passed kept (is_redacted e.continuation) _ _ e' (λ x. cc) h4 in
      let (p6, h6) =
        guard_passed kept (given e.continuation false (λ c. not (supports formats c.format))) _ _ e'
          (λ x. cc) h5 in
      let (p7, h7) = guard_passed kept (given e.effect false is_unsettled) _ _ e' (λ x. cc) h6 in
      let (p8, h8) =
        guard_passed kept
          (not (is_clear e.reconciliation)
            || given e.effect false (λ f. needs_reconciliation f.phase))
          _ _ e' (λ x. cc) h7 in
      let (c, n) =
        or-false (not (is_clear e.reconciliation))
          (given e.effect false (λ f. needs_reconciliation f.phase)) p8 in
      (
        cc,
        record {
          unexpired = (is_past-Later parse_date e.expires_at now).0 p1;
          fresh = (is_past-Later parse_date e.stale_at now).0 p3;
          whole = is_empty-nil e.redacted_fields (ground (arith, w));
          fits = given-Fits parse_date formats e.continuation now p2 r p6;
          settled = given-Settled e.effect p7 n;
          reconciled = is_clear-clear e.reconciliation (ground (arith, c));
        },
      )

  IsResumable-resumed :
      IsResumable parse_date formats now e
      → rehydrate formats (classify parse_date e now) ≡ resumed e
  unfolding classify rehydrate rehydrate_present
  IsResumable-resumed h =
      let (p, r, u) = Fits_lem parse_date formats e.continuation now h.fits in
      let (n, m) = Settled_lem e.effect h.settled in
      let named : is_empty e.redacted_fields ≡ true = (rw h.whole refl) in
      let not_clear : is_clear e.reconciliation ≡ true = (rw h.reconciled refl) in
      ap (rehydrate formats) (
        if_false _ (expired e) _ ((is_past-Later parse_date e.expires_at now).1 h.unexpired)
        ∙ if_false _ (expired e) _ p
        ∙ if_false _ (stale e) _ ((is_past-Later parse_date e.stale_at now).1 h.fresh)
        ∙ if_false (not (is_empty e.redacted_fields) || is_redacted e.continuation)
            (redacted e (told_fields e)) (present e) (ground (arith, named, r)))
      ∙ if_false (is_redacted e.continuation) _ _ r
      ∙ if_false (given e.continuation false (λ c. not (supports formats c.format))) _ _ u
      ∙ if_false (given e.effect false is_unsettled) _ _ n
      ∙ if_false
          (not (is_clear e.reconciliation)
            || given e.effect false (λ f. needs_reconciliation f.phase))
          _ _ (ground (arith, not_clear, m))

-- A session is resumed from a store exactly if the store has a checkpoint of it that is neither
-- expired nor stale, of which nothing is redacted, whose continuation, if it has one, is neither
-- expired nor of a format that is not supported, whose effect is not an irreversible one that was
-- begun and has no receipt, and that does not wait for reconciliation.
pub read-IsResumable :
    {J : Type 0} (parse_date : String → Option ℕ) (formats : List Format) (id : String) (now : ℕ)
    (d : Dict (Envelope J)) (e : Envelope J)
    → (rehydrate formats (read parse_date id now d) ≡ resumed e)
      ↔ ((find d id ≡ some e) × IsResumable parse_date formats now e)
unfolding read rehydrate
read-IsResumable parse_date formats id now d e = (
  λ h. elim (Option-cases (find d id)) [
    | inl n ↦ absurd (let h' : rehydrate formats (missing id) ≡ resumed e = (rw n at h) in cc)
    | inr (e', s) ↦
        let h' : rehydrate formats (classify parse_date e' now) ≡ resumed e = (rw s at h) in
        let (same_one, ok) = resumed-IsResumable parse_date formats now e' e h' in
        rw (← same_one) (s, ok)
  ],
  λ h. rw h.0 (IsResumable-resumed parse_date formats now e e h.1),
)
