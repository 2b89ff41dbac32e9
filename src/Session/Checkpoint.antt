-- ===== src/Session/Checkpoint.antt =====
-- The checkpoints of agent sessions: packages/actor-core-runtime/src/agent-session-checkpoint-store.ts,
-- the store in memory and the decision with what to resume. JSON values are of a type J; `parse_date`
-- is Date.parse, with `none` for NaN, and readings of the clock are arguments.
pub mod Resumed
pub mod Written
mod Examples
use actor_web.Common.{
  ℕ, ◌≤◌, leb, Bool, true, false, not, ◌&&◌, ◌||◌, List, [], ◌∷◌, Option, none, some, String, same,
  ◌==◌, if◌then◌else◌, given, Dict, find, put,
}

pub record ActorIdentity : Type 0 where
  pub actor_id : String
  pub session_id : String
  pub turn_id : String
  pub trace_id : String
  pub command_id : String
  pub correlation_id : String
  pub causation_id : String

pub data EffectPhase : Type 0 where
  no_effect intent_recorded receipt_recorded reconciliation_required : EffectPhase

pub record EffectState (J : Type 0) : Type 0 where
  pub effect_id : String
  pub effect_attempt_id : String
  pub phase : EffectPhase
  pub irreversible : Bool
  pub intent : Option J
  pub receipt : Option J

pub record Format : Type 0 where
  pub provider : String
  pub adapter : String
  pub format_version : ℕ

pub data Disposition : Type 0 where
  nothing_redacted metadata_only : Disposition

pub record Continuation (J : Type 0) : Type 0 where
  pub format : Format
  pub payload : Option J
  pub payload_bytes : ℕ
  pub expires_at : Option String
  pub disposition : Disposition
  pub fields : List String

pub data ReconciliationStatus : Type 0 where
  clear pending required : ReconciliationStatus

pub record Envelope (J : Type 0) : Type 0 where
  pub session_id : String
  pub checkpoint_id : String
  pub actor : ActorIdentity
  pub deterministic : J
  pub effect : Option (EffectState J)
  pub continuation : Option (Continuation J)
  pub reconciliation : ReconciliationStatus
  pub reason : Option String
  pub recorded_at : String
  pub expires_at : Option String
  pub stale_at : Option String
  pub redacted_fields : List String
  pub metadata : Option J

-- The outcomes `corrupt` and `version_mismatch` come from stores that read files.
pub data ReadResult (J : Type 0) : Type 0 where
  missing : String → ReadResult J
  present stale expired : Envelope J → ReadResult J
  redacted : Envelope J → List String → ReadResult J
  corrupt : String → String → ReadResult J
  version_mismatch : String → Option ℕ → ReadResult J

pub data WriteResult (J : Type 0) : Type 0 where
  stored : Envelope J → WriteResult J
  replaced : Envelope J → Envelope J → WriteResult J
  duplicate : Envelope J → WriteResult J
  expired_write : Envelope J → WriteResult J

pub data RecoveryReason : Type 0 where
  was_missing was_stale was_corrupt was_version_mismatch was_expired was_redacted : RecoveryReason
  continuation_incompatible : RecoveryReason

-- The texts of details are left out.
pub data Rehydration (J : Type 0) : Type 0 where
  resumed : Envelope J → Rehydration J
  deferred_for_reconciliation : Envelope J → Rehydration J
  manual_recovery_required : String → RecoveryReason → Option (Envelope J) → Rehydration J

abbrev pub is_metadata_only : {J : Type 0} → Continuation J → Bool
is_metadata_only c = elim c.disposition [ metadata_only ↦ true | nothing_redacted ↦ false ]

abbrev pub is_empty : List String → Bool
is_empty [] = true
is_empty (x ∷ xs) = false

abbrev pub is_redacted : {J : Type 0} → Option (Continuation J) → Bool
is_redacted c = given c false is_metadata_only

-- The fields that are told, those of the continuation if the envelope names none.
abbrev pub told_fields : {J : Type 0} → Envelope J → List String
told_fields e =
    if is_empty e.redacted_fields
    then given e.continuation [] (λ c. c.fields)
    else e.redacted_fields

-- `isDuplicateAgentSessionCheckpointReadResult`, with the envelope of the result.
unfoldable pub duplicate_of : {J : Type 0} → ReadResult J → String → Option (Envelope J)
duplicate_of (present e) id = if same e.checkpoint_id id then some e else none
duplicate_of (stale e) id = if same e.checkpoint_id id then some e else none
duplicate_of (expired e) id = if same e.checkpoint_id id then some e else none
duplicate_of (redacted e fields) id = if same e.checkpoint_id id then some e else none
duplicate_of _ id = none

module _ (parse_date : String → Option ℕ) where
  unfoldable pub to_date_ms : Option String → Option ℕ
  to_date_ms none = none
  to_date_ms (some text) = if same text "" then none else parse_date text

  -- Whether a date is there and is not after `now`.
  unfoldable pub is_past : Option String → ℕ → Bool
  unfolding to_date_ms
  is_past date now = given (to_date_ms date) false (λ ms. leb ms now)

  unfoldable pub continuation_is_past : {J : Type 0} → Option (Continuation J) → ℕ → Bool
  unfolding is_past
  continuation_is_past c now = given c false (λ c'. is_past c'.expires_at now)

  -- `classifyAgentSessionCheckpointReadResult`
  unfoldable pub classify : {J : Type 0} → Envelope J → ℕ → ReadResult J
  unfolding is_past continuation_is_past
  classify e now =
      if is_past e.expires_at now
      then expired e
      else if continuation_is_past e.continuation now
      then expired e
      else if is_past e.stale_at now
      then stale e
      else if not (is_empty e.redacted_fields) || is_redacted e.continuation
      then redacted e (told_fields e)
      else present e

  unfoldable pub read : {J : Type 0} → String → ℕ → Dict (Envelope J) → ReadResult J
  unfolding classify
  read session_id now entries =
      given (find entries session_id) (missing session_id) (λ e. classify e now)

  -- The end of `write`, for an envelope that is no duplicate.
  unfoldable pub write_new :
      {J : Type 0} → Envelope J → ℕ → Dict (Envelope J) → Dict (Envelope J) × WriteResult J
  unfolding is_past continuation_is_past
  write_new e now entries =
      if is_past e.expires_at now || continuation_is_past e.continuation now
      then (entries, expired_write e)
      else (
        put entries e.session_id e,
        given (find entries e.session_id) (stored e) (λ previous. replaced e previous),
      )

  unfoldable pub write :
      {J : Type 0} → Envelope J → ℕ → Dict (Envelope J) → Dict (Envelope J) × WriteResult J
  unfolding write_new classify duplicate_of
  write e now entries = given (find entries e.session_id) (write_new e now entries) (λ previous.
      given (duplicate_of (classify previous now) e.checkpoint_id) (write_new e now entries)
        (λ same_one. (entries, duplicate same_one)))

abbrev pub same_format : Format → Format → Bool
same_format a b =
    same a.provider b.provider && same a.adapter b.adapter && a.format_version == b.format_version

-- `some`
unfoldable pub supports : List Format → Format → Bool
supports [] f = false
supports (x ∷ xs) f = same_format x f || supports xs f

abbrev pub is_some {ℓ} : {A : Type ℓ} → Option A → Bool
is_some none = false
is_some (some a) = true

abbrev pub is_intent : EffectPhase → Bool
is_intent intent_recorded = true
is_intent _ = false

abbrev pub needs_reconciliation : EffectPhase → Bool
needs_reconciliation reconciliation_required = true
needs_reconciliation _ = false

abbrev pub is_clear : ReconciliationStatus → Bool
is_clear clear = true
is_clear pending = false
is_clear required = false

-- An irreversible effect that was begun, of which no receipt is known.
abbrev pub is_unsettled : {J : Type 0} → EffectState J → Bool
is_unsettled f = f.irreversible && is_intent f.phase && not (is_some f.receipt)

-- `deriveAgentSessionCheckpointRehydration` for a checkpoint that is present.
unfoldable pub rehydrate_present : {J : Type 0} → List Format → Envelope J → Rehydration J
unfolding supports
rehydrate_present formats e =
    if given e.continuation false is_metadata_only
    then manual_recovery_required e.session_id was_redacted (some e)
    else if given e.continuation false (λ c. not (supports formats c.format))
    then manual_recovery_required e.session_id continuation_incompatible (some e)
    else if given e.effect false is_unsettled
    then deferred_for_reconciliation e
    else if not (is_clear e.reconciliation)
        || given e.effect false (λ f. needs_reconciliation f.phase)
    then deferred_for_reconciliation e
    else resumed e

-- `deriveAgentSessionCheckpointRehydration`
unfoldable pub rehydrate : {J : Type 0} → List Format → ReadResult J → Rehydration J
unfolding rehydrate_present
rehydrate formats (missing id) = manual_recovery_required id was_missing none
rehydrate formats (corrupt id detail) = manual_recovery_required id was_corrupt none
rehydrate formats (version_mismatch id v) = manual_recovery_required id was_version_mismatch none
rehydrate formats (expired e) = manual_recovery_required e.session_id was_expired (some e)
rehydrate formats (stale e) = manual_recovery_required e.session_id was_stale (some e)
rehydrate formats (redacted e fields) = manual_recovery_required e.session_id was_redacted (some e)
rehydrate formats (present e) = rehydrate_present formats e
