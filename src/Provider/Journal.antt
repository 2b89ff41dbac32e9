-- ===== src/Provider/Journal.antt =====
-- The journal of a provider's effects: packages/actor-core-runtime/src/
-- node-provider-lifecycle-effect-journal.ts. The results of effects are of any type, and `expose`
-- is the copy of a record by way of JSON, frozen.
pub mod Replay
pub mod Grants
mod Examples
use actor_web.Common.{
  ℕ, ◌+◌, Bool, true, false, ◌&&◌, ◌||◌, List, [], ◌∷◌, Option, none, some, String, if◌then◌else◌,
  given, same, Dict, find, put,
}

pub data EffectKind : Type 0 where
  duplicate_prevention spawn signal readiness filesystem_probe : EffectKind
  model_cache_inspect cancellation : EffectKind

unfoldable pub same_kind : EffectKind → EffectKind → Bool
same_kind duplicate_prevention duplicate_prevention = true
same_kind spawn spawn = true
same_kind signal signal = true
same_kind readiness readiness = true
same_kind filesystem_probe filesystem_probe = true
same_kind model_cache_inspect model_cache_inspect = true
same_kind cancellation cancellation = true
same_kind _ _ = false

pub record EffectRecord {ℓ} (R : Type ℓ) : Type ℓ where
  pub idempotency_key : String
  pub kind : EffectKind
  pub recorded_at : String
  pub result : R

-- An entry: its status is `recorded` if it has a record.
pub data Entry {ℓ} (R : Type ℓ) : Type ℓ where
  pending : EffectKind → Entry R
  recorded : EffectKind → EffectRecord R → Entry R

unfoldable pub kind_of {ℓ} : {R : Type ℓ} → Entry R → EffectKind
kind_of (pending kind) = kind
kind_of (recorded kind r) = kind

-- The failure names the key and the kinds expected and found.
pub data ClaimResult {ℓ} (R : Type ℓ) : Type ℓ where
  claimed : ClaimResult R
  duplicate_pending : ClaimResult R
  duplicate_recorded : EffectRecord R → ClaimResult R
  kind_mismatch : EffectKind → EffectKind → ClaimResult R

pub data RecordResult {ℓ} (R : Type ℓ) : Type ℓ where
  record_made : EffectRecord R → RecordResult R
  missing_claim : RecordResult R
  already_recorded : EffectRecord R → RecordResult R
  kind_mismatch : EffectKind → EffectKind → RecordResult R

pub data ReplayResult {ℓ} (R : Type ℓ) : Type ℓ where
  missing : ReplayResult R
  still_pending : ReplayResult R
  replayed : EffectRecord R → ReplayResult R
  kind_mismatch : EffectKind → EffectKind → ReplayResult R

unfoldable pub is_claimed {ℓ} : {R : Type ℓ} → ClaimResult R → Bool
is_claimed claimed = true
is_claimed _ = false

module _ {ℓ} {R : Type ℓ} (expose : EffectRecord R → EffectRecord R) where
  unfoldable pub claim_again : Entry R → ClaimResult R
  claim_again (pending kind) = duplicate_pending
  claim_again (recorded kind r) = duplicate_recorded (expose r)

  unfoldable pub claim : String → EffectKind → Dict (Entry R) → Dict (Entry R) × ClaimResult R
  unfolding kind_of same_kind claim_again
  claim key kind entries =
      given (find entries key) (put entries key (pending kind), claimed)
        (λ current.
          if same_kind (kind_of current) kind
          then (entries, claim_again current)
          else (entries, ClaimResult.kind_mismatch (kind_of current) kind))

  unfoldable pub record_entry :
      EffectRecord R → Dict (Entry R) → Entry R → Dict (Entry R) × RecordResult R
  record_entry r entries (recorded kind old) = (entries, already_recorded (expose old))
  record_entry r entries (pending kind) =
      (put entries r.idempotency_key (recorded r.kind (expose r)), record_made (expose (expose r)))

  -- `record`
  unfoldable pub make_record : EffectRecord R → Dict (Entry R) → Dict (Entry R) × RecordResult R
  unfolding kind_of same_kind record_entry
  make_record r entries =
      given (find entries r.idempotency_key) (entries, missing_claim)
        (λ current.
          if same_kind (kind_of current) r.kind
          then record_entry r entries current
          else (entries, RecordResult.kind_mismatch (kind_of current) r.kind))

  unfoldable pub replay_entry : Entry R → ReplayResult R
  replay_entry (pending kind) = still_pending
  replay_entry (recorded kind r) = replayed (expose r)

  unfoldable pub replay : String → EffectKind → Dict (Entry R) → ReplayResult R
  unfolding kind_of same_kind replay_entry
  replay key kind entries = given (find entries key) missing (λ current.
      if same_kind (kind_of current) kind
      then replay_entry current
      else ReplayResult.kind_mismatch (kind_of current) kind)

-- The calls that change a journal, `clear` aside.
pub data Call {ℓ} (R : Type ℓ) : Type ℓ where
  claiming : String → EffectKind → Call R
  recording : EffectRecord R → Call R

module _ {ℓ} {R : Type ℓ} (expose : EffectRecord R → EffectRecord R) where
  unfoldable pub step : Call R → Dict (Entry R) → Dict (Entry R)
  unfolding claim make_record
  step (claiming key kind) entries = (claim expose key kind entries).0
  step (recording r) entries = (make_record expose r entries).0

  unfoldable pub run : List (Call R) → Dict (Entry R) → Dict (Entry R)
  unfolding step
  run [] entries = entries
  run (c ∷ cs) entries = run cs (step c entries)

  -- How often a key was claimed in a run.
  unfoldable pub granted : Call R → String → Dict (Entry R) → ℕ
  unfolding claim is_claimed
  granted (recording r) key entries = 0
  granted (claiming k kind) key entries =
      if same k key && is_claimed (claim expose k kind entries).1 then 1 else 0

  unfoldable pub grants : List (Call R) → String → Dict (Entry R) → ℕ
  unfolding granted step
  grants [] key entries = 0
  grants (c ∷ cs) key entries = granted c key entries + grants cs key (step c entries)

-- Whether calls claim a key at all.
unfoldable pub claims {ℓ} : {R : Type ℓ} → String → List (Call R) → Bool
claims key [] = false
claims key (recording r ∷ cs) = claims key cs
claims key (claiming k kind ∷ cs) = same k key || claims key cs
