-- ===== src/Session/Checkpoint/Examples.antt =====
-- A store with one session, whose dates are the words for numbers.
use actor_web.Common.{
  ℕ, true, [], ◌∷◌, Option, none, some, String, same, if◌then◌else◌, Dict, find, ◌≡◌, refl, ◌↔◌,
}
use actor_web.Session.Checkpoint.{
  ActorIdentity, EffectState, receipt_recorded, Format, Continuation, nothing_redacted, clear,
  Envelope, duplicate, resumed, classify, read, write, rehydrate,
}
use actor_web.Session.Checkpoint.Resumed.{IsResumable, read-IsResumable}
use actor_web.Session.Checkpoint.Written.{write_retried}

abbrev parse_date : String → Option ℕ
parse_date text = if same text "noon" then some 12 else none

abbrev actor : ActorIdentity
actor = record {
  actor_id = "actor";
  session_id = "session";
  turn_id = "turn";
  trace_id = "trace";
  command_id = "command";
  correlation_id = "correlation";
  causation_id = "causation";
}

abbrev format : Format
format = record { provider = "provider"; adapter = "adapter"; format_version = 1 }

abbrev sent : EffectState ℕ
sent = record {
  effect_id = "effect";
  effect_attempt_id = "attempt";
  phase = receipt_recorded;
  irreversible = true;
  intent = some 1;
  receipt = some 2;
}

abbrev going_on : Continuation ℕ
going_on = record {
  format = format;
  payload = some 3;
  payload_bytes = 1;
  expires_at = some "noon";
  disposition = nothing_redacted;
  fields = [];
}

abbrev envelope : Envelope ℕ
envelope = record {
  session_id = "session";
  checkpoint_id = "first";
  actor = actor;
  deterministic = 0;
  effect = some sent;
  continuation = some going_on;
  reconciliation = clear;
  reason = none;
  recorded_at = "dawn";
  expires_at = some "noon";
  stale_at = none;
  redacted_fields = [];
  metadata = none;
}

abbrev store : Dict (Envelope ℕ)
store = ("session", envelope) ∷ []

resumes : rehydrate (format ∷ []) (read parse_date "session" 11 store) ≡ resumed envelope
unfolding rehydrate read find
resumes = refl

read-IsResumable_example :
    (rehydrate (format ∷ []) (read parse_date "session" 11 store) ≡ resumed envelope)
    ↔ ((find store "session" ≡ some envelope) × IsResumable parse_date (format ∷ []) 11 envelope)
read-IsResumable_example = read-IsResumable parse_date (format ∷ []) "session" 11 store envelope

write_retried_example :
    (read parse_date "session" 13 (write parse_date envelope 11 []).0
      ≡ classify parse_date envelope 13)
    × (write parse_date envelope 13 (write parse_date envelope 11 []).0
        ≡ ((write parse_date envelope 11 []).0, duplicate envelope))
unfolding write find
write_retried_example = write_retried parse_date envelope 11 13 [] refl
