-- ===== src/Provider/Journal/Examples.antt =====
-- A journal in which a process is spawned.
use actor_web.Common.{ℕ, Dict, List, [], ◌∷◌, find, ◌≡◌, refl}
use actor_web.Provider.Journal.{
  spawn, signal, EffectRecord, Entry, pending, claim, make_record, replay, record_made,
  duplicate_recorded, already_recorded, replayed, Call, claiming, recording, run,
}
use actor_web.Provider.Journal.Replay.{make_record-replays}

abbrev exit : ℕ → EffectRecord ℕ
exit code = record { idempotency_key = "key"; kind = spawn; recorded_at = "noon"; result = code }

abbrev copied : EffectRecord ℕ → EffectRecord ℕ
copied r = r

abbrev calls : List (Call ℕ)
calls =
    claiming "key" spawn ∷ recording (exit 2) ∷ claiming "other" signal ∷ claiming "key" signal ∷ []

abbrev spawned : Dict (Entry ℕ)
spawned = ("key", pending spawn) ∷ []

make_record-replays_example :
    let d' = run copied calls (make_record copied (exit 0) spawned).0 in
    ((make_record copied (exit 0) spawned).1 ≡ record_made (exit 0))
    × (replay copied "key" spawn d' ≡ replayed (exit 0))
    × ((claim copied "key" spawn d').1 ≡ duplicate_recorded (exit 0))
    × ((make_record copied (exit 1) d').1 ≡ already_recorded (exit 0))
unfolding find
make_record-replays_example =
    make_record-replays copied (exit 0) (exit 1) spawned calls refl refl refl
