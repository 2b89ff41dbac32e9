-- ===== src/Provider/Journal/Replay.antt =====
-- What the journal answers: packages/actor-core-runtime/src/
-- node-provider-lifecycle-effect-journal.ts.
use actor_web.Common.{
  true, List, [], ◌∷◌, some, String, given_lem, if_lem, given-some, if_true, same, same_iff, Dict,
  find, put, find-put, find-put_self, arith, ◌≡◌, refl, sym, ap, ◌∙◌, Bool-cases, inl, inr,
}
use actor_web.Provider.Journal.{
  EffectKind, duplicate_prevention, spawn, signal, readiness, filesystem_probe, model_cache_inspect,
  cancellation, same_kind, EffectRecord, Entry, pending, recorded, kind_of, ClaimResult,
  duplicate_recorded, RecordResult, record_made, already_recorded, replayed, claim, record_entry,
  make_record, replay, Call, claiming, recording, step, run,
}

module _ {ℓ} {R : Type ℓ} (expose : EffectRecord R → EffectRecord R) where
  record_entry-recorded :
      (n : EffectRecord R) (d : Dict (Entry R)) (x : Entry R) (key : String) (k : EffectKind)
      (r : EffectRecord R)
      → find d n.idempotency_key ≡ some x
      → find d key ≡ some (recorded k r)
      → find (record_entry expose n d x).0 key ≡ some (recorded k r)
  unfolding record_entry
  record_entry-recorded n d (recorded kind old) key k r f e = e
  record_entry-recorded n d (pending kind) key k r f e =
      find-put d n.idempotency_key key (recorded n.kind (expose n))
      ∙ elim (Bool-cases (same n.idempotency_key key)) [
        | inl q ↦ absurd (
            ground (
              arith,
              sym (ap (λ x. find d x) (sym ((same_iff n.idempotency_key key).0 q)) ∙ f) ∙ e,
            ))
        | inr q ↦ rw q e
      ]

  -- An entry with a record stays.
  step-recorded :
      (c : Call R) (d : Dict (Entry R)) (key : String) (k : EffectKind) (r : EffectRecord R)
      → find d key ≡ some (recorded k r)
      → find (step expose c d) key ≡ some (recorded k r)
  unfolding step claim make_record
  step-recorded (claiming key' kind) d key k r e =
      given_lem (λ (x : Dict (Entry R) × ClaimResult R). find x.0 key ≡ some (recorded k r))
        (find d key') _ _
        (λ f. find-put d key' key (pending kind) ∙ elim (Bool-cases (same key' key)) [
          | inl q ↦
              absurd
                (ground (arith, sym (ap (λ x. find d x) (sym ((same_iff key' key).0 q)) ∙ f) ∙ e))
          | inr q ↦ rw q e
        ])
        (λ x f.
          if_lem (λ (y : Dict (Entry R) × ClaimResult R). find y.0 key ≡ some (recorded k r))
            (same_kind (kind_of x) kind) _ _ (λ g. e) (λ g. e))
  step-recorded (recording n) d key k r e =
      given_lem (λ (x : Dict (Entry R) × RecordResult R). find x.0 key ≡ some (recorded k r))
        (find d n.idempotency_key) _ _ (λ f. e)
        (λ x f.
          if_lem (λ (y : Dict (Entry R) × RecordResult R). find y.0 key ≡ some (recorded k r))
            (same_kind (kind_of x) n.kind) _ _ (λ g. record_entry-recorded n d x key k r f e)
            (λ g. e))

  run-recorded :
      (cs : List (Call R)) (d : Dict (Entry R)) (key : String) (k : EffectKind) (r : EffectRecord R)
      → find d key ≡ some (recorded k r)
      → find (run expose cs d) key ≡ some (recorded k r)
  unfolding run
  run-recorded [] d key k r e = e
  run-recorded (c ∷ cs) d key k r e =
      run-recorded cs (step expose c d) key k r (step-recorded c d key k r e)

same_kind_refl : (k : EffectKind) → same_kind k k ≡ true
unfolding same_kind
same_kind_refl duplicate_prevention = refl
same_kind_refl spawn = refl
same_kind_refl signal = refl
same_kind_refl readiness = refl
same_kind_refl filesystem_probe = refl
same_kind_refl model_cache_inspect = refl
same_kind_refl cancellation = refl

-- A record of an effect that was claimed and has no record is accepted. After it, whatever is
-- claimed and recorded besides: a replay of the effect, a claim of it and any other record of it
-- all answer with the record that was accepted.
pub make_record-replays {ℓ} :
    {R : Type ℓ} (expose : EffectRecord R → EffectRecord R) (r other : EffectRecord R)
    (d : Dict (Entry R)) (cs : List (Call R))
    → find d r.idempotency_key ≡ some (pending r.kind)
    → other.idempotency_key ≡ r.idempotency_key
    → other.kind ≡ r.kind
    → let answer = expose (expose r) in
      let d' = run expose cs (make_record expose r d).0 in
      ((make_record expose r d).1 ≡ record_made answer)
      × (replay expose r.idempotency_key r.kind d' ≡ replayed answer)
      × ((claim expose r.idempotency_key r.kind d').1 ≡ duplicate_recorded answer)
      × ((make_record expose other d').1 ≡ already_recorded answer)
unfolding make_record replay claim
make_record-replays {R = R} expose r other d cs e same_key same_kinds =
    let key = r.idempotency_key in
    let d1 = put d key (recorded r.kind (expose r)) in
    let made : make_record expose r d ≡ (d1, record_made (expose (expose r))) =
      given-some (find d key) _ _ e
      ∙ if_true (same_kind r.kind r.kind) _ _ (same_kind_refl r.kind) in
    let kept =
      run-recorded expose cs d1 key r.kind (expose r)
        (find-put_self d key (recorded r.kind (expose r))) in
    let later : find (run expose cs (make_record expose r d).0) key
        ≡ some (recorded r.kind (expose r)) =
      ap (λ (x : Dict (Entry R) × RecordResult R). find (run expose cs x.0) key) made ∙ kept in
    (
      ap (λ (x : Dict (Entry R) × RecordResult R). x.1) made,
      given-some _ _ _ later ∙ if_true (same_kind r.kind r.kind) _ _ (same_kind_refl r.kind),
      ap (λ (x : Dict (Entry R) × ClaimResult R). x.1)
          (given-some _ _ _ later ∙ if_true (same_kind r.kind r.kind) _ _ (same_kind_refl r.kind)),
      ap (λ (x : Dict (Entry R) × RecordResult R). x.1)
          (given-some _ _ _
              (ap (λ x. find (run expose cs (make_record expose r d).0) x) same_key ∙ later)
            ∙ if_true (same_kind r.kind other.kind) _ _
                (ap (λ k. same_kind r.kind k) same_kinds ∙ same_kind_refl r.kind)),
    )
