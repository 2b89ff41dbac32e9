-- ===== src/Provider/Journal/Grants.antt =====
-- How often the journal lets an effect be claimed: packages/actor-core-runtime/src/
-- node-provider-lifecycle-effect-journal.ts.
use actor_web.Common.{
  Bool, true, false, List, [], ◌∷◌, Option, none, some, String, if◌then◌else◌, given_lem, if_lem,
  given-none, same, same_iff, Dict, find, put, find-put, arith, ◌≡◌, refl, sym, ap, ◌∙◌, Bool-cases,
  inl, inr,
}
use actor_web.Provider.Journal.{
  EffectKind, same_kind, EffectRecord, Entry, pending, recorded, kind_of, ClaimResult, claimed,
  RecordResult, is_claimed, claim_again, claim, record_entry, make_record, Call, claiming,
  recording, step, granted, grants, claims,
}

abbrev is_known {ℓ} : {A : Type ℓ} → Option A → Bool
is_known none = false
is_known (some a) = true

known_put {ℓ} :
    {A : Type ℓ} (b : Bool) (o : Option A) (a : A)
    → is_known o ≡ true
    → is_known (if b then some a else o) ≡ true
known_put true o a h = refl
known_put false o a h = h

module _ {ℓ} {R : Type ℓ} (expose : EffectRecord R → EffectRecord R) where
  record_entry-known :
      (n : EffectRecord R) (d : Dict (Entry R)) (x : Entry R) (key : String)
      → is_known (find d key) ≡ true
      → is_known (find (record_entry expose n d x).0 key) ≡ true
  unfolding record_entry
  record_entry-known n d (recorded kind old) key h = h
  record_entry-known n d (pending kind) key h =
      ap is_known (find-put d n.idempotency_key key (recorded n.kind (expose n)))
      ∙ known_put (same n.idempotency_key key) (find d key) _ h

  claim_again-refuses : (x : Entry R) → is_claimed (claim_again expose x) ≡ false
  unfolding claim_again is_claimed
  claim_again-refuses (pending kind) = refl
  claim_again-refuses (recorded kind r) = refl

  claim-refuses :
      (d : Dict (Entry R)) (key : String) (kind : EffectKind)
      → is_known (find d key) ≡ true
      → is_claimed (claim expose key kind d).1 ≡ false
  unfolding claim is_claimed
  claim-refuses d key kind h =
      given_lem (λ (x : Dict (Entry R) × ClaimResult R). is_claimed x.1 ≡ false) (find d key) _ _
        (λ e. absurd (ground (arith, sym h ∙ ap is_known e)))
        (λ x e.
          if_lem (λ (y : Dict (Entry R) × ClaimResult R). is_claimed y.1 ≡ false)
            (same_kind (kind_of x) kind) _ _ (λ g. claim_again-refuses x) (λ g. refl))

  record_entry-unknown :
      (n : EffectRecord R) (d : Dict (Entry R)) (x : Entry R) (key : String)
      → find d n.idempotency_key ≡ some x
      → find d key ≡ none
      → find (record_entry expose n d x).0 key ≡ none
  unfolding record_entry
  record_entry-unknown n d (recorded kind old) key f h = h
  record_entry-unknown n d (pending kind) key f h =
      find-put d n.idempotency_key key (recorded n.kind (expose n))
      ∙ elim (Bool-cases (same n.idempotency_key key)) [
        | inl q ↦ absurd (
            ground
              (arith, sym h ∙ ap (λ x. find d x) (sym ((same_iff n.idempotency_key key).0 q)) ∙ f))
        | inr q ↦ rw q h
      ]

  make_record-unknown :
      (r : EffectRecord R) (d : Dict (Entry R)) (key : String)
      → find d key ≡ none
      → find (make_record expose r d).0 key ≡ none
  unfolding make_record
  make_record-unknown r d key h =
      given_lem (λ (x : Dict (Entry R) × RecordResult R). find x.0 key ≡ none)
        (find d r.idempotency_key) _ _ (λ e. h)
        (λ x e.
          if_lem (λ (y : Dict (Entry R) × RecordResult R). find y.0 key ≡ none)
            (same_kind (kind_of x) r.kind) _ _ (λ g. record_entry-unknown r d x key e h) (λ g. h))

  claim-unknown :
      (k : String) (kind : EffectKind) (d : Dict (Entry R)) (key : String)
      → same k key ≡ false
      → find d key ≡ none
      → find (claim expose k kind d).0 key ≡ none
  unfolding claim
  claim-unknown k kind d key q h =
      given_lem (λ (x : Dict (Entry R) × ClaimResult R). find x.0 key ≡ none) (find d k) _ _
        (λ e. find-put d k key (pending kind) ∙ rw q h)
        (λ x e.
          if_lem (λ (y : Dict (Entry R) × ClaimResult R). find y.0 key ≡ none)
            (same_kind (kind_of x) kind) _ _ (λ g. h) (λ g. h))

  claim_first :
      (key : String) (kind : EffectKind) (d : Dict (Entry R))
      → find d key ≡ none
      → claim expose key kind d ≡ (put d key (pending kind), claimed)
  unfolding claim
  claim_first key kind d h = given-none (find d key) _ _ h

  -- A claim of a key that has an entry is refused.
  granted_known :
      (c : Call R) (d : Dict (Entry R)) (key : String)
      → is_known (find d key) ≡ true
      → granted expose c key d ≡ 0
  unfolding granted
  granted_known (recording r) d key h = refl
  granted_known (claiming k kind) d key h = elim (Bool-cases (same k key)) [
    | inl q ↦
        let known = ap (λ x. is_known (find d x)) ((same_iff k key).0 q) ∙ h in
        rw (q, claim-refuses d k kind known) refl
    | inr q ↦ rw q refl
  ]

  -- A key that has an entry keeps one.
  step-known :
      (c : Call R) (d : Dict (Entry R)) (key : String)
      → is_known (find d key) ≡ true
      → is_known (find (step expose c d) key) ≡ true
  unfolding step claim make_record
  step-known (claiming k kind) d key h =
      given_lem (λ (x : Dict (Entry R) × ClaimResult R). is_known (find x.0 key) ≡ true) (find d k)
        _ _
        (λ e.
          ap is_known (find-put d k key (pending kind)) ∙ known_put (same k key) (find d key) _ h)
        (λ x e.
          if_lem (λ (y : Dict (Entry R) × ClaimResult R). is_known (find y.0 key) ≡ true)
            (same_kind (kind_of x) kind) _ _ (λ g. h) (λ g. h))
  step-known (recording r) d key h =
      given_lem (λ (x : Dict (Entry R) × RecordResult R). is_known (find x.0 key) ≡ true)
        (find d r.idempotency_key) _ _ (λ e. h)
        (λ x e.
          if_lem (λ (y : Dict (Entry R) × RecordResult R). is_known (find y.0 key) ≡ true)
            (same_kind (kind_of x) r.kind) _ _ (λ g. record_entry-known r d x key h) (λ g. h))

  grants_known :
      (cs : List (Call R)) (d : Dict (Entry R)) (key : String)
      → is_known (find d key) ≡ true
      → grants expose cs key d ≡ 0
  unfolding grants
  grants_known [] d key h = refl
  grants_known (c ∷ cs) d key h =
      ground (
        arith,
        granted_known c d key h,
        grants_known cs (step expose c d) key (step-known c d key h),
      )

  grants_unknown :
      (cs : List (Call R)) (d : Dict (Entry R)) (key : String)
      → find d key ≡ none
      → grants expose cs key d ≡ (if claims key cs then 1 else 0)
  unfolding grants claims granted step
  grants_unknown [] d key h = refl
  grants_unknown (recording r ∷ cs) d key h =
      omega
        (arith, grants_unknown cs (make_record expose r d).0 key (make_record-unknown r d key h))
  grants_unknown (claiming k kind ∷ cs) d key h = elim (Bool-cases (same k key)) [
    | inl q ↦
        let first = claim_first k kind d (ap (λ x. find d x) ((same_iff k key).0 q) ∙ h) in
        let known : is_known (find (claim expose k kind d).0 key) ≡ true =
          ap (λ (x : Dict (Entry R) × ClaimResult R). is_known (find x.0 key)) first
          ∙ ap is_known (find-put d k key (pending kind))
          ∙ rw q refl in
        let taken : is_claimed (claim expose k kind d).1 ≡ true =
          ap (λ (x : Dict (Entry R) × ClaimResult R). is_claimed x.1) first ∙ refl in
        rw (q, taken, grants_known cs (claim expose k kind d).0 key known) refl
    | inr q ↦
        rw (q, grants_unknown cs (claim expose k kind d).0 key (claim-unknown k kind d key q h))
          (omega arith)
  ]

-- In every run of a new journal each key is claimed exactly once if calls claim it at all, by the
-- first of them, and never otherwise, whatever kinds the calls name and whatever is recorded.
pub grants_once {ℓ} :
    {R : Type ℓ} (expose : EffectRecord R → EffectRecord R) (cs : List (Call R)) (key : String)
    → grants expose cs key [] ≡ (if claims key cs then 1 else 0)
unfolding find
grants_once expose cs key = grants_unknown expose cs [] key refl
