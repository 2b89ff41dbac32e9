-- ===== src/Session/Checkpoint/Written.antt =====
-- What writes leave in a store.
use actor_web.Common.{
  ℕ, Bool, true, false, not, ◌||◌, Option, none, some, String, same, same_refl, if◌then◌else◌,
  given, if_lem, if_true, if_false, given-some, given-none, given_lem, same_iff, Dict, find,
  find-put, find-put_self, ◌≡◌, refl, sym, ap, ◌∙◌, inl, inr, Bool-cases, Option-cases,
}
use actor_web.Session.Checkpoint.{
  Envelope, ReadResult, WriteResult, stored, replaced, duplicate, expired_write, is_past, stale,
  present, redacted, expired, told_fields, is_empty, is_redacted, continuation_is_past, classify,
  duplicate_of, write_new, write, read,
}

abbrev pub is_accepted : {J : Type 0} → WriteResult J → Bool
is_accepted (stored e) = true
is_accepted (replaced e previous) = true
is_accepted _ = false

-- Whether an envelope is expired when it is written.
abbrev is_expired : {J : Type 0} → (String → Option ℕ) → Envelope J → ℕ → Bool
is_expired parse_date e now =
    is_past parse_date e.expires_at now || continuation_is_past parse_date e.continuation now

-- What a write leaves of its session, and how it ends, from the session's checkpoint alone.
abbrev pub next_checkpoint :
    {J : Type 0}
    → (String → Option ℕ)
    → Envelope J
    → ℕ
    → Option (Envelope J)
    → Option (Envelope J) × WriteResult J
next_checkpoint parse_date e now none =
    if is_expired parse_date e now then (none, expired_write e) else (some e, stored e)
next_checkpoint parse_date e now (some c) =
    if same c.checkpoint_id e.checkpoint_id
    then (some c, duplicate c)
    else if is_expired parse_date e now
    then (some c, expired_write e)
    else (some e, replaced e c)

module _ {J : Type 0} (parse_date : String → Option ℕ) where
  duplicate_of-classify :
      (e : Envelope J) (now : ℕ) (id : String)
      → duplicate_of (classify parse_date e now) id
        ≡ (if same e.checkpoint_id id then some e else none)
  unfolding classify duplicate_of
  duplicate_of-classify e now id =
      let P = λ (r : ReadResult J).
        duplicate_of r id ≡ (if same e.checkpoint_id id then some e else none) in
      if_lem P (is_past parse_date e.expires_at now) (expired e) _ (λ x. refl)
        (λ x.
          if_lem P (continuation_is_past parse_date e.continuation now) (expired e) _ (λ y. refl)
            (λ y.
              if_lem P (is_past parse_date e.stale_at now) (stale e) _ (λ z. refl)
                (λ z.
                  if_lem P (not (is_empty e.redacted_fields) || is_redacted e.continuation)
                    (redacted e (told_fields e)) (present e) (λ w. refl) (λ w. refl))))

  -- A store seen from one session: its checkpoint, and the result of the last write.
  abbrev seen : String → Dict (Envelope J) × WriteResult J → Option (Envelope J) × WriteResult J
  seen id r = (find r.0 id, r.1)

  write_new-seen :
      (e : Envelope J) (now : ℕ) (d : Dict (Envelope J))
      → seen e.session_id (write_new parse_date e now d) ≡ (
          if is_expired parse_date e now
          then (find d e.session_id, expired_write e)
          else (some e, given (find d e.session_id) (stored e) (λ c. replaced e c)))
  unfolding write_new
  write_new-seen e now d = elim (Bool-cases (is_expired parse_date e now)) [
    | inl p ↦
        ap (seen e.session_id) (if_true (is_expired parse_date e now) _ _ p)
        ∙ sym (if_true (is_expired parse_date e now) _ _ p)
    | inr p ↦
        ap (seen e.session_id) (if_false (is_expired parse_date e now) _ _ p)
        ∙ ap
            (λ (o : Option (Envelope J)).
              (o, given (find d e.session_id) (stored e) (λ c. replaced e c)))
            (find-put_self d e.session_id e)
        ∙ sym (if_false (is_expired parse_date e now) _ _ p)
  ]

  write-seen :
      (e : Envelope J) (now : ℕ) (d : Dict (Envelope J))
      → seen e.session_id (write parse_date e now d)
        ≡ next_checkpoint parse_date e now (find d e.session_id)
  unfolding write
  write-seen e now d = elim (Option-cases (find d e.session_id)) [
    | inl n ↦
        ap (seen e.session_id) (given-none (find d e.session_id) _ _ n)
        ∙ write_new-seen e now d
        ∙ rw n refl
    | inr (c, f) ↦
        let dup = duplicate_of-classify c now e.checkpoint_id in
        ap (seen e.session_id) (given-some (find d e.session_id) _ _ f)
        ∙ elim (Bool-cases (same c.checkpoint_id e.checkpoint_id)) [
          | inl q ↦
              ap (seen e.session_id) (
                given-some (duplicate_of (classify parse_date c now) e.checkpoint_id) _ _
                  (dup ∙ if_true (same c.checkpoint_id e.checkpoint_id) (some c) none q))
              ∙ rw (f, q) refl
          | inr q ↦
              ap (seen e.session_id) (
                given-none (duplicate_of (classify parse_date c now) e.checkpoint_id) _ _
                  (dup ∙ if_false (same c.checkpoint_id e.checkpoint_id) (some c) none q))
              ∙ write_new-seen e now d
              ∙ rw (f, q) refl
        ]
  ]

  write-other :
      (e : Envelope J) (now : ℕ) (d : Dict (Envelope J)) (id : String)
      → same e.session_id id ≡ false
      → find (write parse_date e now d).0 id ≡ find d id
  unfolding write
  write-other e now d id n =
      let P = λ (r : Dict (Envelope J) × WriteResult J). find r.0 id ≡ find d id in
      let new : P (write_new parse_date e now d) =
        unfold write_new in
        if_lem P (is_expired parse_date e now) _ _ (λ x. refl)
          (λ x. find-put d e.session_id id e ∙ if_false (same e.session_id id) _ _ n) in
      given_lem P (find d e.session_id) _ _ (λ x. new)
        (λ c x.
          given_lem P (duplicate_of (classify parse_date c now) e.checkpoint_id) _ _ (λ y. new)
            (λ s y. refl))

  accepted_next :
      (e : Envelope J) (now : ℕ) (o : Option (Envelope J))
      → is_accepted (next_checkpoint parse_date e now o).1 ≡ true
      → (next_checkpoint parse_date e now o).0 ≡ some e
  accepted_next e now none h = elim (Bool-cases (is_expired parse_date e now)) [
    | inl p ↦ absurd (let h' : false ≡ true = (rw p at h) in cc)
    | inr p ↦ rw p refl
  ]
  accepted_next e now (some c) h = elim (Bool-cases (same c.checkpoint_id e.checkpoint_id)) [
    | inl q ↦ absurd (let h' : false ≡ true = (rw q at h) in cc)
    | inr q ↦ elim (Bool-cases (is_expired parse_date e now)) [
      | inl p ↦ absurd (let h' : false ≡ true = (rw (q, p) at h) in cc)
      | inr p ↦ rw (q, p) refl
    ]
  ]

  -- A write is decided by the session's own checkpoint: a checkpoint of the same id is a duplicate and
  -- stays, an envelope that is expired is refused, and any other replaces what is there; other
  -- sessions keep theirs.
  pub write_lem :
      (e : Envelope J) (now : ℕ) (d : Dict (Envelope J)) (id : String)
      → ((write parse_date e now d).1 ≡ (next_checkpoint parse_date e now (find d e.session_id)).1)
        × (find (write parse_date e now d).0 id ≡ (
            if same e.session_id id
            then (next_checkpoint parse_date e now (find d e.session_id)).0
            else find d id))
  write_lem e now d id = (
    ap (λ (v : Option (Envelope J) × WriteResult J). v.1) (write-seen e now d),
    elim (Bool-cases (same e.session_id id)) [
      | inl q ↦
          rw (q, sym ((same_iff e.session_id id).0 q))
            (ap (λ (v : Option (Envelope J) × WriteResult J). v.0) (write-seen e now d))
      | inr q ↦ rw q (write-other e now d id q)
    ],
  )

  -- If a write is accepted, a read of its session, with no write in between, tells of that very
  -- envelope, and the same write once more, at any time, is a duplicate and changes nothing.
  pub write_retried :
      (e : Envelope J) (now later : ℕ) (d : Dict (Envelope J))
      → is_accepted (write parse_date e now d).1 ≡ true
      → (read parse_date e.session_id later (write parse_date e now d).0
          ≡ classify parse_date e later)
        × (write parse_date e later (write parse_date e now d).0
            ≡ ((write parse_date e now d).0, duplicate e))
  unfolding read write
  write_retried e now later d h =
      let d' = (write parse_date e now d).0 in
      let w = write-seen e now d in
      let found : find d' e.session_id ≡ some e =
        ap (λ (v : Option (Envelope J) × WriteResult J). v.0) w
        ∙ accepted_next e now (find d e.session_id)
            (sym (ap (λ (v : Option (Envelope J) × WriteResult J). is_accepted v.1) w) ∙ h) in
      (
        given-some (find d' e.session_id) _ _ found,
        given-some (find d' e.session_id) _ _ found
            ∙ given-some (duplicate_of (classify parse_date e later) e.checkpoint_id) _ _ (
                duplicate_of-classify e later e.checkpoint_id
                ∙ if_true (same e.checkpoint_id e.checkpoint_id) (some e) none
                    (same_refl e.checkpoint_id)),
      )
