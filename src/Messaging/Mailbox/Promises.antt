-- ===== src/Messaging/Mailbox/Promises.antt =====
-- The promises that `enqueue` returns for parked senders.
use actor_web.Common.{
  ℕ, ◌+◌, ◌<◌, List, [], ◌∷◌, ◌++◌, some, ◌≡◌, refl, arith, map, map-append, Bool-cases, inl, inr,
  ltb, count, count-append, if◌then◌else◌, ◌==◌,
}
use actor_web.Messaging.Mailbox.{
  Settlement, Mailbox, MailboxConfig, MessageEnvelope, ParkedSender, Reading, enqueue, dequeue,
  clear, stop, overflow, do_enqueue, park_sender, take_first, try_unpark_sender, unpark_first,
  is_full, reject_all, reject_all_parked_senders, new,
}
use actor_web.Messaging.Mailbox.Runs.{Call, put, get, clear_all, stop_all, step, run}

-- How often promise `p` was settled.
unfoldable pub settles : ℕ → List (ℕ × Settlement) → ℕ
unfolding count
settles p log = count p (map (λ e. e.0) log)

module _ {ℓ} {M : Type ℓ} where
  -- How often promise `p` waits.
  unfoldable pub waits : ℕ → List (ParkedSender M) → ℕ
  unfolding count
  waits p ps = count p (map (λ s. s.promise) ps)

  waits_one : (p : ℕ) (s : ParkedSender M) → waits p (s ∷ []) ≡ (if s.promise == p then 1 else 0)
  unfolding waits
  waits_one p s = omega arith

  -- Every promise made so far waits or is settled, exactly one of the two and once; no other number
  -- is anywhere.
  abbrev pub Accounted : Mailbox M → Type 0
  Accounted b =
      (p : ℕ) → waits p b.parked_senders + settles p b.settled ≡ (if ltb p b.promises then 1 else 0)

  settles-reject_all :
      (p : ℕ) (r : Settlement) (ps : List (ParkedSender M)) (log : List (ℕ × Settlement))
      → settles p (reject_all r ps log) ≡ waits p ps + settles p log
  unfolding reject_all waits settles
  settles-reject_all p r [] log = omega arith
  settles-reject_all p r (s ∷ ps) log =
      omega (arith, settles-reject_all p r ps ((s.promise, r) ∷ log))

  waits-append :
      (p : ℕ) (ps qs : List (ParkedSender M)) → waits p (ps ++ qs) ≡ waits p ps + waits p qs
  unfolding waits
  waits-append p ps qs = rw map-append (count-append p _ _)

  enqueue-Accounted :
      (now : Reading) (m : M) (b : Mailbox M) → Accounted b → Accounted (enqueue now m b).0
  unfolding enqueue do_enqueue overflow park_sender
  enqueue-Accounted now m b h p = grind (arith, h p, waits-append, waits_one)

  unpark_first-Accounted :
      (now : Reading) (ps : List (ParkedSender M)) (b : Mailbox M)
      → b.parked_senders ≡ ps
      → Accounted b
      → Accounted (unpark_first now ps b)
  unfolding unpark_first do_enqueue waits settles
  unpark_first-Accounted now [] b e h p = h p
  unpark_first-Accounted now (s ∷ ps) b e h p =
      let h' = h p in let k = rw e at h' in omega (arith, k)

  try_unpark_sender-Accounted :
      (now : Reading) (b : Mailbox M) → Accounted b → Accounted (try_unpark_sender now b)
  unfolding try_unpark_sender
  try_unpark_sender-Accounted now b h = elim (Bool-cases (is_full b)) [
    | inl e ↦ rw e h
    | inr e ↦ rw e (unpark_first-Accounted now b.parked_senders b refl h)
  ]

  take_first-Accounted :
      (now : Reading) (es : List (MessageEnvelope M)) (b : Mailbox M)
      → Accounted b
      → Accounted (take_first now es b).0
  unfolding take_first
  take_first-Accounted now [] b h = h
  take_first-Accounted now (e ∷ es) b h = try_unpark_sender-Accounted now _ h

  dequeue-Accounted : (now : Reading) (b : Mailbox M) → Accounted b → Accounted (dequeue now b).0
  unfolding dequeue
  dequeue-Accounted now b h = elim (Bool-cases b.stopped) [
    | inl e ↦ simp e h
    | inr e ↦ simp e (take_first-Accounted now b.queue b h)
  ]

  reject-Accounted :
      (r : Settlement) (b : Mailbox M) → Accounted b → Accounted (reject_all_parked_senders r b)
  unfolding reject_all_parked_senders waits
  reject-Accounted r b h p = omega (arith, h p, settles-reject_all p r b.parked_senders b.settled)

  step-Accounted : (c : Call M) (b : Mailbox M) → Accounted b → Accounted (step c b).after
  unfolding step clear stop
  step-Accounted (put now m) b h = enqueue-Accounted now m b h
  step-Accounted (get now) b h = dequeue-Accounted now b h
  step-Accounted clear_all b h = reject-Accounted _ _ h
  step-Accounted stop_all b h = reject-Accounted _ _ (reject-Accounted _ _ h)

  -- Every sequence of calls keeps the account of the promises: each promise that a parked sender
  -- was given either still waits or was settled once, never both, and no other promise is settled.
  pub run-Accounted :
      (cs : List (Call M)) (b : Mailbox M) → Accounted b → Accounted (run cs b).after
  unfolding run
  run-Accounted [] b h = h
  run-Accounted (c ∷ cs) b h = run-Accounted cs (step c b).after (step-Accounted c b h)

  pub new-Accounted : (c : MailboxConfig) {b : Mailbox M} → new c ≡ some b → Accounted b
  unfolding new waits settles
  new-Accounted c h p = ground arith

  -- Once any sequence of calls of a new mailbox is followed by `stop`, every promise that was ever
  -- given out has been settled exactly once.
  pub stop-settles :
      (c : MailboxConfig) (cs : List (Call M)) (p : ℕ) {b : Mailbox M}
      → new c ≡ some b
      → p < (run cs b).after.promises
      → settles p (stop (run cs b).after).settled ≡ 1
  unfolding stop clear reject_all_parked_senders waits step
  stop-settles c cs p {b} e h =
      let k = step-Accounted stop_all (run cs b).after (run-Accounted cs b (new-Accounted c e)) p in
      ground (arith, k)
