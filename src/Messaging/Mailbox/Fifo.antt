-- ===== src/Messaging/Mailbox/Fifo.antt =====
-- The mailbox against an unbounded queue: messages leave in the order in which they came in.
use actor_web.Common.{
  ◌<◌, List, [], ◌∷◌, ◌++◌, ◌≡◌, refl, ap, sym, ◌∙◌, arith, length, map, append-nil, append_assoc,
  map-append, Bool-cases, inl, inr, ltb, All, ltb→lt, nil_of_length, ◌≡⟨◌⟩◌, ◌∎,
}
use actor_web.Messaging.Mailbox.{
  OverflowStrategy, Mailbox, MessageEnvelope, ParkedSender, Reading, enqueue, dequeue, overflow,
  do_enqueue, park_sender, take_first, try_unpark_sender, unpark_first, is_full, drop, park, fail,
}
use actor_web.Messaging.Mailbox.Invariant.{IsValid}
use actor_web.Messaging.Mailbox.Runs.{
  Call, put, get, clear_all, stop_all, taken, handed, step, run, step-IsValid,
}

module _ {ℓ} {M : Type ℓ} where
  -- The messages in the queue, then those of the parked senders.
  unfoldable pub contents : Mailbox M → List M
  contents b = map (λ e. e.message) b.queue ++ map (λ s. s.message) b.parked_senders

  abbrev pub IsTraffic : Call M → Type 0
  IsTraffic (put now m) = Unit
  IsTraffic (get now) = Unit
  IsTraffic clear_all = ⊥
  IsTraffic stop_all = ⊥

  no_parked :
      (b : Mailbox M) → IsValid b → length b.queue < b.config.capacity → b.parked_senders ≡ []
  no_parked b v h = nil_of_length b.parked_senders (grind (arith, v.parked_full))

  contents-do_enqueue :
      (now : Reading) (m : M) (b : Mailbox M)
      → b.parked_senders ≡ []
      → contents (do_enqueue now m b) ≡ contents b ++ m ∷ []
  unfolding contents do_enqueue
  contents-do_enqueue now m b h = rw h (simp (map-append, append-nil))

  contents-park_sender : (m : M) (b : Mailbox M) → contents (park_sender m b) ≡ contents b ++ m ∷ []
  unfolding contents park_sender
  contents-park_sender m b = simp (map-append, append_assoc)

  contents-overflow :
      (s : OverflowStrategy) (m : M) (b : Mailbox M)
      → contents (overflow s m b).0 ≡ contents b ++ taken m (overflow s m b).1
  unfolding overflow
  contents-overflow drop m b = unfold contents in sym (append-nil _)
  contents-overflow park m b = contents-park_sender m b
  contents-overflow fail m b = unfold contents in sym (append-nil _)

  contents-enqueue :
      (now : Reading) (m : M) (b : Mailbox M)
      → IsValid b
      → contents (enqueue now m b).0 ≡ contents b ++ taken m (enqueue now m b).1
  unfolding enqueue
  contents-enqueue now m b v = elim (Bool-cases b.stopped) [
    | inl e ↦ simp (e, append-nil)
    | inr e ↦ elim (Bool-cases (ltb (length b.queue) b.config.capacity)) [
      | inl room ↦ simp (e, room) (contents-do_enqueue now m b (no_parked b v (ltb→lt _ _ room)))
      | inr full ↦ simp (e, full) (contents-overflow b.config.overflow_strategy m b)
    ]
  ]

  contents-unpark_first :
      (now : Reading) (ps : List (ParkedSender M)) (b : Mailbox M)
      → b.parked_senders ≡ ps
      → contents (unpark_first now ps b) ≡ contents b
  unfolding unpark_first do_enqueue contents
  contents-unpark_first now [] b h = refl
  contents-unpark_first now (p ∷ ps) b h = rw h (simp (map-append, append_assoc))

  contents-try_unpark_sender :
      (now : Reading) (b : Mailbox M) → contents (try_unpark_sender now b) ≡ contents b
  unfolding try_unpark_sender
  contents-try_unpark_sender now b = elim (Bool-cases (is_full b)) [
    | inl e ↦ rw e
    | inr e ↦ rw e (contents-unpark_first now b.parked_senders b refl)
  ]

  contents-take_first :
      (now : Reading) (es : List (MessageEnvelope M)) (b : Mailbox M)
      → b.queue ≡ es
      → contents b ≡ handed (take_first now es b).1 ++ contents (take_first now es b).0
  unfolding take_first
  contents-take_first now [] b h = refl
  contents-take_first now (e ∷ es) b h = rw contents-try_unpark_sender (unfold contents in rw h)

  contents-dequeue :
      (now : Reading) (b : Mailbox M)
      → contents b ≡ handed (dequeue now b).1 ++ contents (dequeue now b).0
  unfolding dequeue
  contents-dequeue now b = elim (Bool-cases b.stopped) [
    | inl e ↦ simp e
    | inr e ↦ simp e (contents-take_first now b.queue b refl)
  ]

  -- One call that neither clears nor stops: what it hands out, then what is held after it, is what
  -- was held before it, then what it takes in.
  step-contents :
      (c : Call M) (b : Mailbox M)
      → IsTraffic c
      → IsValid b
      → (step c b).handed_out ++ contents (step c b).after ≡ contents b ++ (step c b).taken_in
  unfolding step
  step-contents (put now m) b t v = contents-enqueue now m b v
  step-contents (get now) b t v = sym (contents-dequeue now b) ∙ sym (append-nil _)
  step-contents clear_all b t v = absurd t
  step-contents stop_all b t v = absurd t

  -- In a valid mailbox, over every sequence of calls of `enqueue` and `dequeue`: the messages
  -- handed out, in order, and then the messages still held (queued, then parked) are the messages
  -- held at first and then the messages taken in, in order. None is lost, repeated or reordered,
  -- although parked senders enter the queue later.
  pub run-contents :
      (cs : List (Call M)) (b : Mailbox M)
      → All IsTraffic cs
      → IsValid b
      → (run cs b).handed_out ++ contents (run cs b).after ≡ contents b ++ (run cs b).taken_in
  unfolding run
  run-contents [] b t v = sym (append-nil _)
  run-contents (c ∷ cs) b t v =
      let o = step c b in
      let r = run cs o.after in
      (o.handed_out ++ r.handed_out) ++ contents r.after
      ≡⟨ append_assoc o.handed_out r.handed_out (contents r.after) ⟩
        o.handed_out ++ (r.handed_out ++ contents r.after)
      ≡⟨ ap (λ l. o.handed_out ++ l) (run-contents cs o.after t.1 (step-IsValid c b v)) ⟩
        o.handed_out ++ (contents o.after ++ r.taken_in)
      ≡⟨ sym (append_assoc o.handed_out (contents o.after) r.taken_in) ⟩
        (o.handed_out ++ contents o.after) ++ r.taken_in
      ≡⟨ ap (λ l. l ++ r.taken_in) (step-contents c b t.0 v) ⟩
        (contents b ++ o.taken_in) ++ r.taken_in
      ≡⟨ append_assoc (contents b) o.taken_in r.taken_in ⟩
        contents b ++ (o.taken_in ++ r.taken_in) ∎
