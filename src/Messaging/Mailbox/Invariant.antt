-- ===== src/Messaging/Mailbox/Invariant.antt =====
-- What holds of a mailbox between two calls.
use actor_web.Common.{◌+◌, ◌≤◌, ◌<◌, ◌≡◌, true, some, arith, length, length-append}
use actor_web.Messaging.Mailbox.{
  park, MailboxConfig, Mailbox, Reading, new, is_full, do_enqueue, park_sender, overflow, enqueue,
  unpark_first, try_unpark_sender, take_first, dequeue, reject_all_parked_senders, clear, stop,
}

-- A sender waits only at a full queue of the parking strategy, a stopped mailbox is empty, and the
-- counters cover what is in the queue.
pub record IsValid {ℓ} {M : Type ℓ} (b : Mailbox M) : Type ℓ where
  pub positive : 0 < b.config.capacity
  pub bounded : length b.queue ≤ b.config.capacity
  pub parked_full : 0 < length b.parked_senders → length b.queue ≡ b.config.capacity
  pub parked_park : 0 < length b.parked_senders → b.config.overflow_strategy ≡ park
  pub stopped_empty : b.stopped ≡ true → (length b.queue ≡ 0) × (length b.parked_senders ≡ 0)
  pub counted : b.total_dequeued + length b.queue ≤ b.total_enqueued

module _ {ℓ} {M : Type ℓ} where
  pub new-IsValid : (c : MailboxConfig) {b : Mailbox M} → new c ≡ some b → IsValid b
  unfolding new
  new-IsValid c h = ground arith

  pub enqueue-IsValid :
      (now : Reading) (m : M) (b : Mailbox M) → IsValid b → IsValid (enqueue now m b).0
  unfolding enqueue do_enqueue overflow park_sender
  enqueue-IsValid now m b v = grind (arith, length-append)

  pub dequeue-IsValid : (now : Reading) (b : Mailbox M) → IsValid b → IsValid (dequeue now b).0
  unfolding dequeue take_first try_unpark_sender is_full unpark_first do_enqueue
  dequeue-IsValid now b v = grind (arith, length-append)

  pub clear-IsValid : (b : Mailbox M) → IsValid b → IsValid (clear b)
  unfolding clear reject_all_parked_senders
  clear-IsValid b v = ground arith

  pub stop-IsValid : (b : Mailbox M) → IsValid b → IsValid (stop b)
  unfolding stop clear reject_all_parked_senders
  stop-IsValid b v = ground arith
