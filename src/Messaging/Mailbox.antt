-- ===== src/Messaging/Mailbox.antt =====
-- `BoundedMailbox` of packages/actor-core-runtime/src/messaging/mailbox.ts, over any type of
-- messages. A method returns the new mailbox beside its result; a call that raises leaves it with
-- the counters that it had changed. The two readings of
-- the clock that make an envelope are an argument. A promise is its number in the
-- order of creation, and `settled` records, latest first, how each promise was settled.
pub mod Invariant
pub mod Runs
pub mod Fifo
pub mod Promises
mod Examples
use actor_web.Common.{
  ℕ, zero, suc, ◌+◌, ◌<◌, Bool, true, false, not, ◌&&◌, List, [], ◌∷◌, ◌++◌, Option, none, some,
  ltb, leb, ◌==◌, if◌then◌else◌, length,
}

pub data OverflowStrategy : Type 0 where
  drop park fail : OverflowStrategy

pub record MailboxConfig : Type 0 where
  pub capacity : ℕ
  pub overflow_strategy : OverflowStrategy
  pub enable_metrics : Bool

-- The clock, read for the envelope's id and again for its time.
pub record Reading : Type 0 where
  pub for_id : ℕ
  pub for_time : ℕ

-- The text `msg-<n>`.
pub data MessageId : Type 0 where
  msg : ℕ → MessageId

pub record MessageEnvelope {ℓ} (M : Type ℓ) : Type ℓ where
  pub id : MessageId
  pub message : M
  pub enqueue_time : ℕ

pub record ParkedSender {ℓ} (M : Type ℓ) : Type ℓ where
  pub promise : ℕ
  pub message : M

pub data Settlement : Type 0 where
  resolved : Bool → Settlement
  rejected_cleared : Settlement
  rejected_stopped : Settlement

pub record Mailbox {ℓ} (M : Type ℓ) : Type ℓ where
  pub config : MailboxConfig
  pub queue : List (MessageEnvelope M)
  pub parked_senders : List (ParkedSender M)
  pub stopped : Bool
  pub total_enqueued : ℕ
  pub total_dequeued : ℕ
  pub total_dropped : ℕ
  pub total_failed : ℕ
  pub promises : ℕ
  pub settled : List (ℕ × Settlement)

pub data MailboxError : Type 0 where
  invalid_capacity stopped_mailbox capacity_exceeded : MailboxError

pub data EnqueueResult : Type 0 where
  returned : Bool → EnqueueResult
  waiting : ℕ → EnqueueResult
  raised : MailboxError → EnqueueResult

module _ {ℓ} {M : Type ℓ} where
  unfoldable pub new : MailboxConfig → Option (Mailbox M)
  new c =
      if c.capacity == 0
      then none
      else some (record {
        config = c;
        queue = [];
        parked_senders = [];
        stopped = false;
        total_enqueued = 0;
        total_dequeued = 0;
        total_dropped = 0;
        total_failed = 0;
        promises = 0;
        settled = [];
      })

  unfoldable pub is_full : Mailbox M → Bool
  is_full b = leb b.config.capacity (length b.queue)

  unfoldable pub do_enqueue : Reading → M → Mailbox M → Mailbox M
  do_enqueue now m b = record b {
    queue =
        b.queue ++ record { id = msg now.for_id; message = m; enqueue_time = now.for_time } ∷ [];
    total_enqueued = b.total_enqueued + 1;
  }

  unfoldable pub park_sender : M → Mailbox M → Mailbox M
  park_sender m b = record b {
    parked_senders = b.parked_senders ++ record { promise = b.promises; message = m } ∷ [];
    promises = b.promises + 1;
  }

  -- The `switch` over the strategy when the queue is full.
  unfoldable pub overflow : OverflowStrategy → M → Mailbox M → Mailbox M × EnqueueResult
  overflow drop m b = (record b { total_dropped = b.total_dropped + 1 }, returned false)
  overflow fail m b = (record b { total_failed = b.total_failed + 1 }, raised capacity_exceeded)
  overflow park m b = (park_sender m b, waiting b.promises)

  unfoldable pub enqueue : Reading → M → Mailbox M → Mailbox M × EnqueueResult
  enqueue now m b =
      if b.stopped
      then (b, raised stopped_mailbox)
      else if ltb (length b.queue) b.config.capacity
      then (do_enqueue now m b, returned true)
      else overflow b.config.overflow_strategy m b

  -- The body of `tryUnparkSender` once the first parked sender is known.
  unfoldable pub unpark_first : Reading → List (ParkedSender M) → Mailbox M → Mailbox M
  unpark_first now [] b = b
  unpark_first now (s ∷ rest) b =
      let b' = do_enqueue now s.message (record b { parked_senders = rest }) in
      record b' { settled = (s.promise, resolved true) ∷ b'.settled }

  unfoldable pub try_unpark_sender : Reading → Mailbox M → Mailbox M
  try_unpark_sender now b = if not (is_full b) then unpark_first now b.parked_senders b else b

  unfoldable pub take_first : Reading → List (MessageEnvelope M) → Mailbox M → Mailbox M × Option M
  take_first now [] b = (b, none)
  take_first now (e ∷ rest) b = (
    try_unpark_sender now (record b { queue = rest; total_dequeued = b.total_dequeued + 1 }),
    some e.message,
  )

  unfoldable pub dequeue : Reading → Mailbox M → Mailbox M × Option M
  dequeue now b = if b.stopped then (b, none) else take_first now b.queue b

  -- The loop of `rejectAllParkedSenders`: the settlements, latest first.
  unfoldable pub reject_all :
      Settlement → List (ParkedSender M) → List (ℕ × Settlement) → List (ℕ × Settlement)
  reject_all reason [] log = log
  reject_all reason (s ∷ rest) log = reject_all reason rest ((s.promise, reason) ∷ log)

  unfoldable pub reject_all_parked_senders : Settlement → Mailbox M → Mailbox M
  reject_all_parked_senders reason b = record b {
    parked_senders = [];
    settled = reject_all reason b.parked_senders b.settled;
  }

  unfoldable pub clear : Mailbox M → Mailbox M
  clear b = reject_all_parked_senders rejected_cleared (record b { queue = [] })

  unfoldable pub stop : Mailbox M → Mailbox M
  stop b = reject_all_parked_senders rejected_stopped (clear (record b { stopped = true }))

  unfoldable pub size : Mailbox M → ℕ
  size b = length b.queue

  unfoldable pub is_empty : Mailbox M → Bool
  is_empty b = length b.queue == 0
