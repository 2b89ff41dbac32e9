-- ===== src/Messaging/Mailbox/Runs.antt =====
-- Sequences of calls of a mailbox, with what they take in and hand out.
use actor_web.Common.{true, false, List, [], ◌∷◌, ◌++◌, Option, none, some}
use actor_web.Messaging.Mailbox.{
  Mailbox, Reading, EnqueueResult, returned, waiting, raised, enqueue, dequeue, clear, stop,
}
use actor_web.Messaging.Mailbox.Invariant.{
  IsValid, enqueue-IsValid, dequeue-IsValid, clear-IsValid, stop-IsValid,
}

pub data Call {ℓ} (M : Type ℓ) : Type ℓ where
  put : Reading → M → Call M
  get : Reading → Call M
  clear_all : Call M
  stop_all : Call M

-- A mailbox after a call, the message that the call got into the mailbox or among the parked
-- senders, and the message that it handed to the caller.
pub record Outcome {ℓ} (M : Type ℓ) : Type ℓ where
  pub after : Mailbox M
  pub taken_in : List M
  pub handed_out : List M

module _ {ℓ} {M : Type ℓ} where
  abbrev pub taken : M → EnqueueResult → List M
  taken m (returned true) = m ∷ []
  taken m (returned false) = []
  taken m (waiting p) = m ∷ []
  taken m (raised e) = []

  abbrev pub handed : Option M → List M
  handed none = []
  handed (some m) = m ∷ []

  unfoldable pub step : Call M → Mailbox M → Outcome M
  step (put now m) b =
      let (b', r) = enqueue now m b in record { after = b'; taken_in = taken m r; handed_out = [] }
  step (get now) b =
      let (b', r) = dequeue now b in record { after = b'; taken_in = []; handed_out = handed r }
  step clear_all b = record { after = clear b; taken_in = []; handed_out = [] }
  step stop_all b = record { after = stop b; taken_in = []; handed_out = [] }

  unfoldable pub run : List (Call M) → Mailbox M → Outcome M
  run [] b = record { after = b; taken_in = []; handed_out = [] }
  run (c ∷ cs) b =
      let o = step c b in
      let r = run cs o.after in
      record {
        after = r.after;
        taken_in = o.taken_in ++ r.taken_in;
        handed_out = o.handed_out ++ r.handed_out;
      }

  pub step-IsValid : (c : Call M) (b : Mailbox M) → IsValid b → IsValid (step c b).after
  unfolding step
  step-IsValid (put now m) b v = enqueue-IsValid now m b v
  step-IsValid (get now) b v = dequeue-IsValid now b v
  step-IsValid clear_all b v = clear-IsValid b v
  step-IsValid stop_all b v = stop-IsValid b v

  -- A valid mailbox stays valid under every sequence of calls: never more messages than the
  -- capacity, a sender parked only at a full queue of the parking strategy, nothing held once
  -- stopped, and no more messages dequeued and held than were enqueued.
  pub run-IsValid : (cs : List (Call M)) (b : Mailbox M) → IsValid b → IsValid (run cs b).after
  unfolding run
  run-IsValid [] b v = v
  run-IsValid (c ∷ cs) b v = run-IsValid cs (step c b).after (step-IsValid c b v)
