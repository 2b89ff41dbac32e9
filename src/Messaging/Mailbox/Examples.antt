-- ===== src/Messaging/Mailbox/Examples.antt =====
-- A parking mailbox of capacity 1, run on concrete calls.
use actor_web.Common.{ℕ, true, false, List, [], ◌∷◌, ◌++◌, some, ◌≡◌, refl, arith}
use actor_web.Messaging.Mailbox.{
  Mailbox, MailboxConfig, Reading, park, new, enqueue, dequeue, clear, stop, do_enqueue, overflow,
  park_sender, take_first, try_unpark_sender, unpark_first, is_full, reject_all,
  reject_all_parked_senders, resolved, rejected_cleared, raised, stopped_mailbox, size, is_empty,
}
use actor_web.Messaging.Mailbox.Invariant.{IsValid, new-IsValid}
use actor_web.Messaging.Mailbox.Runs.{Call, put, get, stop_all, step, run}
use actor_web.Messaging.Mailbox.Fifo.{contents, run-contents}
use actor_web.Messaging.Mailbox.Promises.{
  settles, run-Accounted, Accounted, new-Accounted, stop-settles,
}

program : Unit {0}
unfolding new enqueue dequeue clear stop do_enqueue overflow park_sender take_first
    try_unpark_sender unpark_first is_full reject_all reject_all_parked_senders step run contents
    size is_empty
program = tt

abbrev config : MailboxConfig
config = record { capacity = 1; overflow_strategy = park; enable_metrics = true }

abbrev empty : Mailbox ℕ
empty = record {
  config = config;
  queue = [];
  parked_senders = [];
  stopped = false;
  total_enqueued = 0;
  total_dequeued = 0;
  total_dropped = 0;
  total_failed = 0;
  promises = 0;
  settled = [];
}

abbrev at : ℕ → Reading
at n = record { for_id = n; for_time = n }

abbrev calls : List (Call ℕ)
calls = put (at 1) 10 ∷ put (at 2) 20 ∷ put (at 3) 30 ∷ get (at 4) ∷ []

new-empty : new config ≡ some empty
unfolding program
new-empty = refl

-- The second message waits with promise 0 and enters the queue when the first one leaves.
parked_enters :
    ((run calls empty).handed_out ≡ 10 ∷ [])
    × (contents (run calls empty).after ≡ 20 ∷ 30 ∷ [])
    × ((run calls empty).after.settled ≡ (0, resolved true) ∷ [])
unfolding program
parked_enters = (refl, refl, refl)

-- `stop` clears first, so the senders that still wait are rejected with `Mailbox cleared`.
stop_reason :
    (run (calls ++ stop_all ∷ []) empty).after.settled
    ≡ (1, rejected_cleared) ∷ (0, resolved true) ∷ []
unfolding program
stop_reason = refl

enqueue_stopped : (enqueue (at 5) 40 (stop empty)).1 ≡ raised stopped_mailbox
unfolding program
enqueue_stopped = refl

empty-IsValid : IsValid empty
empty-IsValid = new-IsValid config new-empty

run-contents_example :
    (run calls empty).handed_out ++ contents (run calls empty).after
    ≡ contents empty ++ (run calls empty).taken_in
run-contents_example = run-contents calls empty (omega arith) empty-IsValid

run-Accounted_example : Accounted (run calls empty).after
run-Accounted_example = run-Accounted calls empty (new-Accounted config new-empty)

stop-settles_example : settles 1 (stop (run calls empty).after).settled ≡ 1
unfolding program
stop-settles_example = stop-settles config calls 1 new-empty (omega arith)
