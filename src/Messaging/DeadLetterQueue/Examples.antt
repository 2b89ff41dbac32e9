-- ===== src/Messaging/DeadLetterQueue/Examples.antt =====
-- A queue of three letters.
use actor_web.Common.{[], ◌∷◌, ◌≡◌, refl, none, some, last, ℕ}
use actor_web.Messaging.DeadLetterQueue.{
  DeadLetter, DeadLetterQueue, Failure, letter_of, add, keep, splice_one, remove, clear, get_elem?,
  begin_retry, retry_succeeded, retry_failed, cleanup, new_queue, or_default,
}
use actor_web.Messaging.DeadLetterQueue.Bounds.{cleans, run, step, letters_of}
use actor_web.Messaging.DeadLetterQueue.Retry.{retry_succeeded-add_evicts}

program : Unit {0}
unfolding add keep splice_one remove clear get_elem? begin_retry retry_succeeded retry_failed
    cleanup new_queue or_default run step letters_of last
program = tt

abbrev failure : ℕ → Failure
failure t = record {
  failed_message = record { kind = "JOB"; content = t };
  target = "worker";
  cause = "gone";
  failed_at = t;
  tried = 1;
  failed_with = none;
}

abbrev letter : ℕ → DeadLetter
letter n = letter_of n (failure n)

abbrev three : DeadLetterQueue
three = record {
  max_size = 3;
  retention_period = 100;
  next_identity = 3;
  dead_letters = letter 0 ∷ letter 1 ∷ letter 2 ∷ [];
}

cleaned : (run (cleans 101 ∷ []) three).dead_letters ≡ letter 2 ∷ []
unfolding program
cleaned = refl

retry_succeeded-add_evicts_example :
    (begin_retry 1 three ≡ some (letter 1))
    × ((retry_succeeded 1 (add (failure 3) three)).dead_letters ≡ letter 1 ∷ letter 3 ∷ [])
retry_succeeded-add_evicts_example =
    retry_succeeded-add_evicts three [] [] (letter 0) (letter 1) (letter 2) (failure 3) refl refl
