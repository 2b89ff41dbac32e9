-- ===== src/Messaging/DeadLetterQueue.antt =====
-- The queue of messages that could not be delivered: class DeadLetterQueue of
-- packages/actor-core-runtime/src/messaging/dead-letter-queue.ts. A letter carries a number for
-- its identity as an object, which a retry that waits refers to. Indices are natural numbers.
-- Logging, the handler of letters and the stub of persistence are left out, and the interval of
-- the clean-up is the caller of `cleanup`.
use actor_web.Common.{
  ℕ, zero, suc, ◌+◌, Bool, List, [], ◌∷◌, ◌++◌, Option, none, some, ltb, ◌==◌, if◌then◌else◌,
  length, String, same, Dict, find, put, map,
}
pub mod Bounds
pub mod Retry
mod Examples

pub record ActorMessage : Type 0 where
  pub kind : String
  pub content : ℕ

pub record DeadLetter : Type 0 where
  pub identity : ℕ
  pub message : ActorMessage
  pub target_actor_id : String
  pub reason : String
  pub timestamp : ℕ
  pub attempts : ℕ
  pub error : Option String

pub record DeadLetterQueue : Type 0 where
  pub max_size : ℕ
  pub retention_period : ℕ
  pub next_identity : ℕ
  pub dead_letters : List DeadLetter

unfoldable pub or_default : ℕ → Option ℕ → ℕ
or_default d none = d
or_default d (some n) = n

unfoldable pub new_queue : Option ℕ → Option ℕ → DeadLetterQueue
unfolding or_default
new_queue max_size ttl = record {
  max_size = or_default 1000 max_size;
  retention_period = or_default 86400000 ttl;
  next_identity = 0;
  dead_letters = [];
}

-- What a call of `add` is given, with its reading of the clock.
pub record Failure : Type 0 where
  pub failed_message : ActorMessage
  pub target : String
  pub cause : String
  pub failed_at : ℕ
  pub tried : ℕ
  pub failed_with : Option String

abbrev pub letter_of : ℕ → Failure → DeadLetter
letter_of n f = record {
  identity = n;
  message = f.failed_message;
  target_actor_id = f.target;
  reason = f.cause;
  timestamp = f.failed_at;
  attempts = f.tried;
  error = f.failed_with;
}

-- `Array.shift`
abbrev pub without_first : List DeadLetter → List DeadLetter
without_first [] = []
without_first (l ∷ ls) = ls

unfoldable pub add : Failure → DeadLetterQueue → DeadLetterQueue
add f q =
    let letters = q.dead_letters ++ letter_of q.next_identity f ∷ [] in
    record q {
      next_identity = q.next_identity + 1;
      dead_letters = if ltb q.max_size (length letters) then without_first letters else letters;
    }

unfoldable pub keep : (DeadLetter → Bool) → List DeadLetter → List DeadLetter
keep p [] = []
keep p (l ∷ ls) = if p l then l ∷ keep p ls else keep p ls

unfoldable pub get_by_actor : String → DeadLetterQueue → List DeadLetter
get_by_actor actor_id q = keep (λ l. same l.target_actor_id actor_id) q.dead_letters

unfoldable pub get_by_message_type : String → DeadLetterQueue → List DeadLetter
get_by_message_type type q = keep (λ l. same l.message.kind type) q.dead_letters

-- `splice(index, 1)`
unfoldable pub splice_one : ℕ → List DeadLetter → List DeadLetter × Option DeadLetter
splice_one index [] = ([], none)
splice_one zero (l ∷ ls) = (ls, some l)
splice_one (suc index) (l ∷ ls) = let (rest, removed) = splice_one index ls in (l ∷ rest, removed)

unfoldable pub remove : ℕ → DeadLetterQueue → DeadLetterQueue × Option DeadLetter
unfolding splice_one
remove index q =
    let (letters, removed) = splice_one index q.dead_letters in
    (record q { dead_letters = letters }, removed)

unfoldable pub clear : DeadLetterQueue → DeadLetterQueue
clear q = record q { dead_letters = [] }

unfoldable pub size : DeadLetterQueue → ℕ
size q = length q.dead_letters

unfoldable pub get_elem? : List DeadLetter → ℕ → Option DeadLetter
get_elem? [] index = none
get_elem? (l ∷ ls) zero = some l
get_elem? (l ∷ ls) (suc index) = get_elem? ls index

-- `retry` up to the call of `retryFn`, which is given the message and the actor of this letter;
-- `none` if there is no letter at the index.
unfoldable pub begin_retry : ℕ → DeadLetterQueue → Option DeadLetter
unfolding get_elem?
begin_retry index q = get_elem? q.dead_letters index

-- The rest of `retry` once `retryFn` has returned.
unfoldable pub retry_succeeded : ℕ → DeadLetterQueue → DeadLetterQueue
unfolding remove
retry_succeeded index q = (remove index q).0

abbrev pub touched : DeadLetter → ℕ → String → DeadLetter → DeadLetter
touched letter now error l =
    if l.identity == letter.identity
    then record l { attempts = l.attempts + 1; timestamp = now; error = some error }
    else l

-- The rest of `retry` if `retryFn` has thrown: the letter is changed where it is, if it still is.
unfoldable pub retry_failed : DeadLetter → ℕ → String → DeadLetterQueue → DeadLetterQueue
retry_failed letter now error q = record q {
  dead_letters = map (touched letter now error) q.dead_letters;
}

unfoldable pub cleanup : ℕ → DeadLetterQueue → DeadLetterQueue
unfolding keep
cleanup now q = record q {
  dead_letters = keep (λ l. ltb now (l.timestamp + q.retention_period)) q.dead_letters;
}
