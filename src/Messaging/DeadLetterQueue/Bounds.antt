-- ===== src/Messaging/DeadLetterQueue/Bounds.antt =====
-- How many letters the queue holds, and which of them.
use actor_web.Common.{
  ℕ, zero, suc, ◌+◌, ◌≤◌, Bool, List, [], ◌∷◌, ◌++◌, Option, ltb, if◌then◌else◌, length,
  length-append, length-map, map, arith, ◌≡◌, refl, ap, sym, ◌∙◌, last, last_all, last-append,
  Bool-cases, inl, inr, append_assoc, append-nil, String,
}
use actor_web.Messaging.DeadLetterQueue.{
  DeadLetter, DeadLetterQueue, Failure, letter_of, without_first, add, keep, splice_one, remove,
  clear, retry_succeeded, retry_failed, touched, cleanup, new_queue,
}

-- The calls that change the queue. A retry is its last part, once `retryFn` has returned or thrown;
-- a retry that fails is given the letter that it has taken up.
pub data Call : Type 0 where
  adds : Failure → Call
  removes : ℕ → Call
  clears : Call
  cleans : ℕ → Call
  retried : ℕ → Call
  retry_threw : DeadLetter → ℕ → String → Call

unfoldable pub step : Call → DeadLetterQueue → DeadLetterQueue
unfolding add remove clear cleanup retry_succeeded retry_failed
step (adds f) q = add f q
step (removes index) q = (remove index q).0
step clears q = clear q
step (cleans now) q = cleanup now q
step (retried index) q = retry_succeeded index q
step (retry_threw letter now error) q = retry_failed letter now error q

unfoldable pub run : List Call → DeadLetterQueue → DeadLetterQueue
unfolding step
run [] q = q
run (c ∷ cs) q = run cs (step c q)

length-splice_one : (n : ℕ) (ls : List DeadLetter) → length (splice_one n ls).0 ≤ length ls
unfolding splice_one
length-splice_one n [] = omega arith
length-splice_one zero (l ∷ ls) = omega arith
length-splice_one (suc n) (l ∷ ls) = omega (arith, length-splice_one n ls)

length-keep : (p : DeadLetter → Bool) (ls : List DeadLetter) → length (keep p ls) ≤ length ls
unfolding keep
length-keep p [] = omega arith
length-keep p (l ∷ ls) = ground (arith, length-keep p ls)

length-without_first :
    (m : ℕ) (ls : List DeadLetter)
    → length ls ≤ m + 1
    → length (if ltb m (length ls) then without_first ls else ls) ≤ m
length-without_first m [] h = ground arith
length-without_first m (l ∷ ls) h = ground arith

step_le :
    (c : Call) (q : DeadLetterQueue)
    → length q.dead_letters ≤ q.max_size
    → (length (step c q).dead_letters ≤ q.max_size) × ((step c q).max_size ≡ q.max_size)
unfolding step add remove clear cleanup retry_succeeded retry_failed
step_le (adds f) q h =
    let letters = q.dead_letters ++ letter_of q.next_identity f ∷ [] in
    (
      length-without_first q.max_size letters
          (omega (arith, h, length-append q.dead_letters (letter_of q.next_identity f ∷ []))),
      refl,
    )
step_le (removes n) q h = (omega (arith, h, length-splice_one n q.dead_letters), refl)
step_le clears q h = (omega arith, refl)
step_le (cleans now) q h = (
  omega (arith, h, length-keep (λ l. ltb now (l.timestamp + q.retention_period)) q.dead_letters),
  refl,
)
step_le (retried n) q h = (omega (arith, h, length-splice_one n q.dead_letters), refl)
step_le (retry_threw letter now error) q h =
    (omega (arith, h, length-map (touched letter now error) q.dead_letters), refl)

-- Over any calls, a queue that holds no more letters than its maximal size never holds more.
pub length-run_le :
    (cs : List Call) (q : DeadLetterQueue)
    → length q.dead_letters ≤ q.max_size
    → length (run cs q).dead_letters ≤ q.max_size
unfolding run
length-run_le [] q h = h
length-run_le (c ∷ cs) q h =
    let (k, e) = step_le c q h in
    omega (arith, e, length-run_le cs (step c q) (omega (arith, e, k)))

last-add :
    (m : ℕ) (ls : List DeadLetter)
    → length ls ≤ m + 1
    → (if ltb m (length ls) then without_first ls else ls) ≡ last m ls
unfolding last
last-add m [] h = ground arith
last-add m (l ∷ ls) h = elim (Bool-cases (ltb m (length (l ∷ ls)))) [
  | inl e ↦ rw e (sym (last_all m ls (omega (arith, h))))
  | inr e ↦ rw e
]

length-last_le : (m : ℕ) (ls : List DeadLetter) → length (last m ls) ≤ m
unfolding last
length-last_le m [] = omega arith
length-last_le m (l ∷ ls) = ground (arith, length-last_le m ls)

-- The letters of failures, numbered from `n`.
unfoldable pub letters_of : ℕ → List Failure → List DeadLetter
letters_of n [] = []
letters_of n (f ∷ fs) = letter_of n f ∷ letters_of (n + 1) fs

pub run-adds_history :
    (fs : List Failure) (q : DeadLetterQueue) (h : List DeadLetter)
    → q.dead_letters ≡ last q.max_size h
    → (run (map adds fs) q).dead_letters ≡ last q.max_size (h ++ letters_of q.next_identity fs)
unfolding run step add letters_of
run-adds_history [] q h e = rw (append-nil h) e
run-adds_history (f ∷ fs) q h e =
    let l = letter_of q.next_identity f in
    let letters = q.dead_letters ++ l ∷ [] in
    let short : length letters ≤ q.max_size + 1 =
      omega
        (arith, length-append q.dead_letters (l ∷ []), ap length e, length-last_le q.max_size h) in
    let next : (add f q).dead_letters ≡ last q.max_size (h ++ l ∷ []) =
      last-add q.max_size letters short
      ∙ ap (λ (k : List DeadLetter). last q.max_size (k ++ l ∷ [])) e
      ∙ last-append q.max_size h (l ∷ []) in
    run-adds_history fs (add f q) (h ++ l ∷ []) next
    ∙ ap (last q.max_size) (append_assoc h (l ∷ []) (letters_of (q.next_identity + 1) fs))

-- A new queue to which letters are added holds the last of them, in order: as many as its maximal
-- size, or all if they are fewer.
pub run-adds :
    (max_size ttl : Option ℕ) (fs : List Failure)
    → (run (map adds fs) (new_queue max_size ttl)).dead_letters
      ≡ last (new_queue max_size ttl).max_size (letters_of 0 fs)
unfolding new_queue last
run-adds max_size ttl fs = run-adds_history fs (new_queue max_size ttl) [] refl
