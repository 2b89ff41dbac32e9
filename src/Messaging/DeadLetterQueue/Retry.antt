-- ===== src/Messaging/DeadLetterQueue/Retry.antt =====
-- A retry while other letters are added: `retryFn` is awaited between the two parts of `retry`.
use actor_web.Common.{
  ℕ, suc, ◌+◌, ◌≤◌, true, List, [], ◌∷◌, ◌++◌, Option, some, ltb, length, length-append, map, arith,
  ◌≡◌, refl, ap, sym, ◌∙◌, last_all, append_assoc, lt→ltb,
}
use actor_web.Messaging.DeadLetterQueue.{
  DeadLetter, DeadLetterQueue, Failure, letter_of, without_first, add, splice_one, remove,
  get_elem?, begin_retry, retry_succeeded,
}
use actor_web.Messaging.DeadLetterQueue.Bounds.{run, adds, letters_of, run-adds_history}

splice_one-append :
    (before after : List DeadLetter) (l : DeadLetter)
    → splice_one (length before) (before ++ l ∷ after) ≡ (before ++ after, some l)
unfolding splice_one
splice_one-append [] after l = refl
splice_one-append (x ∷ before) after l =
    ap (λ (r : List DeadLetter × Option DeadLetter). (x ∷ r.0, r.1))
      (splice_one-append before after l)

get_elem?-append :
    (before after : List DeadLetter) (l : DeadLetter)
    → get_elem? (before ++ l ∷ after) (length before) ≡ some l
unfolding get_elem?
get_elem?-append [] after l = refl
get_elem?-append (x ∷ before) after l = get_elem?-append before after l

length-letters_of : (n : ℕ) (fs : List Failure) → length (letters_of n fs) ≡ length fs
unfolding letters_of
length-letters_of n [] = refl
length-letters_of n (f ∷ fs) = ap suc (length-letters_of (n + 1) fs)

-- If letters are added while a retry waits, and all of them fit, then a retry that succeeds takes
-- exactly the letter that it delivered off the queue, and the others stay in order.
pub retry_succeeded-adds :
    (q : DeadLetterQueue) (before after : List DeadLetter) (l : DeadLetter) (fs : List Failure)
    → q.dead_letters ≡ before ++ l ∷ after
    → length q.dead_letters + length fs ≤ q.max_size
    → (begin_retry (length before) q ≡ some l)
      × ((retry_succeeded (length before) (run (map adds fs) q)).dead_letters
          ≡ before ++ (after ++ letters_of q.next_identity fs))
unfolding begin_retry retry_succeeded remove
retry_succeeded-adds q before after l fs e h =
    let new = letters_of q.next_identity fs in
    let all : (run (map adds fs) q).dead_letters ≡ before ++ l ∷ (after ++ new) =
      run-adds_history fs q q.dead_letters
        (sym (last_all q.max_size q.dead_letters (omega (arith, h))))
      ∙ last_all q.max_size (q.dead_letters ++ new)
          (omega (arith, h, length-append q.dead_letters new, length-letters_of q.next_identity fs))
      ∙ ap (λ (k : List DeadLetter). k ++ new) e
      ∙ append_assoc before (l ∷ after) new in
    (
      simp e (get_elem?-append before after l),
      simp all (
          ap (λ (r : List DeadLetter × Option DeadLetter). r.0)
            (splice_one-append before (after ++ new) l)),
    )

splice_one-next :
    (before after : List DeadLetter) (l next : DeadLetter)
    → splice_one (suc (length before)) (before ++ l ∷ next ∷ after)
      ≡ (before ++ l ∷ after, some next)
unfolding splice_one
splice_one-next [] after l next = refl
splice_one-next (x ∷ before) after l next =
    ap (λ (r : List DeadLetter × Option DeadLetter). (x ∷ r.0, r.1))
      (splice_one-next before after l next)

add_full :
    (q : DeadLetterQueue) (f : Failure)
    → length q.dead_letters ≡ q.max_size
    → (add f q).dead_letters ≡ without_first (q.dead_letters ++ letter_of q.next_identity f ∷ [])
unfolding add
add_full q f h =
    let new = letter_of q.next_identity f in
    let full : ltb q.max_size (length (q.dead_letters ++ new ∷ [])) ≡ true =
      lt→ltb _ _ (omega (arith, h, length-append q.dead_letters (new ∷ []))) in
    simp full refl

-- If the queue is full and a letter is added while the retry of a letter other than the first and
-- the last waits, then a retry that succeeds leaves the letter that it delivered in the queue, and
-- takes off the next one, which nobody delivered.
pub retry_succeeded-add_evicts :
    (q : DeadLetterQueue) (before after : List DeadLetter) (first l next : DeadLetter) (f : Failure)
    → q.dead_letters ≡ first ∷ (before ++ l ∷ next ∷ after)
    → length q.dead_letters ≡ q.max_size
    → (begin_retry (suc (length before)) q ≡ some l)
      × ((retry_succeeded (suc (length before)) (add f q)).dead_letters
          ≡ before ++ l ∷ (after ++ letter_of q.next_identity f ∷ []))
unfolding begin_retry retry_succeeded remove get_elem?
retry_succeeded-add_evicts q before after first l next f e h =
    let new = letter_of q.next_identity f in
    let all : (add f q).dead_letters ≡ before ++ l ∷ next ∷ (after ++ new ∷ []) =
      add_full q f h
      ∙ ap (λ (k : List DeadLetter). without_first (k ++ new ∷ [])) e
      ∙ append_assoc before (l ∷ next ∷ after) (new ∷ []) in
    (
      simp e (get_elem?-append before (next ∷ after) l),
      simp all (
          ap (λ (r : List DeadLetter × Option DeadLetter). r.0)
            (splice_one-next before (after ++ new ∷ []) l next)),
    )
