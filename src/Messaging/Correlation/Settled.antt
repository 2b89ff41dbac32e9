-- ===== src/Messaging/Correlation/Settled.antt =====
-- Every request is settled once: packages/actor-core-runtime/src/pure-xstate-utilities.ts.
use actor_web.Common.{
  ℕ, ◌+◌, ◌<◌, List, [], ◌∷◌, Option, none, some, String, ◌==◌, ltb, if◌then◌else◌, given,
  given_lem, same, same_iff, same_refl, Dict, find, put, erase, erase_absent, IsMap, IsMap-put,
  IsMap-erase, arith, ◌≡◌, refl, sym, ap, ◌∙◌, Bool-cases, inl, inr, if_true,
}
use actor_web.Messaging.Correlation.{
  Ending, timeout, cleared, PendingRequest, CorrelationManager, new_manager, timeout_of,
  clear_timeout, register_request, handle_response, handle_timeout, fire_timeout,
  reject_all_requests, clear_all_requests, Call, registering, responding, timing_out, firing,
  clearing, step, run, fire_each,
}
use actor_web.Messaging.Correlation.Watched.{run-IsWatched, new_manager-IsWatched, fire_each_all}

-- How often a promise waits, and how often it was settled.
unfoldable pub waits_in : Dict PendingRequest → ℕ → ℕ
waits_in [] n = 0
waits_in (e ∷ d) n = (if e.1.promise == n then 1 else 0) + waits_in d n

unfoldable pub endings : List (ℕ × Ending) → ℕ → ℕ
endings [] n = 0
endings (e ∷ es) n = (if e.0 == n then 1 else 0) + endings es n

unfoldable IsOnce : CorrelationManager → Type 0
IsOnce c =
    IsMap c.pending_requests
    × ((n : ℕ)
        → waits_in c.pending_requests n + endings c.settled n ≡ (if ltb n c.promises then 1 else 0))

waits_in-put :
    (d : Dict PendingRequest) (id : String) (r : PendingRequest) (n : ℕ)
    → find d id ≡ none
    → waits_in (put d id r) n ≡ waits_in d n + (if r.promise == n then 1 else 0)
unfolding waits_in find put
waits_in-put [] id r n h = omega arith
waits_in-put (e ∷ d) id r n h = elim (Bool-cases (same e.0 id)) [
  | inl q ↦ absurd (ground (arith, sym h ∙ if_true (same e.0 id) _ _ q))
  | inr q ↦ rw q (omega (arith, waits_in-put d id r n (ground (arith, h, q))))
]

waits_in-erase :
    (d : Dict PendingRequest) (id : String) (n : ℕ) {r : PendingRequest}
    → IsMap d
    → find d id ≡ some r
    → waits_in d n ≡ waits_in (erase d id) n + (if r.promise == n then 1 else 0)
unfolding waits_in find erase
waits_in-erase [] id n m h = absurd (ground (arith, h))
waits_in-erase (e ∷ d) id n {r = r} m h = elim (Bool-cases (same e.0 id)) [
  | inl q ↦
      let alone = erase_absent d id (rw (sym ((same_iff e.0 id).0 q)) m.0) in
      let taken = sym (if_true (same e.0 id) _ _ q) ∙ h in
      let number : e.1.promise ≡ r.promise =
        ap (λ x. given x e.1.promise (λ (y : PendingRequest). y.promise)) taken in
      rw (q, alone) (ground (arith, number))
  | inr q ↦ rw q (omega (arith, waits_in-erase d id n {r = r} m.1 (ground (arith, h, q))))
]

-- A request leaves and its promise is settled.
left-IsOnce :
    (c : CorrelationManager) (id : String) (how : Ending) (ts : List (ℕ × String))
    {r : PendingRequest}
    → find c.pending_requests id ≡ some r
    → IsOnce c
    → IsOnce (record c {
      pending_requests = erase c.pending_requests id;
      timeouts = ts;
      settled = (r.promise, how) ∷ c.settled;
    })
unfolding IsOnce endings
left-IsOnce c id how ts e (m, h) = (
  IsMap-erase c.pending_requests id m,
  λ n. omega (arith, h n, waits_in-erase c.pending_requests id n m e),
)

handle_timeout-IsOnce :
    (id : String) (c : CorrelationManager) → IsOnce c → IsOnce (handle_timeout id c)
unfolding handle_timeout
handle_timeout-IsOnce id c h =
    given_lem IsOnce (find c.pending_requests id) _ _ (λ e. h)
      (λ r e. left-IsOnce c id timeout c.timeouts e h)

fire_timeout-IsOnce : (t : ℕ) (c : CorrelationManager) → IsOnce c → IsOnce (fire_timeout t c)
unfolding fire_timeout IsOnce
fire_timeout-IsOnce t c h =
    given_lem IsOnce (timeout_of c.timeouts t) _ _ (λ e. h) (λ id e. handle_timeout-IsOnce id c h)

reject_all_requests-endings :
    (d : Dict PendingRequest) (log : List (ℕ × Ending)) (n : ℕ)
    → endings (reject_all_requests d log) n ≡ waits_in d n + endings log n
unfolding reject_all_requests waits_in endings
reject_all_requests-endings [] log n = omega arith
reject_all_requests-endings (e ∷ d) log n =
    omega (arith, reject_all_requests-endings d ((e.1.promise, cleared) ∷ log) n)

step-IsOnce : (x : Call) (c : CorrelationManager) → IsOnce c → IsOnce (step x c)
unfolding step register_request handle_response clear_all_requests IsOnce waits_in
step-IsOnce (registering id) c (m, h) =
    given_lem (λ (x : CorrelationManager × Option ℕ). IsOnce x.0) (find c.pending_requests id) _ _
      (λ e. (
        IsMap-put c.pending_requests id _ m,
        λ n. ground (
          arith,
          h n,
          waits_in-put c.pending_requests id
              (record { promise = c.promises; timeout_id = c.id_counter }) n e,
        ),
      ))
      (λ r e. (m, h))
step-IsOnce (responding how id) c h =
    given_lem IsOnce (find c.pending_requests id) _ _ (λ e. h)
      (λ r e. left-IsOnce c id how (clear_timeout c.timeouts r.timeout_id) e h)
step-IsOnce (timing_out id) c h = handle_timeout-IsOnce id c h
step-IsOnce (firing t) c h = fire_timeout-IsOnce t c h
step-IsOnce clearing c (m, h) =
    (tt, λ n. omega (arith, h n, reject_all_requests-endings c.pending_requests c.settled n))

new_manager-IsOnce : IsOnce new_manager
unfolding IsOnce waits_in endings
new_manager-IsOnce = (tt, λ n. ground arith)

run-IsOnce : (xs : List Call) (c : CorrelationManager) → IsOnce c → IsOnce (run xs c)
unfolding run
run-IsOnce [] c h = h
run-IsOnce (x ∷ xs) c h = run-IsOnce xs (step x c) (step-IsOnce x c h)

promises-fire_timeout : (t : ℕ) (c : CorrelationManager) → (fire_timeout t c).promises ≡ c.promises
unfolding fire_timeout handle_timeout
promises-fire_timeout t c =
    given_lem (λ (x : CorrelationManager). x.promises ≡ c.promises) (timeout_of c.timeouts t) _ _
      (λ e. refl)
      (λ id e.
        given_lem (λ (x : CorrelationManager). x.promises ≡ c.promises) (find c.pending_requests id)
          _ _ (λ k. refl) (λ r k. refl))

fire_each-IsOnce :
    (es : List (ℕ × String)) (c : CorrelationManager)
    → IsOnce c
    → IsOnce (fire_each es c) × ((fire_each es c).promises ≡ c.promises)
unfolding fire_each
fire_each-IsOnce [] c h = (h, refl)
fire_each-IsOnce (e ∷ es) c h =
    let (k, p) = fire_each-IsOnce es (fire_timeout e.0 c) (fire_timeout-IsOnce e.0 c h) in
    (k, p ∙ promises-fire_timeout e.0 c)

empty_map : (d : Dict PendingRequest) → ((id : String) → find d id ≡ none) → d ≡ []
unfolding find
empty_map [] h = refl
empty_map (e ∷ d) h =
    absurd (ground (arith, sym (h e.0) ∙ if_true (same e.0 e.0) _ _ (same_refl e.0)))

-- Whatever requests, responses, errors, timeouts and clearings a new manager has seen: once the
-- timeouts that still wait have fired, no request waits, and every promise that was ever given out
-- has been settled exactly once.
pub run-settles :
    (xs : List Call) (n : ℕ)
    → n < (run xs new_manager).promises
    → let c = run xs new_manager in
      let c' = fire_each c.timeouts c in (c'.pending_requests ≡ []) × (endings c'.settled n ≡ 1)
unfolding IsOnce waits_in
run-settles xs n h =
    let c = run xs new_manager in
    let w = run-IsWatched xs new_manager new_manager-IsWatched in
    let ((m, k), p) =
      fire_each-IsOnce c.timeouts c (run-IsOnce xs new_manager new_manager-IsOnce) in
    let none_left = empty_map _ (λ id. fire_each_all c id w) in
    (none_left, ground (arith, k n, p, h, ap (λ d. waits_in d n) none_left))
