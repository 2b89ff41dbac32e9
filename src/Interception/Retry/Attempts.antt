-- ===== src/Interception/Retry/Attempts.antt =====
-- What an open circuit lets through, and how often one message is retried.
use actor_web.Common.{
  ℕ, ◌+◌, ◌≤◌, ◌<◌, Bool, true, false, List, [], ◌∷◌, none, some, leb, ◌==◌, if◌then◌else◌, arith,
  ◌≡◌, ◌≢◌, refl, ap, ◌∙◌, inl, inr, All, length,
}
use actor_web.Interception.Retry.{
  RetryInterceptor, RetryOptions, opened, half_open, half_opens, Output, scheduled, exceeded,
  circuit_half_open, update, set_timeout, clear_timeout, open_circuit, half_open_circuit, tested,
  record_failure, record_success, Occurrence, attempt, on_error, on_task, on_timeout, Event, errors,
  times_out, delivery_fails, succeeds, resets, destroys, step, run, is_opened, base_delay,
}
use actor_web.Interception.Retry.Breaker.{step-IsBreaker}
use actor_web.Interception.Retry.Circuit.{IsBreaker, task_cases}

-- Neither the timeout `n` nor a manual reset nor `destroy`.
abbrev pub Other : ℕ → Event → Type 0
Other n (errors e) = Unit
Other n (times_out k) = k ≢ n
Other n (delivery_fails now) = Unit
Other n (succeeds m) = Unit
Other n resets = ⊥
Other n destroys = ⊥

-- The circuit is open and its timeout `n` waits.
abbrev pub Waits : ℕ → RetryInterceptor → Type 0
Waits n r = (r.circuit_state ≡ opened) × (r.reset_timer ≡ some n) × (r.timeouts n ≡ some half_opens)

timeout-Waits :
    {d : Bool} (n m : ℕ) (r : RetryInterceptor)
    → IsBreaker d r
    → Waits n r
    → m ≢ n
    → Waits n (on_timeout m r).0 × ((on_timeout m r).1 ≡ [])
unfolding on_timeout on_task clear_timeout update
timeout-Waits n m r v (o, t, w) k =
    let kept : (if n == m then none else r.timeouts n) ≡ some half_opens = ground (arith, w, k) in
    elim (task_cases (r.timeouts m)) [
      | inl e ↦ simp e ((o, t, kept), refl)
      | inr (inl e) ↦ absurd (ground (arith, v.only m e, t, k))
      | inr (inr (i, e)) ↦ simp (e, o) ((refl, t, kept), refl)
    ]

step-Waits :
    {d : Bool} (n : ℕ) (e : Event) (r : RetryInterceptor)
    → IsBreaker d r
    → Waits n r
    → Other n e
    → Waits n (step e r).0 × ((step e r).1 ≡ [])
unfolding step on_error record_failure record_success
step-Waits n (errors e) r v (o, t, w) k = simp o ((refl, t, w), refl)
step-Waits n (times_out m) r v w k = timeout-Waits n m r v w k
step-Waits n (delivery_fails now) r v (o, t, w) k = simp o ((refl, t, w), refl)
step-Waits n (succeeds m) r v (o, t, w) k = simp o ((refl, t, w), refl)
step-Waits n resets r v w k = absurd k
step-Waits n destroys r v w k = absurd k

-- While the circuit of a valid interceptor is open, nothing is scheduled, delivered or reported,
-- whatever errors, failed deliveries, successes and other timeouts come, until its timeout
-- comes, the circuit is reset or the interceptor is destroyed; the timeout keeps waiting meanwhile, and half-opens the circuit when it
-- comes.
pub run-Waits :
    (n : ℕ) (es : List Event) {d : Bool} (r : RetryInterceptor)
    → IsBreaker d r
    → Waits n r
    → All (Other n) es
    → ((run es r).1 ≡ [])
      × Waits n (run es r).0
      × ((step (times_out n) (run es r).0).0.circuit_state ≡ half_open)
      × ((step (times_out n) (run es r).0).1 ≡ circuit_half_open ∷ [])
unfolding run step on_timeout on_task clear_timeout half_open_circuit
run-Waits n [] r v (o, t, w) k = (refl, (o, t, w), simp w refl, simp w refl)
run-Waits n (e ∷ es) r v w (k, ks) =
    let (x, p) = step-Waits n e r v w k in
    let (q, y, z, u) = run-Waits n es (step e r).0 (step-IsBreaker e r v) x ks in
    (simp (p, q) refl, y, z, u)

-- An error of the message that may be retried.
abbrev pub Eligible : ℕ → Occurrence → Type 0
Eligible m e = (e.message ≡ m) × (e.should_retry ≡ true) × (e.is_retryable ≡ true)

-- The schedule of the next retries of a message after `a` attempts.
unfoldable pub schedule : RetryOptions → ℕ → ℕ → List Occurrence → List Output
schedule o m a [] = []
schedule o m a (e ∷ es) = scheduled m (a + 1) (base_delay o (a + 1)) ∷ schedule o m (a + 1) es

abbrev pub all_errors : List Occurrence → List Event
all_errors [] = []
all_errors (e ∷ es) = errors e ∷ all_errors es

on_error_next :
    (m : ℕ) (e : Occurrence) (r : RetryInterceptor)
    → is_opened r.circuit_state ≡ false
    → Eligible m e
    → r.attempts m + 1 < r.options.max_retries
    → ((on_error e r).1
        ≡ scheduled m (r.attempts m + 1) (base_delay r.options (r.attempts m + 1)) ∷ [])
      × ((on_error e r).0.attempts m ≡ r.attempts m + 1)
      × ((on_error e r).0.circuit_state ≡ r.circuit_state)
      × ((on_error e r).0.options ≡ r.options)
unfolding on_error attempt set_timeout update
on_error_next m e r o (i, s, t) l =
    let d : leb r.options.max_retries (r.attempts m + 1) ≡ false = ground (arith, l) in
    let q : (m == m) ≡ true = ground arith in simp (o, i, s, t, d, q) (refl, refl, refl, refl)

attempts-record_failure :
    (now : ℕ) (r : RetryInterceptor) (m : ℕ) → (record_failure now r).0.attempts m ≡ r.attempts m
unfolding record_failure tested open_circuit set_timeout
attempts-record_failure now r m = ground arith

on_error_last :
    (m : ℕ) (e : Occurrence) (r : RetryInterceptor)
    → is_opened r.circuit_state ≡ false
    → Eligible m e
    → r.options.max_retries ≤ r.attempts m + 1
    → (outputs : List Output) × ((on_error e r).1 ≡ exceeded m ∷ outputs)
      × ((on_error e r).0.attempts m ≡ 0)
unfolding on_error attempt update
on_error_last m e r o (i, s, t) l =
    let d : leb r.options.max_retries (r.attempts m + 1) ≡ true = ground (arith, l) in
    let q : (m == m) ≡ true = ground arith in
    let r' : RetryInterceptor = record r { attempts = update m 0 r.attempts } in
    simp (o, i, s, t, d)
      (
        (record_failure e.occurred_at r').1,
        refl,
        attempts-record_failure e.occurred_at r' m ∙ simp q refl,
      )

run-schedule :
    (m : ℕ) (es : List Occurrence) (r : RetryInterceptor)
    → is_opened r.circuit_state ≡ false
    → All (Eligible m) es
    → r.attempts m + length es < r.options.max_retries
    → ((run (all_errors es) r).1 ≡ schedule r.options m (r.attempts m) es)
      × ((run (all_errors es) r).0.attempts m ≡ r.attempts m + length es)
      × ((run (all_errors es) r).0.circuit_state ≡ r.circuit_state)
      × ((run (all_errors es) r).0.options ≡ r.options)
unfolding run step schedule
run-schedule m [] r o k l = (refl, omega arith, refl, refl)
run-schedule m (e ∷ es) r o (k, ks) l =
    let (p, a, c, q) = on_error_next m e r o k (omega (arith, l)) in
    let (x, b, d, y) =
      run-schedule m es (on_error e r).0 (ap is_opened c ∙ o) ks
        (omega (arith, l, a, ap (λ (z : RetryOptions). z.max_retries) q)) in
    (simp (p, x, a, q) refl, omega (arith, a, b), d ∙ c, y ∙ q)

-- A message that has not been retried, whose circuit is not open and which fails again and again,
-- with nothing between, is retried one time fewer than `maxRetries` says, with delays by the number
-- of the attempt; at the failure after these it is given up, and forgotten.
pub run_retries :
    (m : ℕ) (es : List Occurrence) (e : Occurrence) (r : RetryInterceptor)
    → is_opened r.circuit_state ≡ false
    → r.attempts m ≡ 0
    → All (Eligible m) es
    → Eligible m e
    → length es + 1 ≡ r.options.max_retries
    → ((run (all_errors es) r).1 ≡ schedule r.options m 0 es)
      × ((outputs : List Output) × ((on_error e (run (all_errors es) r).0).1 ≡ exceeded m ∷ outputs)
          × ((on_error e (run (all_errors es) r).0).0.attempts m ≡ 0))
run_retries m es e r o z k h l =
    let (x, b, d, y) = run-schedule m es r o k (omega (arith, z, l)) in
    (
      x ∙ ap (λ (a : ℕ). schedule r.options m a es) z,
      on_error_last m e (run (all_errors es) r).0 (ap is_opened d ∙ o) h
          (omega (arith, z, l, b, ap (λ (o : RetryOptions). o.max_retries) y)),
    )
