-- ===== src/Interception/Retry/Circuit.antt =====
-- Each operation of the interceptor keeps the circuit valid: packages/actor-core-runtime/src/
-- interceptors/retry-interceptor.ts.
use actor_web.Common.{
  ℕ, ◌+◌, ◌≤◌, ◌<◌, Bool, true, false, not, ◌&&◌, ◌||◌, Option, none, some, leb, arith, ◌≡◌, refl,
  Bool-cases, inl, inr, ◌⊎◌,
}
use actor_web.Interception.Retry.{
  RetryInterceptor, CircuitState, closed, opened, half_open, Task, retries, half_opens, update,
  set_timeout, clear_timeout, open_circuit, half_open_circuit, close_circuit, without_reset, tested,
  record_failure, record_success, Occurrence, attempt, on_error, on_task, on_timeout, destroy,
  is_opened, is_closed, is_half_open,
}

-- The timeouts that half-open the circuit are: one, known as the reset timer, if the circuit is
-- open and was not destroyed since, and none if it is not open; and a closed circuit has not
-- reached the threshold.
pub record IsBreaker (destroyed : Bool) (r : RetryInterceptor) : Type 0 where
  pub unused : (n : ℕ) → r.next_timeout ≤ n → r.timeouts n ≡ none
  pub only :
      (n : ℕ)
      → r.timeouts n ≡ some half_opens
      → (r.circuit_state ≡ opened) × (r.reset_timer ≡ some n)
  pub armed :
      r.circuit_state ≡ opened
      → destroyed ≡ false
      → (n : ℕ) × (r.reset_timer ≡ some n) × (r.timeouts n ≡ some half_opens)
  pub below :
      r.circuit_state ≡ closed
      → 0 < r.options.circuit_threshold
      → r.failures < r.options.circuit_threshold

set_timeout-IsBreaker :
    {d : Bool} (m : ℕ) (r : RetryInterceptor)
    → IsBreaker d r
    → IsBreaker d (set_timeout (retries m) r)
unfolding set_timeout update
set_timeout-IsBreaker m r v = record {
  unused = λ n h. ground (arith, v.unused n, h);
  only = λ n h. ground (arith, v.only n, h);
  armed = λ h k. let (n, e, f) = v.armed h k in (n, e, ground (arith, f, v.unused r.next_timeout));
  below = v.below;
}

open_circuit-IsBreaker :
    {d : Bool} (now : ℕ) (r : RetryInterceptor)
    → is_opened r.circuit_state ≡ false
    → ((n : ℕ) → r.next_timeout ≤ n → r.timeouts n ≡ none)
    → ((n : ℕ) → r.timeouts n ≡ some half_opens → ⊥)
    → IsBreaker d (open_circuit now r).0
unfolding open_circuit set_timeout update
open_circuit-IsBreaker now r e f g = simp e (record {
  unused = λ n h. ground (arith, f n, h);
  only = λ n h. (refl, ground (arith, g n, h));
  armed = λ h k. (r.next_timeout, refl, ground arith);
  below = λ h. absurd (ground (arith, h));
})

-- Other fields than those of the circuit may be changed.
IsBreaker-failures :
    {d : Bool} (r : RetryInterceptor) (k : ℕ)
    → IsBreaker d r
    → (r.circuit_state ≡ closed → 0 < r.options.circuit_threshold → k < r.options.circuit_threshold)
    → IsBreaker d (record r { failures = k })
IsBreaker-failures r k v b = record { unused = v.unused; only = v.only; armed = v.armed; below = b }

IsBreaker-attempts :
    {d : Bool} (r : RetryInterceptor) (a : ℕ → ℕ)
    → IsBreaker d r
    → IsBreaker d (record r { attempts = a })
IsBreaker-attempts r a v = record {
  unused = v.unused;
  only = v.only;
  armed = v.armed;
  below = v.below;
}

tested-IsBreaker :
    {d : Bool} (c : CircuitState) (now : ℕ) (r : RetryInterceptor)
    → r.circuit_state ≡ c
    → IsBreaker d r
    → IsBreaker d (tested c now (record r { failures = r.failures + 1 })).0
unfolding tested
tested-IsBreaker opened now r e v =
    IsBreaker-failures r (r.failures + 1) v (λ h. absurd (ground (arith, h, e)))
tested-IsBreaker half_open now r e v =
    open_circuit-IsBreaker now (record r { failures = r.failures + 1 }) (ground (arith, e)) v.unused
      (λ n h. ground (arith, v.only n h, e))
tested-IsBreaker closed now r e v =
    elim (Bool-cases (leb r.options.circuit_threshold (r.failures + 1))) [
      | inl d ↦ simp d (
          open_circuit-IsBreaker now (record r { failures = r.failures + 1 }) (ground (arith, e))
            v.unused (λ n h. ground (arith, v.only n h, e)))
      | inr d ↦ simp d (IsBreaker-failures r (r.failures + 1) v (λ h z. ground (arith, d)))
    ]

pub record_failure-IsBreaker :
    {d : Bool} (now : ℕ) (r : RetryInterceptor)
    → IsBreaker d r
    → IsBreaker d (record_failure now r).0
unfolding record_failure
record_failure-IsBreaker now r v = tested-IsBreaker r.circuit_state now r refl v

without_reset-IsBreaker :
    {d : Bool} (o : Option ℕ) (r : RetryInterceptor)
    → r.circuit_state ≡ closed
    → r.failures ≡ 0
    → ((n : ℕ) → r.next_timeout ≤ n → r.timeouts n ≡ none)
    → ((n : ℕ) → r.timeouts n ≡ some half_opens → o ≡ some n)
    → IsBreaker d (without_reset o r)
unfolding without_reset clear_timeout update
without_reset-IsBreaker none r e z f g = record {
  unused = f;
  only = λ n h. absurd (ground (arith, g n h));
  armed = λ h k. absurd (ground (arith, h, e));
  below = λ h l. omega (arith, z, l);
}
without_reset-IsBreaker (some k) r e z f g = record {
  unused = λ n h. ground (arith, f n, h);
  only = λ n h. absurd (ground (arith, g n, h));
  armed = λ h k. absurd (ground (arith, h, e));
  below = λ h l. omega (arith, z, l);
}

pub close_circuit-IsBreaker :
    {d : Bool} (r : RetryInterceptor) → IsBreaker d r → IsBreaker d (close_circuit r).0
unfolding close_circuit
close_circuit-IsBreaker r v = elim (Bool-cases (is_closed r.circuit_state)) [
  | inl e ↦ simp e v
  | inr e ↦ simp e (
      without_reset-IsBreaker r.reset_timer (record r { circuit_state = closed; failures = 0 }) refl
        refl v.unused (λ n h. (v.only n h).1))
]

pub record_success-IsBreaker :
    {d : Bool} (m : ℕ) (r : RetryInterceptor) → IsBreaker d r → IsBreaker d (record_success m r).0
unfolding record_success
record_success-IsBreaker m r v =
    let w = IsBreaker-attempts r (update m 0 r.attempts) v in
    elim (Bool-cases (is_half_open r.circuit_state)) [
      | inl e ↦ simp e (close_circuit-IsBreaker (record r { attempts = update m 0 r.attempts }) w)
      | inr e ↦ simp e w
    ]

pub on_error-IsBreaker :
    {d : Bool} (e : Occurrence) (r : RetryInterceptor)
    → IsBreaker d r
    → IsBreaker d (on_error e r).0
unfolding on_error attempt
on_error-IsBreaker e r v =
    elim (Bool-cases (is_opened r.circuit_state || not (e.should_retry && e.is_retryable))) [
      | inl d ↦ simp d v
      | inr d ↦ elim (Bool-cases (leb r.options.max_retries (r.attempts e.message + 1))) [
        | inl c ↦
            simp (d, c)
              (record_failure-IsBreaker e.occurred_at _
                (IsBreaker-attempts r (update e.message 0 r.attempts) v))
        | inr c ↦
            simp (d, c)
              (set_timeout-IsBreaker e.message _
                (IsBreaker-attempts r (update e.message (r.attempts e.message + 1) r.attempts) v))
      ]
    ]

clear_timeout-IsBreaker :
    {d : Bool} (n m : ℕ) (r : RetryInterceptor)
    → r.timeouts n ≡ some (retries m)
    → IsBreaker d r
    → IsBreaker d (clear_timeout n r)
unfolding clear_timeout update
clear_timeout-IsBreaker n m r e v = record {
  unused = λ k h. ground (arith, v.unused k, h);
  only = λ k h. ground (arith, v.only k, h);
  armed = λ h k. let (j, p, q) = v.armed h k in (j, p, ground (arith, q, e));
  below = v.below;
}

pub task_cases :
    (o : Option Task) → (o ≡ none) ⊎ (o ≡ some half_opens) ⊎ ((m : ℕ) × (o ≡ some (retries m)))
task_cases none = inl refl
task_cases (some half_opens) = inr (inl refl)
task_cases (some (retries m)) = inr (inr (m, refl))

clear_absent-IsBreaker :
    {d : Bool} (n : ℕ) (r : RetryInterceptor)
    → r.timeouts n ≡ none
    → IsBreaker d r
    → IsBreaker d (clear_timeout n r)
unfolding clear_timeout update
clear_absent-IsBreaker n r e v = record {
  unused = λ k h. ground (arith, v.unused k, h);
  only = λ k h. ground (arith, v.only k, h);
  armed = λ h k. let (j, p, q) = v.armed h k in (j, p, ground (arith, q, e));
  below = v.below;
}

-- When the reset timer comes: no timeout is left that half-opens the circuit.
fired-IsBreaker :
    {d : Bool} (n : ℕ) (r : RetryInterceptor)
    → r.timeouts n ≡ some half_opens
    → IsBreaker d r
    → IsBreaker d (half_open_circuit (clear_timeout n r)).0
unfolding half_open_circuit clear_timeout update
fired-IsBreaker n r e v = record {
  unused = λ k h. ground (arith, v.unused k, h);
  only = λ k h. absurd (ground (arith, v.only k, v.only n e, h));
  armed = λ h k. absurd (ground (arith, h));
  below = λ h. absurd (ground (arith, h));
}

pub on_timeout-IsBreaker :
    {d : Bool} (n : ℕ) (r : RetryInterceptor) → IsBreaker d r → IsBreaker d (on_timeout n r).0
unfolding on_timeout on_task
on_timeout-IsBreaker n r v = elim (task_cases (r.timeouts n)) [
  | inl e ↦ simp e (clear_absent-IsBreaker n r e v)
  | inr (inl e) ↦ simp e (fired-IsBreaker n r e v)
  | inr (inr (m, e)) ↦ elim (Bool-cases (is_opened r.circuit_state)) [
    | inl d ↦ simp (e, d) (clear_timeout-IsBreaker n m r e v)
    | inr d ↦ simp (e, d) (clear_timeout-IsBreaker n m r e v)
  ]
]

pub destroy-IsBreaker :
    {d : Bool} (r : RetryInterceptor) → IsBreaker d r → IsBreaker true (destroy r)
unfolding destroy
destroy-IsBreaker r v = record {
  unused = λ n h. refl;
  only = λ n h. absurd (ground (arith, h));
  armed = λ h k. absurd (ground (arith, k));
  below = v.below;
}
