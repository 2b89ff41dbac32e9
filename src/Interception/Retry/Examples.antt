-- ===== src/Interception/Retry/Examples.antt =====
-- An interceptor with the default options.
use actor_web.Common.{
  ℕ, true, false, List, [], ◌∷◌, ◌≡◌, refl, none, some, arith, ◌==◌, if◌then◌else◌,
}
use actor_web.Interception.Retry.{
  RetryInterceptor, RetryOptions, opened, half_open, half_opens, Output, scheduled, exceeded,
  circuit_half_open, update, set_timeout, clear_timeout, open_circuit, half_open_circuit,
  close_circuit, without_reset, tested, record_failure, record_success, Occurrence, attempt,
  on_error, on_task, on_timeout, errors, times_out, delivery_fails, resets, destroys, destroy,
  Event, step, run, base_delay, defaults, new_interceptor,
}
use actor_web.Interception.Retry.Breaker.{run-IsBreaker, destroyed_in}
use actor_web.Interception.Retry.Circuit.{IsBreaker}
use actor_web.Interception.Retry.Attempts.{run-Waits, run_retries, all_errors, schedule}

program : Unit {0}
unfolding update set_timeout clear_timeout open_circuit half_open_circuit close_circuit
    without_reset tested record_failure record_success attempt on_error on_task on_timeout destroy
    step run base_delay schedule
program = tt

abbrev fails : ℕ → Occurrence
fails m = record { message = m; should_retry = true; is_retryable = true; occurred_at = 9 }

abbrev strict : RetryInterceptor
strict = new_interceptor (record defaults { circuit_threshold = 1 })

two_retries :
    (run (errors (fails 7) ∷ errors (fails 7) ∷ []) (new_interceptor defaults)).1
    ≡ scheduled 7 1 100 ∷ scheduled 7 2 200 ∷ []
unfolding program
two_retries = refl

new-IsBreaker : (o : RetryOptions) → IsBreaker false (new_interceptor o)
new-IsBreaker o = record {
  unused = λ n h. refl;
  only = λ n h. absurd (ground (arith, h));
  armed = λ h k. absurd (ground (arith, h));
  below = λ h l. omega (arith, l);
}

-- A circuit that opened, was destroyed and was reset has a timeout when it opens again.
abbrev destroying : List Event
destroying = delivery_fails 3 ∷ destroys ∷ resets ∷ delivery_fails 5 ∷ []

run-IsBreaker_example : IsBreaker false (run destroying strict).0
unfolding program destroyed_in
run-IsBreaker_example =
    run-IsBreaker destroying strict (new-IsBreaker (record defaults { circuit_threshold = 1 }))

abbrev broken : RetryInterceptor
broken = record strict {
  failures = 1;
  circuit_state = opened;
  circuit_opened_at = 3;
  reset_timer = some 0;
  next_timeout = 1;
  timeouts = λ n. if n == 0 then some half_opens else none;
}

broken-IsBreaker : IsBreaker false broken
broken-IsBreaker = record {
  unused = λ n h. ground (arith, h);
  only = λ n h. (refl, ground (arith, h));
  armed = λ h k. (0, refl, refl);
  below = λ h l. absurd (ground (arith, h));
}

run-Waits_example :
    ((run (errors (fails 7) ∷ times_out 5 ∷ []) broken).1 ≡ [])
    × (((run (errors (fails 7) ∷ times_out 5 ∷ []) broken).0.circuit_state ≡ opened)
        × ((run (errors (fails 7) ∷ times_out 5 ∷ []) broken).0.reset_timer ≡ some 0)
        × ((run (errors (fails 7) ∷ times_out 5 ∷ []) broken).0.timeouts 0 ≡ some half_opens))
    × ((step (times_out 0) (run (errors (fails 7) ∷ times_out 5 ∷ []) broken).0).0.circuit_state
        ≡ half_open)
    × ((step (times_out 0) (run (errors (fails 7) ∷ times_out 5 ∷ []) broken).0).1
        ≡ circuit_half_open ∷ [])
run-Waits_example =
    run-Waits 0 (errors (fails 7) ∷ times_out 5 ∷ []) broken broken-IsBreaker (refl, refl, refl)
      (tt, ((λ e. omega (arith, e)), tt))

run_retries_example :
    ((run (all_errors (fails 7 ∷ fails 7 ∷ [])) (new_interceptor defaults)).1
      ≡ schedule defaults 7 0 (fails 7 ∷ fails 7 ∷ []))
    × ((outputs : List Output) × ((on_error
            (fails 7)
            (run (all_errors (fails 7 ∷ fails 7 ∷ [])) (new_interceptor defaults)).0).1
          ≡ exceeded 7 ∷ outputs)
        × ((on_error
                (fails 7)
                (run (all_errors (fails 7 ∷ fails 7 ∷ [])) (new_interceptor defaults)).0).0.attempts
              7
            ≡ 0))
run_retries_example =
    run_retries 7 (fails 7 ∷ fails 7 ∷ []) (fails 7) (new_interceptor defaults) refl refl
      ((refl, refl, refl), ((refl, refl, refl), tt)) (refl, refl, refl) refl
