-- ===== src/Interception/Retry/Breaker.antt =====
-- Over a run, an open circuit has the one timeout that will half-open it, unless it was destroyed:
-- packages/actor-core-runtime/src/interceptors/retry-interceptor.ts.
use actor_web.Common.{Bool, true, false, ◌&&◌, ◌||◌, List, [], ◌∷◌, arith}
use actor_web.Interception.Retry.{
  RetryInterceptor, Event, errors, times_out, delivery_fails, succeeds, resets, destroys, step, run,
  is_opened,
}
use actor_web.Interception.Retry.Circuit.{
  IsBreaker, on_error-IsBreaker, on_timeout-IsBreaker, record_failure-IsBreaker,
  record_success-IsBreaker, close_circuit-IsBreaker, destroy-IsBreaker,
}

abbrev pub is_destroys : Event → Bool
is_destroys destroys = true
is_destroys _ = false

IsBreaker-happens :
    {d : Bool} (e : Event) (r : RetryInterceptor)
    → IsBreaker d r
    → IsBreaker (is_destroys e || d) (step e r).0
unfolding step
IsBreaker-happens (errors e) r v = on_error-IsBreaker e r v
IsBreaker-happens (times_out n) r v = on_timeout-IsBreaker n r v
IsBreaker-happens (delivery_fails now) r v = record_failure-IsBreaker now r v
IsBreaker-happens (succeeds m) r v = record_success-IsBreaker m r v
IsBreaker-happens resets r v = close_circuit-IsBreaker r v
IsBreaker-happens destroys r v = destroy-IsBreaker r v

-- What was destroyed before the circuit opened does not matter.
IsBreaker-since :
    {d : Bool} (r : RetryInterceptor) → IsBreaker d r → IsBreaker (is_opened r.circuit_state && d) r
IsBreaker-since r v = record {
  unused = v.unused;
  only = v.only;
  armed = λ h k. v.armed h (ground (arith, h, k));
  below = v.below;
}

-- Whether `destroy` has been called since the circuit opened, after an event.
abbrev pub destroyed_after : Event → RetryInterceptor → Bool → Bool
destroyed_after e r d = is_opened (step e r).0.circuit_state && (is_destroys e || d)

unfoldable pub destroyed_in : List Event → RetryInterceptor → Bool → Bool
destroyed_in [] r d = d
destroyed_in (e ∷ es) r d = destroyed_in es (step e r).0 (destroyed_after e r d)

pub step-IsBreaker :
    {d : Bool} (e : Event) (r : RetryInterceptor)
    → IsBreaker d r
    → IsBreaker (destroyed_after e r d) (step e r).0
step-IsBreaker e r v = IsBreaker-since (step e r).0 (IsBreaker-happens e r v)

-- Whatever happens to a valid interceptor, it stays valid: a timeout waits that will half-open the
-- circuit only if the circuit is open, and is then the one known as the reset timer; if the circuit
-- is open, such a timeout waits, unless `destroy` has been called since the circuit opened; and a
-- closed circuit has fewer failures than the threshold, if that is positive.
pub run-IsBreaker :
    (es : List Event) {d : Bool} (r : RetryInterceptor)
    → IsBreaker d r
    → IsBreaker (destroyed_in es r d) (run es r).0
unfolding run destroyed_in
run-IsBreaker [] r v = v
run-IsBreaker (e ∷ es) r v = run-IsBreaker es (step e r).0 (step-IsBreaker e r v)
