-- ===== src/Interception/Retry.antt =====
-- Retries with a circuit breaker: class RetryInterceptor of packages/actor-core-runtime/src/
-- interceptors/retry-interceptor.ts, with the timeouts of pure-xstate-utilities.ts beside it
-- (PureXStateTimeoutManager). Messages are numbers, for their identity as objects; what the
-- predicates say of a message and its error, and the clock, are given with each error. Options are
-- natural numbers. The random jitter of a delay and logging are left out, and the callbacks are
-- outputs.
use actor_web.Common.{
  ℕ, zero, suc, ◌+◌, ◌-◌, ◌*◌, ◌^◌, min, Bool, true, false, not, ◌&&◌, ◌||◌, List, [], ◌∷◌, ◌++◌,
  Option, none, some, ltb, leb, ◌==◌, if◌then◌else◌,
}
pub mod Circuit
pub mod Breaker
pub mod Attempts
mod Examples

pub record RetryOptions : Type 0 where
  pub max_retries : ℕ
  pub initial_delay : ℕ
  pub max_delay : ℕ
  pub backoff_multiplier : ℕ
  pub circuit_threshold : ℕ
  pub circuit_reset_timeout : ℕ

pub data CircuitState : Type 0 where
  closed opened half_open : CircuitState

-- What a timeout calls: `retryMessage` of a message, or `halfOpenCircuit`.
pub data Task : Type 0 where
  retries : ℕ → Task
  half_opens : Task

pub data Output : Type 0 where
  scheduled : (message : ℕ) → (attempt : ℕ) → (base_delay : ℕ) → Output
  exceeded : (message : ℕ) → Output
  delivered : (message : ℕ) → Output
  circuit_open circuit_close circuit_half_open : Output

-- `attempts` is that of a message's metadata, and 0 if it has none.
pub record RetryInterceptor : Type 0 where
  pub options : RetryOptions
  pub attempts : ℕ → ℕ
  pub failures : ℕ
  pub circuit_state : CircuitState
  pub circuit_opened_at : ℕ
  pub reset_timer : Option ℕ
  pub next_timeout : ℕ
  pub timeouts : ℕ → Option Task

abbrev pub defaults : RetryOptions
defaults = record {
  max_retries = 3;
  initial_delay = 100;
  max_delay = 10000;
  backoff_multiplier = 2;
  circuit_threshold = 10;
  circuit_reset_timeout = 60000;
}

abbrev pub new_interceptor : RetryOptions → RetryInterceptor
new_interceptor options = record {
  options = options;
  attempts = λ m. 0;
  failures = 0;
  circuit_state = closed;
  circuit_opened_at = 0;
  reset_timer = none;
  next_timeout = 0;
  timeouts = λ n. none;
}

-- A function changed at one number: the writes to the maps of metadata and of timeouts.
unfoldable pub update {ℓ} : {A : Type ℓ} → ℕ → A → (ℕ → A) → ℕ → A
update n a f k = if k == n then a else f k

unfoldable pub set_timeout : Task → RetryInterceptor → RetryInterceptor
unfolding update
set_timeout task r = record r {
  next_timeout = r.next_timeout + 1;
  timeouts = update r.next_timeout (some task) r.timeouts;
}

unfoldable pub clear_timeout : ℕ → RetryInterceptor → RetryInterceptor
unfolding update
clear_timeout n r = record r { timeouts = update n none r.timeouts }

abbrev pub is_opened : CircuitState → Bool
is_opened opened = true
is_opened closed = false
is_opened half_open = false

unfoldable pub open_circuit : ℕ → RetryInterceptor → RetryInterceptor × List Output
unfolding set_timeout
open_circuit now r = if is_opened r.circuit_state then (r, []) else (
  record (set_timeout half_opens r) {
    circuit_state = opened;
    circuit_opened_at = now;
    reset_timer = some r.next_timeout;
  },
  circuit_open ∷ [],
)

unfoldable pub half_open_circuit : RetryInterceptor → RetryInterceptor × List Output
half_open_circuit r =
    (record r { circuit_state = half_open; reset_timer = none }, circuit_half_open ∷ [])

unfoldable pub without_reset : Option ℕ → RetryInterceptor → RetryInterceptor
unfolding clear_timeout
without_reset none r = r
without_reset (some n) r = record (clear_timeout n r) { reset_timer = none }

abbrev pub is_closed : CircuitState → Bool
is_closed closed = true
is_closed opened = false
is_closed half_open = false

unfoldable pub close_circuit : RetryInterceptor → RetryInterceptor × List Output
unfolding without_reset
close_circuit r = if is_closed r.circuit_state then (r, []) else (
  without_reset r.reset_timer (record r { circuit_state = closed; failures = 0 }),
  circuit_close ∷ [],
)

unfoldable pub tested : CircuitState → ℕ → RetryInterceptor → RetryInterceptor × List Output
unfolding open_circuit
tested half_open now r = open_circuit now r
tested closed now r =
    if leb r.options.circuit_threshold r.failures then open_circuit now r else (r, [])
tested opened now r = (r, [])

unfoldable pub record_failure : ℕ → RetryInterceptor → RetryInterceptor × List Output
unfolding tested
record_failure now r = tested r.circuit_state now (record r { failures = r.failures + 1 })

abbrev pub is_half_open : CircuitState → Bool
is_half_open half_open = true
is_half_open closed = false
is_half_open opened = false

unfoldable pub record_success : ℕ → RetryInterceptor → RetryInterceptor × List Output
unfolding close_circuit update
record_success message r =
    let r' = record r { attempts = update message 0 r.attempts } in
    if is_half_open r.circuit_state then close_circuit r' else (r', [])

-- An error with what `shouldRetry` and `isRetryable` say of it.
pub record Occurrence : Type 0 where
  pub message : ℕ
  pub should_retry : Bool
  pub is_retryable : Bool
  pub occurred_at : ℕ

unfoldable pub base_delay : RetryOptions → ℕ → ℕ
base_delay o attempts = min (o.initial_delay * o.backoff_multiplier ^ (attempts - 1)) o.max_delay

-- The rest of `onError` for an error that is to be retried.
unfoldable pub attempt : Occurrence → RetryInterceptor → RetryInterceptor × List Output
unfolding update record_failure set_timeout base_delay
attempt e r =
    let n = r.attempts e.message + 1 in
    if leb r.options.max_retries n
    then (let (r', outputs) =
          record_failure e.occurred_at (record r { attempts = update e.message 0 r.attempts }) in
        (r', exceeded e.message ∷ outputs))
    else (
      set_timeout (retries e.message) (record r { attempts = update e.message n r.attempts }),
      scheduled e.message n (base_delay r.options n) ∷ [],
    )

unfoldable pub on_error : Occurrence → RetryInterceptor → RetryInterceptor × List Output
unfolding attempt
on_error e r =
    if is_opened r.circuit_state || not (e.should_retry && e.is_retryable)
    then (r, [])
    else attempt e r

-- A timeout that comes: `retryMessage` up to the delivery, which is awaited.
unfoldable pub on_task : Option Task → RetryInterceptor → RetryInterceptor × List Output
unfolding half_open_circuit
on_task none r = (r, [])
on_task (some half_opens) r = half_open_circuit r
on_task (some (retries message)) r =
    if is_opened r.circuit_state then (r, []) else (r, delivered message ∷ [])

unfoldable pub on_timeout : ℕ → RetryInterceptor → RetryInterceptor × List Output
unfolding on_task clear_timeout
on_timeout n r = on_task (r.timeouts n) (clear_timeout n r)

-- All timeouts are cancelled and all metadata is forgotten; the circuit is left as it is.
unfoldable pub destroy : RetryInterceptor → RetryInterceptor
destroy r = record r { attempts = λ m. 0; timeouts = λ n. none }

-- What happens to an interceptor. A delivery that fails, or has no actor, may end at any time.
pub data Event : Type 0 where
  errors : Occurrence → Event
  times_out : ℕ → Event
  delivery_fails : (now : ℕ) → Event
  succeeds : (message : ℕ) → Event
  resets destroys : Event

unfoldable pub step : Event → RetryInterceptor → RetryInterceptor × List Output
unfolding on_error on_timeout record_failure record_success close_circuit destroy
step (errors e) r = on_error e r
step (times_out n) r = on_timeout n r
step (delivery_fails now) r = record_failure now r
step (succeeds message) r = record_success message r
step resets r = close_circuit r
step destroys r = (destroy r, [])

unfoldable pub run : List Event → RetryInterceptor → RetryInterceptor × List Output
unfolding step
run [] r = (r, [])
run (e ∷ es) r =
    let (r', outputs) = step e r in let (r'', more) = run es r' in (r'', outputs ++ more)
