-- ===== src/Messaging/Correlation.antt =====
-- Requests that wait for a response: class PureXStateCorrelationManager of packages/
-- actor-core-runtime/src/pure-xstate-utilities.ts, with the timeouts of PureXStateTimeoutManager
-- that it uses. A promise and a timeout are numbers. The times that an error's text tells are left
-- out.
pub mod Watched
pub mod Settled
mod Examples
use actor_web.Common.{
  ℕ, ◌+◌, ◌<◌, Bool, List, [], ◌∷◌, ◌++◌, Option, none, some, String, ◌==◌, if◌then◌else◌, given,
  Dict, find, put, erase,
}

pub data Ending : Type 0 where
  response error timeout cleared : Ending

pub record PendingRequest : Type 0 where
  pub promise : ℕ
  pub timeout_id : ℕ

-- `timeouts` lists the timeouts that wait, each with the correlation id of its callback.
pub record CorrelationManager : Type 0 where
  pub pending_requests : Dict PendingRequest
  pub timeouts : List (ℕ × String)
  pub id_counter : ℕ
  pub promises : ℕ
  pub settled : List (ℕ × Ending)

abbrev pub new_manager : CorrelationManager
new_manager = record {
  pending_requests = [];
  timeouts = [];
  id_counter = 0;
  promises = 0;
  settled = [];
}

unfoldable pub timeout_of : List (ℕ × String) → ℕ → Option String
timeout_of [] t = none
timeout_of (e ∷ es) t = if e.0 == t then some e.1 else timeout_of es t

unfoldable pub clear_timeout : List (ℕ × String) → ℕ → List (ℕ × String)
clear_timeout [] t = []
clear_timeout (e ∷ es) t = if e.0 == t then clear_timeout es t else e ∷ clear_timeout es t

-- `registerRequest`: no promise if the id is in use.
unfoldable pub register_request : String → CorrelationManager → CorrelationManager × Option ℕ
register_request id c =
    given (find c.pending_requests id)
      (
        record c {
          pending_requests =
              put c.pending_requests id
                (record { promise = c.promises; timeout_id = c.id_counter });
          timeouts = (c.id_counter, id) ∷ c.timeouts;
          id_counter = c.id_counter + 1;
          promises = c.promises + 1;
        },
        some c.promises,
      )
      (λ r. (c, none))

-- `handleResponse` and `handleError`
unfoldable pub handle_response : Ending → String → CorrelationManager → CorrelationManager
unfolding clear_timeout
handle_response how id c = given (find c.pending_requests id) c (λ r. record c {
  pending_requests = erase c.pending_requests id;
  timeouts = clear_timeout c.timeouts r.timeout_id;
  settled = (r.promise, how) ∷ c.settled;
})

unfoldable pub handle_timeout : String → CorrelationManager → CorrelationManager
handle_timeout id c = given (find c.pending_requests id) c (λ r. record c {
  pending_requests = erase c.pending_requests id;
  settled = (r.promise, timeout) ∷ c.settled;
})

-- A timeout that waits fires: its callback runs, and it is removed.
unfoldable pub fire_timeout : ℕ → CorrelationManager → CorrelationManager
unfolding timeout_of handle_timeout clear_timeout
fire_timeout t c =
    given (timeout_of c.timeouts t) c
      (λ id. let c' = handle_timeout id c in record c' { timeouts = clear_timeout c'.timeouts t })

unfoldable pub reject_all_requests : Dict PendingRequest → List (ℕ × Ending) → List (ℕ × Ending)
reject_all_requests [] log = log
reject_all_requests (e ∷ d) log = reject_all_requests d ((e.1.promise, cleared) ∷ log)

unfoldable pub clear_all_requests : CorrelationManager → CorrelationManager
unfolding reject_all_requests
clear_all_requests c = record c {
  timeouts = [];
  pending_requests = [];
  settled = reject_all_requests c.pending_requests c.settled;
}

pub data Call : Type 0 where
  registering : String → Call
  responding : Ending → String → Call
  timing_out : String → Call
  firing : ℕ → Call
  clearing : Call

unfoldable pub step : Call → CorrelationManager → CorrelationManager
unfolding register_request handle_response handle_timeout fire_timeout clear_all_requests
step (registering id) c = (register_request id c).0
step (responding how id) c = handle_response how id c
step (timing_out id) c = handle_timeout id c
step (firing t) c = fire_timeout t c
step clearing c = clear_all_requests c

unfoldable pub run : List Call → CorrelationManager → CorrelationManager
unfolding step
run [] c = c
run (x ∷ xs) c = run xs (step x c)

-- All the timeouts of a list fire.
unfoldable pub fire_each : List (ℕ × String) → CorrelationManager → CorrelationManager
unfolding fire_timeout
fire_each [] c = c
fire_each (e ∷ es) c = fire_each es (fire_timeout e.0 c)
