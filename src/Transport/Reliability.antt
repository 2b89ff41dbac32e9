-- ===== src/Transport/Reliability.antt =====
-- The deciders of packages/actor-core-runtime/src/transport/transport-reliability.ts, and the ack
-- timer of transport-core.ts that calls one of them. Times are in milliseconds. The source
-- compares differences of times, written here as sums: a clock that went back makes a difference
-- negative, and so less than any timeout. A timeout, or bound on retries, below 0 acts as 0.
use actor_web.Common.{
  ℕ, zero, suc, ◌+◌, ◌<◌, Bool, true, false, not, ◌&&◌, ◌||◌, List, [], ◌∷◌, Option, none, some,
  ltb, leb, ◌==◌, if◌then◌else◌,
}
pub mod Retries
mod Examples

-- A limit that may be negative.
pub data ℤ : Type 0 where
  pos : ℕ → ℤ
  negsuc : ℕ → ℤ

pub record AckRetryState : Type 0 where
  pub attempts : ℕ
  pub last_sent_at_ms : ℕ

pub record AckRetryConfig : Type 0 where
  pub ack_timeout_ms : ℕ
  pub max_ack_retries : ℕ

pub data AckRetryVerdict : Type 0 where
  wait retry give_up : AckRetryVerdict

unfoldable pub resolve_ack_retry : AckRetryState → ℕ → AckRetryConfig → AckRetryVerdict
resolve_ack_retry pending now cfg =
    if cfg.ack_timeout_ms == 0 || cfg.max_ack_retries == 0
    then give_up
    else if ltb now (pending.last_sent_at_ms + cfg.ack_timeout_ms)
    then wait
    else if leb cfg.max_ack_retries pending.attempts
    then give_up
    else retry

pub data BackpressureVerdict : Type 0 where
  enqueue drop : BackpressureVerdict

unfoldable pub resolve_backpressure : ℕ → ℤ → BackpressureVerdict
resolve_backpressure queue_depth (pos limit) = if leb limit queue_depth then drop else enqueue
resolve_backpressure queue_depth (negsuc n) = enqueue

pub data HeartbeatVerdict : Type 0 where
  alive timed_out : HeartbeatVerdict

unfoldable pub resolve_heartbeat : ℕ → ℕ → ℕ → HeartbeatVerdict
resolve_heartbeat last_seen_at_ms now heartbeat_timeout_ms =
    if heartbeat_timeout_ms == 0
    then alive
    else if leb (last_seen_at_ms + heartbeat_timeout_ms) now
    then timed_out
    else alive

-- The timer's two readings of the clock: for the decision, and for the time of sending.
pub record Firing : Type 0 where
  pub decided_at : ℕ
  pub sent_at : ℕ

-- What the timer of a frame with no ack does: the frame is given up, or the timer is armed again,
-- with or without sending the frame again.
pub data TimerResult : Type 0 where
  exhausted : TimerResult
  rearmed : AckRetryState → TimerResult
  resent : AckRetryState → TimerResult

unfoldable pub on_verdict : AckRetryVerdict → ℕ → AckRetryState → TimerResult
on_verdict give_up sent_at pending = exhausted
on_verdict wait sent_at pending = rearmed pending
on_verdict retry sent_at pending =
    resent (record { attempts = pending.attempts + 1; last_sent_at_ms = sent_at })

unfoldable pub fire : AckRetryConfig → Firing → AckRetryState → TimerResult
unfolding on_verdict resolve_ack_retry
fire cfg f pending = on_verdict (resolve_ack_retry pending f.decided_at cfg) f.sent_at pending

-- `trackAckIfRetryable`, of a frame of the runtime: `none` if retries are disabled.
unfoldable pub track : AckRetryConfig → ℕ → Option AckRetryState
track cfg now =
    let pending : AckRetryState = record { attempts = 0; last_sent_at_ms = now } in
    elim (resolve_ack_retry pending now cfg) [ give_up ↦ none | _ ↦ some pending ]
