-- ===== src/Transport/Reliability/Examples.antt =====
-- The default configuration of the transport: a second for an ack, and two retries.
use actor_web.Common.{ℕ, true, [], ◌∷◌, some, none, arith, ◌≡◌, refl}
use actor_web.Transport.Reliability.{
  pos, negsuc, AckRetryState, AckRetryConfig, Firing, fire, track, resolve_ack_retry,
  resolve_heartbeat, timed_out, alive, enqueue, resolve_backpressure, drop,
}
use actor_web.Transport.Reliability.Retries.{unanswered, unanswered_exhausts}

program : Unit {0}
unfolding fire track resolve_ack_retry resolve_heartbeat resolve_backpressure unanswered
program = tt

abbrev config : AckRetryConfig
config = record { ack_timeout_ms = 1000; max_ack_retries = 2 }

abbrev at : ℕ → Firing
at t = record { decided_at = t; sent_at = t }

abbrev tracked : AckRetryState
tracked = record { attempts = 0; last_sent_at_ms = 50 }

track_config : track config 50 ≡ some tracked
unfolding program
track_config = refl

disabled : track (record config { max_ack_retries = 0 }) 50 ≡ none
unfolding program
disabled = refl

unanswered_exhausts_example :
    unanswered config (at 1050 ∷ at 2050 ∷ at 3050 ∷ []) tracked
    ≡ record { resends = 2; given_up = true }
unanswered_exhausts_example =
    unanswered_exhausts config 50 (at 1050 ∷ at 2050 ∷ at 3050 ∷ []) track_config (omega arith)
      (omega arith)

heartbeat : resolve_heartbeat 10 40 30 ≡ timed_out
unfolding program
heartbeat = refl

early : resolve_heartbeat 10 39 30 ≡ alive
unfolding program
early = refl

full : resolve_backpressure 3 (pos 3) ≡ drop
unfolding program
full = refl

unlimited : resolve_backpressure 3 (negsuc 0) ≡ enqueue
unfolding program
unlimited = refl
