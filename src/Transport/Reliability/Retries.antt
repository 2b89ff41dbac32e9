-- ===== src/Transport/Reliability/Retries.antt =====
-- A frame that no ack answers, over the firings of its timer.
use actor_web.Common.{
  ℕ, suc, ◌+◌, ◌-◌, ◌<◌, ◌≤◌, Bool, true, false, List, [], ◌∷◌, some, arith, length, ◌≡◌, ap, ◌∙◌,
}
use actor_web.Transport.Reliability.{
  AckRetryState, AckRetryConfig, Firing, exhausted, rearmed, resent, fire, track, resolve_ack_retry,
}

-- How often the frame is sent again, and whether it was given up.
pub record History : Type 0 where
  pub resends : ℕ
  pub given_up : Bool

unfoldable pub unanswered : AckRetryConfig → List Firing → AckRetryState → History
unanswered cfg [] pending = record { resends = 0; given_up = false }
unanswered cfg (f ∷ fs) pending = elim (fire cfg f pending) [
  | exhausted ↦ record { resends = 0; given_up = true }
  | rearmed p ↦ unanswered cfg fs p
  | resent p ↦
      let h = unanswered cfg fs p in record { resends = suc h.resends; given_up = h.given_up }
]

-- Every firing comes when the timeout since the last sending has passed.
abbrev pub Due : AckRetryConfig → ℕ → List Firing → Type 0
Due cfg last [] = Unit
Due cfg last (f ∷ fs) = (last + cfg.ack_timeout_ms ≤ f.decided_at) × Due cfg f.sent_at fs

resends_le :
    (cfg : AckRetryConfig) (fs : List Firing) (p : AckRetryState)
    → (unanswered cfg fs p).resends ≤ cfg.max_ack_retries - p.attempts
unfolding unanswered fire
resends_le cfg [] p = omega arith
resends_le cfg (f ∷ fs) p = ground (
  arith,
  resends_le cfg fs p,
  resends_le cfg fs (record { attempts = p.attempts + 1; last_sent_at_ms = f.sent_at }),
)

-- A tracked frame that is never acked is sent again at most `maxAckRetries` times, whenever and
-- however often its timer fires.
pub unanswered_bounded :
    (cfg : AckRetryConfig) (now : ℕ) (fs : List Firing) {p : AckRetryState}
    → track cfg now ≡ some p
    → (unanswered cfg fs p).resends ≤ cfg.max_ack_retries
unanswered_bounded cfg now fs {p} t = omega (arith, resends_le cfg fs p)

exhausts :
    (cfg : AckRetryConfig) (fs : List Firing) (p : AckRetryState)
    → 0 < cfg.ack_timeout_ms
    → 0 < cfg.max_ack_retries
    → p.attempts ≤ cfg.max_ack_retries
    → Due cfg p.last_sent_at_ms fs
    → cfg.max_ack_retries - p.attempts < length fs
    → unanswered cfg fs p ≡ record { resends = cfg.max_ack_retries - p.attempts; given_up = true }
unfolding unanswered fire
exhausts cfg [] p z m a d l = elim l [ ]
exhausts cfg (f ∷ fs) p z m a d l = ground (
  arith,
  exhausts cfg fs (record { attempts = p.attempts + 1; last_sent_at_ms = f.sent_at }) z m,
  d.0,
  d.1,
)

track_lem :
    (cfg : AckRetryConfig) (now : ℕ) {p : AckRetryState}
    → track cfg now ≡ some p
    → (0 < cfg.ack_timeout_ms)
      × (0 < cfg.max_ack_retries)
      × (p ≡ record { attempts = 0; last_sent_at_ms = now })
unfolding track resolve_ack_retry
track_lem cfg now t = ground arith

-- If the timer of a tracked frame fires more than `maxAckRetries` times, each time when the
-- timeout has passed since the last sending, and no ack comes, then the frame is sent again
-- exactly `maxAckRetries` times and given up.
pub unanswered_exhausts :
    (cfg : AckRetryConfig) (now : ℕ) (fs : List Firing) {p : AckRetryState}
    → track cfg now ≡ some p
    → Due cfg now fs
    → cfg.max_ack_retries < length fs
    → unanswered cfg fs p ≡ record { resends = cfg.max_ack_retries; given_up = true }
unanswered_exhausts cfg now fs {p} t d l =
    let start : AckRetryState = record { attempts = 0; last_sent_at_ms = now } in
    let (z, m, e) = track_lem cfg now t in
    let all : cfg.max_ack_retries - 0 ≡ cfg.max_ack_retries = omega arith in
    rw e (
      exhausts cfg fs start z m (omega arith) d (omega arith)
      ∙ ap (λ n. record { resends = n; given_up = true }) all)
