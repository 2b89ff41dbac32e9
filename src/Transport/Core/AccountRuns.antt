-- ===== src/Transport/Core/AccountRuns.antt =====
-- Sending keeps the account of the promises: packages/actor-core-runtime/src/transport/
-- transport-core.ts.
use actor_web.Common.{
  ℕ, ◌+◌, Bool, true, List, [], ◌∷◌, Option, none, some, String, ◌==◌, ltb, if◌then◌else◌, find,
  IsMap, arith, ◌≡◌, refl, ap, given_lem, if_lem, Bool-cases, inl, inr,
}
use actor_web.Transport.Contract.Shapes.{Frame, ActorMessage, create_runtime_transport_frame}
use actor_web.Transport.Core.{
  Options, OutboundQueueItem, Peer, Core, Flight, settle, reject_item, put_peer, resolved,
}
use actor_web.Transport.Core.Outbound.{
  Clock, Sent, send, sent_by_peer, failed_by_peer, sent_by_closed, failed_by_closed, flight_of,
  send_ended, closed_send_ended, next_microtask, track_ack_if_retryable, without_flight,
}
use actor_web.Transport.Core.Served.{always, AllServed, IsServed-peer}
use actor_web.Transport.Core.Load.{
  one, nothing, awaits, peer_load, flights_load, load, Moves, Same, moves, stays, alike, put-Moves,
  settle-Moves, reject_item-Moves,
}
use actor_web.Transport.Core.Accounts.{then-Same, disconnect-Same, drain-Moves, enqueue-Moves}

-- Every promise that was made stands in one place: in the queue of a peer, as the send that is
-- awaited for a peer or for one that is closed, or among those settled. No other stands anywhere.
unfoldable pub IsAccountable : Core → Type 0
IsAccountable s = IsMap s.peers × ((n : ℕ) → load s n ≡ (if ltb n s.promises then 1 else 0))

pub IsAccountable-Same : (s s' : Core) → IsAccountable s → Same s s' → IsAccountable s'
unfolding IsAccountable Moves
IsAccountable-Same s s' (m, h) k = let (m', p, l) = k m in (m', λ n. ground (arith, h n, l n, p))

pub IsAccountable-made :
    (s s' : Core)
    → IsAccountable s
    → Moves nothing (one s.promises) (record s { promises = s.promises + 1 }) s'
    → IsAccountable s'
unfolding IsAccountable Moves load
IsAccountable-made s s' (m, h) k = let (m', p, l) = k m in (m', λ n. ground (arith, h n, l n, p))

module _ (o : Options) where
  pub send-IsAccountable :
      (measure : Frame → ℕ) (a : String) (m : ActorMessage) (now : Clock) (s : Core)
      → AllServed o always s
      → IsAccountable s
      → IsAccountable (send o measure a m now s).0
  unfolding send peer_load
  send-IsAccountable measure a m now s v h =
      given_lem (λ (r : Core × Sent). IsAccountable r.0) (find s.peers a) _ _ (λ e. h)
        (λ p e.
          let frame =
            create_runtime_transport_frame o.identity p.identity none (p.sequence + 1) m now.iso in
          if_lem (λ (r : Core × Sent). IsAccountable r.0) (ltb o.max_frame_bytes (measure frame)) _
            _ (λ q. h)
            (λ q. IsAccountable-made s _ h (
              enqueue-Moves o a (record p { sequence = p.sequence + 1 }) frame true s e (λ n. refl)
                (IsServed-peer o always a s e v).0)))

  pub sent_by_peer-Same :
      (a : String) (p : Peer) (i : OutboundQueueItem) (now : ℕ) (s : Core)
      → find s.peers a ≡ some p
      → p.in_flight ≡ some i
      → Same s (sent_by_peer o a p i now s)
  unfolding sent_by_peer settle peer_load
  sent_by_peer-Same a p i now s e f =
      let acks =
        if i.track_ack
        then track_ack_if_retryable o i.frame now p.pending_acks
        else p.pending_acks in
      let p' = record p { in_flight = none; pending_acks = acks } in
      let s1 = settle resolved i.promise s in
      moves nothing (one i.promise) (peer_load p) (peer_load p') nothing nothing s s1 _
        (settle-Moves resolved i.promise s) (drain-Moves a p' p.outbound_queue s1 e refl refl)
        (λ n. omega (arith, ap (λ x. awaits x n) f))

  pub failed_by_peer-Same :
      (a : String) (p : Peer) (i : OutboundQueueItem) (s : Core)
      → find s.peers a ≡ some p
      → p.in_flight ≡ some i
      → Same s (failed_by_peer a p i s)
  unfolding failed_by_peer peer_load awaits
  failed_by_peer-Same a p i s e f =
      let p' = record p { in_flight = none } in
      let s1 = put_peer a p' s in
      let s2 = reject_item a i s1 in
      then-Same nothing nothing s s2 _
        (moves (peer_load p) (peer_load p') nothing (one i.promise) nothing nothing s s1 s2
          (put-Moves a p' s e) (reject_item-Moves a i s1)
          (λ n. omega (arith, ap (λ x. awaits x n) f)))
        (disconnect-Same a s2)

  pub send_ended-Same :
      (a : String) (b : Bool) (now : ℕ) (s : Core) → Same s (send_ended o a b now s)
  unfolding send_ended
  send_ended-Same a b now s =
      given_lem (Same s) (find s.peers a) _ _ (λ e. stays s)
        (λ p e.
          given_lem (Same s) p.in_flight _ _ (λ f. stays s)
            (λ i f.
              if_lem (Same s) b _ _ (λ t. sent_by_peer-Same a p i now s e f)
                (λ t. failed_by_peer-Same a p i s e f)))

abbrev taken : Option Flight → ℕ → ℕ
taken none n = 0
taken (some f) n = one f.item.promise n

flight_taken :
    (id : ℕ) (fs : List Flight) (n : ℕ)
    → flights_load fs n ≡ taken (flight_of id fs) n + flights_load (without_flight id fs) n
unfolding flight_of without_flight flights_load
flight_taken id [] n = omega arith
flight_taken id (g ∷ fs) n = elim (Bool-cases (g.peer_id == id)) [
  | inl q ↦ rw q (omega arith)
  | inr q ↦ rw q (omega (arith, flight_taken id fs n))
]

-- A send that ended for a closed peer leaves, and its promise is settled.
flight-Moves :
    (id : ℕ) (s : Core) {f : Flight}
    → flight_of id s.flights ≡ some f
    → Moves (one f.item.promise) nothing s (record s { flights = without_flight id s.flights })
unfolding Moves load
flight-Moves id s e m =
    (m, refl, λ n. omega (arith, flight_taken id s.flights n, ap (λ x. taken x n) e))

pub closed_send_ended-Same : (id : ℕ) (b : Bool) (s : Core) → Same s (closed_send_ended id b s)
unfolding closed_send_ended sent_by_closed failed_by_closed
closed_send_ended-Same id b s =
    if_lem (Same s) b _ _
      (λ t.
        given_lem (Same s) (flight_of id s.flights) _ _ (λ e. stays s)
          (λ f e.
            moves (one f.item.promise) nothing nothing (one f.item.promise) nothing nothing s _ _
              (flight-Moves id s e) (settle-Moves resolved f.item.promise _) (λ n. omega arith)))
      (λ t.
        given_lem (Same s) (flight_of id s.flights) _ _ (λ e. stays s)
          (λ f e.
            then-Same nothing nothing s _ _
              (moves (one f.item.promise) nothing nothing (one f.item.promise) nothing nothing s _ _
                (flight-Moves id s e) (reject_item-Moves f.address f.item _) (λ n. omega arith))
              (disconnect-Same f.address _)))

pub next_microtask-Same : (rest : List String) (s : Core) → Same s (next_microtask rest s)
unfolding next_microtask
next_microtask-Same [] s = stays s
next_microtask-Same (a ∷ rest) s =
    then-Same nothing nothing s (record s { disconnects = rest }) _ (alike s _ refl refl refl refl)
      (disconnect-Same a _)
