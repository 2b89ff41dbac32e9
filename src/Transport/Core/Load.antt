-- ===== src/Transport/Core/Load.antt =====
-- Where the promises of a transport stand: packages/actor-core-runtime/src/transport/
-- transport-core.ts.
use actor_web.Common.{
  ℕ, ◌+◌, List, [], ◌∷◌, Option, none, some, String, ◌==◌, if◌then◌else◌, same, same_iff, Dict,
  find, put, erase, IsMap, IsMap-put, IsMap-erase, erase_absent, arith, ◌≡◌, refl, sym, ap, ◌∙◌,
  Bool-cases, Option-cases, inl, inr,
}
use actor_web.Transport.Core.{
  Settlement, OutboundQueueItem, Peer, Flight, Core, settle, reject_item, reject_queued_frames,
  put_peer, forget_peer,
}

abbrev pub one : ℕ → ℕ → ℕ
one promise n = if promise == n then 1 else 0

abbrev pub nothing : ℕ → ℕ
nothing n = 0

-- How often a promise stands in a queue, at a peer, at a closed peer, and among the settled ones.
unfoldable pub holds : List OutboundQueueItem → ℕ → ℕ
holds [] n = 0
holds (i ∷ is) n = one i.promise n + holds is n

unfoldable pub awaits : Option OutboundQueueItem → ℕ → ℕ
awaits none n = 0
awaits (some i) n = one i.promise n

unfoldable pub peer_load : Peer → ℕ → ℕ
unfolding holds awaits
peer_load p n = awaits p.in_flight n + holds p.outbound_queue n

unfoldable pub peers_load : Dict Peer → ℕ → ℕ
unfolding peer_load
peers_load [] n = 0
peers_load (e ∷ d) n = peer_load e.1 n + peers_load d n

unfoldable pub flights_load : List Flight → ℕ → ℕ
flights_load [] n = 0
flights_load (f ∷ fs) n = one f.item.promise n + flights_load fs n

unfoldable pub settlements : List (ℕ × Settlement) → ℕ → ℕ
settlements [] n = 0
settlements (e ∷ es) n = one e.0 n + settlements es n

unfoldable pub load : Core → ℕ → ℕ
unfolding peers_load flights_load settlements
load s n = peers_load s.peers n + flights_load s.flights n + settlements s.settled n

unfoldable pub load_at : Option Peer → ℕ → ℕ
unfolding peer_load
load_at none n = 0
load_at (some p) n = peer_load p n

peers_load-put :
    (d : Dict Peer) (a : String) (p : Peer) (n : ℕ)
    → peers_load (put d a p) n + load_at (find d a) n ≡ peers_load d n + peer_load p n
unfolding put find peers_load load_at
peers_load-put [] a p n = omega arith
peers_load-put (e ∷ d) a p n = elim (Bool-cases (same e.0 a)) [
  | inl q ↦ rw q (omega arith)
  | inr q ↦ rw q (omega (arith, peers_load-put d a p n))
]

peers_load-erase :
    (d : Dict Peer) (a : String) (n : ℕ)
    → IsMap d
    → peers_load (erase d a) n + load_at (find d a) n ≡ peers_load d n
unfolding erase find peers_load load_at
peers_load-erase [] a n h = omega arith
peers_load-erase (e ∷ d) a n h = elim (Bool-cases (same e.0 a)) [
  | inl q ↦
      let alone : erase d a ≡ d = erase_absent d a (rw (sym ((same_iff e.0 a).0 q)) h.0) in
      rw (q, alone) (omega arith)
  | inr q ↦ rw q (omega (arith, peers_load-erase d a n h.1))
]

-- What a step from `s` to `s'` does with promises: it makes none, takes `x` away and puts `y` in.
unfoldable pub Moves : (ℕ → ℕ) → (ℕ → ℕ) → Core → Core → Type 0
Moves x y s s' =
    IsMap s.peers
    → IsMap s'.peers × (s'.promises ≡ s.promises) × ((n : ℕ) → load s' n + x n ≡ load s n + y n)

abbrev pub Same : Core → Core → Type 0
Same s s' = Moves nothing nothing s s'

pub moves :
    (x y u v X Y : ℕ → ℕ) (s s' s'' : Core)
    → Moves x y s s'
    → Moves u v s' s''
    → ((n : ℕ) → (x n + u n) + Y n ≡ (y n + v n) + X n)
    → Moves X Y s s''
unfolding Moves
moves x y u v X Y s s' s'' h k e m =
    let (m1, p1, l1) = h m in
    let (m2, p2, l2) = k m1 in (m2, p2 ∙ p1, λ n. omega (arith, l1 n, l2 n, e n))

pub stays : (s : Core) → Same s s
unfolding Moves
stays s m = (m, refl, λ n. refl)

-- A step in which the peers, the promises and those settled are the same.
pub alike :
    (s s' : Core)
    → s'.peers ≡ s.peers
    → s'.flights ≡ s.flights
    → s'.settled ≡ s.settled
    → s'.promises ≡ s.promises
    → Same s s'
unfolding Moves load
alike s s' a b c d m = (rw a m, d, λ n. rw (a, b, c) refl)

pub put-Moves :
    (a : String) (p : Peer) (s : Core) {q : Peer}
    → find s.peers a ≡ some q
    → Moves (peer_load q) (peer_load p) s (put_peer a p s)
unfolding Moves load put_peer load_at
put-Moves a p s {q = q} e m = (
  IsMap-put s.peers a p m,
  refl,
  λ n. let k = ap (λ o. load_at o n) e in omega (arith, peers_load-put s.peers a p n, k),
)

pub put_new-Moves :
    (a : String) (p : Peer) (s : Core)
    → find s.peers a ≡ none
    → Moves nothing (peer_load p) s (put_peer a p s)
unfolding Moves load put_peer load_at
put_new-Moves a p s e m = (
  IsMap-put s.peers a p m,
  refl,
  λ n. let k = ap (λ o. load_at o n) e in omega (arith, peers_load-put s.peers a p n, k),
)

pub settle-Moves : (how : Settlement) (i : ℕ) (s : Core) → Moves nothing (one i) s (settle how i s)
unfolding Moves load settle
settle-Moves how i s m = (m, refl, λ n. omega arith)

pub reject_item-Moves :
    (a : String) (i : OutboundQueueItem) (s : Core)
    → Moves nothing (one i.promise) s (reject_item a i s)
unfolding Moves load reject_item settle
reject_item-Moves a i s m = elim (Bool-cases i.track_ack) [
  | inl e ↦ simp e (m, refl, λ n. omega arith)
  | inr e ↦ simp e (m, refl, λ n. omega arith)
]

pub reject_queued-Moves :
    (a : String) (is : List OutboundQueueItem) (s : Core)
    → Moves nothing (holds is) s (reject_queued_frames a is s)
unfolding reject_queued_frames holds
reject_queued-Moves a [] s = stays s
reject_queued-Moves a (i ∷ is) s =
    moves _ _ _ _ _ _ s (reject_item a i s) _ (reject_item-Moves a i s)
      (reject_queued-Moves a is (reject_item a i s)) (λ n. omega arith)

pub forget-Moves :
    (a : String) (p : Peer) (s : Core) {q : Peer}
    → find s.peers a ≡ some q
    → ((n : ℕ) → peer_load p n ≡ peer_load q n)
    → Moves (holds p.outbound_queue) nothing s (forget_peer a p s)
unfolding Moves load forget_peer load_at
forget-Moves a p s {q = q} e same_load m =
    let k = λ (n : ℕ). ap (λ o. load_at o n) e in
    elim (Option-cases p.in_flight) [
      | inl f ↦ simp f (
        IsMap-erase s.peers a m,
        refl,
        λ n.
            omega (arith, peers_load-erase s.peers a n m, k n, same_load n, ap (λ o. awaits o n) f),
      )
      | inr (i, f) ↦ simp f (
        IsMap-erase s.peers a m,
        refl,
        λ n.
            omega (arith, peers_load-erase s.peers a n m, k n, same_load n, ap (λ o. awaits o n) f),
      )
    ]
