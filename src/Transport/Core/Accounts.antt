-- ===== src/Transport/Core/Accounts.antt =====
-- Peers that come and go, and the queue, keep the account of the promises: packages/
-- actor-core-runtime/src/transport/transport-core.ts.
use actor_web.Common.{
  ℕ, ◌+◌, Bool, true, false, not, List, [], ◌∷◌, ◌++◌, none, some, String, ◌==◌, length, find,
  arith, ◌≡◌, refl, sym, ap, ◌∙◌, given, given_lem, if_lem, given-some, find-erase, same_refl,
}
use actor_web.Transport.Identity.{RuntimeNodeIdentity}
use actor_web.Transport.Reliability.{resolve_backpressure}
use actor_web.Transport.Contract.Shapes.{Frame}
use actor_web.Transport.Core.{
  Options, OutboundQueueItem, Peer, Core, output, reject_queued_frames, put_peer, forget_peer,
  close_peer, disconnect, stop, handle_peer_closed, replace_existing, new_peer, register_peer,
  accept_link, can_accept_peer,
}
use actor_web.Transport.Core.Outbound.{is_drop, drain_items, flush_outbound_queue, enqueue_frame}
use actor_web.Transport.Core.Served.{
  is_some, reject_queued_frames-peers, close_peer-peers, empty_flight,
}
use actor_web.Transport.Core.Load.{
  one, nothing, holds, awaits, peer_load, Moves, Same, moves, stays, alike, put-Moves,
  put_new-Moves, reject_item-Moves, reject_queued-Moves, forget-Moves,
}

abbrev pub Alike : Peer → Peer → Type 0
Alike p q = (n : ℕ) → peer_load p n ≡ peer_load q n

-- A step after one that leaves the promises alone, and before one.
pub then-Same : (x y : ℕ → ℕ) (s s' s'' : Core) → Moves x y s s' → Same s' s'' → Moves x y s s''
then-Same x y s s' s'' h k = moves x y nothing nothing x y s s' s'' h k (λ n. omega arith)

pub update-Same :
    (a : String) (p : Peer) (s : Core) {q : Peer}
    → find s.peers a ≡ some q
    → Alike p q
    → Same s (put_peer a p s)
update-Same a p s {q = q} e h =
    moves (peer_load q) (peer_load p) nothing nothing nothing nothing s (put_peer a p s)
      (put_peer a p s) (put-Moves a p s e) (stays _) (λ n. omega (arith, h n))

pub close-Same :
    (a : String) (p : Peer) (b : Bool) (s : Core) {q : Peer}
    → find s.peers a ≡ some q
    → Alike p q
    → Same s (close_peer a p b s)
unfolding close_peer output
close-Same a p b s {q = q} e h =
    let s1 = reject_queued_frames a p.outbound_queue s in
    let found : find s1.peers a ≡ some q =
      ap (λ d. find d a) (reject_queued_frames-peers a p.outbound_queue s) ∙ e in
    let s2 = forget_peer a p s1 in
    let gone : Same s s2 =
      moves nothing (holds p.outbound_queue) (holds p.outbound_queue) nothing nothing nothing s s1
        s2 (reject_queued-Moves a p.outbound_queue s) (forget-Moves a p s1 found h)
        (λ n. omega arith) in
    if_lem (Same s) b _ _
      (λ t. then-Same nothing nothing s s2 _ gone (alike s2 _ refl refl refl refl))
      (λ t. then-Same nothing nothing s s2 _ gone (alike s2 _ refl refl refl refl))

pub disconnect-Same : (a : String) (s : Core) → Same s (disconnect a s)
unfolding disconnect
disconnect-Same a s =
    given_lem (Same s) (find s.peers a) _ _ (λ e. stays s)
      (λ p e. close-Same a p true s e (λ n. refl))

pub stop-Same : (rest : List String) (s : Core) → Same s (stop rest s)
unfolding stop
stop-Same [] s = stays s
stop-Same (a ∷ rest) s =
    then-Same nothing nothing s _ _
      (given_lem (Same s) (find s.peers a) s (λ p. close_peer a p false s) (λ e. stays s)
        (λ p e. close-Same a p false s e (λ n. refl)))
      (stop-Same rest _)

pub handle_peer_closed-Same :
    (a : String) (link : ℕ) (s : Core) → Same s (handle_peer_closed a link s)
unfolding handle_peer_closed
handle_peer_closed-Same a link s =
    given_lem (Same s) (find s.peers a) _ _ (λ e. stays s)
      (λ p e.
        if_lem (Same s) (p.link == link) _ _ (λ q. close-Same a p true s e (λ n. refl))
          (λ q. stays s))

-- Whether a link is not the one that the address is registered with.
unfoldable pub is_new_link : String → ℕ → Core → Bool
is_new_link a link s = given (find s.peers a) true (λ p. not (p.link == link))

replaced :
    (o : Options) (a : String) (link : ℕ) (s : Core)
    → is_new_link a link s ≡ true
    → Same s (replace_existing a link s) × (find (replace_existing a link s).peers a ≡ none)
unfolding replace_existing is_new_link
replaced o a link s h =
    given_lem (λ (x : Core). Same s x × (find x.peers a ≡ none)) (find s.peers a) _ _
      (λ e. (stays s, e))
      (λ p e.
        if_lem (λ (x : Core). Same s x × (find x.peers a ≡ none)) (p.link == link) _ _
          (λ q. absurd (ground (arith, q, sym h ∙ given-some (find s.peers a) _ _ e)))
          (λ q. (
            close-Same a p false s e (λ n. refl),
            ap (λ d. find d a) (close_peer-peers a p false s)
                ∙ find-erase s.peers a a
                ∙ rw (same_refl a) refl,
          )))

pub accept_link-Same :
    (o : Options) (link : ℕ) (b : Bool) (i : RuntimeNodeIdentity) (now : ℕ) (s : Core)
    → is_new_link i.node_address link s ≡ true
    → Same s (accept_link o link b i now s)
unfolding accept_link register_peer output new_peer peer_load
accept_link-Same o link b i now s h =
    let a = i.node_address in
    let (k, gone) = replaced o a link s h in
    let s1 = replace_existing a link s in
    let s2 = record s1 { peer_ids = s1.peer_ids + 1 } in
    let p = new_peer o s1.peer_ids link b i now in
    let s3 = put_peer a p s2 in
    if_lem (Same s) (can_accept_peer i s) _ _
      (λ e. then-Same nothing nothing s s1 _ k (
        then-Same nothing nothing s1 s2 _ (alike s1 s2 refl refl refl refl) (
          moves nothing (peer_load p) nothing nothing nothing nothing s2 s3 _
            (put_new-Moves a p s2 gone) (alike s3 _ refl refl refl refl) (λ n. omega arith))))
      (λ e. alike s _ refl refl refl refl)

pub drain-Moves :
    (a : String) (p : Peer) (is : List OutboundQueueItem) (s : Core) {q : Peer}
    → find s.peers a ≡ some q
    → p.in_flight ≡ none
    → p.outbound_queue ≡ is
    → Moves (peer_load q) (peer_load p) s (drain_items a p is s)
unfolding drain_items output peer_load holds
drain-Moves a p [] s e f g = put-Moves a _ s e
drain-Moves a p (i ∷ is) s {q = q} e f g =
    let p' = record p { outbound_queue = is; outbound_flushing = true; in_flight = some i } in
    let s1 = put_peer a p' s in
    if_lem (Moves (peer_load q) (peer_load p) s) p.link_open _ _
      (λ b.
        moves (peer_load q) (peer_load p') nothing nothing (peer_load q) (peer_load p) s s1 _
          (put-Moves a p' s e) (alike s1 _ refl refl refl refl)
          (λ n. omega (arith, ap (λ x. awaits x n) f, ap (λ x. holds x n) g)))
      (λ b. put-Moves a _ s e)

pub flush-Moves :
    (a : String) (p : Peer) (s : Core) {q : Peer}
    → find s.peers a ≡ some q
    → p.outbound_flushing ≡ is_some p.in_flight
    → Moves (peer_load q) (peer_load p) s (flush_outbound_queue a p s)
unfolding flush_outbound_queue
flush-Moves a p s {q = q} e f =
    if_lem (Moves (peer_load q) (peer_load p) s) p.outbound_flushing _ _ (λ b. put-Moves a p s e)
      (λ b. drain-Moves a p p.outbound_queue s e (empty_flight p (sym f ∙ b)) refl)

holds-append :
    (is js : List OutboundQueueItem) (n : ℕ) → holds (is ++ js) n ≡ holds is n + holds js n
unfolding holds
holds-append [] js n = omega arith
holds-append (i ∷ is) js n = omega (arith, holds-append is js n)

-- A frame is queued, or its promise rejected: one new promise is held or settled.
pub enqueue-Moves :
    (o : Options) (a : String) (p : Peer) (f : Frame) (t : Bool) (s : Core) {q : Peer}
    → find s.peers a ≡ some q
    → Alike p q
    → p.outbound_flushing ≡ is_some p.in_flight
    → Moves nothing
        (one s.promises)
        (record s { promises = s.promises + 1 })
        (enqueue_frame o a p f t s)
unfolding enqueue_frame peer_load holds
enqueue-Moves o a p f t s {q = q} e h g =
    let i : OutboundQueueItem = record { frame = f; promise = s.promises; track_ack = t } in
    let s1 = record s { promises = s.promises + 1 } in
    let p' = record p { outbound_queue = p.outbound_queue ++ i ∷ [] } in
    if_lem (Moves nothing (one s.promises) s1)
      (is_drop (resolve_backpressure (length p.outbound_queue) o.outbound_queue_limit)) _ _
      (λ b.
        moves nothing nothing nothing (one s.promises) nothing (one s.promises) s1 (put_peer a p s1)
          _ (update-Same a p s1 e h) (reject_item-Moves a i _) (λ n. omega arith))
      (λ b.
        moves (peer_load q) (peer_load p') nothing nothing nothing (one s.promises) s1 _ _
          (flush-Moves a p' s1 e g) (stays _)
          (λ n. omega (arith, h n, holds-append p.outbound_queue (i ∷ []) n)))
