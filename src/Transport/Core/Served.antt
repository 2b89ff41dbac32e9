-- ===== src/Transport/Core/Served.antt =====
-- No outbound queue waits without a reason, and none grows past its limit: packages/
-- actor-core-runtime/src/transport/transport-core.ts.
use mathlib.Core.Path.{subst}
use actor_web.Common.{
  ℕ, suc, ◌+◌, sym, ◌∙◌, Bool, true, false, not, ◌||◌, List, [], ◌∷◌, ◌++◌, Option, none, some,
  String, leb, ◌==◌, length, length-append, find, erase, Dict, find-put, find-erase, same,
  same_refl, same_iff, if◌then◌else◌, arith, ◌≡◌, refl, Bool-cases, Option-cases, given_lem, if_lem,
  inl, inr,
}
use actor_web.Transport.Identity.{RuntimeNodeIdentity}
use actor_web.Transport.Reliability.{ℤ, pos, negsuc, resolve_backpressure}
use actor_web.Transport.Contract.Shapes.{Frame}
use actor_web.Transport.Core.{
  new_core, Options, OutboundQueueItem, Peer, Core, settle, output, reject_item,
  reject_queued_frames, put_peer, forget_peer, close_peer, disconnect, stop, handle_peer_closed,
  replace_existing, new_peer, register_peer, accept_link, link_stalled, link_opened,
  can_accept_peer,
}
use actor_web.Transport.Core.Outbound.{
  is_drop, drain_items, flush_outbound_queue, flush_peer, enqueue_frame,
}

abbrev pub is_some {ℓ} : {A : Type ℓ} → Option A → Bool
is_some none = false
is_some (some a) = true

abbrev pub is_within : ℤ → ℕ → Bool
is_within (pos limit) n = leb n limit
is_within (negsuc m) n = true

-- The flag tells whether a send is awaited. If none is, the queue is empty, the link cannot accept
-- a send, or a flush is `owed`. A limit that is not negative is kept.
abbrev pub IsServed : Options → Bool → Peer → Type 0
IsServed o owed p =
    (p.outbound_flushing ≡ is_some p.in_flight)
    × ((p.outbound_flushing || length p.outbound_queue == 0 || not p.link_open || owed) ≡ true)
    × (is_within o.outbound_queue_limit (length p.outbound_queue) ≡ true)

within_zero : (limit : ℤ) → is_within limit 0 ≡ true
within_zero (pos n) = ground arith
within_zero (negsuc n) = refl

within_less : (limit : ℤ) (n : ℕ) → is_within limit (suc n) ≡ true → is_within limit n ≡ true
within_less (pos l) n h = ground arith
within_less (negsuc l) n h = refl

within_more :
    (limit : ℤ) (is : List OutboundQueueItem) (i : OutboundQueueItem)
    → is_drop (resolve_backpressure (length is) limit) ≡ false
    → is_within limit (length (is ++ i ∷ [])) ≡ true
unfolding resolve_backpressure is_drop
within_more (pos l) is i h = ground (arith, length-append is (i ∷ []))
within_more (negsuc l) is i h = refl

pub empty_flight : (p : Peer) → is_some p.in_flight ≡ false → p.in_flight ≡ none
empty_flight p h = elim (Option-cases p.in_flight) [
  | inl e ↦ e
  | inr (i, e) ↦ absurd (ground (arith, e))
]

-- Rejections leave the peers alone.
pub reject_item-peers :
    (a : String) (i : OutboundQueueItem) (s : Core) → (reject_item a i s).peers ≡ s.peers
unfolding reject_item settle
reject_item-peers a i s = ground arith

pub reject_queued_frames-peers :
    (a : String) (is : List OutboundQueueItem) (s : Core)
    → (reject_queued_frames a is s).peers ≡ s.peers
unfolding reject_queued_frames
reject_queued_frames-peers a [] s = refl
reject_queued_frames-peers a (i ∷ is) s =
    cc (reject_queued_frames-peers a is (reject_item a i s), reject_item-peers a i s)

pub close_peer-peers :
    (a : String) (p : Peer) (b : Bool) (s : Core) → (close_peer a p b s).peers ≡ erase s.peers a
unfolding close_peer output forget_peer
close_peer-peers a p b s = elim (Bool-cases b) [
  | inl e ↦ simp (e, reject_queued_frames-peers a p.outbound_queue s) refl
  | inr e ↦ simp (e, reject_queued_frames-peers a p.outbound_queue s) refl
]

-- What a flush of an address, or a link that opens there, changes: where a flush is owed.
abbrev pub owing : Bool → String → (String → Bool) → String → Bool
owing owed a u b = if same a b then owed else u b

abbrev pub always : String → Bool
always a = true

abbrev pub never : String → Bool
never a = false

-- `u` tells to which addresses a flush is owed.
module _ (o : Options) (u : String → Bool) where
  unfoldable pub ServedPeers : Dict Peer → Type 0
  ServedPeers d = (a : String) (p : Peer) → find d a ≡ some p → IsServed o (u a) p

  unfoldable pub AllServed : Core → Type 0
  AllServed s = ServedPeers s.peers

  -- The same of the peers at other addresses.
  unfoldable pub OthersServed : String → Core → Type 0
  OthersServed a s =
      (b : String) (p : Peer) → same a b ≡ false → find s.peers b ≡ some p → IsServed o (u b) p

  pub others : (a : String) (s : Core) → AllServed s → OthersServed a s
  unfolding AllServed ServedPeers OthersServed
  others a s h b p n e = h b p e

  pub same_peers : (s s' : Core) → s.peers ≡ s'.peers → AllServed s → AllServed s'
  unfolding AllServed ServedPeers
  same_peers s s' e h = subst ServedPeers e h

  pub IsServed-peer :
      (a : String) (s : Core) {p : Peer}
      → find s.peers a ≡ some p
      → AllServed s
      → IsServed o (u a) p
  unfolding AllServed ServedPeers
  IsServed-peer a s {p = p} e h = h a p e

  put_other-AllServed :
      (a : String) (p : Peer) (s : Core)
      → IsServed o (u a) p
      → OthersServed a s
      → AllServed (put_peer a p s)
  unfolding put_peer AllServed ServedPeers OthersServed
  put_other-AllServed a p s v h b q e = elim (Bool-cases (same a b)) [
    | inl t ↦
        let k : p ≡ q = ground (arith, e, t, find-put s.peers a b p) in
        subst (λ c. IsServed o (u c) q) ((same_iff a b).0 t) (subst (IsServed o (u a)) k v)
    | inr t ↦ h b q t (ground (arith, e, t, find-put s.peers a b p))
  ]

  pub put_peer-AllServed :
      (a : String) (p : Peer) (s : Core)
      → IsServed o (u a) p
      → AllServed s
      → AllServed (put_peer a p s)
  put_peer-AllServed a p s v h = put_other-AllServed a p s v (others a s h)

  erase-ServedPeers : (a : String) (d : Dict Peer) → ServedPeers d → ServedPeers (erase d a)
  unfolding ServedPeers
  erase-ServedPeers a d h b q e = h b q (ground (arith, e, find-erase d a b))

  forget_peer-AllServed :
      (a : String) (p : Peer) (s : Core) → AllServed s → AllServed (forget_peer a p s)
  unfolding forget_peer AllServed
  forget_peer-AllServed a p s h = erase-ServedPeers a s.peers h

  -- A peer is closed in a state whose other peers are those of a state that is served.
  pub close_other-AllServed :
      (a : String) (p : Peer) (b : Bool) (s s' : Core)
      → erase s'.peers a ≡ erase s.peers a
      → AllServed s
      → AllServed (close_peer a p b s')
  unfolding AllServed ServedPeers
  close_other-AllServed a p b s s' e h =
      subst ServedPeers (sym (close_peer-peers a p b s' ∙ e)) (erase-ServedPeers a s.peers h)

  pub close_peer-AllServed :
      (a : String) (p : Peer) (b : Bool) (s : Core) → AllServed s → AllServed (close_peer a p b s)
  close_peer-AllServed a p b s h = close_other-AllServed a p b s s refl h

  pub disconnect-AllServed : (a : String) (s : Core) → AllServed s → AllServed (disconnect a s)
  unfolding disconnect
  disconnect-AllServed a s h =
      given_lem AllServed (find s.peers a) _ _ (λ e. h) (λ p e. close_peer-AllServed a p true s h)

  pub stop-AllServed : (rest : List String) (s : Core) → AllServed s → AllServed (stop rest s)
  unfolding stop
  stop-AllServed [] s h = h
  stop-AllServed (a ∷ rest) s h = stop-AllServed rest _ (
      given_lem AllServed (find s.peers a) _ _ (λ e. h) (λ p e. close_peer-AllServed a p false s h))

  pub handle_peer_closed-AllServed :
      (a : String) (link : ℕ) (s : Core) → AllServed s → AllServed (handle_peer_closed a link s)
  unfolding handle_peer_closed
  handle_peer_closed-AllServed a link s h =
      given_lem AllServed (find s.peers a) _ _ (λ e. h)
        (λ p e.
          if_lem AllServed (p.link == link) _ _ (λ q. close_peer-AllServed a p true s h) (λ q. h))

  replace_existing-AllServed :
      (a : String) (link : ℕ) (s : Core) → AllServed s → AllServed (replace_existing a link s)
  unfolding replace_existing
  replace_existing-AllServed a link s h =
      given_lem AllServed (find s.peers a) _ _ (λ e. h)
        (λ p e.
          if_lem AllServed (p.link == link) _ _ (λ q. forget_peer-AllServed a p s h)
            (λ q. close_peer-AllServed a p false s h))

  new_peer-IsServed :
      (owed : Bool) (id link : ℕ) (b : Bool) (i : RuntimeNodeIdentity) (now : ℕ)
      → IsServed o owed (new_peer o id link b i now)
  unfolding new_peer
  new_peer-IsServed owed id link b i now = (refl, refl, within_zero o.outbound_queue_limit)

  pub accept_link-AllServed :
      (link : ℕ) (b : Bool) (i : RuntimeNodeIdentity) (now : ℕ) (s : Core)
      → AllServed s
      → AllServed (accept_link o link b i now s)
  unfolding accept_link register_peer output
  accept_link-AllServed link b i now s h =
      let s1 = replace_existing i.node_address link s in
      let s2 = record s1 { peer_ids = s1.peer_ids + 1 } in
      let p = new_peer o s1.peer_ids link b i now in
      if_lem AllServed (can_accept_peer i s) _ _
        (λ e. same_peers (put_peer i.node_address p s2) _ refl (
          put_peer-AllServed i.node_address p s2
            (new_peer-IsServed (u i.node_address) s1.peer_ids link b i now)
            (same_peers s1 s2 refl (replace_existing-AllServed i.node_address link s h))))
        (λ e. same_peers s _ refl h)

  -- The drain of a peer whose queue is within its limit.
  pub drain_items-AllServed :
      (a : String) (p : Peer) (is : List OutboundQueueItem) (s : Core)
      → p.in_flight ≡ none
      → p.outbound_queue ≡ is
      → is_within o.outbound_queue_limit (length is) ≡ true
      → OthersServed a s
      → AllServed (drain_items a p is s)
  unfolding drain_items output
  drain_items-AllServed a p [] s e q w h =
      put_other-AllServed a _ s (rw e refl, rw q refl, rw q w) h
  drain_items-AllServed a p (i ∷ is) s e q w h =
      if_lem AllServed p.link_open _ _
        (λ b. same_peers _ _ refl (
          put_other-AllServed a _ s (refl, refl, within_less o.outbound_queue_limit (length is) w)
            h))
        (λ b. put_other-AllServed a _ s (rw e refl, ground (arith, b), rw q w) h)

  pub flush-AllServed :
      (a : String) (p : Peer) (s : Core)
      → p.outbound_flushing ≡ is_some p.in_flight
      → is_within o.outbound_queue_limit (length p.outbound_queue) ≡ true
      → OthersServed a s
      → AllServed (flush_outbound_queue a p s)
  unfolding flush_outbound_queue
  flush-AllServed a p s f w h =
      if_lem AllServed p.outbound_flushing _ _
        (λ e. put_other-AllServed a p s (f, ground (arith, e), w) h)
        (λ e. drain_items-AllServed a p p.outbound_queue s (empty_flight p (sym f ∙ e)) refl w h)

  pub none-AllServed :
      (a : String) (s : Core) → find s.peers a ≡ none → OthersServed a s → AllServed s
  unfolding AllServed ServedPeers OthersServed
  none-AllServed a s e h b p f = h b p (ground (arith, e, f, same_iff a b)) f

  pub link_stalled-AllServed : (a : String) (s : Core) → AllServed s → AllServed (link_stalled a s)
  unfolding link_stalled
  link_stalled-AllServed a s h =
      given_lem AllServed (find s.peers a) _ _ (λ e. h)
        (λ p e.
          let (f, g, w) = IsServed-peer a s e h in put_peer-AllServed a _ s (f, ground arith, w) h)

  pub enqueue_frame-AllServed :
      (a : String) (p : Peer) (f : Frame) (t : Bool) (s : Core)
      → IsServed o (u a) p
      → AllServed s
      → AllServed (enqueue_frame o a p f t s)
  unfolding enqueue_frame
  enqueue_frame-AllServed a p f t s (g, k, w) h =
      let i : OutboundQueueItem = record { frame = f; promise = s.promises; track_ack = t } in
      let s1 = record s { promises = s.promises + 1 } in
      if_lem AllServed
        (is_drop (resolve_backpressure (length p.outbound_queue) o.outbound_queue_limit)) _ _
        (λ e.
          same_peers _ _ (sym (reject_item-peers a i (put_peer a p s1)))
            (put_peer-AllServed a p s1 (g, k, w) (same_peers s _ refl h)))
        (λ e.
          flush-AllServed a _ s1 g (within_more o.outbound_queue_limit p.outbound_queue i e)
            (others a s1 (same_peers s s1 refl h)))

  pub new_core-AllServed : AllServed new_core
  unfolding AllServed ServedPeers find
  new_core-AllServed a p e = absurd (ground (arith, e))

module _ (o : Options) (u : String → Bool) where
  others_owing :
      (owed : Bool) (a : String) (s : Core) → AllServed o u s → OthersServed o (owing owed a u) a s
  unfolding AllServed ServedPeers OthersServed
  others_owing owed a s h b p n e = rw n (h b p e)

  pub flush_peer-AllServed :
      (a : String) (s : Core) → AllServed o u s → AllServed o (owing false a u) (flush_peer a s)
  unfolding flush_peer
  flush_peer-AllServed a s h =
      let v = owing false a u in
      let rest = others_owing false a s h in
      given_lem (AllServed o v) (find s.peers a) _ _ (λ e. none-AllServed o v a s e rest)
        (λ p e. let (f, g, w) = IsServed-peer o u a s e h in flush-AllServed o v a p s f w rest)

  pub link_opened-AllServed :
      (a : String) (s : Core) → AllServed o u s → AllServed o (owing true a u) (link_opened a s)
  unfolding link_opened
  link_opened-AllServed a s h =
      let v = owing true a u in
      let rest = others_owing true a s h in
      given_lem (AllServed o v) (find s.peers a) _ _ (λ e. none-AllServed o v a s e rest)
        (λ p e.
          let (f, g, w) = IsServed-peer o u a s e h in
          put_other-AllServed o v a _ s (f, ground (arith, same_refl a), w) rest)

  pub always-AllServed : (s : Core) → AllServed o u s → AllServed o always s
  unfolding AllServed ServedPeers
  always-AllServed s h a p e = let (f, g, w) = h a p e in (f, ground arith, w)
