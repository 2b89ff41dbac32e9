-- ===== src/Transport/Core/Reconnection.antt =====
-- A frame sent again that waits in the queue of a link, and a new link to the same node:
-- packages/actor-core-runtime/src/transport/transport-core.ts.
use mathlib.Core.Path.{subst}
use actor_web.Common.{
  ℕ, ◌+◌, Bool, true, false, not, ◌||◌, List, [], ◌∷◌, ◌++◌, none, some, String, ◌==◌,
  if◌then◌else◌, same_refl, find, find-put_self, find-erase, arith, ◌≡◌, refl, sym, ap, ◌∙◌,
  given-some, given_lem, if_true, if_false, same_iff, append_assoc, append-nil, Bool-cases, inl,
  inr,
}
use actor_web.Transport.Identity.{RuntimeNodeIdentity}
use actor_web.Transport.Core.{
  Options, OutboundQueueItem, Peer, Core, settle, output, emitted_connected, reject_item,
  reject_queued_frames, put_peer, forget_peer, close_peer, disconnect, can_accept_peer,
  replace_existing, new_peer, register_peer, accept_link,
}
use actor_web.Transport.Core.Outbound.{next_microtask, microtask}
use actor_web.Transport.Core.Served.{close_peer-peers}

-- The disconnects that the rejection of these items leaves waiting.
abbrev catches : String → List OutboundQueueItem → List String
catches a [] = []
catches a (i ∷ is) = if i.track_ack then catches a is else a ∷ catches a is

-- Whether a frame that is sent again waits in a queue.
unfoldable pub waits_again : List OutboundQueueItem → Bool
waits_again [] = false
waits_again (i ∷ is) = not i.track_ack || waits_again is

catches_some :
    (a : String) (is : List OutboundQueueItem)
    → waits_again is ≡ true
    → (rest : List String) × (catches a is ≡ a ∷ rest)
unfolding waits_again
catches_some a [] h = absurd (ground arith)
catches_some a (i ∷ is) h = elim (Bool-cases i.track_ack) [
  | inl e ↦ let (rest, q) = catches_some a is (ground (arith, h, e)) in (rest, rw (e, q) refl)
  | inr e ↦ (catches a is, rw e refl)
]

reject_item-catches :
    (a : String) (i : OutboundQueueItem) (is : List OutboundQueueItem) (s : Core)
    → (reject_item a i s).disconnects ++ catches a is ≡ s.disconnects ++ catches a (i ∷ is)
unfolding reject_item settle
reject_item-catches a i is s = elim (Bool-cases i.track_ack) [
  | inl e ↦ simp e refl
  | inr e ↦ simp e (append_assoc s.disconnects (a ∷ []) (catches a is))
]

reject_queued_frames-peer_ids :
    (a : String) (is : List OutboundQueueItem) (s : Core)
    → (reject_queued_frames a is s).peer_ids ≡ s.peer_ids
unfolding reject_queued_frames reject_item settle
reject_queued_frames-peer_ids a [] s = refl
reject_queued_frames-peer_ids a (i ∷ is) s =
    reject_queued_frames-peer_ids a is (reject_item a i s) ∙ ground arith

-- A node that was disconnected is not registered.
disconnect_gone : (o : Options) (a : String) (s : Core) → find (disconnect a s).peers a ≡ none
unfolding disconnect
disconnect_gone o a s =
    given_lem (λ (x : Core). find x.peers a ≡ none) (find s.peers a) _ _ (λ e. e)
      (λ p e.
        ap (λ d. find d a) (close_peer-peers a p true s)
        ∙ find-erase s.peers a a
        ∙ rw (same_refl a) refl)

next_gone :
    (o : Options) (a : String) (rest waiting : List String) (s : Core)
    → waiting ≡ a ∷ rest
    → find (next_microtask waiting s).peers a ≡ none
unfolding next_microtask
next_gone o a rest waiting s e =
    subst (λ w. find (next_microtask w s).peers a ≡ none) (sym e)
      (disconnect_gone o a (record s { disconnects = rest }))

reject_queued_frames-catches :
    (a : String) (is : List OutboundQueueItem) (s : Core)
    → (reject_queued_frames a is s).disconnects ≡ s.disconnects ++ catches a is
unfolding reject_queued_frames settle
reject_queued_frames-catches a [] s = sym (append-nil s.disconnects)
reject_queued_frames-catches a (i ∷ is) s =
    reject_queued_frames-catches a is (reject_item a i s) ∙ reject_item-catches a i is s

-- A peer in whose queue a frame waits that is sent again (its link has stalled, say), and a new
-- link to the same node, by which it is registered again: the new peer is registered, and the first
-- disconnect that the old queue's rejection left waiting removes it, although nothing is wrong with
-- its link. (If no other disconnect waits, and the links differ.)
pub accept_link-disconnects :
    (o : Options) (s : Core) (p : Peer) (link : ℕ) (is_open : Bool) (i : RuntimeNodeIdentity)
    (now : ℕ)
    → find s.peers i.node_address ≡ some p
    → p.identity.node_id ≡ i.node_id
    → (p.link == link) ≡ false
    → s.disconnects ≡ []
    → waits_again p.outbound_queue ≡ true
    → let s' = accept_link o link is_open i now s in
      (find s'.peers i.node_address ≡ some (new_peer o s.peer_ids link is_open i now))
      × (find (microtask s').peers i.node_address ≡ none)
unfolding accept_link register_peer output put_peer can_accept_peer replace_existing close_peer
    forget_peer microtask
accept_link-disconnects o s p link is_open i now found node differ idle waiting =
    let a = i.node_address in
    let s1 = close_peer a p false s in
    let closed : replace_existing a link s ≡ s1 =
      given-some (find s.peers a) _ _ found ∙ if_false (p.link == link) _ _ differ in
    let fits : can_accept_peer i s ≡ true =
      given-some (find s.peers a) _ _ found ∙ (same_iff p.identity.node_id i.node_id).1 node in
    let registered : Core → Core = λ r. output (emitted_connected a) (
      put_peer a (new_peer o r.peer_ids link is_open i now)
        (record r { peer_ids = r.peer_ids + 1 })) in
    let accepted : accept_link o link is_open i now s ≡ registered s1 =
      if_true (can_accept_peer i s) _ _ fits ∙ ap registered closed in
    let s2 = registered s1 in
    let (rest, q) = catches_some a p.outbound_queue waiting in
    let queued : s2.disconnects ≡ a ∷ rest =
      reject_queued_frames-catches a p.outbound_queue s ∙ rw (idle, q) refl in
    let ids : s1.peer_ids ≡ s.peer_ids = reject_queued_frames-peer_ids a p.outbound_queue s in
    subst
      (λ (x : Core).
        (find x.peers a ≡ some (new_peer o s.peer_ids link is_open i now))
        × (find (microtask x).peers a ≡ none))
      (sym accepted)
      (
        find-put_self s1.peers a (new_peer o s1.peer_ids link is_open i now)
            ∙ ap (λ n. some (new_peer o n link is_open i now)) ids,
        next_gone o a rest s2.disconnects s2 queued,
      )
