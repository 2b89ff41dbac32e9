-- ===== src/Transport/Idempotency/Reconnect.antt =====
-- A link that is lost and made again between the same two transports, at one provider. Each time
-- `registerPeer` of packages/actor-core-runtime/src/transport/transport-core.ts makes a peer with
-- sequence 0 and a new front cache, and `send` numbers the frames from it.
use actor_web.Common.{
  includes-append, ℕ, ◌+◌, ◌≤◌, true, ◌||◌, List, [], ◌∷◌, ◌++◌, if◌then◌else◌, length, String,
  same, same_iff, same_refl, includes, arith, ◌≡◌, refl, ◌∙◌, Bool-cases, inl, inr, All, find,
}
use actor_web.Transport.Identity.{RuntimeNodeIdentity, create_runtime_transport_message_id}
use actor_web.Transport.Idempotency.{FrameFacts, new_cache, keys_of}
use actor_web.Transport.Idempotency.Window.{accepted_id}
use actor_web.Transport.Idempotency.Durable.{
  State, claim_frame, run_frames, Covers, claim_frame_lem,
}

-- The frames of messages of these types that are sent at a peer whose sequence is given. A message
-- that is too large is refused and takes no number, so it is not listed.
unfoldable pub sent_frames :
    RuntimeNodeIdentity → RuntimeNodeIdentity → ℕ → List String → List FrameFacts
sent_frames source destination sequence [] = []
sent_frames source destination sequence (t ∷ ts) =
    record {
      message_id = create_runtime_transport_message_id source destination (sequence + 1);
      sequence = sequence + 1;
      message_type = t;
    }
    ∷ sent_frames source destination (sequence + 1) ts

includes-note :
    (x : String) (h : List String) (a : String)
    → includes a (if includes x h then h else h ++ x ∷ []) ≡ includes a h || same x a
includes-note x h a = elim (Bool-cases (includes x h)) [
  | inl e ↦ rw e (ground (arith, same_iff x a))
  | inr e ↦ rw e (includes-append a h (x ∷ []) ∙ unfold includes in ground arith)
]

module _ (local_node peer_node : RuntimeNodeIdentity) where
  abbrev IsOld : List String → FrameFacts → Type 0
  IsOld h f = includes f.message_id h ≡ true

  -- The history after frames, and that the state covers it.
  Covers-run :
      (fs : List FrameFacts) (s : State) (h : List String)
      → Covers local_node peer_node s h
      → (h' : List String) × Covers local_node peer_node (run_frames local_node peer_node fs s).1 h'
        × ((a : String) → includes a h ≡ true → includes a h' ≡ true)
        × All (IsOld h') fs
  unfolding run_frames
  Covers-run [] s h v = (h, v, λ a e. e, tt)
  Covers-run (f ∷ fs) s h v =
      let next = if includes f.message_id h then h else h ++ f.message_id ∷ [] in
      let (o, v') = claim_frame_lem local_node peer_node s h f v in
      let (h', w, keep, old) = Covers-run fs (claim_frame local_node peer_node f s).0 next v' in
      let grow = includes-note f.message_id h in
      (
        h',
        w,
        λ a e. keep a (ground (arith, grow a)),
        (ground (arith, keep f.message_id, grow f.message_id, same_refl f.message_id), old),
      )

  run_frames_old :
      (fs : List FrameFacts) (s : State) (h : List String)
      → Covers local_node peer_node s h
      → All (IsOld h) fs
      → (run_frames local_node peer_node fs s).0 ≡ []
  unfolding run_frames
  run_frames_old [] s h v o = refl
  run_frames_old (f ∷ fs) s h v o =
      let (none_new, w) = claim_frame_lem local_node peer_node s h f v in
      let e : accepted_id f.message_id (claim_frame local_node peer_node f s).1 ≡ [] =
        ground (arith, none_new, o.0) in
      rw e (run_frames_old fs (claim_frame local_node peer_node f s).0 h (rw o.0 at w) o.1)

  IsOld-sent_frames :
      (h : List String) (n : ℕ) (ts us : List String)
      → length us ≤ length ts
      → All (IsOld h) (sent_frames peer_node local_node n ts)
      → All (IsOld h) (sent_frames peer_node local_node n us)
  unfolding sent_frames
  IsOld-sent_frames h n ts [] l o = tt
  IsOld-sent_frames h n [] (u ∷ us) l o = absurd (omega arith)
  IsOld-sent_frames h n (t ∷ ts) (u ∷ us) l o =
      (o.0, IsOld-sent_frames h (n + 1) ts us (omega arith) o.1)

  -- A peer sends messages, the link is lost and made again between the same two transports, and
  -- the peer sends at most as many messages: at one in-memory provider that serves both
  -- connections, none of the later messages is accepted, since the sequence, and with it the ids,
  -- start again.
  pub reconnect_drops_all :
      (limit : ℕ) (ts us : List String)
      → length us ≤ length ts
      → let s =
          (run_frames local_node peer_node
            (sent_frames peer_node local_node 0 ts)
            (new_cache limit, [])).1 in
        (run_frames local_node peer_node
          (sent_frames peer_node local_node 0 us)
          (new_cache limit, s.1)).0
        ≡ []
  unfolding new_cache find keys_of includes
  reconnect_drops_all limit ts us l =
      let start : Covers local_node peer_node (new_cache limit, []) [] = record {
        cached = λ a e. e;
        known = λ a. refl;
      } in
      let (h, v, keep, old) =
        Covers-run (sent_frames peer_node local_node 0 ts) (new_cache limit, []) [] start in
      run_frames_old (sent_frames peer_node local_node 0 us) _ h
        (record { cached = λ a e. absurd (cc e); known = v.known })
        (IsOld-sent_frames h 0 ts us l old)
