-- ===== src/Transport/Idempotency/Durable.antt =====
-- Frames of one link, claimed at a provider that forgets nothing.
use text.Mathlib.TextLemmas.{append_cancel_left}
use actor_web.Common.{
  includes-append, ℕ, true, false, ◌||◌, List, [], ◌∷◌, ◌++◌, some, if◌then◌else◌, String, same,
  same_iff, same-same, includes, arith, ◌≡◌, refl, ap, ◌∙◌, Bool-cases, inl, inr, Dict, find,
  find-put_self,
}
use actor_web.Transport.Identity.{
  RuntimeNodeIdentity, create_runtime_transport_idempotency_scope, idempotency_key,
}
use actor_web.Transport.Idempotency.{
  ClaimResult, claimed, FrontCache, FrameFacts, new_cache, set_add, set_delete, has, evict,
  remember, ClaimOutcome, claim_with_provider, in_memory_provider, memory_claim, keys_of,
  create_claim_input, provider_outcome,
}
use actor_web.Transport.Idempotency.Window.{includes-set_add, includes-set_delete, accepted_id}

abbrev pub State : Type 0
State = FrontCache × Dict (List String)

evict_keeps :
    (limit : ℕ) (ids s : List String) (a : String)
    → includes a (evict limit ids s).1 ≡ true
    → includes a s ≡ true
unfolding evict
evict_keeps limit [] s a h = h
evict_keeps limit (x ∷ ids) s a h =
    let s' = if same x "" then s else set_delete x s in
    ground (arith, evict_keeps limit ids s' a, includes-set_delete a x s)

remember_keeps :
    (c : FrontCache) (x a : String)
    → includes a (remember c x).0.message_id_set ≡ true
    → (includes a c.message_id_set || same x a) ≡ true
unfolding remember
remember_keeps c x a h = ground (
  arith,
  evict_keeps c.limit (c.message_ids ++ x ∷ []) (set_add x c.message_id_set) a,
  includes-set_add a x c.message_id_set,
)

module _ (local_node peer_node : RuntimeNodeIdentity) where
  abbrev link_key : String → String
  link_key = idempotency_key (create_runtime_transport_idempotency_scope local_node peer_node)

  abbrev link_keys : Dict (List String) → List String
  link_keys d = keys_of (find d (create_runtime_transport_idempotency_scope local_node peer_node))

  unfoldable pub claim_frame : FrameFacts → State → State × ClaimOutcome
  claim_frame = claim_with_provider in_memory_provider local_node peer_node

  -- The ids accepted of frames that arrive one after another, and the state after them.
  unfoldable pub run_frames : List FrameFacts → State → List String × State
  run_frames [] s = ([], s)
  run_frames (f ∷ fs) s =
      let (s', o) = claim_frame f s in
      let (ids, s'') = run_frames fs s' in (accepted_id f.message_id o ++ ids, s'')

  -- The first frame of each id that is not in the history.
  unfoldable pub first_of_each : List String → List FrameFacts → List String
  first_of_each history [] = []
  first_of_each history (f ∷ fs) =
      let rest = first_of_each (history ++ f.message_id ∷ []) fs in
      let same_rest = first_of_each history fs in
      if includes f.message_id history then same_rest else f.message_id ∷ rest

  -- The provider knows the accepted ids of the link, and the cache no others.
  pub record Covers (s : State) (history : List String) : Type 0 where
    pub cached : (a : String) → includes a s.0.message_id_set ≡ true → includes a history ≡ true
    pub known : (a : String) → includes (link_key a) (link_keys s.1) ≡ includes a history

  link_key_injective : (a b : String) → same (link_key a) (link_key b) ≡ same a b
  unfolding idempotency_key
  link_key_injective a b =
      same-same _ _ _ _ (λ e. append_cancel_left _ a b (append_cancel_left _ _ _ e))
        (λ e. ap link_key e)

  memory_claim_keys :
      (f : FrameFacts) (d : Dict (List String)) (a : String)
      → includes a (link_keys (memory_claim (create_claim_input local_node peer_node f) d).0)
        ≡ includes a (link_keys d) || same (link_key f.message_id) a
  unfolding memory_claim create_claim_input
  memory_claim_keys f d a =
      rw find-put_self (includes-set_add a (link_key f.message_id) (link_keys d))

  Covers-known :
      (s : State) (h : List String) (f : FrameFacts)
      → Covers s h
      → (memory_claim (create_claim_input local_node peer_node f) s.1).1
        ≡ some (if includes f.message_id h then ClaimResult.duplicate else claimed)
  unfolding memory_claim create_claim_input
  Covers-known s h f v =
      ap (λ b. some (if b then ClaimResult.duplicate else claimed)) (v.known f.message_id)

  Covers-after :
      (s : State) (h h' : List String) (f : FrameFacts)
      → ((a : String) → includes a h' ≡ includes a h || same f.message_id a)
      → Covers s h
      → Covers
          (
            (remember s.0 f.message_id).0,
            (memory_claim (create_claim_input local_node peer_node f) s.1).0,
          )
          h'
  Covers-after s h h' f e v = record {
    cached = λ a k. ground (arith, remember_keeps s.0 f.message_id a k, v.cached a, e a);
    known = λ a.
        memory_claim_keys f s.1 (link_key a)
        ∙ ground (arith, v.known a, link_key_injective f.message_id a, e a);
  }

  -- Of one frame: whether its id is accepted, and what holds after it.
  pub claim_frame_lem :
      (s : State) (h : List String) (f : FrameFacts)
      → Covers s h
      → (accepted_id f.message_id (claim_frame f s).1
          ≡ (if includes f.message_id h then [] else f.message_id ∷ []))
        × Covers (claim_frame f s).0 (if includes f.message_id h then h else h ++ f.message_id ∷ [])
  unfolding claim_frame claim_with_provider provider_outcome accepted_id
  claim_frame_lem s h f v = elim (Bool-cases (includes f.message_id h)) [
    | inl old ↦ elim (Bool-cases (has s.0 f.message_id)) [
      | inl e ↦ rw (e, old) (refl, v)
      | inr e ↦
          rw (e, Covers-known s h f v, old)
            (refl, Covers-after s h h f (λ a. ground (arith, same_iff f.message_id a)) v)
    ]
    | inr new ↦
        let e : has s.0 f.message_id ≡ false =
          unfold has in ground (arith, v.cached f.message_id) in
        rw (e, Covers-known s h f v, new)
          (
            refl,
            Covers-after s h (h ++ f.message_id ∷ []) f
                (λ a. includes-append a h _ ∙ unfold includes in ground arith) v,
          )
  ]

  run_frames_lem :
      (fs : List FrameFacts) (s : State) (h : List String)
      → Covers s h
      → (run_frames fs s).0 ≡ first_of_each h fs
  unfolding run_frames first_of_each
  run_frames_lem [] s h v = refl
  run_frames_lem (f ∷ fs) s h v =
      let (o, v') = claim_frame_lem s h f v in
      let ih = run_frames_lem fs (claim_frame f s).0 in
      elim (Bool-cases (includes f.message_id h)) [
        | inl e ↦ rw (o, e) (ih h (rw e at v'))
        | inr e ↦ rw (o, e) (ap (◌∷◌ f.message_id) (ih (h ++ f.message_id ∷ []) (rw e at v')))
      ]

  -- At a new in-memory provider, frames of one link are accepted exactly once for each id, the
  -- first time that it arrives, whatever the limit of the front cache is and so however many ids
  -- it forgets.
  pub run_frames-first_of_each :
      (limit : ℕ) (fs : List FrameFacts)
      → (run_frames fs (new_cache limit, [])).0 ≡ first_of_each [] fs
  unfolding new_cache find keys_of includes
  run_frames-first_of_each limit fs =
      run_frames_lem fs (new_cache limit, []) [] (record { cached = λ a e. e; known = λ a. refl })
