-- ===== src/Messaging/Correlation/Watched.antt =====
-- Every request that waits has a timeout that waits: packages/actor-core-runtime/src/
-- pure-xstate-utilities.ts.
use actor_web.Common.{
  ℕ, ◌<◌, true, false, List, [], ◌∷◌, Option, none, some, String, ◌==◌, if◌then◌else◌, given,
  given_lem, given-some, given-none, same, same_iff, same_refl, find, erase, find-put, find-erase,
  arith, ◌≡◌, refl, sym, ap, ◌∙◌, Bool-cases, Option-cases, inl, inr, if_true, if_false,
}
use actor_web.Messaging.Correlation.{
  Ending, PendingRequest, CorrelationManager, new_manager, timeout_of, clear_timeout,
  register_request, handle_response, handle_timeout, fire_timeout, clear_all_requests, Call,
  registering, responding, timing_out, firing, clearing, step, run, fire_each,
}

none_at :
    (es : List (ℕ × String)) (t u : ℕ)
    → timeout_of es t ≡ none
    → timeout_of es u ≡ (if t == u then none else timeout_of es u)
none_at es t u e = elim (Bool-cases (t == u)) [
  | inl b ↦ let eq : t ≡ u = ground (arith, b) in rw b (ap (λ x. timeout_of es x) (sym eq) ∙ e)
  | inr b ↦ rw b refl
]

pub timeout_of-clear_timeout :
    (es : List (ℕ × String)) (t u : ℕ)
    → timeout_of (clear_timeout es t) u ≡ (if t == u then none else timeout_of es u)
unfolding timeout_of clear_timeout
timeout_of-clear_timeout [] t u = ground arith
timeout_of-clear_timeout (e ∷ es) t u = ground (arith, timeout_of-clear_timeout es t u)

-- The timeout of each pending request waits, with the id of the request; the numbers of the
-- timeouts that wait are used up.
pub record IsWatched (c : CorrelationManager) : Type 0 where
  pub watch :
      (id : String) (r : PendingRequest)
      → find c.pending_requests id ≡ some r
      → timeout_of c.timeouts r.timeout_id ≡ some id
  pub used : (t : ℕ) (id : String) → timeout_of c.timeouts t ≡ some id → t < c.id_counter

other_timeout :
    (c : CorrelationManager) (t : ℕ) (id other : String) (r : PendingRequest)
    → timeout_of c.timeouts t ≡ some id
    → timeout_of c.timeouts r.timeout_id ≡ some other
    → (t == r.timeout_id) ≡ true
    → same id other ≡ false
    → ⊥
other_timeout c t id other r e g b q =
    let eq : t ≡ r.timeout_id = ground (arith, b) in
    let both : some id ≡ some other = sym e ∙ ap (λ u. timeout_of c.timeouts u) eq ∙ g in
    ground (arith, both, q, same_iff id other)

-- A request leaves, and with it the timeout of its id.
left-IsWatched :
    (c : CorrelationManager) (id : String) (t : ℕ) (log : List (ℕ × Ending))
    → timeout_of c.timeouts t ≡ some id
    → IsWatched c
    → IsWatched (record c {
      pending_requests = erase c.pending_requests id;
      timeouts = clear_timeout c.timeouts t;
      settled = log;
    })
left-IsWatched c id t log e w = record {
  watch = λ other r f.
      let kept = find-erase c.pending_requests id other in
      let cleared = timeout_of-clear_timeout c.timeouts t r.timeout_id in
      elim (Bool-cases (same id other)) [
        | inl q ↦ absurd (ground (arith, q, kept, f))
        | inr q ↦
            let g = w.watch other r (ground (arith, q, kept, f)) in
            elim (Bool-cases (t == r.timeout_id)) [
              | inl b ↦ absurd (other_timeout c t id other r e g b q)
              | inr b ↦ cleared ∙ rw b g
            ]
      ];
  used = λ u other f. w.used u other (ground (arith, f, timeout_of-clear_timeout c.timeouts t u));
}

handle_response-IsWatched :
    (how : Ending) (id : String) (c : CorrelationManager)
    → IsWatched c
    → IsWatched (handle_response how id c)
unfolding handle_response
handle_response-IsWatched how id c w =
    given_lem IsWatched (find c.pending_requests id) _ _ (λ e. w)
      (λ r e. left-IsWatched c id r.timeout_id _ (w.watch id r e) w)

-- The timeout of the id goes on waiting, and no request needs it.
handle_timeout-IsWatched :
    (id : String) (c : CorrelationManager) → IsWatched c → IsWatched (handle_timeout id c)
unfolding handle_timeout
handle_timeout-IsWatched id c w =
    given_lem IsWatched (find c.pending_requests id) _ _ (λ e. w)
      (λ r e. record {
        watch = λ other x f.
            w.watch other x (ground (arith, f, find-erase c.pending_requests id other));
        used = w.used;
      })

-- No request of an id waits once its timeout was handled.
handled :
    (id : String) (c : CorrelationManager) → find (handle_timeout id c).pending_requests id ≡ none
unfolding handle_timeout
handled id c =
    given_lem (λ (x : CorrelationManager). find x.pending_requests id ≡ none)
      (find c.pending_requests id) _ _ (λ e. e)
      (λ r e. find-erase c.pending_requests id id ∙ rw (same_refl id) refl)

timeouts-handle_timeout :
    (id : String) (c : CorrelationManager) → (handle_timeout id c).timeouts ≡ c.timeouts
unfolding handle_timeout
timeouts-handle_timeout id c =
    given_lem (λ (x : CorrelationManager). x.timeouts ≡ c.timeouts) (find c.pending_requests id) _ _
      (λ e. refl) (λ r e. refl)

fire_timeout-IsWatched :
    (t : ℕ) (c : CorrelationManager) → IsWatched c → IsWatched (fire_timeout t c)
unfolding fire_timeout
fire_timeout-IsWatched t c w =
    given_lem IsWatched (timeout_of c.timeouts t) _ _ (λ e. w)
      (λ id e.
        let c' = handle_timeout id c in
        let w' = handle_timeout-IsWatched id c w in
        let e' : timeout_of c'.timeouts t ≡ some id =
          ap (λ ts. timeout_of ts t) (timeouts-handle_timeout id c) ∙ e in
        let gone = handled id c in
        record {
          watch = λ other r f.
              let cleared = timeout_of-clear_timeout c'.timeouts t r.timeout_id in
              let g = w'.watch other r f in
              elim (Bool-cases (t == r.timeout_id)) [
                | inl b ↦ elim (Bool-cases (same id other)) [
                  | inl q ↦ absurd (
                      ground (
                        arith,
                        gone,
                        f,
                        ap (λ k. find c'.pending_requests k) ((same_iff id other).0 q),
                      ))
                  | inr q ↦ absurd (other_timeout c' t id other r e' g b q)
                ]
                | inr b ↦ cleared ∙ rw b g
              ];
          used = λ u other f.
              w'.used u other (ground (arith, f, timeout_of-clear_timeout c'.timeouts t u));
        })

register_request-IsWatched :
    (id : String) (c : CorrelationManager) → IsWatched c → IsWatched (register_request id c).0
unfolding register_request timeout_of
register_request-IsWatched id c w =
    given_lem (λ (x : CorrelationManager × Option ℕ). IsWatched x.0) (find c.pending_requests id) _
      _
      (λ e. record {
        watch = λ other r f.
            let new : PendingRequest = record { promise = c.promises; timeout_id = c.id_counter } in
            let kept = find-put c.pending_requests id other new in
            elim (Bool-cases (same id other)) [
              | inl q ↦
                  let taken = sym (kept ∙ if_true (same id other) _ _ q) ∙ f in
                  let number : c.id_counter ≡ r.timeout_id =
                    ap (λ x. given x c.id_counter (λ (y : PendingRequest). y.timeout_id)) taken in
                  if_true (c.id_counter == r.timeout_id) _ _ (ground (arith, number))
                  ∙ ap some ((same_iff id other).0 q)
              | inr q ↦
                  let g = w.watch other r (ground (arith, kept, f, q)) in
                  if_false (c.id_counter == r.timeout_id) _ _
                    (ground (arith, w.used r.timeout_id other g))
                  ∙ g
            ];
        used = λ u other f. elim (Bool-cases (c.id_counter == u)) [
          | inl b ↦ ground (arith, b)
          | inr b ↦
              let k = w.used u other (sym (if_false (c.id_counter == u) _ _ b) ∙ f) in
              omega (arith, k)
        ];
      })
      (λ r e. w)

step-IsWatched : (x : Call) (c : CorrelationManager) → IsWatched c → IsWatched (step x c)
unfolding step clear_all_requests find timeout_of
step-IsWatched (registering id) c w = register_request-IsWatched id c w
step-IsWatched (responding how id) c w = handle_response-IsWatched how id c w
step-IsWatched (timing_out id) c w = handle_timeout-IsWatched id c w
step-IsWatched (firing t) c w = fire_timeout-IsWatched t c w
step-IsWatched clearing c w = record {
  watch = λ id r f. absurd (ground (arith, f));
  used = λ t id f. absurd (ground (arith, f));
}

pub run-IsWatched : (xs : List Call) (c : CorrelationManager) → IsWatched c → IsWatched (run xs c)
unfolding run
run-IsWatched [] c w = w
run-IsWatched (x ∷ xs) c w = run-IsWatched xs (step x c) (step-IsWatched x c w)

pub new_manager-IsWatched : IsWatched new_manager
unfolding find timeout_of
new_manager-IsWatched = record {
  watch = λ id r f. absurd (ground (arith, f));
  used = λ t id f. absurd (ground (arith, f));
}

pub fire_each-IsWatched :
    (es : List (ℕ × String)) (c : CorrelationManager) → IsWatched c → IsWatched (fire_each es c)
unfolding fire_each
fire_each-IsWatched [] c w = w
fire_each-IsWatched (e ∷ es) c w =
    fire_each-IsWatched es (fire_timeout e.0 c) (fire_timeout-IsWatched e.0 c w)

-- A timeout that fired waits no more, and the others as before.
pub timeout_of-fire_timeout :
    (t u : ℕ) (c : CorrelationManager)
    → timeout_of (fire_timeout t c).timeouts u ≡ (if t == u then none else timeout_of c.timeouts u)
unfolding fire_timeout
timeout_of-fire_timeout t u c = elim (Option-cases (timeout_of c.timeouts t)) [
  | inl e ↦
      ap (λ (x : CorrelationManager). timeout_of x.timeouts u)
        (given-none (timeout_of c.timeouts t) _ _ e)
      ∙ none_at c.timeouts t u e
  | inr (id, e) ↦
      ap (λ (x : CorrelationManager). timeout_of x.timeouts u)
        (given-some (timeout_of c.timeouts t) _ _ e)
      ∙ timeout_of-clear_timeout (handle_timeout id c).timeouts t u
      ∙ ap (λ ts. if t == u then none else timeout_of ts u) (timeouts-handle_timeout id c)
]

-- Once all the timeouts that may wait have fired, none waits.
pub timeout_of-fire_each :
    (es : List (ℕ × String)) (c : CorrelationManager)
    → ((u : ℕ) → timeout_of es u ≡ none → timeout_of c.timeouts u ≡ none)
    → (u : ℕ) → timeout_of (fire_each es c).timeouts u ≡ none
unfolding fire_each timeout_of
timeout_of-fire_each [] c h u = h u refl
timeout_of-fire_each (e ∷ es) c h u =
    timeout_of-fire_each es (fire_timeout e.0 c)
      (λ v k. timeout_of-fire_timeout e.0 v c ∙ elim (Bool-cases (e.0 == v)) [
        | inl b ↦ rw b refl
        | inr b ↦ rw b (h v (if_false (e.0 == v) _ _ b ∙ k))
      ])
      u

-- So no request waits then.
pub fire_each_all :
    (c : CorrelationManager) (id : String)
    → IsWatched c
    → find (fire_each c.timeouts c).pending_requests id ≡ none
fire_each_all c id w =
    let c' = fire_each c.timeouts c in
    let w' = fire_each-IsWatched c.timeouts c w in
    elim (Option-cases (find c'.pending_requests id)) [
      | inl e ↦ e
      | inr (r, e) ↦ absurd (
          ground
            (arith, w'.watch id r e, timeout_of-fire_each c.timeouts c (λ u k. k) r.timeout_id))
    ]
