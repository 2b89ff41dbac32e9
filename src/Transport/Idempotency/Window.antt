-- ===== src/Transport/Idempotency/Window.antt =====
-- The front cache is a sliding window over the accepted ids.
use actor_web.Common.{
  last, last-append, Distinct, includes-append, ℕ, ◌<◌, false, not, ◌&&◌, ◌||◌, List, [], ◌∷◌, ◌++◌,
  ltb, ◌==◌, if◌then◌else◌, length, String, same, same_iff, includes, arith, ◌≡◌, refl, ap, sym,
  ◌∙◌, Bool-cases, inl, inr, append-nil, append_assoc,
}
use actor_web.Transport.Idempotency.{
  FrontCache, new_cache, set_add, set_delete, has, evict, remember, ClaimOutcome, accepted, error,
  claim_in_memory,
}

pub includes-set_add :
    (a x : String) (s : List String) → includes a (set_add x s) ≡ includes a s || same x a
unfolding set_add
includes-set_add a x s = elim (Bool-cases (includes x s)) [
  | inl e ↦ rw e (ground (arith, same_iff x a))
  | inr e ↦ rw e (includes-append a s (x ∷ []) ∙ unfold includes in ground arith)
]

pub includes-set_delete :
    (a x : String) (s : List String) → includes a (set_delete x s) ≡ not (same x a) && includes a s
unfolding set_delete includes
includes-set_delete a x [] = ground arith
includes-set_delete a x (y ∷ s) =
    ground (arith, includes-set_delete a x s, same_iff y x, same_iff x a, same_iff y a)

abbrev pub NonEmpty : List String → Type 0
NonEmpty [] = Unit
NonEmpty (x ∷ xs) = (same x "" ≡ false) × NonEmpty xs

-- The set of ids holds the ids of the list.
abbrev pub Agrees : List String → List String → Type 0
Agrees s ids = (a : String) → includes a s ≡ includes a ids

Agrees-set_delete :
    (x : String) (s ids : List String)
    → includes x ids ≡ false
    → Agrees s (x ∷ ids)
    → Agrees (set_delete x s) ids
unfolding includes
Agrees-set_delete x s ids d g a = ground (arith, includes-set_delete a x s, g a, same_iff x a)

-- With distinct ids that are not empty, the loop keeps the last `limit` ids, and the set follows.
evict_lem :
    (limit : ℕ) (ids s : List String)
    → Distinct ids
    → NonEmpty ids
    → Agrees s ids
    → ((evict limit ids s).0 ≡ last limit ids) × Agrees (evict limit ids s).1 (last limit ids)
unfolding evict last
evict_lem limit [] s d n g = (refl, g)
evict_lem limit (x ∷ ids) s d n g = elim (Bool-cases (ltb limit (length (x ∷ ids)))) [
  | inl e ↦
      simp (e, n.0) (evict_lem limit ids (set_delete x s) d.1 n.1 (Agrees-set_delete x s ids d.0 g))
  | inr e ↦ simp e (refl, g)
]

-- What holds between two claims: the limit is positive, the list of the cache is the last `limit`
-- accepted ids of the history, its elements are distinct and not empty, and the set has the same
-- elements.
pub record Tracks (c : FrontCache) (history : List String) : Type 0 where
  pub positive : 0 < c.limit
  pub window : c.message_ids ≡ last c.limit history
  pub distinct : Distinct c.message_ids
  pub nonempty : NonEmpty c.message_ids
  pub agrees : Agrees c.message_id_set c.message_ids

Distinct-snoc :
    (ids : List String) (x : String)
    → Distinct ids
    → includes x ids ≡ false
    → Distinct (ids ++ x ∷ [])
unfolding includes
Distinct-snoc [] x d h = (refl, tt)
Distinct-snoc (y ∷ ids) x d h = (
  ground (arith, includes-append y ids (x ∷ []), same_iff x y, same_iff y x),
  Distinct-snoc ids x d.1 (ground arith),
)

NonEmpty-snoc :
    (ids : List String) (x : String) → NonEmpty ids → same x "" ≡ false → NonEmpty (ids ++ x ∷ [])
NonEmpty-snoc [] x n h = (h, tt)
NonEmpty-snoc (y ∷ ids) x n h = (n.0, NonEmpty-snoc ids x n.1 h)

Distinct-last : (n : ℕ) (xs : List String) → Distinct xs → Distinct (last n xs)
unfolding last
Distinct-last n [] d = tt
Distinct-last n (x ∷ xs) d = elim (Bool-cases (ltb n (length (x ∷ xs)))) [
  | inl e ↦ rw e (Distinct-last n xs d.1)
  | inr e ↦ rw e d
]

NonEmpty-last : (n : ℕ) (xs : List String) → NonEmpty xs → NonEmpty (last n xs)
unfolding last
NonEmpty-last n [] d = tt
NonEmpty-last n (x ∷ xs) d = elim (Bool-cases (ltb n (length (x ∷ xs)))) [
  | inl e ↦ rw e (NonEmpty-last n xs d.1)
  | inr e ↦ rw e d
]

Agrees-snoc :
    (s ids : List String) (x : String) → Agrees s ids → Agrees (set_add x s) (ids ++ x ∷ [])
unfolding includes
Agrees-snoc s ids x g a =
    ground (arith, includes-set_add a x s, includes-append a ids (x ∷ []), g a)

pub remember-Tracks :
    (c : FrontCache) (h : List String) (x : String)
    → Tracks c h
    → has c x ≡ false
    → same x "" ≡ false
    → Tracks (remember c x).0 (h ++ x ∷ [])
unfolding remember
remember-Tracks c h x t new ne =
    let fresh : includes x c.message_ids ≡ false = unfold has in ground (arith, t.agrees x) in
    let ids = c.message_ids ++ x ∷ [] in
    let d = Distinct-snoc c.message_ids x t.distinct fresh in
    let n = NonEmpty-snoc c.message_ids x t.nonempty ne in
    let (w, g) =
      evict_lem c.limit ids (set_add x c.message_id_set) d n
        (Agrees-snoc c.message_id_set c.message_ids x t.agrees) in
    let e : (c.limit == 0) ≡ false = ground arith in
    simp e (record {
      positive = t.positive;
      window = w ∙ ap (λ l. last c.limit (l ++ x ∷ [])) t.window ∙ last-append c.limit h (x ∷ []);
      distinct = rw w (Distinct-last c.limit ids d);
      nonempty = rw w (NonEmpty-last c.limit ids n);
      agrees = rw w g;
    })

unfoldable pub accepted_id : String → ClaimOutcome → List String
accepted_id x (accepted source evicted claim) = x ∷ []
accepted_id x (ClaimOutcome.duplicate source evicted claim) = []
accepted_id x (error claim) = []

-- The ids that are accepted of frames that arrive one after another.
unfoldable pub run_claims : List String → FrontCache → List String
run_claims [] c = []
run_claims (x ∷ xs) c = let (c', o) = claim_in_memory c x in accepted_id x o ++ run_claims xs c'

-- The frames' history without a cache: an id is accepted unless it is among the last `limit`
-- accepted ones.
unfoldable pub accept_all : ℕ → List String → List String → List String
accept_all limit history [] = history
accept_all limit history (x ∷ xs) =
    accept_all limit (if includes x (last limit history) then history else history ++ x ∷ []) xs

pub has-last :
    (c : FrontCache) (h : List String) (x : String)
    → Tracks c h
    → has c x ≡ includes x (last c.limit h)
unfolding has
has-last c h x t = rw (← t.window) (ground (arith, t.agrees x))

pub limit-remember : (c : FrontCache) (x : String) → (remember c x).0.limit ≡ c.limit
unfolding remember
limit-remember c x = ground arith

run_claims_history :
    (xs : List String) (c : FrontCache) (h : List String)
    → Tracks c h
    → NonEmpty xs
    → h ++ run_claims xs c ≡ accept_all c.limit h xs
unfolding run_claims accept_all claim_in_memory accepted_id
run_claims_history [] c h t n = append-nil h
run_claims_history (x ∷ xs) c h t n = elim (Bool-cases (has c x)) [
  | inl e ↦ rw (e, sym (has-last c h x t) ∙ e) (run_claims_history xs c h t n.1)
  | inr e ↦
      rw (e, sym (has-last c h x t) ∙ e)
        (sym (append_assoc h (x ∷ []) (run_claims xs (remember c x).0))
          ∙ run_claims_history xs (remember c x).0 (h ++ x ∷ []) (remember-Tracks c h x t e n.0) n.1
          ∙ ap (λ k. accept_all k (h ++ x ∷ []) xs) (limit-remember c x))
]

-- A new front cache with a positive limit, and no provider: of any frames whose ids are not
-- empty, exactly those are accepted whose id is not among the last `limit` ids accepted before.
pub run_claims-accept_all :
    (limit : ℕ) (xs : List String)
    → 0 < limit
    → NonEmpty xs
    → run_claims xs (new_cache limit) ≡ accept_all limit [] xs
unfolding new_cache last includes
run_claims-accept_all limit xs p n =
    run_claims_history xs (new_cache limit) []
      (record { positive = p; window = refl; distinct = tt; nonempty = tt; agrees = λ a. refl }) n
