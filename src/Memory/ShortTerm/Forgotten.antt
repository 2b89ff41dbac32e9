-- ===== src/Memory/ShortTerm/Forgotten.antt =====
-- What `forget` does.
use actor_web.Common.{
  ℕ, ◌≤◌, leb, false, ◌∷◌, length, none, some, String, same, same_refl, same-same, if_true,
  if_false, given-none, Dict, find, find-put, find-put_self, find-erase, put, erase, arith, ◌≡◌,
  sym, ap, ◌∙◌,
}
use actor_web.Memory.ShortTerm.{LruCache, Experience, blank, without_first, set, forget}

first_apart :
    (id : String) (e : String × Experience) (d : Dict Experience)
    → find (e ∷ d) id ≡ none
    → same id e.0 ≡ false
unfolding find
first_apart id e d absent = ground (arith, absent, same-same id e.0 e.0 id sym sym)

-- Forgetting an experience that a full cache does not hold drives out the one that was used longest
-- ago, and the cache holds an empty experience under the id that was to be forgotten.
pub forget_evicts :
    (id : String) (e : String × Experience) (d : Dict Experience) (n : ℕ)
    → n ≤ length (e ∷ d)
    → find (e ∷ d) id ≡ none
    → let after = (forget id (record { cache = e ∷ d; max_size = n })).cache in
      (find after e.0 ≡ none) × (find after id ≡ some (blank id))
unfolding forget set without_first
forget_evicts id e d n full absent =
    let apart = first_apart id e d absent in
    let stores : (set id (blank id) (record { cache = e ∷ d; max_size = n })).cache
        ≡ put (erase (e ∷ d) e.0) id (blank id) =
      ap (λ (c : LruCache Experience). c.cache) (given-none (find (e ∷ d) id) _ _ absent)
      ∙ if_true (leb n (length (e ∷ d))) _ _ (ground (arith, full)) in
    (
      ap (λ (x : Dict Experience). find x e.0) stores
          ∙ find-put (erase (e ∷ d) e.0) id e.0 (blank id)
          ∙ if_false (same id e.0) _ _ apart
          ∙ find-erase (e ∷ d) e.0 e.0
          ∙ if_true (same e.0 e.0) _ _ (same_refl e.0),
      ap (λ (x : Dict Experience). find x id) stores
          ∙ find-put_self (erase (e ∷ d) e.0) id (blank id),
    )
