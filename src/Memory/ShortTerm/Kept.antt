-- ===== src/Memory/ShortTerm/Kept.antt =====
-- What the cache keeps.
use actor_web.Common.{
  ℕ, suc, ◌+◌, ◌≤◌, ◌<◌, leb, true, false, List, [], ◌∷◌, length, Option, none, some, String, same,
  same_iff, same_refl, if◌then◌else◌, given_lem, if_lem, All, Dict, find, find-put, find-erase, put,
  erase, arith, ◌≡◌, refl, ◌∙◌, inl, inr, Bool-cases, if_false, if_true, find-put_self,
}
use actor_web.Memory.ShortTerm.{
  LruCache, touch, without_first, get, set, Call, getting, setting, step, run,
}

-- How many entries stand behind that of a key.
unfoldable pub behind : {V : Type 0} → Dict V → String → ℕ
behind [] key = 0
behind (e ∷ d) key = if same e.0 key then length d else behind d key

-- The key is there with its value, and so many calls on other keys cannot drive it out.
record IsKept {V : Type 0} (key : String) (v : V) (m : ℕ) (c : LruCache V) : Type 0 where
  present : find c.cache key ≡ some v
  room : behind c.cache key + m < c.max_size

module _ {V : Type 0} (key : String) where
  length-erase : (d : Dict V) (k : String) → length (erase d k) ≤ length d
  unfolding erase
  length-erase [] k = omega arith
  length-erase (e ∷ d) k = ground (arith, length-erase d k)

  length-put : (d : Dict V) (k : String) (v : V) → length (put d k v) ≤ length d + 1
  unfolding put
  length-put [] k v = omega arith
  length-put (e ∷ d) k v = ground (arith, length-put d k v)

  behind_first : (e : String × V) (d : Dict V) → same e.0 key ≡ true → behind (e ∷ d) key ≡ length d
  unfolding behind
  behind_first e d q = rw q refl

  behind-erase :
      (d : Dict V) (k : String) → same k key ≡ false → behind (erase d k) key ≤ behind d key
  unfolding behind erase
  behind-erase [] k n = omega arith
  behind-erase (e ∷ d) k n = ground (
    arith,
    behind-erase d k n,
    length-erase d k,
    n,
    same_iff e.0 k,
    same_iff e.0 key,
    same_iff k key,
  )

  behind-put :
      (d : Dict V) (k : String) (v : V)
      → same k key ≡ false
      → behind (put d k v) key ≤ behind d key + 1
  unfolding behind put
  behind-put [] k v n = ground (arith, n)
  behind-put (e ∷ d) k v n = ground (
    arith,
    behind-put d k v n,
    length-put d k v,
    n,
    same_iff e.0 k,
    same_iff e.0 key,
    same_iff k key,
  )

  behind-put_absent : (d : Dict V) (v : V) → find d key ≡ none → behind (put d key v) key ≡ 0
  unfolding behind put find
  behind-put_absent [] v h = ground (arith, same_refl key)
  behind-put_absent (e ∷ d) v h = ground (arith, behind-put_absent d v, h)

  behind-touch_self : (d : Dict V) (v : V) → behind (touch key v d) key ≡ 0
  unfolding touch
  behind-touch_self d v =
      behind-put_absent (erase d key) v
        (find-erase d key key ∙ if_true (same key key) _ _ (same_refl key))

  find-touch_self : (d : Dict V) (v : V) → find (touch key v d) key ≡ some v
  unfolding touch
  find-touch_self d v = find-put_self (erase d key) key v

  kept :
      {v : V} {m : ℕ} {c : LruCache V}
      → find c.cache key ≡ some v
      → behind c.cache key + m < c.max_size
      → IsKept key v m c
  kept f b = record { present = f; room = b }

  find-without_first : (d : Dict V) → find d key ≡ none → find (without_first d) key ≡ none
  unfolding without_first
  find-without_first [] h = h
  find-without_first (e ∷ d) h = find-erase (e ∷ d) e.0 key ∙ ground (arith, h)

  module _ (v : V) (m : ℕ) (k : String) (apart : same k key ≡ false) where
    touch-IsKept :
        (w : V) (c : LruCache V)
        → IsKept key v (suc m) c
        → IsKept key v m (record c { cache = touch k w c.cache })
    unfolding touch
    touch-IsKept w c h =
        kept
          (find-put (erase c.cache k) k key w
            ∙ if_false (same k key) _ _ apart
            ∙ find-erase c.cache k key
            ∙ if_false (same k key) _ _ apart
            ∙ h.present)
          (omega
            (arith, behind-put (erase c.cache k) k w apart, behind-erase c.cache k apart, h.room))

    put-IsKept :
        (w : V) (c : LruCache V)
        → IsKept key v (suc m) c
        → IsKept key v m (record c { cache = put c.cache k w })
    put-IsKept w c h =
        kept (find-put c.cache k key w ∙ if_false (same k key) _ _ apart ∙ h.present)
          (omega (arith, behind-put c.cache k w apart, h.room))

    -- The first key is not the one that is kept, if the cache is full.
    without_first-IsKept :
        (d : Dict V) (n : ℕ)
        → n ≤ length d
        → find d key ≡ some v
        → behind d key + suc m < n
        → (find (without_first d) key ≡ some v) × (behind (without_first d) key + suc m < n)
    unfolding without_first
    without_first-IsKept [] n full h b = absurd (omega arith)
    without_first-IsKept (e ∷ d) n full h b = elim (Bool-cases (same e.0 key)) [
      | inl q ↦ let all = behind_first e d q in absurd (omega (arith, all))
      | inr q ↦ (
        find-erase (e ∷ d) e.0 key ∙ if_false (same e.0 key) _ _ q ∙ h,
        omega (arith, behind-erase (e ∷ d) e.0 q),
      )
    ]

    set-IsKept : (w : V) (c : LruCache V) → IsKept key v (suc m) c → IsKept key v m (set k w c)
    unfolding set
    set-IsKept w c h =
        given_lem (IsKept key v m) (find c.cache k) _ _
          (λ x.
            if_lem (λ (d : Dict V). IsKept key v m (record c { cache = d }))
              (leb c.max_size (length c.cache)) _ _ (λ full. evicted (ground (arith, full)))
              (λ y. put-IsKept w c h))
          (λ old x. touch-IsKept w c h)
      where
        evicted :
            c.max_size ≤ length c.cache
            → IsKept key v m (record c { cache = put (without_first c.cache) k w })
        evicted full =
            let (f, b) = without_first-IsKept c.cache c.max_size full (h.present) (h.room) in
            put-IsKept w (record c { cache = without_first c.cache }) (kept f b)

  get-IsKept :
      (v : V) (m : ℕ) (k : String) (c : LruCache V)
      → IsKept key v (suc m) c
      → IsKept key v m (get k c).0
  unfolding get
  get-IsKept v m k c h = elim (Bool-cases (same k key)) [
    | inl q ↦
        rw ((same_iff k key).0 q, h.present)
          (kept (find-touch_self c.cache v) (omega (arith, h.room, behind-touch_self c.cache v)))
    | inr q ↦
        given_lem (λ (r : LruCache V × Option V). IsKept key v m r.0) (find c.cache k) _ _
          (λ x. kept (h.present) (omega (arith, h.room))) (λ w x. touch-IsKept v m k q w c h)
  ]

  -- A call that may follow: any but to set the key.
  abbrev pub Spares : Call V → Type 0
  Spares (getting k) = Unit
  Spares (setting k w) = same k key ≡ false

  step-IsKept :
      (v : V) (m : ℕ) (x : Call V) (c : LruCache V)
      → Spares x
      → IsKept key v (suc m) c
      → IsKept key v m (step x c)
  unfolding step
  step-IsKept v m (getting k) c s h = get-IsKept v m k c h
  step-IsKept v m (setting k w) c s h = set-IsKept v m k s w c h

  run-IsKept :
      (v : V) (m : ℕ) (xs : List (Call V)) (c : LruCache V)
      → All Spares xs
      → IsKept key v (length xs + m) c
      → IsKept key v m (run xs c)
  unfolding run
  run-IsKept v m [] c s h = kept (h.present) (omega (arith, h.room))
  run-IsKept v m (x ∷ xs) c s h =
      run-IsKept v m xs (step x c) s.1 (step-IsKept v (length xs + m) x c s.0 h')
    where
      h' : IsKept key v (suc (length xs + m)) c
      h' = kept (h.present) (omega (arith, h.room))

  set_self-IsKept : (v : V) (m : ℕ) (c : LruCache V) → m < c.max_size → IsKept key v m (set key v c)
  unfolding set
  set_self-IsKept v m c b =
      given_lem (IsKept key v m) (find c.cache key) _ _
        (λ absent.
          if_lem (λ (d : Dict V). IsKept key v m (record c { cache = d }))
            (leb c.max_size (length c.cache)) _ _
            (λ full. added (without_first c.cache) (find-without_first c.cache absent))
            (λ y. added c.cache absent))
        (λ old x. kept (find-touch_self c.cache v) (omega (arith, behind-touch_self c.cache v)))
    where
      added : (d : Dict V) → find d key ≡ none → IsKept key v m (record c { cache = put d key v })
      added d absent = kept (find-put_self d key v) (omega (arith, behind-put_absent d v absent))

-- What was set in the cache is found until as many calls have followed as the cache has room for: a
-- cache of `max_size` entries keeps a value over fewer than `max_size` calls that get any keys or set
-- other ones, whatever it held before.
pub run-set :
    {V : Type 0} (key : String) (v : V) (c : LruCache V) (xs : List (Call V))
    → length xs < c.max_size
    → All (Spares key) xs
    → find (run xs (set key v c)).cache key ≡ some v
run-set key v c xs b s =
    (run-IsKept key v 0 xs (set key v c) s
      (set_self-IsKept key v (length xs + 0) c (omega arith))).present
