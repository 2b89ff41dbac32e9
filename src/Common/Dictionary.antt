-- ===== src/Common/Dictionary.antt =====
-- Maps with text keys, as lists of entries in the order of insertion: `Map` and plain objects of
-- the source.
use Prim.Native.String.{String}
use mathlib.Core.Bool.{Bool, true, false, ◌||◌}
use mathlib.Core.List.{List, [], ◌∷◌, ◌++◌}
use mathlib.Core.Logic.{◌↔◌, inl, inr}
use mathlib.Core.Option.{Option, none, some}
use mathlib.Core.Path.{◌≡◌, refl, sym, ◌∙◌, subst}
use native.Mathlib.Omega.{arith}
use text.Mathlib.Text.{◌==◌ as str_eq}
use text.Mathlib.TextEquality.{eq_iff}
use actor_web.Common.Tests.{if◌then◌else◌, Bool-cases}

-- Equality of texts as a test.
abbrev pub same : String → String → Bool
same a b = str_eq a b

pub same_iff : (a b : String) → (same a b ≡ true) ↔ (a ≡ b)
same_iff = eq_iff

pub same_refl : (a : String) → same a a ≡ true
same_refl a = (eq_iff a a).1 refl

-- Tests of equivalent equations agree.
pub same-same : (a b c d : String) → (a ≡ b → c ≡ d) → (c ≡ d → a ≡ b) → same a b ≡ same c d
same-same a b c d f g = elim (Bool-cases (same a b)) [
  | inl e ↦ rw e (sym ((same_iff c d).1 (f ((same_iff a b).0 e))))
  | inr e ↦ elim (Bool-cases (same c d)) [
    | inl e' ↦ rw (e, e') (sym e ∙ (same_iff a b).1 (g ((same_iff c d).0 e')))
    | inr e' ↦ rw (e, e')
  ]
]

-- `includes` and `Set.has`.
unfoldable pub includes : String → List String → Bool
includes a [] = false
includes a (x ∷ xs) = same x a || includes a xs

pub includes-append :
    (a : String) (xs ys : List String) → includes a (xs ++ ys) ≡ includes a xs || includes a ys
unfolding includes
includes-append a [] ys = refl
includes-append a (x ∷ xs) ys = ground (arith, includes-append a xs ys)

abbrev pub Distinct : List String → Type 0
Distinct [] = Unit
Distinct (x ∷ xs) = (includes x xs ≡ false) × Distinct xs

abbrev pub Dict {ℓ} : Type ℓ → Type ℓ
Dict V = List (String × V)

module _ {ℓ} {V : Type ℓ} where
  -- `Map.get`
  unfoldable pub find : Dict V → String → Option V
  find [] key = none
  find (e ∷ d) key = if same e.0 key then some e.1 else find d key

  -- `Map.set`: a key that is there keeps its place.
  unfoldable pub put : Dict V → String → V → Dict V
  put [] key v = (key, v) ∷ []
  put (e ∷ d) key v = if same e.0 key then (key, v) ∷ d else e ∷ put d key v

  pub find-put :
      (d : Dict V) (key other : String) (v : V)
      → find (put d key v) other ≡ (if same key other then some v else find d other)
  unfolding find put
  find-put [] key other v = refl
  find-put (e ∷ d) key other v =
      ground (arith, find-put d key other v, eq_iff e.0 key, eq_iff e.0 other, eq_iff key other)

  pub find-put_self : (d : Dict V) (key : String) (v : V) → find (put d key v) key ≡ some v
  find-put_self d key v = ground (arith, find-put d key key v, same_refl key)

  -- `Map.delete`
  unfoldable pub erase : Dict V → String → Dict V
  erase [] key = []
  erase (e ∷ d) key = if same e.0 key then erase d key else e ∷ erase d key

  pub find-erase :
      (d : Dict V) (key other : String)
      → find (erase d key) other ≡ (if same key other then none else find d other)
  unfolding find erase
  find-erase [] key other = ground arith
  find-erase (e ∷ d) key other =
      ground (arith, find-erase d key other, eq_iff e.0 key, eq_iff e.0 other, eq_iff key other)

  pub erase-put : (d : Dict V) (key : String) (v : V) → erase (put d key v) key ≡ erase d key
  unfolding put erase
  erase-put [] key v = ground (arith, same_refl key)
  erase-put (e ∷ d) key v = elim (Bool-cases (same e.0 key)) [
    | inl q ↦ rw (q, same_refl key) refl
    | inr q ↦ ground (arith, q, erase-put d key v)
  ]

  -- Every key stands once.
  abbrev pub IsMap : Dict V → Type ℓ
  IsMap [] = Unit
  IsMap (e ∷ d) = (find d e.0 ≡ none) × IsMap d

  pub erase_absent : (d : Dict V) (key : String) → find d key ≡ none → erase d key ≡ d
  unfolding find erase
  erase_absent [] key h = refl
  erase_absent (e ∷ d) key h = ground (arith, erase_absent d key, h)

  pub IsMap-put : (d : Dict V) (key : String) (v : V) → IsMap d → IsMap (put d key v)
  unfolding put find
  IsMap-put [] key v h = (refl, tt)
  IsMap-put (e ∷ d) key v h = elim (Bool-cases (same e.0 key)) [
    | inl q ↦ rw q (rw (sym ((same_iff e.0 key).0 q)) h)
    | inr q ↦ rw q (
      find-put d key e.0 v ∙ ground (arith, h.0, q, same-same key e.0 e.0 key sym sym),
      IsMap-put d key v h.1,
    )
  ]

  pub IsMap-erase : (d : Dict V) (key : String) → IsMap d → IsMap (erase d key)
  unfolding erase
  IsMap-erase [] key h = tt
  IsMap-erase (e ∷ d) key h = elim (Bool-cases (same e.0 key)) [
    | inl q ↦ rw q (IsMap-erase d key h.1)
    | inr q ↦ rw q (find-erase d key e.0 ∙ ground (arith, h.0, q), IsMap-erase d key h.1)
  ]

module _ {ℓ κ} {V : Type ℓ} (P : V → Type κ) where
  -- What holds of every value of a map.
  abbrev pub Each : Dict V → Type κ
  Each [] = Unit
  Each (e ∷ d) = P e.1 × Each d

  pub Each-put : (d : Dict V) (key : String) (v : V) → P v → Each d → Each (put d key v)
  unfolding put
  Each-put [] key v p h = (p, tt)
  Each-put (e ∷ d) key v p h = elim (Bool-cases (same e.0 key)) [
    | inl q ↦ rw q (p, h.1)
    | inr q ↦ rw q (h.0, Each-put d key v p h.1)
  ]

  pub Each-erase : (d : Dict V) (key : String) → Each d → Each (erase d key)
  unfolding erase
  Each-erase [] key h = tt
  Each-erase (e ∷ d) key h = elim (Bool-cases (same e.0 key)) [
    | inl q ↦ rw q (Each-erase d key h.1)
    | inr q ↦ rw q (h.0, Each-erase d key h.1)
  ]

  pub find-Each : (d : Dict V) (key : String) {v : V} → Each d → find d key ≡ some v → P v
  unfolding find
  find-Each [] key h e = absurd (ground arith)
  find-Each (x ∷ d) key {v = v} h e = elim (Bool-cases (same x.0 key)) [
    | inl q ↦ subst P (ground (arith, e, q)) h.0
    | inr q ↦ find-Each d key h.1 (ground (arith, e, q))
  ]
