-- ===== src/Mesh/Incarnation.antt =====
-- `compareMeshIncarnation` of packages/actor-labs-mesh/src/membership.ts. Finite numbers, their
-- texts, `Number(text)` and `localeCompare` are a parameter, since they are floats and depend on
-- the locale; both comparisons are taken to be total preorders.
use Prim.Native.Nat.{Ordering}
use actor_web.Common.{Option, none, some, String, ◌≡◌, refl, arith, ap, sym, ◌∙◌}

abbrev pub flip : Ordering → Ordering
flip Ordering.lt = Ordering.gt
flip Ordering.eq = Ordering.eq
flip Ordering.gt = Ordering.lt

-- A total preorder as a comparison.
pub record IsOrder {ℓ} {A : Type ℓ} (cmp : A → A → Ordering) : Type ℓ where
  pub flips : (a b : A) → cmp b a ≡ flip (cmp a b)
  pub lt_lt : (a b c : A) → cmp a b ≡ Ordering.lt → cmp b c ≡ Ordering.lt → cmp a c ≡ Ordering.lt
  pub eq_any : (a b c : A) → cmp a b ≡ Ordering.eq → cmp a c ≡ cmp b c

module _ {ℓ} {A : Type ℓ} {cmp : A → A → Ordering} (o : IsOrder cmp) where
  pub any_eq : (a b c : A) → cmp b c ≡ Ordering.eq → cmp a c ≡ cmp a b
  any_eq a b c h =
      let k : cmp c b ≡ Ordering.eq = ground (arith, o.flips b c) in
      o.flips c a ∙ ap flip (o.eq_any c b a k) ∙ sym (o.flips b a)

  pub cmp_self : (a : A) → cmp a a ≡ Ordering.eq
  cmp_self a = ground (arith, o.flips a a)

abbrev pub then_by : Ordering → Ordering → Ordering
then_by Ordering.lt o = Ordering.lt
then_by Ordering.eq o = o
then_by Ordering.gt o = Ordering.gt

pub record Numbers : Type 1 where
  pub Number : Type 0
  -- `Math.sign(left - right)`
  pub compare_numbers : Number → Number → Ordering
  -- `String(n)`
  pub text_of : Number → String
  -- `Number(text)`, if that is finite
  pub number_of : String → Option Number
  pub locale_compare : String → String → Ordering
  pub numbers_order : IsOrder compare_numbers
  pub texts_order : IsOrder locale_compare

-- `number | string`; a number that is not finite counts as its text.
pub data MeshIncarnation (N : Numbers) : Type 0 where
  number : N.Number → MeshIncarnation N
  text : String → MeshIncarnation N

module _ (N : Numbers) where
  open N use {Number, compare_numbers, text_of, number_of, locale_compare}

  pub record IncarnationOrder : Type 0 where
    pub numeric : Option Number
    pub as_text : String

  unfoldable pub to_incarnation_order : MeshIncarnation N → IncarnationOrder
  to_incarnation_order (number n) = record { numeric = some n; as_text = text_of n }
  to_incarnation_order (text t) = record { numeric = number_of t; as_text = t }

  unfoldable pub compare_orders : Option Number → Option Number → String → String → Ordering
  compare_orders (some m) (some n) s t = then_by (compare_numbers m n) (locale_compare s t)
  compare_orders (some m) none s t = Ordering.lt
  compare_orders none (some n) s t = Ordering.gt
  compare_orders none none s t = locale_compare s t

  unfoldable pub compare_mesh_incarnation : MeshIncarnation N → MeshIncarnation N → Ordering
  unfolding to_incarnation_order compare_orders
  compare_mesh_incarnation left right =
      let l = to_incarnation_order left in
      let r = to_incarnation_order right in compare_orders l.numeric r.numeric l.as_text r.as_text

  flips-compare_orders :
      (m n : Option Number) (s t : String) → compare_orders n m t s ≡ flip (compare_orders m n s t)
  unfolding compare_orders
  flips-compare_orders none none s t = N.texts_order.flips s t
  flips-compare_orders none (some n) s t = refl
  flips-compare_orders (some m) none s t = refl
  flips-compare_orders (some m) (some n) s t =
      ground (arith, N.numbers_order.flips m n, N.texts_order.flips s t)

  lt-compare_orders :
      (m n k : Option Number) (s t u : String)
      → compare_orders m n s t ≡ Ordering.lt
      → compare_orders n k t u ≡ Ordering.lt
      → compare_orders m k s u ≡ Ordering.lt
  unfolding compare_orders
  lt-compare_orders none none none s t u p q = N.texts_order.lt_lt s t u p q
  lt-compare_orders none none (some k) s t u p q = q
  lt-compare_orders none (some n) k s t u p q = absurd (ground arith)
  lt-compare_orders (some m) none none s t u p q = refl
  lt-compare_orders (some m) none (some k) s t u p q = absurd (ground arith)
  lt-compare_orders (some m) (some n) none s t u p q = refl
  lt-compare_orders (some m) (some n) (some k) s t u p q = ground (
    arith,
    N.numbers_order.lt_lt m n k,
    N.numbers_order.eq_any m n k,
    any_eq N.numbers_order m n k,
    N.texts_order.lt_lt s t u,
  )

  eq-compare_orders :
      (m n k : Option Number) (s t u : String)
      → compare_orders m n s t ≡ Ordering.eq
      → compare_orders m k s u ≡ compare_orders n k t u
  unfolding compare_orders
  eq-compare_orders none none none s t u p = N.texts_order.eq_any s t u p
  eq-compare_orders none none (some k) s t u p = refl
  eq-compare_orders none (some n) k s t u p = absurd (ground arith)
  eq-compare_orders (some m) none k s t u p = absurd (ground arith)
  eq-compare_orders (some m) (some n) none s t u p = refl
  eq-compare_orders (some m) (some n) (some k) s t u p =
      ground (arith, N.numbers_order.eq_any m n k, N.texts_order.eq_any s t u)

  -- Incarnations are compared by a total preorder, although numbers, numeric texts and other texts
  -- are compared in three ways, if numbers and texts are.
  pub compare_mesh_incarnation-IsOrder : IsOrder compare_mesh_incarnation
  unfolding compare_mesh_incarnation
  compare_mesh_incarnation-IsOrder = record {
    flips = λ a b. flips-compare_orders _ _ _ _;
    lt_lt = λ a b c. lt-compare_orders _ _ _ _ _ _;
    eq_any = λ a b c. eq-compare_orders _ _ _ _ _ _;
  }
