-- ===== src/Mesh/Strength.antt =====
-- Which of two claims of one node counts: by incarnation, then by a rank, then by a time.
use Prim.Native.Nat.{Ordering}
use actor_web.Common.{ℕ, ◌≡◌, refl, arith, ◌≤◌, ◌<◌, ◌⊎◌, inr}
use actor_web.Mesh.Incarnation.{
  Numbers, MeshIncarnation, compare_mesh_incarnation, compare_mesh_incarnation-IsOrder, any_eq,
  cmp_self,
}

-- By the order of the incarnations, the ranks and the times.
abbrev pub Below : Ordering → ℕ → ℕ → ℕ → ℕ → Type 0
Below Ordering.lt m n s t = Unit
Below Ordering.eq m n s t = (m < n) ⊎ (m ≡ n) × (s ≤ t)
Below Ordering.gt m n s t = ⊥

pub Below-trans :
    (o p q : Ordering) (l m n s t u : ℕ)
    → (o ≡ Ordering.lt → p ≡ Ordering.lt → q ≡ Ordering.lt)
    → (o ≡ Ordering.eq → q ≡ p)
    → (p ≡ Ordering.eq → q ≡ o)
    → Below o l m s t
    → Below p m n t u
    → Below q l n s u
Below-trans Ordering.lt Ordering.lt q l m n s t u f g h a b = rw (f refl refl) tt
Below-trans Ordering.lt Ordering.eq q l m n s t u f g h a b = rw (h refl) tt
Below-trans Ordering.eq Ordering.lt q l m n s t u f g h a b = rw (g refl) tt
Below-trans Ordering.eq Ordering.eq q l m n s t u f g h a b = rw (g refl) (omega arith)
Below-trans Ordering.eq Ordering.gt q l m n s t u f g h a b = absurd b
Below-trans Ordering.lt Ordering.gt q l m n s t u f g h a b = absurd b
Below-trans Ordering.gt p q l m n s t u f g h a b = absurd a

-- What a claim is compared by: the incarnation, the rank and the time.
pub record Strength (N : Numbers) : Type 0 where
  pub incarnation : MeshIncarnation N
  pub rank : ℕ
  pub time : ℕ

module _ (N : Numbers) where
  -- `p` is at most as strong as `q`.
  abbrev pub Weaker : Strength N → Strength N → Type 0
  Weaker p q =
      Below (compare_mesh_incarnation N p.incarnation q.incarnation) p.rank q.rank p.time q.time

  pub Weaker-refl : (p : Strength N) → Weaker p p
  Weaker-refl p =
      rw (cmp_self (compare_mesh_incarnation-IsOrder N) p.incarnation) (inr (refl, omega arith))

  pub Weaker-trans : (a b c : Strength N) → Weaker a b → Weaker b c → Weaker a c
  Weaker-trans a b c h k =
      let o = compare_mesh_incarnation-IsOrder N in
      Below-trans _ _ _ a.rank b.rank c.rank a.time b.time c.time
        (o.lt_lt a.incarnation b.incarnation c.incarnation)
        (o.eq_any a.incarnation b.incarnation c.incarnation)
        (any_eq o a.incarnation b.incarnation c.incarnation) h k
