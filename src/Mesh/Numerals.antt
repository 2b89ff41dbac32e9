-- ===== src/Mesh/Numerals.antt =====
-- Natural numbers below ten and their texts, for the examples: every other text counts as not
-- numeric, and texts are compared by whether they are empty.
use Prim.Native.Nat.{Ordering, compare}
use actor_web.Common.{ℕ, String, [], ◌∷◌, arith, same, find, Dict, if◌then◌else◌}
use actor_web.Common.Text.{decimal}
use actor_web.Mesh.Incarnation.{Numbers, IsOrder}

abbrev pub table : Dict ℕ
table = ("1", 1) ∷ ("2", 2) ∷ ("3", 3) ∷ []

abbrev pub size : String → ℕ
size t = if same t "" then 0 else 1

pub compare-IsOrder : IsOrder compare
compare-IsOrder = record {
  flips = λ a b. ground arith;
  lt_lt = λ a b c p q. ground arith;
  eq_any = λ a b c p. ground arith;
}

abbrev pub locale_compare : String → String → Ordering
locale_compare s t = compare (size s) (size t)

pub locale_compare-IsOrder : IsOrder locale_compare
locale_compare-IsOrder = record {
  flips = λ a b. compare-IsOrder.flips (size a) (size b);
  lt_lt = λ a b c. compare-IsOrder.lt_lt (size a) (size b) (size c);
  eq_any = λ a b c. compare-IsOrder.eq_any (size a) (size b) (size c);
}

abbrev pub numerals : Numbers
numerals = record {
  Number = ℕ;
  compare_numbers = compare;
  text_of = decimal;
  number_of = find table;
  locale_compare = locale_compare;
  numbers_order = compare-IsOrder;
  texts_order = locale_compare-IsOrder;
}
