-- ===== src/Evaluation/Equality.antt =====
-- Python's `==` and `in` on JSON values. A bool and a float equal the int of the same value, and the
-- order of an object's keys does not count. No key stands twice in an object.
use agent_reliability_runtim.Prelude.{
  suc, ◌*◌, ◌-◌, Bool, true, false, ◌&&◌, ◌||◌, Option, none, some, ◌==◌, str_eq, is_some,
}
use agent_reliability_runtim.Json.{
  ℤ, pos, negsuc, Json, null, boolean, int, float, str, arr, obj, Float, finite, infinite, Items,
  nil, cons, Fields, end, field, get,
}
use agent_reliability_runtim.Evaluation.Text.{is_part}
use agent_reliability_runtim.Evaluation.Safety.{length_fields}

-- A number as millionths; `none` where it is not finite.
unfoldable pub int_value : ℤ → ℤ
int_value (pos n) = pos (n * 1_000_000)
int_value (negsuc n) = negsuc (suc n * 1_000_000 - 1)

unfoldable pub same_int : ℤ → ℤ → Bool
same_int (pos m) (pos n) = m == n
same_int (negsuc m) (negsuc n) = m == n
same_int _ _ = false

unfoldable pub bool_value : Bool → ℤ
bool_value true = pos 1_000_000
bool_value false = pos 0

-- A value that compares as a number.
unfoldable pub number_of : Json → Option Float
unfolding int_value bool_value
number_of (boolean b) = some (finite (bool_value b))
number_of (int n) = some (finite (int_value n))
number_of (float x) = some x
number_of _ = none

unfoldable pub same_number : Option Float → Option Float → Bool
unfolding same_int
same_number (some (finite a)) (some (finite b)) = same_int a b
same_number (some infinite) (some infinite) = true
same_number _ _ = false

unfoldable mutual
  unfolding same_number number_of

  -- `a == b`
  pub equals : Json → Json → Bool
  equals null null = true
  equals null _ = false
  equals (str s) (str t) = str_eq s t
  equals (str s) _ = false
  equals (arr xs) (arr ys) = equal_items xs ys
  equals (arr xs) _ = false
  equals (obj d) (obj e) = length_fields d == length_fields e && equal_fields d e
  equals (obj d) _ = false
  equals (boolean b) v = same_number (number_of (boolean b)) (number_of v)
  equals (int n) v = same_number (number_of (int n)) (number_of v)
  equals (float x) v = same_number (number_of (float x)) (number_of v)

  pub equal_items : Items → Items → Bool
  equal_items nil nil = true
  equal_items nil (cons y ys) = false
  equal_items (cons x xs) nil = false
  equal_items (cons x xs) (cons y ys) = equals x y && equal_items xs ys

  pub equal_fields : Fields → Fields → Bool
  equal_fields end e = true
  equal_fields (field k v d) e =
      (elim (get k e) [ none ↦ false | some w ↦ equals v w ]) && equal_fields d e

-- `expected in xs`
unfoldable pub member : Json → Items → Bool
member expected nil = false
member expected (cons x xs) = equals x expected || member expected xs

-- `expected in value`, as the rule `contains` takes it.
unfoldable pub contains_value : Json → Json → Bool
contains_value expected (arr xs) = member expected xs
contains_value (str part) (str s) = is_part part s
contains_value (str key) (obj d) = is_some (get key d)
contains_value _ _ = false
