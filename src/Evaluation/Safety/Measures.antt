-- ===== src/Evaluation/Safety/Measures.antt =====
-- What `bounded_value` of src/agent_runtime/evaluation/safety.py limits, as measures of a value: how many
-- values it holds, how deep they lie, how many bytes of text, and whether its numbers are finite.
use agent_reliability_runtim.Prelude.{
  ℕ, suc, ◌+◌, ◌≤◌, ◌≡◌, refl, max, Bool, true, false, ◌&&◌, [], ◌∷◌,
}
use agent_reliability_runtim.Json.{
  Json, null, boolean, int, float, str, arr, obj, finite, infinite, nan, Items, nil, cons, Fields,
  end, field,
}
use agent_reliability_runtim.Evaluation.Text.{utf8_size}
use agent_reliability_runtim.Evaluation.Safety.{Pending}

pub and-split : (a b : Bool) → (a && b) ≡ true → (a ≡ true) × (b ≡ true)
and-split true b h = (refl, h)
and-split false b h = cc

unfoldable mutual
  pub nodes : Json → ℕ
  nodes (arr xs) = suc (nodes_items xs)
  nodes (obj d) = suc (nodes_fields d)
  nodes null = 1
  nodes (boolean b) = 1
  nodes (int n) = 1
  nodes (float x) = 1
  nodes (str s) = 1

  pub nodes_items : Items → ℕ
  nodes_items nil = 0
  nodes_items (cons x xs) = nodes x + nodes_items xs

  pub nodes_fields : Fields → ℕ
  nodes_fields end = 0
  nodes_fields (field k v d) = nodes v + nodes_fields d

unfoldable mutual
  pub height : Json → ℕ
  height (arr xs) = height_items xs
  height (obj d) = height_fields d
  height null = 0
  height (boolean b) = 0
  height (int n) = 0
  height (float x) = 0
  height (str s) = 0

  pub height_items : Items → ℕ
  height_items nil = 0
  height_items (cons x xs) = max (suc (height x)) (height_items xs)

  pub height_fields : Fields → ℕ
  height_fields end = 0
  height_fields (field k v d) = max (suc (height v)) (height_fields d)

unfoldable mutual
  pub text_bytes : Json → ℕ
  text_bytes (arr xs) = bytes_items xs
  text_bytes (obj d) = bytes_fields d
  text_bytes (str s) = utf8_size s
  text_bytes null = 0
  text_bytes (boolean b) = 0
  text_bytes (int n) = 0
  text_bytes (float x) = 0

  pub bytes_items : Items → ℕ
  bytes_items nil = 0
  bytes_items (cons x xs) = text_bytes x + bytes_items xs

  pub bytes_fields : Fields → ℕ
  bytes_fields end = 0
  bytes_fields (field k v d) = utf8_size k + text_bytes v + bytes_fields d

unfoldable mutual
  pub is_finite : Json → Bool
  is_finite (arr xs) = finite_items xs
  is_finite (obj d) = finite_fields d
  is_finite (float (finite n)) = true
  is_finite (float infinite) = false
  is_finite (float nan) = false
  is_finite null = true
  is_finite (boolean b) = true
  is_finite (int n) = true
  is_finite (str s) = true

  pub finite_items : Items → Bool
  finite_items nil = true
  finite_items (cons x xs) = is_finite x && finite_items xs

  pub finite_fields : Fields → Bool
  finite_fields end = true
  finite_fields (field k v d) = is_finite v && finite_fields d

-- The same over the values that wait on the stack.
unfoldable pub nodes_of : Pending → ℕ
nodes_of [] = 0
nodes_of ((x, depth) ∷ pending) = nodes x + nodes_of pending

unfoldable pub bytes_of : Pending → ℕ
bytes_of [] = 0
bytes_of ((x, depth) ∷ pending) = text_bytes x + bytes_of pending

-- Each value on the stack is finite, and as deep as it lies no deeper than `max_depth`.
abbrev pub AllFit : ℕ → Pending → Type 0
AllFit max_depth [] = Unit
AllFit max_depth ((x, depth) ∷ pending) =
    (depth + height x ≤ max_depth) × (is_finite x ≡ true) × AllFit max_depth pending

-- What the children of one value must meet.
abbrev pub ItemsFit : ℕ → ℕ → Items → Type 0
ItemsFit max_depth depth nil = Unit
ItemsFit max_depth depth (cons x xs) =
    (depth + height x ≤ max_depth) × (is_finite x ≡ true) × ItemsFit max_depth depth xs

abbrev pub FieldsFit : ℕ → ℕ → Fields → Type 0
FieldsFit max_depth depth end = Unit
FieldsFit max_depth depth (field k v d) =
    (depth + height v ≤ max_depth) × (is_finite v ≡ true) × FieldsFit max_depth depth d
