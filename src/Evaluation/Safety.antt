-- ===== src/Evaluation/Safety.antt =====
-- src/agent_runtime/evaluation/safety.py. A traversal keeps its stack with the next value in front and
-- counts down the values that it may still visit, where the code counts up to the same limit. A text
-- holds Unicode scalar values, so its encoding never fails.
pub mod Pushes
pub mod Measures
pub mod Visits
pub mod Traversal
pub mod Rules
use agent_reliability_runtim.Prelude.{
  ℕ, zero, suc, ◌+◌, String, Bool, true, false, not, ◌&&◌, ◌||◌, Option, none, some, List, [], ◌∷◌,
  ltb, leb, str_eq, length, is_some, if◌then◌else◌,
}
use agent_reliability_runtim.Prelude.Result.{
  Result, ok, raise, evaluation_configuration, ◌>>=◌, ◌>>◌,
}
use agent_reliability_runtim.Json.{
  Json, null, boolean, int, float, str, arr, obj, Float, finite, infinite, nan, pos, negsuc, Items,
  nil, cons, Fields, end, field, get, get_or,
}
use agent_reliability_runtim.Evaluation.Text.{text_length, utf8_size, split}

abbrev pub Pending : Type 0
Pending = List (Json × ℕ)

unfoldable pub length_items : Items → ℕ
length_items nil = 0
length_items (cons x xs) = suc (length_items xs)

unfoldable pub length_fields : Fields → ℕ
length_fields end = 0
length_fields (field k v d) = suc (length_fields d)

-- `pending.extend((v, depth) for v in item)`: the last value is the next one out.
unfoldable pub push_items : ℕ → Items → Pending → Pending
push_items depth nil pending = pending
push_items depth (cons x xs) pending = push_items depth xs ((x, depth) ∷ pending)

-- `pending.extend((v, depth) for v in item.values())`
unfoldable pub push_values : ℕ → Fields → Pending → Pending
push_values depth end pending = pending
push_values depth (field k v d) pending = push_values depth d ((v, depth) ∷ pending)

unfoldable pub key_bytes : Fields → ℕ
key_bytes end = 0
key_bytes (field k v d) = utf8_size k + key_bytes d

-- What a visit leaves to visit, and the bytes of text that it found.
unfoldable pub visit : ℕ → Json → ℕ → Pending → Result (Pending × ℕ)
visit max_nodes (obj d) depth pending =
    if ltb max_nodes (length_fields d)
    then raise evaluation_configuration
    else ok (push_values (suc depth) d pending, key_bytes d)
visit max_nodes (arr xs) depth pending =
    if ltb max_nodes (length_items xs)
    then raise evaluation_configuration
    else ok (push_items (suc depth) xs pending, 0)
visit max_nodes (str s) depth pending = ok (pending, utf8_size s)
visit max_nodes (float infinite) depth pending = raise evaluation_configuration
visit max_nodes (float nan) depth pending = raise evaluation_configuration
visit max_nodes item depth pending = ok (pending, 0)

abbrev pub max_size : ℕ
max_size = 65536

-- The loop of `bounded_value`. `left` is `max_nodes - nodes`.
unfoldable pub traverse : ℕ → ℕ → ℕ → ℕ → Pending → Result (Unit {0})
traverse max_nodes max_depth left size [] = ok tt
traverse max_nodes max_depth zero size (next ∷ pending) = raise evaluation_configuration
traverse max_nodes max_depth (suc left) size ((item, depth) ∷ pending) =
    if ltb max_depth depth
    then raise evaluation_configuration
    else (visit max_nodes item depth pending >>= λ found.
        if ltb max_size (size + found.1) || ltb max_nodes (length found.0)
        then raise evaluation_configuration
        else traverse max_nodes max_depth left (size + found.1) found.0)

unfoldable pub bounded_value : ℕ → ℕ → Json → Result (Unit {0})
bounded_value max_nodes max_depth value = traverse max_nodes max_depth max_nodes 0 ((value, 0) ∷ [])

unfoldable pub is_one_of : String → List String → Bool
is_one_of s [] = false
is_one_of s (t ∷ ts) = str_eq t s || is_one_of s ts

-- `not set(d) - allowed`
unfoldable pub only : List String → Fields → Bool
only allowed end = true
only allowed (field k v d) = is_one_of k allowed && only allowed d

abbrev pub schema_keywords : List String
schema_keywords =
    "type" ∷ "properties" ∷ "required" ∷ "additionalProperties" ∷ "items" ∷ "enum" ∷ "const"
    ∷ "minimum" ∷ "maximum" ∷ "minLength" ∷ "maxLength" ∷ "minItems" ∷ "maxItems" ∷ []

unfoldable pub has_long_key : ℕ → Fields → Bool
has_long_key limit end = false
has_long_key limit (field k v d) = ltb limit (text_length k) || has_long_key limit d

-- `pending.append(node["items"], …)`, where there are some.
unfoldable pub push_option : ℕ → Option Json → Pending → Pending
push_option depth none pending = pending
push_option depth (some x) pending = (x, depth) ∷ pending

unfoldable pub is_boolean : Option Json → Bool
is_boolean none = true
is_boolean (some (boolean b)) = true
is_boolean (some _) = false

unfoldable pub is_short_list : Option Json → Bool
is_short_list none = true
is_short_list (some (arr xs)) = leb (length_items xs) 32
is_short_list (some _) = false

-- The tests on a node, given its `properties`, and the schemas below it.
unfoldable pub visit_properties : Fields → ℕ → Pending → Json → Result Pending
visit_properties node depth pending (obj properties) =
    if not (only schema_keywords node)
      || ltb 32 (length_fields properties)
      || has_long_key 128 properties
      || not (is_boolean (get "additionalProperties" node))
      || not (is_short_list (get "enum" node))
    then raise evaluation_configuration
    else ok
        (push_option (suc depth) (get "items" node) (push_values (suc depth) properties pending))
visit_properties node depth pending _ = raise evaluation_configuration

-- One node of a schema.
unfoldable pub visit_schema : Json → ℕ → Pending → Result Pending
visit_schema (obj node) depth pending =
    visit_properties node depth pending (get_or "properties" (obj end) node)
visit_schema _ depth pending = raise evaluation_configuration

-- The loop of `validate_schema`. `left` is `128 - count`.
unfoldable pub traverse_schema : ℕ → Pending → Result (Unit {0})
traverse_schema left [] = ok tt
traverse_schema zero (next ∷ pending) = raise evaluation_configuration
traverse_schema (suc left) ((node, depth) ∷ pending) =
    if ltb 6 depth
    then raise evaluation_configuration
    else (visit_schema node depth pending >>= λ found. traverse_schema left found)

abbrev pub rule_fields : String → List String
rule_fields kind =
    if str_eq kind "non_empty"
    then "type" ∷ "path" ∷ []
    else if str_eq kind "json_schema"
    then "type" ∷ "path" ∷ "schema" ∷ []
    else if str_eq kind "latency_budget"
    then "type" ∷ "max_ms" ∷ []
    else if str_eq kind "rule"
    then "type" ∷ "path" ∷ "operator" ∷ "value" ∷ []
    else []

abbrev pub operators : List String
operators = "exists" ∷ "equals" ∷ "not_equals" ∷ "contains" ∷ []

-- The test of `validate_rules` on the path.
unfoldable pub is_valid_path : Json → Bool
is_valid_path (str path) = leb (text_length path) 256 && leb (length (split path)) 16
is_valid_path _ = false

unfoldable pub is_operator : Option Json → Bool
is_operator (some (str operator)) = is_one_of operator operators
is_operator _ = false

unfoldable pub is_budget : Option Json → Bool
is_budget (some (int (pos budget))) = leb budget 86_400_000
is_budget _ = false

-- A list of rules as one value, for the limits on its size.
unfoldable pub as_items : List Fields → Items
as_items [] = nil
as_items (rule ∷ rules) = cons (obj rule) (as_items rules)

-- `schema` is a call of `Draft202012Validator.check_schema` that says whether it passed.
module _ (check_schema : Json → Bool) where
  unfoldable pub validate_schema : Json → Result (Unit {0})
  validate_schema schema = do
    traverse_schema 128 ((schema, 0) ∷ [])
    if check_schema schema then ok tt else raise evaluation_configuration

  -- The last tests on a rule, for its kind.
  unfoldable pub validate_kind : String → Fields → Result (Unit {0})
  validate_kind kind rule =
      if str_eq kind "json_schema"
      then validate_schema (get_or "schema" null rule)
      else if str_eq kind "rule"
      then (if is_operator (get "operator" rule) then ok tt else raise evaluation_configuration)
      else if str_eq kind "latency_budget"
      then (if is_budget (get "max_ms" rule) then ok tt else raise evaluation_configuration)
      else ok tt

  -- One round of the loop of `validate_rules`, given the rule's `type`.
  unfoldable pub validate_typed : Fields → Option Json → Result (Unit {0})
  validate_typed rule (some (str kind)) =
      if not (is_one_of kind ("non_empty" ∷ "json_schema" ∷ "latency_budget" ∷ "rule" ∷ []))
        || not (only (rule_fields kind) rule)
        || not (is_valid_path (get_or "path" (str "") rule))
      then raise evaluation_configuration
      else validate_kind kind rule
  validate_typed rule _ = raise evaluation_configuration

  unfoldable pub validate_rule : Fields → Result (Unit {0})
  validate_rule rule = validate_typed rule (get "type" rule)

  unfoldable pub validate_each : List Fields → Result (Unit {0})
  validate_each [] = ok tt
  validate_each (rule ∷ rules) = validate_rule rule >> validate_each rules

  unfoldable pub validate_rules : List Fields → Result (Unit {0})
  validate_rules rules = do
    bounded_value 2048 16 (arr (as_items rules))
    (if leb 1 (length rules) && leb (length rules) 16
        then validate_each rules
        else raise evaluation_configuration)
