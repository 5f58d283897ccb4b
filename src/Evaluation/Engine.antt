-- ===== src/Evaluation/Engine.antt =====
-- src/agent_runtime/evaluation/engine.py.
pub mod Paths
pub mod Kinds
pub mod Outcomes
use Prim.Native.String.{◌++◌ as append}
use agent_reliability_runtim.Prelude.{
  ℕ, zero, suc, ◌+◌, String, Bool, true, false, not, ◌&&◌, ◌||◌, Option, none, some, List, [], ◌∷◌,
  map, leb, ltb, str_eq, if◌then◌else◌,
}
use agent_reliability_runtim.Prelude.Result.{
  Result, ok, raise, evaluation_configuration, type_error, ◌>>=◌, ◌>>◌,
}
use agent_reliability_runtim.Json.{
  ℤ, pos, negsuc, Json, null, boolean, int, float, str, arr, obj, Items, nil, cons, Fields, end,
  field, get, get_or,
}
use agent_reliability_runtim.Domain.Retry.{is_blank}
use agent_reliability_runtim.Evaluation.Digits.{is_digit, int_of}
use agent_reliability_runtim.Evaluation.Text.{text_length, split}
use agent_reliability_runtim.Evaluation.Equality.{equals, contains_value}
use agent_reliability_runtim.Evaluation.Safety.{
  length_items, is_one_of, operators, bounded_value, validate_rules,
}

-- What `_rule_result` gives.
pub record RuleResult : Type 0 where
  pub kind : String
  pub path : String
  pub passed : Bool
  pub message : String

pub record EvaluationOutcome : Type 0 where
  pub passed : Bool
  pub rule_results : List RuleResult

unfoldable pub rule_result : String → String → Bool → String → RuleResult
rule_result kind path passed message = record {
  kind = kind;
  path = path;
  passed = passed;
  message = message;
}

unfoldable pub result_fields : RuleResult → Fields
result_fields r = field "type" (str r.kind) (
    field "path" (str r.path)
      (field "passed" (boolean r.passed) (field "message" (str r.message) end)))

unfoldable pub result_items : List RuleResult → Items
result_items [] = nil
result_items (r ∷ rs) = cons (obj (result_fields r)) (result_items rs)

unfoldable pub as_persisted_result : EvaluationOutcome → Fields
as_persisted_result outcome =
    field "passed" (boolean outcome.passed)
      (field "rules" (arr (result_items outcome.rule_results)) end)

-- `_is_non_empty`
unfoldable pub is_non_empty : Json → Bool
is_non_empty null = false
is_non_empty (str s) = not (is_blank s)
is_non_empty (arr nil) = false
is_non_empty (obj end) = false
is_non_empty _ = true

unfoldable pub item_at : ℕ → Items → Option Json
item_at i nil = none
item_at zero (cons x xs) = some x
item_at (suc i) (cons x xs) = item_at i xs

-- One part of a path: the value below, if there is one. An index is read by `int`, which refuses
-- the digits that are not decimal.
unfoldable pub step_into : Json → String → Result (Option Json)
step_into (obj d) part = ok (get part d)
step_into (arr xs) part =
    if leb (text_length part) 10 && is_digit part
    then (int_of part >>= λ i. ok (item_at i xs))
    else ok none
step_into _ part = ok none

unfoldable pub follow : List String → Json → Result (Option Json)
follow [] value = ok (some value)
follow (part ∷ parts) value =
    step_into value part >>= λ below. elim below [ none ↦ ok none | some v ↦ follow parts v ]

unfoldable pub is_empty_text : String → Bool
is_empty_text String.[] = true
is_empty_text (String.◌∷◌ c s) = false

-- `_value_at_path`; `none` stands for `None, False`.
unfoldable pub value_at_path : Json → String → Result (Option Json)
value_at_path payload path =
    if is_empty_text path then ok (some payload) else follow (split path) payload

-- A check of the value that was found; nothing passes where there is none.
unfoldable pub check_found : (Json → Bool) → Option Json → Bool
check_found check none = false
check_found check (some value) = check value

-- The test of an operator on the value that was found.
unfoldable pub operator_test : String → Json → Json → Bool
operator_test operator expected value =
    if str_eq operator "exists"
    then true
    else if str_eq operator "equals"
    then equals value expected
    else if str_eq operator "not_equals"
    then not (equals value expected)
    else contains_value expected value

unfoldable pub operator_message : String → Bool → String
operator_message operator passed =
    append operator (if passed then " check passed" else " check failed")

unfoldable pub non_empty_result : String → Option Json → RuleResult
non_empty_result path found =
    let passed = check_found is_non_empty found in
    rule_result "non_empty" path passed (if passed then "value is non-empty" else "value is empty")

unfoldable pub operator_result : String → String → Json → Option Json → RuleResult
operator_result path operator expected found =
    let passed = check_found (operator_test operator expected) found in
    rule_result "rule" path passed (operator_message operator passed)

-- `latency_ms is not None and latency_ms <= budget`
unfoldable pub within_budget : Option ℤ → ℕ → Bool
within_budget none budget = false
within_budget (some (pos latency)) budget = leb latency budget
within_budget (some (negsuc n)) budget = true

unfoldable pub latency_result : Option ℤ → ℕ → RuleResult
latency_result latency_ms budget =
    let passed = within_budget latency_ms budget in
    rule_result "latency_budget" "" passed
      (if passed then "latency is within budget" else "latency budget exceeded or unavailable")

unfoldable pub all_passed : List RuleResult → Bool
all_passed [] = true
all_passed (r ∷ rs) = r.passed && all_passed rs

-- `validates` is a call of `Draft202012Validator(schema).validate(value)` that says whether it passed.
module _ (validates : Fields → Json → Bool) where
  unfoldable pub schema_result : String → Fields → Option Json → RuleResult
  schema_result path schema none = rule_result "json_schema" path false "path was not found"
  schema_result path schema (some value) =
      if validates schema value
      then rule_result "json_schema" path true "schema validation passed"
      else rule_result "json_schema" path false "schema validation failed"

-- `check_schema` is a call of `Draft202012Validator.check_schema` that says whether it passed.
module _ (check_schema : Json → Bool) (validates : Fields → Json → Bool) where
  -- The last branch of `_evaluate_rule` for each kind. A list or an object is not hashable.
  unfoldable pub evaluate_kind : String → String → Fields → Json → Option ℤ → Result RuleResult
  evaluate_kind kind path rule payload latency_ms =
      if str_eq kind "non_empty"
      then (value_at_path payload path >>= λ found. ok (non_empty_result path found))
      else if str_eq kind "json_schema"
      then (elim (get "schema" rule) [
        | some (obj schema) ↦
            value_at_path payload path >>= λ found. ok (schema_result validates path schema found)
        | _ ↦ raise evaluation_configuration
      ])
      else if str_eq kind "latency_budget"
      then (elim (get "max_ms" rule) [
        | some (int (pos budget)) ↦ ok (latency_result latency_ms budget)
        | _ ↦ raise evaluation_configuration
      ])
      else if str_eq kind "rule"
      then (elim (get "operator" rule) [
        | some (str operator) ↦
            if is_one_of operator operators
            then (value_at_path payload path >>= λ found.
                ok (operator_result path operator (get_or "value" null rule) found))
            else raise evaluation_configuration
        | some (arr xs) ↦ raise type_error
        | some (obj d) ↦ raise type_error
        | _ ↦ raise evaluation_configuration
      ])
      else raise evaluation_configuration

  -- `_evaluate_rule`, given the rule's `type` and `path`.
  unfoldable pub evaluate_typed : Json → Option ℤ → Fields → Option Json → Json → Result RuleResult
  evaluate_typed payload latency_ms rule (some (str kind)) (str path) =
      evaluate_kind kind path rule payload latency_ms
  evaluate_typed payload latency_ms rule _ _ = raise evaluation_configuration

  unfoldable pub evaluate_rule : Json → Option ℤ → Fields → Result RuleResult
  evaluate_rule payload latency_ms rule =
      evaluate_typed payload latency_ms rule (get "type" rule) (get_or "path" (str "") rule)

  unfoldable pub evaluate_each : Json → Option ℤ → List Fields → Result (List RuleResult)
  evaluate_each payload latency_ms [] = ok []
  evaluate_each payload latency_ms (rule ∷ rules) = do
    result ← evaluate_rule payload latency_ms rule
    results ← evaluate_each payload latency_ms rules
    ok (result ∷ results)

  unfoldable pub evaluate_rules : List Fields → Fields → Option ℤ → Result EvaluationOutcome
  evaluate_rules rules result_payload latency_ms = do
    validate_rules check_schema rules
    bounded_value 10_000 16 (obj result_payload)
    results ← evaluate_each (obj result_payload) latency_ms rules
    ok (record { passed = all_passed results; rule_results = results })
