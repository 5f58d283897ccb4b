-- ===== src/Evaluation/Engine/Kinds.antt =====
-- What a rule of each kind raises, once it has been validated (src/agent_runtime/evaluation/engine.py).
use agent_reliability_runtim.Prelude.{
  ℕ, String, ◌≡◌, refl, ◌⊎◌, inl, inr, Bool, true, false, not, ◌||◌, Option, none, some, List, [],
  ◌∷◌, eq_iff, if◌then◌else◌, arith,
}
use agent_reliability_runtim.Prelude.Result.{
  Result, ok, raise, value_error, evaluation_configuration,
}
use agent_reliability_runtim.Json.{
  ℤ, pos, negsuc, Json, null, boolean, int, float, str, arr, obj, Fields, get, get_or,
}
use agent_reliability_runtim.Evaluation.Safety.{
  is_one_of, is_valid_path, is_operator, is_budget, operators, traverse_schema, visit_schema,
  validate_schema, validate_kind,
}
use agent_reliability_runtim.Evaluation.Engine.{
  non_empty_result, operator_result, schema_result, latency_result, evaluate_kind,
}
use agent_reliability_runtim.Evaluation.Engine.Paths.{ReturnsOr, found_cases}

abbrev pub kinds : List String
kinds = "non_empty" ∷ "json_schema" ∷ "latency_budget" ∷ "rule" ∷ []

kind_cases :
    (kind : String)
    → is_one_of kind kinds ≡ true
    → ("non_empty" ≡ kind)
      ⊎ (("json_schema" ≡ kind) ⊎ (("latency_budget" ≡ kind) ⊎ ("rule" ≡ kind)))
unfolding is_one_of
kind_cases kind known = ground (
  arith,
  eq_iff "non_empty" kind,
  eq_iff "json_schema" kind,
  eq_iff "latency_budget" kind,
  eq_iff "rule" kind,
)

passes_test :
    (b : Bool) → (if b then ok (tt {0}) else raise evaluation_configuration) ≡ ok tt → b ≡ true
passes_test true h = refl
passes_test false h = cc

pub passes_tests :
    (a b c : Bool) (m : Result (Unit {0}))
    → (if not a || not b || not c then raise evaluation_configuration else m) ≡ ok tt
    → (a ≡ true) × (b ≡ true) × (c ≡ true) × (m ≡ ok tt)
passes_tests true true true m h = (refl, refl, refl, h)
passes_tests false b c m h = cc
passes_tests true false c m h = cc
passes_tests true true false m h = cc

module _ (check_schema : Json → Bool) (validates : Fields → Json → Bool) where
  -- An accepted schema is an object.
  schema_object :
      (schema : Option Json)
      → validate_schema check_schema (elim schema [ none ↦ null | some v ↦ v ]) ≡ ok tt
      → (d : Fields) × (schema ≡ some (obj d))
  unfolding validate_schema traverse_schema visit_schema
  schema_object none h = cc
  schema_object (some null) h = cc
  schema_object (some (boolean b)) h = cc
  schema_object (some (int n)) h = cc
  schema_object (some (float x)) h = cc
  schema_object (some (str s)) h = cc
  schema_object (some (arr xs)) h = cc
  schema_object (some (obj d)) h = (d, refl)

  operator_text :
      (operator : Option Json)
      → is_operator operator ≡ true
      → (s : String) × (operator ≡ some (str s)) × (is_one_of s operators ≡ true)
  unfolding is_operator
  operator_text none h = cc
  operator_text (some null) h = cc
  operator_text (some (boolean b)) h = cc
  operator_text (some (int n)) h = cc
  operator_text (some (float x)) h = cc
  operator_text (some (arr xs)) h = cc
  operator_text (some (obj d)) h = cc
  operator_text (some (str s)) h = (s, refl, h)

  budget_number :
      (budget : Option Json) → is_budget budget ≡ true → (n : ℕ) × (budget ≡ some (int (pos n)))
  unfolding is_budget
  budget_number none h = cc
  budget_number (some null) h = cc
  budget_number (some (boolean b)) h = cc
  budget_number (some (int (negsuc n))) h = cc
  budget_number (some (float x)) h = cc
  budget_number (some (arr xs)) h = cc
  budget_number (some (obj d)) h = cc
  budget_number (some (str s)) h = cc
  budget_number (some (int (pos n))) h = (n, refl)

  pub path_text : (path : Json) → is_valid_path path ≡ true → (s : String) × (path ≡ str s)
  unfolding is_valid_path
  path_text null h = cc
  path_text (boolean b) h = cc
  path_text (int n) h = cc
  path_text (float x) h = cc
  path_text (arr xs) h = cc
  path_text (obj d) h = cc
  path_text (str s) h = (s, refl)

  module _ (path : String) (rule : Fields) (payload : Json) (latency_ms : Option ℤ) where
    abbrev Judged : String → Type 0
    Judged kind =
        ReturnsOr value_error
          (evaluate_kind check_schema validates kind path rule payload latency_ms)

    schema_cases : validate_kind check_schema "json_schema" rule ≡ ok tt → Judged "json_schema"
    unfolding evaluate_kind validate_kind get_or
    schema_cases valid =
        let (d, e) = schema_object (get "schema" rule) valid in
        rw (e, evaluate_kind) (found_cases payload path (schema_result validates path d))

    budget_cases :
        validate_kind check_schema "latency_budget" rule ≡ ok tt → Judged "latency_budget"
    unfolding evaluate_kind validate_kind
    budget_cases valid =
        let (n, e) = budget_number (get "max_ms" rule) (passes_test _ valid) in
        inl (latency_result latency_ms n, rw (e, evaluate_kind) refl)

    operator_cases : validate_kind check_schema "rule" rule ≡ ok tt → Judged "rule"
    unfolding evaluate_kind validate_kind
    operator_cases valid =
        let (s, e, known) = operator_text (get "operator" rule) (passes_test _ valid) in
        rw (e, evaluate_kind, known)
          (found_cases payload path (operator_result path s (get_or "value" null rule)))

    pub evaluate_kind_cases :
        (kind : String)
        → is_one_of kind kinds ≡ true
        → validate_kind check_schema kind rule ≡ ok tt
        → Judged kind
    evaluate_kind_cases kind known valid = elim (kind_cases kind known) [
      | inl e ↦ rw (← e) (unfold evaluate_kind in found_cases payload path (non_empty_result path))
      | inr (inl e) ↦ rw (← e) (schema_cases (rw (← e) at valid))
      | inr (inr (inl e)) ↦ rw (← e) (budget_cases (rw (← e) at valid))
      | inr (inr (inr e)) ↦ rw (← e) (operator_cases (rw (← e) at valid))
    ]

-- Two lists of one length, related entry by entry.
abbrev pub Pointwise {ℓ κ} : {A : Type ℓ} {B : Type κ} → (A → B → Type 0) → List A → List B → Type 0
Pointwise R [] [] = Unit
Pointwise R [] (b ∷ bs) = ⊥
Pointwise R (a ∷ rest) [] = ⊥
Pointwise R (a ∷ rest) (b ∷ bs) = R a b × Pointwise R rest bs
