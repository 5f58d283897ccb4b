-- ===== src/Scenario/Evaluations.antt =====
-- The theorems on rules, datasets, regressions and evaluation jobs, at small examples.
use agent_reliability_runtim.Prelude.{
  ℕ, suc, ◌*◌, String, ◌≡◌, refl, ◌⊎◌, Bool, true, false, none, some, List, [], ◌∷◌, if◌then◌else◌,
}
use agent_reliability_runtim.Prelude.Result.{
  Result, ok, raise, value_error, evaluation_configuration,
}
use agent_reliability_runtim.Json.{Json, str, obj, arr, cons, nil, Fields, end, field, get}
use agent_reliability_runtim.Domain.Retry.{ProviderException, second, is_blank}
use agent_reliability_runtim.Messaging.Worker.{returned}
use agent_reliability_runtim.Evaluation.Safety.{bounded_value, validate_rules, is_one_of}
use agent_reliability_runtim.Evaluation.Safety.Traversal.{is_bounded, bounded_value-eq-is_bounded}
use agent_reliability_runtim.Evaluation.Engine.{EvaluationOutcome, evaluate_rule, evaluate_rules}
use agent_reliability_runtim.Evaluation.Engine.Outcomes.{IsJudgement, evaluate_rules_cases}
use agent_reliability_runtim.Evaluation.Dataset.{
  RegressionDataset, ProviderModelTarget, RegressionGates, from_mapping, named, filled, read_cases,
  read_case, filled_object, objects,
}
use agent_reliability_runtim.Evaluation.Dataset.Laws.{IsDataset, from_mapping-IsDataset}
use agent_reliability_runtim.Evaluation.Regression.Summaries.{Timed}
use agent_reliability_runtim.Scenario.Start.{limits, result}
use agent_reliability_runtim.Runs.{queued_run}
use agent_reliability_runtim.Runs.History.{EvaluationSnapshot}
use agent_reliability_runtim.Runs.Evaluate.{
  accept_evaluation, evaluate, pending_evaluation, evaluation_job,
}
use agent_reliability_runtim.Domain.States.{succeeded}
use agent_reliability_runtim.Store.{Run, Db, Evaluation}
use agent_reliability_runtim.Scenario.Start.{deployment, first_key, api, request}
use agent_reliability_runtim.System.{empty}

-- Calls of jsonschema that accept every schema, and the values of a schema without fields.
abbrev pub check_schema : Json → Bool
check_schema _ = true

abbrev pub validates : Fields → Json → Bool
validates end _ = true
validates (field _ _ _) _ = false

abbrev pub exception_name : ProviderException → String
exception_name _ = "TimeoutError"

abbrev pub payload : Fields
payload = field "answer" (str "so") end

-- The answer is not empty, and it is the word "so".
abbrev rules : List Fields
rules =
    field "type" (str "non_empty") (field "path" (str "answer") end)
    ∷ field "type" (str "rule") (
        field "path" (str "answer")
          (field "operator" (str "equals") (field "value" (str "so") end)))
    ∷ []

bounded_value-eq-is_bounded_example :
    bounded_value 3 1 (obj payload)
    ≡ (if is_bounded 3 1 (obj payload) then ok tt else raise evaluation_configuration)
bounded_value-eq-is_bounded_example = bounded_value-eq-is_bounded 3 1 (obj payload)

evaluate_rules_cases_example :
    ((evaluate_rules check_schema validates rules payload none ≡ raise evaluation_configuration)
      × ((validate_rules check_schema rules ≡ raise evaluation_configuration)
          ⊎ (is_bounded 10_000 16 (obj payload) ≡ false)))
    ⊎ ((validate_rules check_schema rules ≡ ok tt)
        × (is_bounded 10_000 16 (obj payload) ≡ true)
        × ((evaluate_rules check_schema validates rules payload none ≡ raise value_error)
            ⊎ ((outcome : EvaluationOutcome) × (evaluate_rules check_schema validates rules payload
                    none
                  ≡ ok outcome)
                × IsJudgement
                    (evaluate_rule check_schema validates (obj payload) none)
                    rules
                    outcome)))
evaluate_rules_cases_example = evaluate_rules_cases check_schema validates rules payload none

abbrev rule_items : Json
rule_items = arr (cons (obj (field "type" (str "non_empty") (field "path" (str "answer") end))) nil)

abbrev one_case : String → Json
one_case name = obj (
    field "case_id" (str name)
      (field "input" (obj (field "question" (str "why") end)) (field "rules" rule_items end)))

abbrev mapping : Fields
mapping = field "dataset_id" (str "questions") (
    field "version" (str "1")
      (field "cases" (arr (cons (one_case "first") (cons (one_case "second") nil))) end))

abbrev dataset_or : RegressionDataset → Result RegressionDataset → RegressionDataset
dataset_or d (ok e) = e
dataset_or d (raise _) = d

abbrev dataset : RegressionDataset
dataset = dataset_or (record { dataset_id = ""; version = ""; cases = [] }) (from_mapping mapping)

mapping_read : from_mapping mapping ≡ ok dataset
unfolding from_mapping named filled read_cases read_case filled_object objects get is_blank
    is_one_of
mapping_read = refl

from_mapping-IsDataset_example : IsDataset dataset
from_mapping-IsDataset_example = from_mapping-IsDataset mapping dataset mapping_read

-- An executor whose state counts its calls, and which always answers.
abbrev executor : ℕ → String → Fields → Fields → Timed × ℕ
executor n _ _ _ =
    (record { execution = returned result; latency_ms = 4; latency_on_error = 5 }, suc n)

abbrev target : ProviderModelTarget
target = record { provider = "deterministic"; model = none; estimated_cost_microusd = 10 }

abbrev gates : RegressionGates
gates = record {
  max_quality_regression_points = 0;
  max_latency_regression_percent = some 10_000_000;
  max_cost_regression_percent = none;
}

-- A run that has succeeded, with the answer of the rules.
abbrev answered : Run
answered = record (queued_run (api 1 100) request "h") {
  execution_status = succeeded;
  result_payload = some payload;
  completed_at = some (2 * second);
}

abbrev answered_db : Db
answered_db = record empty { runs = answered ∷ [] }

abbrev evaluated : Result (EvaluationSnapshot × Db)
evaluated =
    evaluate first_key deployment.uuid_text check_schema limits second (api 9 900) "acme" 100 rules
      (some "ann") answered_db

abbrev pending_row : Evaluation
pending_row = pending_evaluation deployment.uuid_text (api 9 900) 100 2 900

abbrev evaluation_job_row : Run
evaluation_job_row =
    evaluation_job first_key deployment.uuid_text second (api 9 900) "acme" "ann" 100 rules

abbrev evaluated_db : Db
evaluated_db = accept_evaluation (api 9 900) evaluation_job_row pending_row answered answered_db
