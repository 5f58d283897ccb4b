-- ===== src/Evaluation/Regression/Runner.antt =====
-- `EvaluationRegressionRunner` of src/agent_runtime/evaluation/regression.py. The executor is a parameter: it
-- takes its own state, and it says what the call came to and the milliseconds that had passed.
use agent_reliability_runtim.Prelude.{
  ℕ, String, Bool, false, not, ◌&&◌, ◌||◌, none, some, List, [], ◌∷◌, length, is_some,
}
use agent_reliability_runtim.Prelude.Result.{
  Error, Result, ok, raise, evaluation_configuration, value_error, quota_exceeded, zero_division,
  ◌>>=◌,
}
use agent_reliability_runtim.Json.{pos, Json, str, arr, nil, cons, Fields, end, field}
use agent_reliability_runtim.Domain.Retry.{
  ProviderException, quota_exceeded_error, timeout_error, other_error,
}
use agent_reliability_runtim.Messaging.Worker.{Execution, returned, threw}
use agent_reliability_runtim.Evaluation.Engine.{EvaluationOutcome, evaluate_rules}
use agent_reliability_runtim.Evaluation.Dataset.{
  RegressionCase, RegressionDataset, ProviderModelTarget, RegressionGates,
}
use agent_reliability_runtim.Evaluation.Regression.Summaries.{
  CaseResult, Report, TargetResult, Timed, compare_summaries, summary_of,
}

-- `_target_policy`
unfoldable pub target_policy : ProviderModelTarget → Fields
target_policy target =
    field "provider_order" (arr (cons (str target.provider) nil))
      (elim target.model [ none ↦ end | some model ↦ field "model" (str model) end ])

-- The names of the classes that `evaluate_rules` raises; there are no others.
unfoldable pub rule_error_name : Error → String
rule_error_name evaluation_configuration = "EvaluationConfigurationError"
rule_error_name value_error = "ValueError"
rule_error_name _ = "Exception"

unfoldable pub judged_case :
    RegressionCase → ProviderModelTarget → ℕ → EvaluationOutcome → CaseResult
judged_case case target latency_ms outcome = record {
  case_id = case.case_id;
  passed = outcome.passed;
  latency_ms = latency_ms;
  estimated_cost_microusd = target.estimated_cost_microusd;
  rules = some outcome.rule_results;
  error_type = none;
}

unfoldable pub failed_case : RegressionCase → ProviderModelTarget → ℕ → String → CaseResult
failed_case case target latency_ms name = record {
  case_id = case.case_id;
  passed = false;
  latency_ms = latency_ms;
  estimated_cost_microusd = target.estimated_cost_microusd;
  rules = none;
  error_type = some name;
}

unfoldable pub has_error : CaseResult → Bool
has_error c = is_some c.error_type

unfoldable pub any_error : List CaseResult → Bool
any_error [] = false
any_error (c ∷ cs) = has_error c || any_error cs

-- The end of `run`.
unfoldable pub report_of :
    RegressionDataset → RegressionGates → TargetResult → TargetResult → Report
report_of dataset gates baseline candidate =
    let compared = compare_summaries baseline.summary candidate.summary gates in
    let passed = compared.passed && not (any_error baseline.cases || any_error candidate.cases) in
    record {
      dataset_id = dataset.dataset_id;
      version = dataset.version;
      case_count = length dataset.cases;
      baseline = baseline;
      candidate = candidate;
      comparison = record compared { passed = passed };
      passed = passed;
    }

-- The end of `_run_target`, which divides by the number of cases.
unfoldable pub target_result : ProviderModelTarget → List CaseResult → Result TargetResult
target_result target [] = raise zero_division
target_result target (c ∷ cs) =
    ok (record { target = target; cases = c ∷ cs; summary = summary_of (c ∷ cs) })

-- What a returned call comes to.
unfoldable pub judge :
    RegressionCase → ProviderModelTarget → Timed → Result EvaluationOutcome → CaseResult
judge case target timed (raise e) =
    failed_case case target timed.latency_on_error (rule_error_name e)
judge case target timed (ok outcome) = judged_case case target timed.latency_ms outcome

-- `type(exc).__name__`, of what the executor raises, is a parameter too.
module _ (check_schema : Json → Bool) (validates : Fields → Json → Bool)
    (exception_name : ProviderException → String) where
  -- What a case comes to, once the call has ended: `QuotaExceededError` alone leaves the loop.
  unfoldable pub case_result :
      RegressionCase → ProviderModelTarget → Timed → Execution → Result CaseResult
  case_result case target timed (threw quota_exceeded_error) = raise quota_exceeded
  case_result case target timed (threw timeout_error) =
      ok (failed_case case target timed.latency_on_error (exception_name timeout_error))
  case_result case target timed (threw (other_error status)) =
      ok (failed_case case target timed.latency_on_error (exception_name (other_error status)))
  case_result case target timed (returned result) = ok (
      judge case target timed (
        evaluate_rules check_schema validates case.rules result.result_payload
          (some (pos timed.latency_ms))))

module _ {S : Type 0} (check_schema : Json → Bool) (validates : Fields → Json → Bool)
    (exception_name : ProviderException → String)
    (executor : S → String → Fields → Fields → Timed × S) where
  -- The loop of `_run_target`. An error leaves the state that the calls have made.
  unfoldable pub run_cases :
      S → ProviderModelTarget → List RegressionCase → Result (List CaseResult) × S
  run_cases s target [] = (ok [], s)
  run_cases s target (case ∷ cases) =
      let called = executor s target.provider case.input_payload (target_policy target) in
      let rest = run_cases called.1 target cases in
      elim (case_result check_schema validates exception_name case target called.0
        called.0.execution) [
          | raise e ↦ (raise e, called.1)
          | ok result ↦ (rest.0 >>= λ results. ok (result ∷ results), rest.1)
        ]

  unfoldable pub run_target : S → ProviderModelTarget → RegressionDataset → Result TargetResult × S
  run_target s target dataset =
      let ran = run_cases s target dataset.cases in (ran.0 >>= target_result target, ran.1)

  -- `run`
  unfoldable pub run :
      S
      → RegressionDataset
      → ProviderModelTarget
      → ProviderModelTarget
      → RegressionGates
      → Result Report × S
  run s dataset baseline candidate gates =
      let first = run_target s baseline dataset in
      let second = run_target first.1 candidate dataset in
      elim first.0 [
        | raise e ↦ (raise e, first.1)
        | ok b ↦ elim second.0 [
          | raise e ↦ (raise e, second.1)
          | ok c ↦ (ok (report_of dataset gates b c), second.1)
        ]
      ]
