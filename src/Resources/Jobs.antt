-- ===== src/Resources/Jobs.antt =====
-- `ResourceExecutor.execute` of src/agent_runtime/execution/resource_executor.py, for each kind of work.
use agent_reliability_runtim.Prelude.{
  ℕ, ◌*◌, String, Bool, true, false, ◌&&◌, ◌||◌, Option, none, some, List, [], ◌∷◌, ltb, ◌==◌,
  length, str_eq, if◌then◌else◌,
}
use agent_reliability_runtim.Prelude.Result.{
  Result, ok, raise, runtime_error, value_error, key_error, type_error, quota_exceeded, ◌>>=◌,
}
use agent_reliability_runtim.Json.{ℤ, Json, str, arr, obj, Fields, end, get, get_or}
use agent_reliability_runtim.Domain.Retry.{ProviderException, other_error}
use agent_reliability_runtim.Store.{
  Uuid, Run, WorkKind, execution, evaluation, regression, RunAttempt, succeeded, Db,
}
use agent_reliability_runtim.Execution.Common.{find_run, later_attempt}
use agent_reliability_runtim.Messaging.Worker.{Execution, returned, threw}
use agent_reliability_runtim.Evaluation.Dataset.{
  RegressionDataset, ProviderModelTarget, RegressionGates, objects, from_mapping, target_of,
  gates_of,
}
use agent_reliability_runtim.Evaluation.Engine.{evaluate_rules, as_persisted_result}
use agent_reliability_runtim.Evaluation.Regression.Runner.{run}
use agent_reliability_runtim.Evaluation.Regression.Payload.{report_fields}
use agent_reliability_runtim.Resources.Charging.{
  Calls, ExecutorConfig, Job, World, charged_execute, exception_of, start,
}

-- `select(RunAttempt.latency_ms)…`: that of the last successful attempt of the source.
unfoldable pub has_succeeded : RunAttempt → Bool
has_succeeded a = elim a.outcome [ some succeeded ↦ true | _ ↦ false ]

unfoldable pub latest_success : Uuid → List RunAttempt → Option RunAttempt
latest_success run_id [] = none
latest_success run_id (a ∷ rest) =
    let later = latest_success run_id rest in
    if a.run_id == run_id && has_succeeded a then some (later_attempt a later) else later

unfoldable pub source_latency : Uuid → Db → Option ℤ
source_latency run_id db = elim (latest_success run_id db.attempts) [
  | none ↦ none
  | some a ↦ a.latency_ms
]

-- A stored payload has its rules as a list of objects; the code fails on anything else.
unfoldable pub rules_of : Fields → Result (List Fields)
rules_of input_payload = elim (get "rules" input_payload) [
  | none ↦ raise key_error
  | some (arr xs) ↦ objects xs
  | some _ ↦ raise type_error
]

unfoldable pub object_at : String → Fields → Result Fields
object_at key input_payload = elim (get key input_payload) [
  | none ↦ raise key_error
  | some (obj d) ↦ ok d
  | some _ ↦ raise type_error
]

unfoldable pub gates_argument : Fields → Result Fields
gates_argument input_payload = elim (get_or "gates" (obj end) input_payload) [
  | obj d ↦ ok d
  | _ ↦ raise type_error
]

-- The result that a source offers to its evaluation.
unfoldable pub source_result : String → Option Run → Result Fields
source_result tenant_id none = raise runtime_error
source_result tenant_id (some source) = elim source.result_payload [
  | none ↦ raise runtime_error
  | some result_payload ↦
      if str_eq source.client_id tenant_id then ok result_payload else raise runtime_error
]

unfoldable pub as_execution : String → Result Fields → Execution
as_execution provider (raise e) = threw (exception_of e)
as_execution provider (ok payload) =
    returned (record { provider = provider; result_payload = payload; usage_metadata = none })

-- The arguments of a regression beside its dataset.
pub record RegressionArguments : Type 0 where
  pub baseline : ProviderModelTarget
  pub candidate : ProviderModelTarget
  pub gates : RegressionGates

unfoldable pub regression_arguments : Fields → Result RegressionArguments
regression_arguments input_payload = do
  baseline ← object_at "baseline" input_payload >>= target_of
  candidate ← object_at "candidate" input_payload >>= target_of
  gates ← gates_argument input_payload >>= gates_of
  ok (record { baseline = baseline; candidate = candidate; gates = gates })

unfoldable pub dataset_argument : Fields → Result RegressionDataset
dataset_argument input_payload = object_at "dataset" input_payload >>= from_mapping

-- The keys that the worker has added to the policy.
pub record RuntimeKeys : Type 0 where
  pub run_id : Uuid
  pub worker_id : String
  pub attempt_id : Uuid

unfoldable pub worker_at : Fields → Result String
worker_at policy_snapshot = elim (get "_runtime_worker_id" policy_snapshot) [
  | none ↦ raise key_error
  | some (str s) ↦ ok s
  | some _ ↦ raise type_error
]

unfoldable pub job_of : RuntimeKeys → ℕ → Job
job_of keys budget = record {
  run_id = keys.run_id;
  worker_id = keys.worker_id;
  attempt_id = keys.attempt_id;
  budget = budget;
}

-- `parse` is `UUID(text)`, which may fail.
module _ (parse : String → Option Uuid) where
  unfoldable pub uuid_at : String → Fields → Result Uuid
  uuid_at key d = elim (get key d) [
    | none ↦ raise key_error
    | some (str s) ↦ elim (parse s) [ none ↦ raise value_error | some id ↦ ok id ]
    | some _ ↦ raise type_error
  ]

  unfoldable pub runtime_keys : Fields → Result RuntimeKeys
  runtime_keys policy_snapshot = do
    run_id ← uuid_at "_runtime_run_id" policy_snapshot
    worker_id ← worker_at policy_snapshot
    attempt_id ← uuid_at "_runtime_attempt_id" policy_snapshot
    ok (record { run_id = run_id; worker_id = worker_id; attempt_id = attempt_id })

  module _ (check_schema : Json → Bool) (validates : Fields → Json → Bool) where
    -- The branch of an evaluation job.
    unfoldable pub evaluate_source : String → Fields → Db → Result Fields
    evaluate_source tenant_id input_payload db = do
      source_id ← uuid_at "source_run_id" input_payload
      result_payload ← source_result tenant_id (find_run source_id db)
      rules ← rules_of input_payload
      outcome ←
          evaluate_rules check_schema validates rules result_payload (source_latency source_id db)
      ok (as_persisted_result outcome)

    module _ (exception_name : ProviderException → String) (world : World)
        (config : ExecutorConfig) where
      -- A regression report, once the dataset is known to fit the budget.
      unfoldable pub run_regression :
          Job → Calls → RegressionDataset → Result RegressionArguments → Result Fields × Calls
      run_regression job s dataset (raise e) = (raise e, s)
      run_regression job s dataset (ok args) =
          let ran =
            run check_schema validates exception_name (charged_execute world config job) s dataset
              args.baseline args.candidate args.gates in
          (ran.0 >>= λ report. ok (report_fields report), ran.1)

      -- The branch of a regression job.
      unfoldable pub regress :
          Job → Calls → Fields → Result RegressionDataset → Result Fields × Calls
      regress job s input_payload (raise e) = (raise e, s)
      regress job s input_payload (ok dataset) =
          if ltb config.regression_max_cases (length dataset.cases)
            || ltb job.budget (2 * length dataset.cases)
          then (raise quota_exceeded, s)
          else run_regression job s dataset (regression_arguments input_payload)

      -- Each kind of work, for a run that was found.
      unfoldable pub execute_kind :
          WorkKind → RuntimeKeys → String → Db → String → Fields → Fields → Execution × Calls
      execute_kind evaluation keys tenant_id db provider input_payload policy_snapshot = (
        as_execution "evaluation" (evaluate_source tenant_id input_payload (world.others 0 db)),
        start (world.others 0 db),
      )
      execute_kind regression keys tenant_id db provider input_payload policy_snapshot =
          let ran =
            regress (job_of keys config.regression_provider_call_budget) (start db) input_payload
              (dataset_argument input_payload) in
          (as_execution "regression" ran.0, ran.1)
      execute_kind execution keys tenant_id db provider input_payload policy_snapshot =
          let called =
            charged_execute world config (job_of keys 1) (start db) provider input_payload
              policy_snapshot in
          (called.0.execution, called.1)

      unfoldable pub execute_found :
          Option Run → RuntimeKeys → Db → String → Fields → Fields → Execution × Calls
      execute_found none keys db provider input_payload policy_snapshot =
          (threw (other_error none), start db)
      execute_found (some found) keys db provider input_payload policy_snapshot =
          execute_kind found.work_kind keys found.client_id db provider input_payload
            policy_snapshot

      unfoldable pub execute_as :
          Result RuntimeKeys → Db → String → Fields → Fields → Execution × Calls
      execute_as (raise e) db provider input_payload policy_snapshot =
          (threw (exception_of e), start db)
      execute_as (ok keys) db provider input_payload policy_snapshot =
          execute_found (find_run keys.run_id db) keys db provider input_payload policy_snapshot

      -- `ResourceExecutor.execute`
      unfoldable pub execute : Db → String → Fields → Fields → Execution × Calls
      execute db provider input_payload policy_snapshot =
          execute_as (runtime_keys policy_snapshot) db provider input_payload policy_snapshot
