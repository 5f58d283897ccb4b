-- ===== src/Resources/Keeps.antt =====
-- What every charged call keeps, a job keeps, whatever its kind of work
-- (src/agent_runtime/execution/resource_executor.py).
use agent_reliability_runtim.Prelude.{
  ℕ, ◌*◌, String, Bool, ◌||◌, Option, List, [], ◌∷◌, ltb, length, inl, inr, Bool-cases,
}
use agent_reliability_runtim.Prelude.Result.{Result, ok, raise, Result-cases}
use agent_reliability_runtim.Json.{Json, Fields}
use agent_reliability_runtim.Domain.Retry.{ProviderException}
use agent_reliability_runtim.Store.{Uuid, WorkKind, execution, evaluation, regression, Db}
use agent_reliability_runtim.Evaluation.Dataset.{
  RegressionCase, RegressionDataset, ProviderModelTarget, RegressionGates,
}
use agent_reliability_runtim.Evaluation.Regression.Summaries.{Timed}
use agent_reliability_runtim.Evaluation.Regression.Runner.{
  case_result, target_policy, run_cases, run_target, run,
}
use agent_reliability_runtim.Resources.Charging.{
  World, ExecutorConfig, Job, Calls, charged_execute, start,
}
use agent_reliability_runtim.Resources.Jobs.{
  RegressionArguments, dataset_argument, RuntimeKeys, job_of, run_regression, regress, execute_kind,
}

-- The provider calls that a kind of work may make.
unfoldable pub budget_of : ExecutorConfig → WorkKind → ℕ
budget_of config execution = 1
budget_of config evaluation = 0
budget_of config regression = config.regression_provider_call_budget

-- What every call of the executor keeps, a regression keeps.
module _ {S : Type 0} (check_schema : Json → Bool) (validates : Fields → Json → Bool)
    (exception_name : ProviderException → String)
    (executor : S → String → Fields → Fields → Timed × S) (Keeps : S → Type 0)
    (kept : (s : S) (p : String) (i d : Fields) → Keeps s → Keeps (executor s p i d).1) where
  run_cases-keeps :
      (s : S) (target : ProviderModelTarget) (cases : List RegressionCase)
      → Keeps s
      → Keeps (run_cases check_schema validates exception_name executor s target cases).1
  unfolding run_cases
  run_cases-keeps s target [] k = k
  run_cases-keeps s target (case ∷ cases) k =
      let called = executor s target.provider case.input_payload (target_policy target) in
      let k' = kept s target.provider case.input_payload (target_policy target) k in
      elim (Result-cases (
        case_result check_schema validates exception_name case target called.0
          called.0.execution)) [
            | inl (e, raised) ↦ rw (raised, run_cases) k'
            | inr (r, judged) ↦ rw (judged, run_cases) (run_cases-keeps called.1 target cases k')
          ]

  pub run-keeps :
      (s : S) (dataset : RegressionDataset) (baseline candidate : ProviderModelTarget)
      (gates : RegressionGates)
      → Keeps s
      → Keeps
          (run check_schema validates exception_name executor s dataset baseline candidate gates).1
  unfolding run run_target
  run-keeps s dataset baseline candidate gates k =
      let first = run_target check_schema validates exception_name executor s baseline dataset in
      let second =
        run_target check_schema validates exception_name executor first.1 candidate dataset in
      let k₁ = run_cases-keeps s baseline dataset.cases k in
      let k₂ = run_cases-keeps first.1 candidate dataset.cases k₁ in
      elim (Result-cases first.0) [
        | inl (e, raised) ↦ rw (raised, run) k₁
        | inr (b, ran_b) ↦ elim (Result-cases second.0) [
          | inl (e, raised) ↦ rw (ran_b, raised, run) k₂
          | inr (c, ran_c) ↦ rw (ran_b, ran_c, run) k₂
        ]
      ]

module _ (parse : String → Option Uuid) (check_schema : Json → Bool)
    (validates : Fields → Json → Bool) (exception_name : ProviderException → String) (world : World)
    (config : ExecutorConfig) (Keeps : Job → Calls → Type 0)
    (kept : (job : Job) (s : Calls) (p : String) (i d : Fields)
      → Keeps job s
      → Keeps job (charged_execute world config job s p i d).1) where
  run_regression-keeps :
      (job : Job) (s : Calls) (dataset : RegressionDataset) (args : Result RegressionArguments)
      → Keeps job s
      → Keeps job
          (run_regression parse check_schema validates exception_name world config job s dataset
            args).1
  unfolding run_regression
  run_regression-keeps job s dataset (raise e) k = k
  run_regression-keeps job s dataset (ok args) k =
      run-keeps check_schema validates exception_name (charged_execute world config job) (Keeps job)
        (kept job) s dataset args.baseline args.candidate args.gates k

  regress-keeps :
      (job : Job) (s : Calls) (input_payload : Fields) (dataset : Result RegressionDataset)
      → Keeps job s
      → Keeps job
          (regress parse check_schema validates exception_name world config job s input_payload
            dataset).1
  unfolding regress
  regress-keeps job s input_payload (raise e) k = k
  regress-keeps job s input_payload (ok dataset) k =
      elim (Bool-cases (
        ltb config.regression_max_cases (length dataset.cases)
        || ltb job.budget (2 * length dataset.cases))) [
          | inl over ↦ rw (over, regress) k
          | inr fits ↦ rw (fits, regress) (run_regression-keeps job s dataset _ k)
        ]

  -- An evaluation looks its source up after the others' next turn.
  pub execute_kind-keeps :
      (kind : WorkKind) (keys : RuntimeKeys) (tenant_id : String) (db : Db) (provider : String)
      (input_payload policy_snapshot : Fields)
      → ((job : Job) → Keeps job (start db))
      → ((job : Job) → Keeps job (start (world.others 0 db)))
      → Keeps
          (job_of keys (budget_of config kind))
          (execute_kind parse check_schema validates exception_name world config kind keys tenant_id
            db provider input_payload policy_snapshot).1
  unfolding execute_kind budget_of
  execute_kind-keeps evaluation keys tenant_id db provider input_payload policy_snapshot first
        later =
      later (job_of keys 0)
  execute_kind-keeps execution keys tenant_id db provider input_payload policy_snapshot first
        later =
      kept (job_of keys 1) (start db) provider input_payload policy_snapshot (first (job_of keys 1))
  execute_kind-keeps regression keys tenant_id db provider input_payload policy_snapshot first
        later =
      let job = job_of keys config.regression_provider_call_budget in
      regress-keeps job (start db) input_payload (dataset_argument input_payload) (first job)
