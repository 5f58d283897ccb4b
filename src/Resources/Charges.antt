-- ===== src/Resources/Charges.antt =====
-- Every provider call of a job is charged under its lease, and within its budget
-- (src/agent_runtime/execution/resource_executor.py).
use agent_reliability_runtim.Prelude.{String, ◌≡◌, Bool, Option, some}
use agent_reliability_runtim.Prelude.Result.{ok}
use agent_reliability_runtim.Json.{Json, Fields}
use agent_reliability_runtim.Domain.Retry.{ProviderException}
use agent_reliability_runtim.Store.{Uuid, Run, Db}
use agent_reliability_runtim.Execution.Common.{find_run}
use agent_reliability_runtim.Resources.Charging.{World, ExecutorConfig}
use agent_reliability_runtim.Resources.Jobs.{
  RuntimeKeys, job_of, runtime_keys, execute_found, execute_as, execute,
}
use agent_reliability_runtim.Resources.Payments.{IsPaid, charged_execute-IsPaid, start-IsPaid}
use agent_reliability_runtim.Resources.Keeps.{budget_of, execute_kind-keeps}

module _ (parse : String → Option Uuid) (check_schema : Json → Bool)
    (validates : Fields → Json → Bool) (exception_name : ProviderException → String) (world : World)
    (config : ExecutorConfig) where
  -- Whatever other transactions do between the steps of a job: each of its provider calls follows
  -- a charge of its own, committed while the worker held the run's active lease and its attempt
  -- was open, and there are no more charges than the budget of its kind: one for an execution,
  -- none for an evaluation, the service's budget for a regression.
  pub execute-IsPaid :
      (db : Db) (provider : String) (input_payload policy_snapshot : Fields) (keys : RuntimeKeys)
      (active : Run)
      → runtime_keys parse policy_snapshot ≡ ok keys
      → find_run keys.run_id db ≡ some active
      → IsPaid world config
          (job_of keys (budget_of config active.work_kind))
          (execute parse check_schema validates exception_name world config db provider
            input_payload policy_snapshot).1
  unfolding execute execute_as execute_found
  execute-IsPaid db provider input_payload policy_snapshot keys active read found =
      rw (read, execute_as, found)
        (execute_kind-keeps parse check_schema validates exception_name world config
          (IsPaid world config) (λ job s p i d k. charged_execute-IsPaid world config job s p i d k)
          active.work_kind keys active.client_id db provider input_payload policy_snapshot
          (λ job. start-IsPaid world config job db)
          (λ job. start-IsPaid world config job (world.others 0 db)))
