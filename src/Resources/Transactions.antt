-- ===== src/Resources/Transactions.antt =====
-- A job changes the tables by steps of the system alone
-- (src/agent_runtime/execution/resource_executor.py).
use agent_reliability_runtim.Prelude.{
  ℕ, String, ◌≡◌, refl, sym, subst, Bool, Option, leb, inl, inr, Bool-cases, Option-cases,
}
use agent_reliability_runtim.Prelude.Result.{ok, Result-cases}
use agent_reliability_runtim.Json.{Json, Fields, get}
use agent_reliability_runtim.Domain.Retry.{ProviderException}
use agent_reliability_runtim.Store.{Uuid, Db}
use agent_reliability_runtim.Quotas.{charge_provider_call}
use agent_reliability_runtim.Execution.Common.{or_default, find_run}
use agent_reliability_runtim.System.{Deployment, Step, charges, Reach, here, next}
use agent_reliability_runtim.System.Passes.{Reach-trans}
use agent_reliability_runtim.Resources.Charging.{
  World, ExecutorConfig, Job, Calls, charge, output_tokens, call_provider, charged_execute, start,
}
use agent_reliability_runtim.Resources.Jobs.{runtime_keys, execute_found, execute_as, execute}
use agent_reliability_runtim.Resources.Payments.{charge-IsAuthorised}
use agent_reliability_runtim.Resources.Keeps.{execute_kind-keeps}

module _ (d : Deployment) (world : World) (config : ExecutorConfig)
    (same_quotas : config.quotas ≡ d.config.quotas)
    (others_step : (turn : ℕ) (db : Db) → Reach d db (world.others turn db)) where
  charge-Step :
      (job : Job) (turn : ℕ) (before after : Db)
      → charge config job (world.now turn) (world.epoch turn) before ≡ ok after
      → Step d before after
  charge-Step job turn before after h =
      let a = charge-IsAuthorised world config job turn before after h in
      let principal = or_default a.active.principal_id a.active.client_id in
      charges (world.epoch turn) principal a.active.client_id (
        subst
          (λ q.
            charge_provider_call (world.epoch turn) principal a.active.client_id q before
            ≡ ok after)
          same_quotas a.charged)

  call_provider-db :
      (job : Job) (s : Calls) (provider : String) (input_payload policy_snapshot : Fields)
      → (call_provider world config job s provider input_payload policy_snapshot).1.db ≡ s.db
  unfolding call_provider
  call_provider-db job s provider input_payload policy_snapshot =
      elim (Option-cases (
        output_tokens config.provider_max_output_tokens
          (get "max_output_tokens" policy_snapshot))) [
            | inl bad ↦ rw (bad, call_provider) refl
            | inr (tokens, e) ↦ rw (e, call_provider) refl
          ]

  charged_execute-Reach :
      (origin : Db) (job : Job) (s : Calls) (provider : String)
      (input_payload policy_snapshot : Fields)
      → Reach d origin s.db
      → Reach d origin
          (charged_execute world config job s provider input_payload policy_snapshot).1.db
  unfolding charged_execute
  charged_execute-Reach origin job s provider input_payload policy_snapshot r =
      let before = world.others s.turn s.db in
      let there = Reach-trans d origin s.db before r (others_step s.turn s.db) in
      elim (Bool-cases (leb job.budget s.calls)) [
        | inl spent ↦ rw (spent, charged_execute) r
        | inr left ↦
            elim (Result-cases (charge config job (world.now s.turn) (world.epoch s.turn) before)) [
              | inl (e, refused) ↦ rw (left, charged_execute, refused) there
              | inr (after, charged) ↦
                  rw (left, charged_execute, charged)
                    (subst (Reach d origin)
                      (sym (call_provider-db job _ provider input_payload policy_snapshot))
                      (next there (charge-Step job s.turn before after charged)))
            ]
      ]

  module _ (parse : String → Option Uuid) (check_schema : Json → Bool)
      (validates : Fields → Json → Bool) (exception_name : ProviderException → String) where
    -- Where the quotas are those of the deployment, and what the others do between the
    -- transactions of a job is any sequence of steps, the tables after a job are reached from
    -- those before it by steps of the system.
    pub execute-Reach :
        (db : Db) (provider : String) (input_payload policy_snapshot : Fields)
        → Reach d db
            (execute parse check_schema validates exception_name world config db provider
              input_payload policy_snapshot).1.db
    unfolding execute execute_as execute_found start
    execute-Reach db provider input_payload policy_snapshot =
        elim (Result-cases (runtime_keys parse policy_snapshot)) [
          | inl (e, unread) ↦ rw (unread, execute_as) here
          | inr (keys, read) ↦ elim (Option-cases (find_run keys.run_id db)) [
            | inl missing ↦ rw (read, execute_as, missing) here
            | inr (active, found) ↦
                rw (read, execute_as, found)
                  (execute_kind-keeps parse check_schema validates exception_name world config
                    (λ job s. Reach d db s.db)
                    (λ job s p i q r. charged_execute-Reach db job s p i q r) active.work_kind keys
                    active.client_id db provider input_payload policy_snapshot (λ job. here)
                    (λ job. others_step 0 db))
          ]
        ]
