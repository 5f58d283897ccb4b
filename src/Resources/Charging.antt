-- ===== src/Resources/Charging.antt =====
-- The class `ChargedExecutor` of src/agent_runtime/execution/resource_executor.py. A job runs between the
-- transactions of others, so what they do, the clocks and the answers of providers are indexed by the
-- number of turns that the job has had.
use agent_reliability_runtim.Prelude.{
  ℕ, suc, ◌*◌, String, Bool, false, not, ◌&&◌, Option, none, some, List, [], ◌∷◌, ltb, leb, ◌==◌,
  is_some, if◌then◌else◌,
}
use agent_reliability_runtim.Prelude.Result.{
  Error, Result, ok, raise, runtime_error, quota_exceeded,
}
use agent_reliability_runtim.Json.{
  pos, negsuc, Json, boolean, int, float, finite, infinite, nan, Fields, get, put,
}
use agent_reliability_runtim.Domain.Retry.{ProviderException, quota_exceeded_error, other_error}
use agent_reliability_runtim.Store.{Uuid, Time, RunAttempt, Db}
use agent_reliability_runtim.Quotas.{QuotaLimits, charge_provider_call}
use agent_reliability_runtim.Execution.Common.{
  or_default, find_run, find_attempt, owns_active_lease,
}
use agent_reliability_runtim.Messaging.Worker.{Execution, threw}
use agent_reliability_runtim.Evaluation.Regression.Summaries.{Timed}

-- What happens around a job.
pub record World : Type 0 where
  pub others : ℕ → Db → Db
  pub now : ℕ → Time
  pub epoch : ℕ → ℕ
  pub respond : ℕ → String → Fields → Fields → Execution
  pub elapsed : ℕ → ℕ
  pub elapsed_on_error : ℕ → ℕ

pub record ExecutorConfig : Type 0 where
  pub quotas : QuotaLimits
  pub regression_provider_call_budget : ℕ
  pub regression_max_cases : ℕ
  pub provider_max_output_tokens : ℕ

-- What `execute` reads from the policy snapshot and from the run, and its budget.
pub record Job : Type 0 where
  pub run_id : Uuid
  pub worker_id : String
  pub attempt_id : Uuid
  pub budget : ℕ

-- A committed charge, with the tables before and after it.
pub record Charge : Type 0 where
  pub turn : ℕ
  pub before : Db
  pub after : Db

-- `calls` of the class; the tables; the turns so far; the charges, the last one first; and the
-- provider calls made.
pub record Calls : Type 0 where
  pub calls : ℕ
  pub db : Db
  pub turn : ℕ
  pub charges : List Charge
  pub made : ℕ

-- `attempt is None or attempt.run_id != run_id or attempt.finished_at is not None`
unfoldable pub is_open_attempt : Job → Option RunAttempt → Bool
is_open_attempt job none = false
is_open_attempt job (some attempt) =
    attempt.run_id == job.run_id && not (is_some attempt.finished_at)

-- The transaction of a call, on the tables that it finds.
unfoldable pub charge : ExecutorConfig → Job → Time → ℕ → Db → Result Db
charge config job now epoch db =
    if not (is_open_attempt job (find_attempt job.attempt_id db))
    then raise runtime_error
    else elim (find_run job.run_id db) [
      | none ↦ raise runtime_error
      | some active ↦
          if owns_active_lease active job.worker_id now
          then charge_provider_call epoch (or_default active.principal_id active.client_id)
              active.client_id config.quotas db
          else raise runtime_error
    ]

-- The class of an exception, as a worker tells it apart.
unfoldable pub exception_of : Error → ProviderException
exception_of quota_exceeded = quota_exceeded_error
exception_of _ = other_error none

-- `min(policy_snapshot.get("max_output_tokens", most), most)`; `none` where that is a `TypeError`.
unfoldable pub output_tokens : ℕ → Option Json → Option Json
output_tokens most none = some (int (pos most))
output_tokens most (some (int (pos n))) = some (int (pos (if ltb most n then most else n)))
output_tokens most (some (int (negsuc n))) = some (int (negsuc n))
output_tokens most (some (boolean b)) = some (if most == 0 && b then int (pos 0) else boolean b)
output_tokens most (some (float (finite (pos n)))) =
    some (if ltb (most * 1_000_000) n then int (pos most) else float (finite (pos n)))
output_tokens most (some (float (finite (negsuc n)))) = some (float (finite (negsuc n)))
output_tokens most (some (float infinite)) = some (int (pos most))
output_tokens most (some (float nan)) = some (float nan)
output_tokens most (some _) = none

unfoldable pub timed : World → ℕ → Execution → Timed
timed world turn ended = record {
  execution = ended;
  latency_ms = world.elapsed turn;
  latency_on_error = world.elapsed_on_error turn;
}

module _ (world : World) (config : ExecutorConfig) (job : Job) where
  -- The provider's part of a call that has been charged.
  unfoldable pub call_provider : Calls → String → Fields → Fields → Timed × Calls
  call_provider s provider input_payload policy_snapshot =
      elim (output_tokens config.provider_max_output_tokens
        (get "max_output_tokens" policy_snapshot)) [
          | none ↦ (timed world s.turn (threw (other_error none)), record s { turn = suc s.turn })
          | some tokens ↦ (
            timed world s.turn (
                world.respond s.turn provider input_payload
                  (put "max_output_tokens" tokens policy_snapshot)),
            record s { turn = suc s.turn; made = suc s.made },
          )
        ]

  -- `ChargedExecutor.execute`
  unfoldable pub charged_execute : Calls → String → Fields → Fields → Timed × Calls
  charged_execute s provider input_payload policy_snapshot =
      if leb job.budget s.calls
      then (timed world s.turn (threw quota_exceeded_error), record s { turn = suc s.turn })
      else (let before = world.others s.turn s.db in
          elim (charge config job (world.now s.turn) (world.epoch s.turn) before) [
            | raise e ↦ (
              timed world s.turn (threw (exception_of e)),
              record s { db = before; turn = suc s.turn },
            )
            | ok after ↦
                call_provider
                  (record s {
                    calls = suc s.calls;
                    db = after;
                    charges = record { turn = s.turn; before = before; after = after } ∷ s.charges;
                  })
                  provider input_payload policy_snapshot
          ])

unfoldable pub start : Db → Calls
start db = record { calls = 0; db = db; turn = 0; charges = []; made = 0 }
