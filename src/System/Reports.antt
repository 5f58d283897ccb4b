-- ===== src/System/Reports.antt =====
-- What `complete_success` and `complete_failure` promise on the tables, told apart from the functions
-- that model them (src/agent_runtime/infrastructure/database/execution_service.py).
use agent_reliability_runtim.Prelude.{
  ℕ, ◌+◌, ◌-◌, ◌*◌, ◌^◌, ◌≤◌, ◌<◌, min, max, String, ◌≡◌, Bool, true, false, none, some, List, [],
  ◌∷◌, ◌++◌,
}
use agent_reliability_runtim.Prelude.Result.{ok}
use agent_reliability_runtim.Domain.States.{
  EvaluationStatus, running, retry_scheduled, succeeded, failed, dead_lettered,
}
use agent_reliability_runtim.Domain.Retry.{RetryPolicy, second, from_snapshot, is_retryable_error}
use agent_reliability_runtim.Store.{
  Uuid, Time, Run, RunAttempt, Outcome, RunFact, run_retry_scheduled, run_failed, RunEvent,
  Delivery, OutboxEvent, Db, Env,
}
use agent_reliability_runtim.Execution.Common.{find_run, find_attempt, latency}
use agent_reliability_runtim.Execution.Frames.{with_evaluation}
use agent_reliability_runtim.Execution.Finish.{ExecutionResult}

-- The worker owns the active lease of the run, and the attempt is the run's and open.
pub record MayEnd (env : Env) (run_id attempt_id : Uuid) (worker_id : String) (db : Db) (run : Run)
    (attempt : RunAttempt) : Type 0 where
  pub run_found : find_run run_id db ≡ some run
  pub attempt_found : find_attempt attempt_id db ≡ some attempt
  pub held : run.execution_status ≡ running
  pub owner : run.execution_lease_owner ≡ some worker_id
  pub expiry : Time
  pub leased : run.execution_lease_expires_at ≡ some expiry
  pub active : env.now < expiry
  pub of_run : attempt.run_id ≡ run.id
  pub was_open : attempt.finished_at ≡ none

-- The rows of one report: the run, but for the summary of its evaluations, its attempt, the event that
-- is added first, and the deliveries that are added.
pub record Written (env : Env) (ended : Run) (after : RunAttempt) (fact : RunFact)
    (sent : List OutboxEvent) (db db' : Db) : Type 0 where
  pub status : EvaluationStatus
  pub row : find_run ended.id db' ≡ some (with_evaluation status ended)
  pub try : find_attempt after.id db' ≡ some after
  pub later : List RunEvent
  pub noted :
      db'.events
      ≡ db.events
        ++ record {
          id = env.uuid 1;
          run_id = ended.id;
          attempt_id = some after.id;
          fact = fact;
          created_at = env.server_now;
        }
          ∷ later
  pub posted : db'.outbox ≡ db.outbox ++ sent

abbrev pub succeeded_row : Env → ExecutionResult → Run → Run
succeeded_row env result run = record run {
  execution_status = succeeded;
  result_payload = some result.result_payload;
  error_code = none;
  completed_at = some env.now;
  execution_lease_owner = none;
  execution_lease_expires_at = none;
  next_attempt_at = none;
}

abbrev pub succeeded_try : Env → ExecutionResult → RunAttempt → RunAttempt
succeeded_try env result a = record a {
  provider = result.provider;
  usage_metadata = result.usage_metadata;
  finished_at = some env.now;
  outcome = some Outcome.succeeded;
  latency_ms = some (latency env.now a.started_at);
}

abbrev pub failed_try : Env → String → RunAttempt → RunAttempt
failed_try env error_code a = record a {
  finished_at = some env.now;
  outcome = some Outcome.failed;
  error_code = some error_code;
  retryable = some (is_retryable_error error_code);
  latency_ms = some (latency env.now a.started_at);
}

-- The exponential backoff, at least a second and at most what the policy allows.
abbrev pub backoff : RetryPolicy → ℕ → ℕ
backoff p n = max second (min p.max_backoff (p.initial_backoff * 2 ^ min (n - 1) 20))

-- The row of the run after a failure, the fact of its event, and what is sent.
pub data FailureOf (env : Env) (error_code : String) (recovery : Bool) (p : RetryPolicy) (run : Run)
    (a : RunAttempt) : Run → RunFact → List OutboxEvent → Type 0 where
  is_retried :
      is_retryable_error error_code ≡ true
      → a.attempt_number < p.max_attempts
      → FailureOf env error_code recovery p run a
          (record run {
            execution_status = retry_scheduled;
            error_code = some error_code;
            execution_lease_owner = none;
            execution_lease_expires_at = none;
            next_attempt_at = some (env.now + backoff p a.attempt_number);
          })
          (run_retry_scheduled error_code a.attempt_number
            (env.now + backoff p a.attempt_number)
            (backoff p a.attempt_number)
            recovery)
          []
  is_exhausted :
      is_retryable_error error_code ≡ true
      → p.max_attempts ≤ a.attempt_number
      → FailureOf env error_code recovery p run a
          (record run {
            execution_status = dead_lettered;
            error_code = some error_code;
            completed_at = some env.now;
            execution_lease_owner = none;
            execution_lease_expires_at = none;
            next_attempt_at = none;
          })
          (RunFact.run_dead_lettered error_code a.attempt_number p.max_attempts recovery)
          (record {
            id = env.uuid 2;
            aggregate_id = run.id;
            delivery = Delivery.run_dead_lettered error_code;
            trace_context = run.trace_context;
            created_at = env.server_now;
            published_at = none;
            publish_attempts = 0;
            last_error = none;
          }
            ∷ [])
  is_final :
      is_retryable_error error_code ≡ false
      → FailureOf env error_code recovery p run a
          (record run {
            execution_status = failed;
            error_code = some error_code;
            completed_at = some env.now;
            execution_lease_owner = none;
            execution_lease_expires_at = none;
            next_attempt_at = none;
          })
          (run_failed error_code recovery)
          []

-- A failure that is written: the policy is the stored one.
pub record Failed (env : Env) (error_code : String) (recovery : Bool) (run : Run) (a : RunAttempt)
    (db db' : Db) : Type 0 where
  pub policy : RetryPolicy
  pub stored : from_snapshot run.policy_snapshot ≡ ok policy
  pub ended : Run
  pub fact : RunFact
  pub sent : List OutboxEvent
  pub ending : FailureOf env error_code recovery policy run a ended fact sent
  pub written : Written env ended (failed_try env error_code a) fact sent db db'
