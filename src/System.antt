-- ===== src/System.antt =====
-- The system as a whole: any interleaving of committed transactions of the API, the workers and the
-- scheduler over one database, each with its own clock and identifiers.
pub mod Marks
pub mod Change
pub mod Judgements
pub mod Admissions
pub mod Steps
pub mod Limits
pub mod Keeps
pub mod Invariant
pub mod Turns
pub mod Keys
pub mod Traces
pub mod Passes
pub mod Rows
pub mod Jobs
pub mod Progress
pub mod Recoveries
pub mod Requeues
pub mod Reports
pub mod Written
pub mod Failures
pub mod Reported
pub mod Lookups
pub mod Accounts
pub mod Ledger
pub mod Attempts
use agent_reliability_runtim.Prelude
use agent_reliability_runtim.Prelude.{ℕ, String, ◌≡◌, Bool, false, Option, none, some, List, []}
use agent_reliability_runtim.Prelude.Result.{ok}
use agent_reliability_runtim.Json.{Json, Fields}
use agent_reliability_runtim.Domain.States.{running, retry_scheduled}
use agent_reliability_runtim.Store.{Uuid, Run, Evaluation, Db, Env}
use agent_reliability_runtim.Quotas.{charge_provider_call}
use agent_reliability_runtim.Execution.Common.{
  ExecutionConfig, find_run, find_attempt, is_evaluation,
}
use agent_reliability_runtim.Execution.Claim.{ClaimResult, claim}
use agent_reliability_runtim.Execution.Finish.{ExecutionResult, complete_success, complete_failure}
use agent_reliability_runtim.Execution.Scheduler.{recover_one, schedule_one}
use agent_reliability_runtim.Runs.{RunSnapshot, get_run_for_client, ApiEnv, Request, submit}
use agent_reliability_runtim.Runs.Replay.{replay}
use agent_reliability_runtim.Runs.History.{EvaluationSnapshot}
use agent_reliability_runtim.Runs.Evaluate.{evaluate}

-- A row of `run_evaluations` by its primary key.
unfoldable pub find_evaluation : Uuid → Db → Option Evaluation
find_evaluation id db = Prelude.find (λ (e : Evaluation). e.id) id db.evaluations

-- What every process is started with.
pub record Deployment : Type 0 where
  pub config : ExecutionConfig
  pub digest : Json → String
  pub uuid_text : Uuid → String

-- One committed change. A pass of the scheduler is a step for each of its rounds. A primary key is
-- new when its row is inserted, as the database demands. The API submits executions and regressions;
-- evaluation jobs come from `evaluate`.
pub data Step (d : Deployment) (db db' : Db) : Type 0 where
  submits :
      (api : ApiEnv) (r : Request) (answer : RunSnapshot × Bool)
      → find_run (api.env.uuid 0) db ≡ none
      → is_evaluation r.work_kind ≡ false
      → submit d.digest d.config.quotas api r db ≡ ok (answer, db')
      → Step d db db'
  replays :
      (api : ApiEnv) (client_id : String) (run_id : Uuid) (key : String)
      (principal_id : Option String) (answer : RunSnapshot × Bool)
      → find_run (api.env.uuid 0) db ≡ none
      → replay d.digest d.uuid_text d.config.quotas api client_id run_id key principal_id db
        ≡ ok (answer, db')
      → Step d db db'
  evaluates :
      (check_schema : Json → Bool) (job_timeout : ℕ) (api : ApiEnv) (client_id : String)
      (run_id : Uuid) (rules : List Fields) (principal_id : Option String)
      (answer : EvaluationSnapshot) (source : Run)
      → find_run (api.env.uuid 0) db ≡ none
      → get_run_for_client client_id run_id db ≡ ok source
      → find_run run_id db ≡ some source
      → find_evaluation (api.env.uuid 1) db ≡ none
      → evaluate d.digest d.uuid_text check_schema d.config.quotas job_timeout api client_id run_id
          rules principal_id db
        ≡ ok (answer, db')
      → Step d db db'
  claims :
      (env : Env) (run_id : Uuid) (worker_id : String) (res : ClaimResult)
      → find_attempt (env.uuid 0) db ≡ none
      → claim d.config env run_id worker_id db ≡ ok (res, db')
      → Step d db db'
  succeeds :
      (env : Env) (run_id attempt_id : Uuid) (worker_id : String) (result : ExecutionResult)
      (b : Bool)
      → complete_success env run_id attempt_id worker_id result db ≡ ok (b, db')
      → Step d db db'
  fails :
      (env : Env) (run_id attempt_id : Uuid) (worker_id error_code : String) (b : Bool)
      → complete_failure env run_id attempt_id worker_id error_code db ≡ ok (b, db')
      → Step d db db'
  recovers :
      (env : Env) (run_id : Uuid) (run : Run)
      → find_run run_id db ≡ some run
      → run.execution_status ≡ running
      → recover_one env run_id db ≡ ok db'
      → Step d db db'
  requeues :
      (env : Env) (run_id : Uuid) (run : Run)
      → find_run run_id db ≡ some run
      → run.execution_status ≡ retry_scheduled
      → schedule_one env run_id db ≡ db'
      → Step d db db'
  charges :
      (now : ℕ) (principal_id tenant_id : String)
      → charge_provider_call now principal_id tenant_id d.config.quotas db ≡ ok db'
      → Step d db db'

pub data Reach (d : Deployment) (start : Db) : Db → Type 0 where
  here : Reach d start start
  next : {mid last : Db} → Reach d start mid → Step d mid last → Reach d start last

-- A database after the migrations.
abbrev pub empty : Db
empty = record { runs = []; attempts = []; events = []; outbox = []; evaluations = []; quotas = [] }
