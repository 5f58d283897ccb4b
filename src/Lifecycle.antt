-- ===== src/Lifecycle.antt =====
-- The lifecycle of a run as the services drive it, told apart from how they do it: which moves a
-- transaction makes on one row of the table of runs, and what such a row satisfies.
pub mod Writes
pub mod Tries
pub mod Posts
pub mod Leases
pub mod Claims
pub mod Endings
pub mod Completions
pub mod Recovery
pub mod Rows
use agent_reliability_runtim.Prelude.{
  ℕ, ◌+◌, String, ◌≡◌, Bool, true, false, not, ◌&&◌, ◌||◌, Option, none, some, is_some,
}
use agent_reliability_runtim.Domain.States.{
  ExecutionStatus, queued, running, retry_scheduled, succeeded, failed, dead_lettered,
}
use agent_reliability_runtim.Store.{Time, Run, Env}
use agent_reliability_runtim.Execution.Common.{ExecutionConfig}
use agent_reliability_runtim.Execution.Claim.{leased, postponed, rejected}
use agent_reliability_runtim.Execution.Finish.{
  ExecutionResult, succeed_run, retrying, exhausted, broken_off,
}
use agent_reliability_runtim.Execution.Scheduler.{requeue}

-- One transaction's change of one run: the status it starts from, and the row that it writes.
pub data Moves (old new : Run) : Type 0 where
  lease :
      (cfg : ExecutionConfig) (env : Env) (worker_id : String)
      → old.execution_status ≡ queued
      → new ≡ leased cfg env worker_id old
      → Moves old new
  postpone : (env : Env) → old.execution_status ≡ queued → new ≡ postponed env old → Moves old new
  reject : (env : Env) → old.execution_status ≡ queued → new ≡ rejected env old → Moves old new
  succeed :
      (env : Env) (result : ExecutionResult)
      → old.execution_status ≡ running
      → new ≡ succeed_run env result old
      → Moves old new
  retry :
      (env : Env) (error_code : String) (delay : ℕ)
      → old.execution_status ≡ running
      → new ≡ retrying env error_code delay old
      → Moves old new
  give_up :
      (env : Env) (error_code : String)
      → old.execution_status ≡ running
      → new ≡ exhausted env error_code old
      → Moves old new
  break_off :
      (env : Env) (error_code : String)
      → old.execution_status ≡ running
      → new ≡ broken_off env error_code old
      → Moves old new
  enqueue : old.execution_status ≡ retry_scheduled → new ≡ requeue old → Moves old new
