-- ===== src/System/Change.antt =====
-- The change that a step makes to the tables of runs and attempts and to the outbox,
-- whatever the step: none, one move of one run with its attempt, or one queued run added at
-- the end, perhaps with a mark on the run that it judges.
use agent_reliability_runtim.Prelude.{◌≡◌, ◌<◌, false, none, some, [], ◌∷◌, ◌++◌}
use agent_reliability_runtim.Domain.States.{queued, running}
use agent_reliability_runtim.Store.{Run, Evaluation, Db}
use agent_reliability_runtim.System.{find_evaluation}
use agent_reliability_runtim.Quotas.{count_principal_active, count_tenant_active}
use agent_reliability_runtim.Execution.Common.{ExecutionConfig, or_default, find_run, is_evaluation}
use agent_reliability_runtim.Runs.{find_by_idempotency_key}
use agent_reliability_runtim.Lifecycle.{Moves}
use agent_reliability_runtim.Lifecycle.Writes.{Writes}
use agent_reliability_runtim.Lifecycle.Tries.{Tries}
use agent_reliability_runtim.Lifecycle.Posts.{Posts}
use agent_reliability_runtim.Lifecycle.Leases.{HasRoom}
use agent_reliability_runtim.Lifecycle.Rows.{IsConsistent}
use agent_reliability_runtim.System.Marks.{Marks}

-- A run that the quotas have admitted under an unused key.
pub record Admitted (cfg : ExecutionConfig) (db : Db) (run : Run) : Type 0 where
  pub waits : run.execution_status ≡ queued
  pub consistent : IsConsistent run
  pub fresh : find_run run.id db ≡ none
  pub unused : find_by_idempotency_key run.client_id run.idempotency_key db ≡ none
  pub named : run.principal_id ≡ some (or_default run.principal_id run.client_id)
  pub principal_room :
      count_principal_active (or_default run.principal_id run.client_id) db
      < cfg.quotas.principal_active
  pub tenant_room : count_tenant_active run.client_id db < cfg.quotas.tenant_active

-- An evaluation job comes with a row of its own, any other run without.
pub record OneRow (mid : Db) (job : Run) (db' : Db) : Type 0 where
  pub row : Evaluation
  pub of_job : row.job_run_id ≡ some job.id
  pub fresh : find_evaluation row.id mid ≡ none
  pub one_row : db'.evaluations ≡ mid.evaluations ++ row ∷ []

pub record NoRow (db : Db) (run : Run) (db' : Db) : Type 0 where
  pub not_judging : is_evaluation run.work_kind ≡ false
  pub rows_kept : db'.evaluations ≡ db.evaluations

pub data Change (cfg : ExecutionConfig) (db db' : Db) : Type 0 where
  same_runs :
      db'.runs ≡ db.runs
      → db'.attempts ≡ db.attempts
      → db'.outbox ≡ db.outbox
      → db'.evaluations ≡ db.evaluations
      → Change cfg db db'
  moved :
      (old new : Run)
      → Moves old new
      → Writes db old new db'
      → Tries cfg db old new db'
      → Posts db new db'
      → (new.execution_status ≡ running → HasRoom cfg old db)
      → Change cfg db db'
  judged :
      (mid : Db) (job : Run)
      → Marks db mid
      → Admitted cfg mid job
      → db'.runs ≡ mid.runs ++ job ∷ []
      → db'.attempts ≡ mid.attempts
      → Posts mid job db'
      → OneRow mid job db'
      → Change cfg db db'
  added :
      (run : Run)
      → Admitted cfg db run
      → db'.runs ≡ db.runs ++ run ∷ []
      → db'.attempts ≡ db.attempts
      → Posts db run db'
      → NoRow db run db'
      → Change cfg db db'
