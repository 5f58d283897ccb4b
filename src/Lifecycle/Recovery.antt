-- ===== src/Lifecycle/Recovery.antt =====
-- What one round of the scheduler's two passes does to the table of runs.
use agent_reliability_runtim.Prelude.{
  ◌≡◌, refl, sym, subst, true, ◌⊎◌, some, arith, inl, inr, Option-cases,
}
use agent_reliability_runtim.Prelude.Result.{ok}
use agent_reliability_runtim.Domain.States.{running, retry_scheduled}
use agent_reliability_runtim.Domain.Retry.{value, execution_lease_expired}
use agent_reliability_runtim.Store.{Uuid, Run, RunAttempt, Db, Env, add_event, add_outbox}
use agent_reliability_runtim.Execution.Common.{
  ExecutionConfig, find_run, put_run, latest_open_attempt, finish_failed_attempt,
}
use agent_reliability_runtim.Execution.Frames.{find_run-id}
use agent_reliability_runtim.Execution.Openings.{latest_open_attempt-Mem}
use agent_reliability_runtim.Execution.Scheduler.{recover_one, requeue, queue_again, schedule_one}
use agent_reliability_runtim.Lifecycle.{enqueue}
use agent_reliability_runtim.Lifecycle.Tries.{untouched}
use agent_reliability_runtim.Lifecycle.Posts.{Posts-sent}
use agent_reliability_runtim.Lifecycle.Writes.{plain}
use agent_reliability_runtim.Lifecycle.Endings.{Moved, schedule_retry_or_finalize-Moved}
use agent_reliability_runtim.Lifecycle.Completions.{Closing-failure}

-- A round on a running run with an open attempt makes one move of that run.
pub recover_one-Moved_open :
    (cfg : ExecutionConfig) (env : Env) (run_id : Uuid) (run : Run) (attempt : RunAttempt)
    (db db' : Db)
    → find_run run_id db ≡ some run
    → run.execution_status ≡ running
    → latest_open_attempt run.id db ≡ some attempt
    → recover_one env run_id db ≡ ok db'
    → Moved cfg run_id db db'
unfolding recover_one
recover_one-Moved_open cfg env run_id run attempt db db' found held at h =
    let (stored, mine, idle) = latest_open_attempt-Mem run.id db attempt at in
    schedule_retry_or_finalize-Moved cfg env run_id run
      (finish_failed_attempt attempt env.now (value execution_lease_expired)) db found held
      (Closing-failure run attempt db stored env.now (value execution_lease_expired) mine idle)
      (value execution_lease_expired) true db' (ground arith)

-- A round on a run that is running changes nothing, or makes one move of that run.
pub recover_one-Moved :
    (cfg : ExecutionConfig) (env : Env) (run_id : Uuid) (run : Run) (db db' : Db)
    → find_run run_id db ≡ some run
    → run.execution_status ≡ running
    → recover_one env run_id db ≡ ok db'
    → (db' ≡ db) ⊎ Moved cfg run_id db db'
unfolding recover_one
recover_one-Moved cfg env run_id run db db' found held h =
    elim (Option-cases (latest_open_attempt run.id db)) [
      | inl idle ↦ inl (ground arith)
      | inr (attempt, at) ↦
          inr (recover_one-Moved_open cfg env run_id run attempt db db' found held at h)
    ]

queue_again-Moved :
    (cfg : ExecutionConfig) (env : Env) (run_id : Uuid) (run : Run) (db : Db)
    → find_run run_id db ≡ some run
    → run.execution_status ≡ retry_scheduled
    → Moved cfg run_id db (queue_again env run db)
unfolding queue_again add_event add_outbox put_run
queue_again-Moved cfg env run_id run db found waits = record {
  old = run;
  new = requeue run;
  at = found;
  move = enqueue waits refl;
  writes = record {
    found = subst (λ k. find_run k db ≡ some run) (sym (find_run-id run_id db run found)) found;
    same_id = unfold requeue in refl;
    mid = queue_again env run db;
    written = refl;
    rows_kept = refl;
    finish = plain refl;
  };
  tries = untouched (λ e. cc (waits, e)) (unfold requeue in λ e. cc e) refl;
  posts =
      Posts-sent db (requeue run) (queue_again env run db) _ refl (unfold requeue in ground arith);
  not_leased = unfold requeue in λ e. cc e;
}

-- A round on a run that waits for its retry queues it again.
pub schedule_one-Moved :
    (cfg : ExecutionConfig) (env : Env) (run_id : Uuid) (run : Run) (db : Db)
    → find_run run_id db ≡ some run
    → run.execution_status ≡ retry_scheduled
    → Moved cfg run_id db (schedule_one env run_id db)
schedule_one-Moved cfg env run_id run db found waits =
    let taken : schedule_one env run_id db ≡ queue_again env run db =
      unfold schedule_one in rw (found, schedule_one) in
    rw taken (queue_again-Moved cfg env run_id run db found waits)
