-- ===== src/Lifecycle/Completions.antt =====
-- What `complete_success` and `complete_failure` do to the table of runs: nothing, reported by
-- `False`, or one move of a run that the worker holds.
use agent_reliability_runtim.Prelude.{Memᴰ}
use agent_reliability_runtim.Prelude.{
  String, ◌≡◌, refl, Bool, true, false, ◌⊎◌, some, arith, inl, inr,
}
use agent_reliability_runtim.Prelude.Result.{ok, >>=-eq-ok}
use agent_reliability_runtim.Domain.States.{running}
use agent_reliability_runtim.Store.{Uuid, Time, Run, RunAttempt, Db, Env}
use agent_reliability_runtim.Execution.Common.{
  ExecutionConfig, is_some_time, find_run, put_attempt, finish_failed_attempt,
}
use agent_reliability_runtim.Execution.Openings.{find_attempt-Mem}
use agent_reliability_runtim.Execution.Finish.{
  ExecutionResult, is_closed_to, succeed_attempt, write_success, complete_success,
  schedule_retry_or_finalize, write_failure, complete_failure,
}
use agent_reliability_runtim.Lifecycle.Tries.{Closing}
use agent_reliability_runtim.Lifecycle.Endings.{
  Moved, owned-running, schedule_retry_or_finalize-Moved, with_lease_cases, write_success-Moved,
}

module _ (run : Run) (attempt : RunAttempt) (db : Db) (stored : Memᴰ attempt db.attempts) where
  Closing-success :
      (env : Env) (result : ExecutionResult)
      → is_closed_to run attempt ≡ false
      → Closing run db (succeed_attempt env result attempt)
  unfolding is_closed_to succeed_attempt is_some_time
  Closing-success env result fresh = record {
    before = attempt;
    stored = stored;
    of_run = ground arith;
    was_open = ground arith;
    same_id = refl;
    same_run = refl;
    same_number = refl;
    is_closed = refl;
  }

  pub Closing-failure :
      (now : Time) (error_code : String)
      → attempt.run_id ≡ run.id
      → is_some_time attempt.finished_at ≡ false
      → Closing run db (finish_failed_attempt attempt now error_code)
  unfolding finish_failed_attempt is_some_time
  Closing-failure now error_code mine fresh = record {
    before = attempt;
    stored = stored;
    of_run = mine;
    was_open = fresh;
    same_id = refl;
    same_run = refl;
    same_number = refl;
    is_closed = refl;
  }

is_closed_to-open :
    (run : Run) (attempt : RunAttempt)
    → is_closed_to run attempt ≡ false
    → (attempt.run_id ≡ run.id) × (is_some_time attempt.finished_at ≡ false)
unfolding is_closed_to
is_closed_to-open run attempt h = ground arith

module _ (cfg : ExecutionConfig) (env : Env) (run_id attempt_id : Uuid) (worker_id : String)
    (db : Db) where
  write_failure-Moved :
      (error_code : String) (run : Run) (attempt : RunAttempt) (b : Bool) (db' : Db)
      → find_run run_id db ≡ some run
      → run.execution_status ≡ running
      → Memᴰ attempt db.attempts
      → is_closed_to run attempt ≡ false
      → write_failure env error_code run attempt db ≡ ok (b, db')
      → (b ≡ true) × Moved cfg run_id db db'
  unfolding write_failure
  write_failure-Moved error_code run attempt b db' found held stored fresh h =
      let failed = finish_failed_attempt attempt env.now error_code in
      let (db₁, ended, same) =
        >>=-eq-ok
          (schedule_retry_or_finalize env error_code false run failed (put_attempt failed db)) _
          h in
      let last : db₁ ≡ db' = ground arith in
      (
        ground arith,
        schedule_retry_or_finalize-Moved cfg env run_id run failed db found held
            (let (mine, idle) = is_closed_to-open run attempt fresh in
              Closing-failure run attempt db stored env.now error_code mine idle)
            error_code false db' (rw last at ended),
      )

  -- A success is reported with False and nothing written, or with True and one move of the run off
  -- RUNNING.
  pub complete_success-Moved :
      (result : ExecutionResult) (b : Bool) (db' : Db)
      → complete_success env run_id attempt_id worker_id result db ≡ ok (b, db')
      → ((b ≡ false) × (db' ≡ db)) ⊎ ((b ≡ true) × Moved cfg run_id db db')
  unfolding complete_success
  complete_success-Moved result b db' h =
      elim (with_lease_cases env run_id attempt_id worker_id (write_success env result) db b db'
        h) [
          | inl refused ↦ inl refused
          | inr (g, written) ↦ inr (
              write_success-Moved cfg env run_id g.run (succeed_attempt env result g.attempt) db
                g.run_found (owned-running g.run env worker_id g.owned)
                (Closing-success g.run g.attempt db
                  (find_attempt-Mem attempt_id db g.attempt g.attempt_found) env result g.is_open)
                result g.attempt b db' refl written)
        ]

  -- A failure is reported with False and nothing written, or with True and one move of the run off
  -- RUNNING.
  pub complete_failure-Moved :
      (error_code : String) (b : Bool) (db' : Db)
      → complete_failure env run_id attempt_id worker_id error_code db ≡ ok (b, db')
      → ((b ≡ false) × (db' ≡ db)) ⊎ ((b ≡ true) × Moved cfg run_id db db')
  unfolding complete_failure
  complete_failure-Moved error_code b db' h =
      elim (with_lease_cases env run_id attempt_id worker_id (write_failure env error_code) db b db'
        h) [
          | inl refused ↦ inl refused
          | inr (g, written) ↦ inr (
              write_failure-Moved error_code g.run g.attempt b db' g.run_found
                (owned-running g.run env worker_id g.owned)
                (find_attempt-Mem attempt_id db g.attempt g.attempt_found) g.is_open written)
        ]
