-- ===== src/Execution/Finish.antt =====
-- `complete_success`, `complete_failure` and `_schedule_retry_or_finalize`.
use agent_reliability_runtim.Prelude.{
  ℕ, ◌+◌, String, Bool, true, false, not, ◌&&◌, ◌||◌, Option, none, some, ltb, ◌==◌, if◌then◌else◌,
}
use agent_reliability_runtim.Prelude.Result.{Result, ok, ◌>>=◌, ◌>>◌}
use agent_reliability_runtim.Json.{Fields}
use agent_reliability_runtim.Domain.States.{retry_scheduled, succeeded, failed, dead_lettered}
use agent_reliability_runtim.Domain.Retry.{from_snapshot, delay_after_attempt}
use agent_reliability_runtim.Store.{
  Uuid, Run, RunAttempt, Outcome, RunFact, run_succeeded, run_retry_scheduled, run_failed, Delivery,
  Db, Env, add_event, add_outbox,
}
use agent_reliability_runtim.Execution.Common.{
  is_some_time, find_run, put_run, find_attempt, put_attempt, owns_active_lease, clear_lease,
  latency, finish_failed_attempt, finalize_evaluation_job, flushed, check_calendar,
}

pub record ExecutionResult : Type 0 where
  pub provider : String
  pub result_payload : Fields
  pub usage_metadata : Option Fields

-- `attempt.run_id != run.id or attempt.finished_at is not None`
unfoldable pub is_closed_to : Run → RunAttempt → Bool
is_closed_to run attempt = not (attempt.run_id == run.id) || is_some_time attempt.finished_at

unfoldable pub succeed_attempt : Env → ExecutionResult → RunAttempt → RunAttempt
succeed_attempt env result attempt = record attempt {
  provider = result.provider;
  usage_metadata = result.usage_metadata;
  finished_at = some env.now;
  outcome = some Outcome.succeeded;
  latency_ms = some (latency env.now attempt.started_at);
}

unfoldable pub succeed_run : Env → ExecutionResult → Run → Run
unfolding clear_lease
succeed_run env result run = record (clear_lease run) {
  execution_status = succeeded;
  result_payload = some result.result_payload;
  completed_at = some env.now;
  error_code = none;
  next_attempt_at = none;
}

unfoldable pub write_success : Env → ExecutionResult → Run → RunAttempt → Db → Result (Bool × Db)
write_success env result run attempt db =
    finalize_evaluation_job env (succeed_run env result run) (
      add_event env 1 run.id (some attempt.id) (run_succeeded result.provider) (
        put_run (succeed_run env result run) (put_attempt (succeed_attempt env result attempt) db)))
    >>= λ db'. ok (true, db')

-- The guards that both completions share; `write` runs on the locked run and attempt.
unfoldable pub with_lease :
    Env
    → Uuid
    → Uuid
    → String
    → (Run → RunAttempt → Db → Result (Bool × Db))
    → Db
    → Result (Bool × Db)
with_lease env run_id attempt_id worker_id write db = elim (find_run run_id db) [
  | none ↦ ok (false, db)
  | some run ↦
      if not (owns_active_lease run worker_id env.now)
      then ok (false, db)
      else elim (find_attempt attempt_id db) [
        | none ↦ ok (false, db)
        | some attempt ↦ if is_closed_to run attempt then ok (false, db) else write run attempt db
      ]
]

unfoldable pub complete_success :
    Env → Uuid → Uuid → String → ExecutionResult → Db → Result (Bool × Db)
complete_success env run_id attempt_id worker_id result db =
    with_lease env run_id attempt_id worker_id (write_success env result) db

-- The run without its lease, with the error that ended the attempt.
unfoldable pub released : String → Run → Run
unfolding clear_lease
released error_code run = record (clear_lease run) { error_code = some error_code }

unfoldable pub retrying : Env → String → ℕ → Run → Run
unfolding released
retrying env error_code delay run = record (released error_code run) {
  execution_status = retry_scheduled;
  next_attempt_at = some (env.now + delay);
}

unfoldable pub retry_later : Env → String → Bool → Run → RunAttempt → ℕ → Db → Db
retry_later env error_code recovery run attempt delay db =
    add_event env 1 run.id (some attempt.id)
      (run_retry_scheduled error_code attempt.attempt_number (env.now + delay) delay recovery)
      (put_run (retrying env error_code delay run) db)

unfoldable pub exhausted : Env → String → Run → Run
unfolding released
exhausted env error_code run = record (released error_code run) {
  execution_status = dead_lettered;
  next_attempt_at = none;
  completed_at = some env.now;
}

unfoldable pub dead_letter : Env → String → Bool → ℕ → Run → RunAttempt → Db → Result Db
dead_letter env error_code recovery max_attempts run attempt db =
    finalize_evaluation_job env (exhausted env error_code run) (
      add_event env 1 run.id (some attempt.id)
        (RunFact.run_dead_lettered error_code attempt.attempt_number max_attempts recovery)
        (add_outbox env 2 run.id (Delivery.run_dead_lettered error_code) run.trace_context
          (put_run (exhausted env error_code run) db)))

unfoldable pub broken_off : Env → String → Run → Run
unfolding released
broken_off env error_code run = record (released error_code run) {
  execution_status = failed;
  next_attempt_at = none;
  completed_at = some env.now;
}

unfoldable pub fail_run : Env → String → Bool → Run → RunAttempt → Db → Result Db
fail_run env error_code recovery run attempt db =
    finalize_evaluation_job env (broken_off env error_code run) (
      add_event env 1 run.id (some attempt.id) (run_failed error_code recovery)
        (put_run (broken_off env error_code run) db))

-- `bool(attempt.retryable)`
unfoldable pub is_true : Option Bool → Bool
is_true none = false
is_true (some b) = b

-- `_schedule_retry_or_finalize`, on the attempt as `_finish_failed_attempt` left it.
unfoldable pub schedule_retry_or_finalize : Env → String → Bool → Run → RunAttempt → Db → Result Db
schedule_retry_or_finalize env error_code recovery run attempt db =
    from_snapshot run.policy_snapshot >>= λ policy.
    if is_true attempt.retryable && ltb attempt.attempt_number policy.max_attempts
    then (delay_after_attempt policy attempt.attempt_number >>= λ delay.
        check_calendar (env.now + delay)
        >> flushed attempt (retry_later env error_code recovery run attempt delay db))
    else (flushed attempt db >>= λ db'.
        if is_true attempt.retryable
        then dead_letter env error_code recovery policy.max_attempts run attempt db'
        else fail_run env error_code recovery run attempt db')

unfoldable pub write_failure : Env → String → Run → RunAttempt → Db → Result (Bool × Db)
write_failure env error_code run attempt db =
    let attempt' = finish_failed_attempt attempt env.now error_code in
    schedule_retry_or_finalize env error_code false run attempt' (put_attempt attempt' db)
    >>= λ db'. ok (true, db')

unfoldable pub complete_failure : Env → Uuid → Uuid → String → String → Db → Result (Bool × Db)
complete_failure env run_id attempt_id worker_id error_code db =
    with_lease env run_id attempt_id worker_id (write_failure env error_code) db
