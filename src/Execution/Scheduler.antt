-- ===== src/Execution/Scheduler.antt =====
-- `recover_expired_leases` and `schedule_due_retries`: the two passes of the scheduler process.
pub mod Batches
pub mod Orders
use agent_reliability_runtim.Prelude.{
  ℕ, ◌+◌, ◌*◌, Bool, true, false, not, ◌&&◌, Option, none, some, List, [], ◌∷◌, map, length, take,
  leb, ltb, where_rows, if◌then◌else◌,
}
use agent_reliability_runtim.Prelude.Result.{Result, ok, ◌>>=◌}
use agent_reliability_runtim.Domain.States.{queued, running, retry_scheduled, same_status}
use agent_reliability_runtim.Domain.Retry.{ExecutionErrorCode, value, execution_lease_expired}
use agent_reliability_runtim.Store.{
  Uuid, Time, Run, RunAttempt, RunFact, run_retry_queued, Delivery, retry_due, Db, Env, add_event,
  add_outbox,
}
use agent_reliability_runtim.Execution.Common.{
  find_run, put_run, put_attempt, latest_open_attempt, finish_failed_attempt,
}
use agent_reliability_runtim.Execution.Finish.{schedule_retry_or_finalize}

-- `column IS NOT NULL AND column <= now`
unfoldable pub is_due : Option Time → Time → Bool
is_due none now = false
is_due (some t) now = leb t now

-- A row with no value sorts last; none is selected here.
pub time_le : Option Time → Option Time → Bool
time_le (some a) (some b) = leb a b
time_le (some a) none = true
time_le none (some b) = false
time_le none none = true

-- `ORDER BY column ASC`
insert_by : (Run → Option Time) → Run → List Run → List Run
unfolding time_le
insert_by column r [] = r ∷ []
insert_by column r (x ∷ xs) =
    if time_le (column r) (column x) then r ∷ x ∷ xs else x ∷ insert_by column r xs

unfoldable pub order_by : (Run → Option Time) → List Run → List Run
unfolding insert_by
order_by column [] = []
order_by column (x ∷ xs) = insert_by column x (order_by column xs)

-- `WHERE test ORDER BY column LIMIT batch_size FOR UPDATE SKIP LOCKED`
unfoldable pub select_batch : Env → (Run → Bool) → (Run → Option Time) → ℕ → Db → List Run
select_batch env test column batch_size db =
    take batch_size
      (order_by column (where_rows (λ run. test run && not (env.locked run.id)) db.runs))

unfoldable pub has_expired : Env → Run → Bool
has_expired env run =
    same_status run.execution_status running && is_due run.execution_lease_expires_at env.now

-- The identifiers that the next round of a loop draws.
unfoldable pub next_round : Env → Env
next_round env = record env { uuid = λ n. env.uuid (n + 16) }

-- One round of the loop: the attempt's end, and the run's next state. The session's object is
-- the current row.
unfoldable pub recover_one : Env → Uuid → Db → Result Db
recover_one env run_id db = elim (find_run run_id db) [
  | none ↦ ok db
  | some run ↦ elim (latest_open_attempt run.id db) [
    | none ↦ ok db
    | some attempt ↦
        let attempt' = finish_failed_attempt attempt env.now (value execution_lease_expired) in
        schedule_retry_or_finalize env (value execution_lease_expired) true run attempt'
          (put_attempt attempt' db)
  ]
]

unfoldable pub recover_all : Env → List Run → Db → Result Db
recover_all env [] db = ok db
recover_all env (run ∷ runs) db =
    recover_one env run.id db >>= λ db'. recover_all (next_round env) runs db'

unfoldable pub recover_expired_leases : Env → ℕ → Db → Result (ℕ × Db)
recover_expired_leases env batch_size db =
    let runs =
      select_batch env (has_expired env) (λ run. run.execution_lease_expires_at) batch_size db in
    recover_all env runs db >>= λ db'. ok (length runs, db')

unfoldable pub retry_is_due : Env → Run → Bool
retry_is_due env run =
    same_status run.execution_status retry_scheduled && is_due run.next_attempt_at env.now

unfoldable pub requeue : Run → Run
requeue run = record run { execution_status = queued; next_attempt_at = none }

unfoldable pub queue_again : Env → Run → Db → Db
queue_again env run db = add_event env 1 run.id none (run_retry_queued env.now) (
    add_outbox env 0 run.id (Delivery.run_queued retry_due) run.trace_context
      (put_run (requeue run) db))

unfoldable pub schedule_one : Env → Uuid → Db → Db
schedule_one env run_id db = elim (find_run run_id db) [
  | none ↦ db
  | some run ↦ queue_again env run db
]

unfoldable pub schedule_all : Env → List Run → Db → Db
schedule_all env [] db = db
schedule_all env (run ∷ runs) db = schedule_all (next_round env) runs (schedule_one env run.id db)

unfoldable pub schedule_due_retries : Env → ℕ → Db → ℕ × Db
schedule_due_retries env batch_size db =
    let runs = select_batch env (retry_is_due env) (λ run. run.next_attempt_at) batch_size db in
    (length runs, schedule_all env runs db)
