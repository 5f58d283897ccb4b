-- ===== src/Execution/Common.antt =====
-- What the methods of `ExecutionPersistenceService` share: locked reads, the lease, and the end of an
-- evaluation job. A row lock is a read, since transactions are taken one at a time.
use agent_reliability_runtim.Prelude
use agent_reliability_runtim.Prelude.{
  ℕ, ◌+◌, ◌-◌, ◌/◌, ◌^◌, max, String, Bool, true, false, not, ◌&&◌, ◌||◌, Option, none, some, List,
  [], ◌∷◌, ltb, leb, ◌==◌, str_eq, is_text, first_row, if◌then◌else◌,
}
use agent_reliability_runtim.Prelude.Result.{
  Result, ok, raise, runtime_error, overflow_error, data_error,
}
use agent_reliability_runtim.Json.{ℤ, pos, negsuc, str, Fields, end, get, put, truthy}
use agent_reliability_runtim.Domain.States.{
  running, succeeded, EvaluationStatus, passed, error, same_status,
}
use agent_reliability_runtim.Domain.Retry.{is_retryable_error}
use agent_reliability_runtim.Quotas.{QuotaLimits}
use agent_reliability_runtim.Store.{
  Uuid, Time, Run, WorkKind, execution, evaluation, regression, RunAttempt, Outcome, Evaluation,
  evaluation_changed, Db, Env, add_event,
}

-- The service's constructor arguments.
pub record ExecutionConfig : Type 0 where
  pub lease_seconds : ℕ
  pub quotas : QuotaLimits
  pub max_attempts : ℕ

-- `text or default`: an absent or an empty text yields the default.
unfoldable pub or_default : Option String → String → String
or_default none default = default
or_default (some String.[]) default = default
or_default (some (String.◌∷◌ c s)) default = String.◌∷◌ c s

-- `_locked_run`, and `session.get(Run, …)`
unfoldable pub find_run : Uuid → Db → Option Run
find_run id db = Prelude.find (λ (r : Run). r.id) id db.runs

unfoldable pub put_run : Run → Db → Db
put_run run db = record db { runs = Prelude.put (λ (r : Run). r.id) run db.runs }

-- `_locked_attempt`
unfoldable pub find_attempt : Uuid → Db → Option RunAttempt
find_attempt id db = Prelude.find (λ (a : RunAttempt). a.id) id db.attempts

unfoldable pub put_attempt : RunAttempt → Db → Db
put_attempt attempt db = record db {
  attempts = Prelude.put (λ (a : RunAttempt). a.id) attempt db.attempts;
}

unfoldable pub find_evaluation_of_job : Uuid → Db → Option Evaluation
find_evaluation_of_job job db =
    first_row (λ (e : Evaluation). elim e.job_run_id [ none ↦ false | some j ↦ j == job ])
      db.evaluations

unfoldable pub put_evaluation : Evaluation → Db → Db
put_evaluation e db = record db {
  evaluations = Prelude.put (λ (x : Evaluation). x.id) e db.evaluations;
}

unfoldable pub is_execution : WorkKind → Bool
is_execution execution = true
is_execution evaluation = false
is_execution regression = false

unfoldable pub is_evaluation : WorkKind → Bool
is_evaluation execution = false
is_evaluation evaluation = true
is_evaluation regression = false

-- `_next_attempt_number`
unfoldable pub latest_number : Uuid → List RunAttempt → ℕ
latest_number run_id [] = 0
latest_number run_id (a ∷ rest) =
    let latest = latest_number run_id rest in
    if a.run_id == run_id then max a.attempt_number latest else latest

unfoldable pub next_attempt_number : Uuid → Db → ℕ
next_attempt_number run_id db = latest_number run_id db.attempts + 1

unfoldable pub is_some_time : Option Time → Bool
is_some_time none = false
is_some_time (some _) = true

-- The attempt with the greater number; the first one read where two are equal.
unfoldable pub later_attempt : RunAttempt → Option RunAttempt → RunAttempt
later_attempt a none = a
later_attempt a (some b) = if ltb a.attempt_number b.attempt_number then b else a

unfoldable pub open_attempt : Uuid → List RunAttempt → Option RunAttempt
unfolding is_some_time later_attempt
open_attempt run_id [] = none
open_attempt run_id (a ∷ rest) =
    let latest = open_attempt run_id rest in
    if a.run_id == run_id && not (is_some_time a.finished_at)
    then some (later_attempt a latest)
    else latest

-- `_latest_open_attempt`
unfoldable pub latest_open_attempt : Uuid → Db → Option RunAttempt
unfolding open_attempt
latest_open_attempt run_id db = open_attempt run_id db.attempts

-- `expires_at is not None and expires_at > now`
unfoldable pub is_after : Option Time → Time → Bool
is_after none now = false
is_after (some t) now = ltb now t

-- `_owns_active_lease`
unfoldable pub owns_active_lease : Run → String → Time → Bool
owns_active_lease run worker_id now =
    same_status run.execution_status running
    && is_text run.execution_lease_owner worker_id
    && is_after run.execution_lease_expires_at now

-- `_clear_lease`
unfoldable pub clear_lease : Run → Run
clear_lease run = record run { execution_lease_owner = none; execution_lease_expires_at = none }

-- `int((now - started_at).total_seconds() * 1000)`, which rounds towards zero.
unfoldable pub latency : Time → Time → ℤ
latency now started_at =
    let back = (started_at - now) / 1000 in
    if leb started_at now
    then pos ((now - started_at) / 1000)
    else if back == 0
    then pos 0
    else negsuc (back - 1)

-- `_finish_failed_attempt`
unfoldable pub finish_failed_attempt : RunAttempt → Time → String → RunAttempt
finish_failed_attempt attempt now error_code = record attempt {
  finished_at = some now;
  outcome = some Outcome.failed;
  error_code = some error_code;
  retryable = some (is_retryable_error error_code);
  latency_ms = some (latency now attempt.started_at);
}

-- What the columns `latency_ms` (`Integer`) and `error_code` (`String(64)`) of an attempt can hold.
unfoldable pub fits_integer : ℤ → Bool
fits_integer (pos n) = ltb n (2 ^ 31)
fits_integer (negsuc n) = ltb n (2 ^ 31)

text_length : String → ℕ
text_length String.[] = 0
text_length (String.◌∷◌ c s) = text_length s + 1

unfoldable pub fits_code : String → Bool
unfolding text_length
fits_code error_code = leb (text_length error_code) 64

unfoldable pub fits_columns : RunAttempt → Bool
fits_columns attempt =
    elim attempt.latency_ms [ none ↦ true | some ms ↦ fits_integer ms ]
    && elim attempt.error_code [ none ↦ true | some code ↦ fits_code code ]

-- PostgreSQL refuses a value that does not fit its column when the session is flushed: at the first
-- query that follows, or at the commit.
unfoldable pub flushed : RunAttempt → Db → Result Db
flushed attempt db = if fits_columns attempt then ok db else raise data_error

-- `datetime.max`
unfoldable pub last_time : Time
last_time = 253_402_300_799_999_999

-- A `datetime` of a later time, which raises `OverflowError` past the year 9999.
unfoldable pub check_calendar : Time → Result (Unit {0})
unfolding last_time
check_calendar t = if leb t last_time then ok tt else raise overflow_error

-- `result_payload or {}`, and then `.get("passed")` as a condition.
unfoldable pub passed_in : Option Fields → Bool
passed_in none = false
passed_in (some payload) = elim (get "passed" payload) [ none ↦ false | some v ↦ truthy v ]

unfoldable pub fields_or_empty : Option Fields → Fields
fields_or_empty none = end
fields_or_empty (some d) = d

-- The evaluation as its finished job leaves it.
unfoldable pub settle : Run → Evaluation → Evaluation
unfolding passed_in fields_or_empty
settle run e =
    if same_status run.execution_status succeeded
    then record e {
      status = if passed_in run.result_payload then passed else EvaluationStatus.failed;
      result = run.result_payload;
      completed_at = run.completed_at;
    }
    else record e {
      status = error;
      details = some (
          put "error_code" (str (or_default run.error_code "EVALUATION_ERROR"))
            (fields_or_empty e.details));
      completed_at = run.completed_at;
    }

-- `ORDER BY created_at DESC, id DESC`
unfoldable pub newer : Evaluation → Evaluation → Bool
newer a b = ltb b.created_at a.created_at || (a.created_at == b.created_at && ltb b.id a.id)

unfoldable pub newer_of : Evaluation → Option Evaluation → Evaluation
unfolding newer
newer_of a none = a
newer_of a (some b) = if newer b a then b else a

unfoldable pub latest_evaluation : Uuid → List Evaluation → Option Evaluation
unfolding newer_of
latest_evaluation run_id [] = none
latest_evaluation run_id (e ∷ rest) =
    let latest = latest_evaluation run_id rest in
    if e.run_id == run_id then some (newer_of e latest) else latest

unfoldable pub is_latest : Evaluation → Option Evaluation → Bool
is_latest e none = false
is_latest e (some l) = l.id == e.id

-- The source run takes the status of its newest evaluation.
unfoldable pub show_on_source : Evaluation → Db → Db
unfolding is_latest
show_on_source e db = elim (find_run e.run_id db) [
  | none ↦ db
  | some source ↦
      if is_latest e (latest_evaluation e.run_id db.evaluations)
      then put_run (record source { evaluation_status = e.status }) db
      else db
]

-- `_finalize_evaluation_job`; the run's own changes have been flushed.
unfoldable pub finalize_evaluation_job : Env → Run → Db → Result Db
finalize_evaluation_job env run db =
    if not (is_evaluation run.work_kind) then ok db else elim (find_evaluation_of_job run.id db) [
      | none ↦ raise runtime_error
      | some e ↦
          let e' = settle run e in
          ok (
            add_event env 9 e'.run_id none (evaluation_changed e'.status run.id)
              (show_on_source e' (put_evaluation e' db)))
    ]
