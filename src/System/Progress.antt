-- ===== src/System/Progress.antt =====
-- Whether a round of lease recovery and the report of a worker return. The end of an evaluation job reads
-- the row that `evaluate` has added with it.
use agent_reliability_runtim.Prelude.{
  ℕ, ◌+◌, max, leb, ◌||◌, ◌≤◌, ◌≡◌, ◌≢◌, refl, ap, ◌∙◌, subst, String, Bool, true, false, not, ◌&&◌,
  inl, inr, none, some, List, [], ◌∷◌, arith, ◌==◌, ltb, count, Bool-cases, Option-cases, All-Mem,
}
use agent_reliability_runtim.Prelude.Result.{raise, ok, ◌>>=◌}
use agent_reliability_runtim.Domain.States.{running, same_status}
use agent_reliability_runtim.Domain.Retry.{
  second, RetryPolicy, from_snapshot, value, execution_lease_expired,
}
use agent_reliability_runtim.Domain.Retry.Bounds.{delay_bounds}
use agent_reliability_runtim.Store.{Uuid, Time, Run, RunAttempt, Db, Env, add_event, add_outbox}
use agent_reliability_runtim.Execution.Common.{
  find_run, find_attempt, put_attempt, is_some_time, open_attempt, latest_open_attempt,
  is_evaluation, finish_failed_attempt, finalize_evaluation_job, find_evaluation_of_job, put_run,
  owns_active_lease, latency, fits_integer, fits_code, fits_columns, flushed, check_calendar,
  last_time,
}
use agent_reliability_runtim.Execution.Frames.{find_run-id, with_evaluation}
use agent_reliability_runtim.Execution.Openings.{latest_open_attempt-Mem, find_attempt-Mem}
use agent_reliability_runtim.Execution.Finish.{
  is_true, schedule_retry_or_finalize, retry_later, dead_letter, fail_run, exhausted, broken_off,
  is_closed_to, write_failure, complete_failure, released,
}
use agent_reliability_runtim.Execution.Scheduler.{recover_one}
use agent_reliability_runtim.Lifecycle.Writes.{find_run-Writes_self}
use agent_reliability_runtim.Lifecycle.Endings.{owned-running, with_lease-owned}
use agent_reliability_runtim.Lifecycle.Recovery.{recover_one-Moved_open}
use agent_reliability_runtim.System.Attempts.{is_open_for, held_by_running}
use agent_reliability_runtim.System.{Deployment, Reach, empty}
use agent_reliability_runtim.System.Ledger.{Reach-Ledger}
use agent_reliability_runtim.System.Jobs.{Reach-JobRows, IsFinalizable, JobRows-IsFinalizable}

no_open_attempt :
    (id : Uuid) (xs : List RunAttempt) → open_attempt id xs ≡ none → count (is_open_for id) xs ≡ 0
unfolding open_attempt
no_open_attempt id [] h = refl
no_open_attempt id (x ∷ xs) h =
    elim (Bool-cases (x.run_id == id && not (is_some_time x.finished_at))) [
      | inl mine ↦ absurd (ground arith)
      | inr other ↦ rw other (omega (arith, no_open_attempt id xs (rw other at h)))
    ]

finalize-total :
    (env : Env) (run : Run) (db : Db)
    → IsFinalizable run db
    → (db' : Db) × (finalize_evaluation_job env run db ≡ ok db')
unfolding finalize_evaluation_job IsFinalizable
finalize-total env run db can = elim can [
  | inl plain ↦ (db, rw plain refl)
  | inr (e, found) ↦ elim (Bool-cases (is_evaluation run.work_kind)) [
    | inr plain ↦ (db, rw plain refl)
    | inl judged ↦ rw judged (rw found (_, refl))
  ]
]

-- The time of a retry of a run that is RUNNING, however many attempts it has had, is within the
-- calendar.
unfoldable pub is_near : Time → Run → Bool
unfolding last_time
is_near now r =
    not (same_status r.execution_status running) || elim (from_snapshot r.policy_snapshot) [
      | raise e ↦ true
      | ok policy ↦ leb (now + max second policy.max_backoff) last_time
    ]

is_near-calendar :
    (now : Time) (r : Run) (policy : RetryPolicy) (delay : ℕ)
    → r.execution_status ≡ running
    → from_snapshot r.policy_snapshot ≡ ok policy
    → is_near now r ≡ true
    → delay ≤ max second policy.max_backoff
    → check_calendar (now + delay) ≡ ok tt
unfolding is_near check_calendar same_status
is_near-calendar now r policy delay held stored near short =
    let within : now + max second policy.max_backoff ≤ last_time =
      ground (arith, stored, held, near) in
    let at : leb (now + delay) last_time ≡ true = ground (arith, within, short) in rw at refl

-- The end of a failed attempt does not raise for a run with a valid policy whose values fit.
pub schedule_retry_or_finalize-total :
    (env : Env) (error_code : String) (recovery : Bool) (run : Run) (attempt : RunAttempt)
    (policy : RetryPolicy) (db : Db)
    → from_snapshot run.policy_snapshot ≡ ok policy
    → run.execution_status ≡ running
    → 1 ≤ attempt.attempt_number
    → fits_columns attempt ≡ true
    → is_near env.now run ≡ true
    → IsFinalizable run db
    → (db' : Db) × (schedule_retry_or_finalize env error_code recovery run attempt db ≡ ok db')
unfolding schedule_retry_or_finalize dead_letter fail_run flushed
schedule_retry_or_finalize-total env error_code recovery run attempt policy db stored held first
      fits near can =
    let (delay, timed, _, short) = delay_bounds policy attempt.attempt_number first in
    let within = is_near-calendar env.now run policy delay held stored near short in
    rw stored
      (elim (Bool-cases
        (is_true attempt.retryable && ltb attempt.attempt_number policy.max_attempts)) [
          | inl again ↦ rw again (
              rw timed (
                rw within
                  (rw fits (retry_later env error_code recovery run attempt delay db, refl))))
          | inr over ↦ rw over (
              rw fits (elim (Bool-cases (is_true attempt.retryable)) [
                | inl used_up ↦ rw used_up (
                    finalize-total env (exhausted env error_code run) _ (
                      unfold exhausted released IsFinalizable find_evaluation_of_job add_event
                        add_outbox put_run in
                      can))
                | inr hopeless ↦ rw hopeless (
                    finalize-total env (broken_off env error_code run) _ (
                      unfold broken_off released IsFinalizable find_evaluation_of_job add_event
                        put_run in
                      can))
              ]))
        ])

-- An attempt that ends now is short enough for the column `latency_ms`.
unfoldable pub is_short : Time → RunAttempt → Bool
is_short now a = fits_integer (latency now a.started_at)

fits-failed :
    (a : RunAttempt) (now : Time) (error_code : String)
    → is_short now a ≡ true
    → fits_code error_code ≡ true
    → fits_columns (finish_failed_attempt a now error_code) ≡ true
unfolding fits_columns finish_failed_attempt is_short
fits-failed a now error_code short fits = ground (arith, short, fits)

module _ (d : Deployment) (db : Db) (reached : Reach d empty db) (id : Uuid) (r : Run)
    (found : find_run id db ≡ some r) (held : r.execution_status ≡ running) where
  pub open_attempt_exists : (a : RunAttempt) × (latest_open_attempt r.id db ≡ some a)
  unfolding latest_open_attempt
  open_attempt_exists = elim (Option-cases (open_attempt r.id db.attempts)) [
    | inr (a, h) ↦ (a, h)
    | inl nothing ↦ absurd (
        let named : r.id ≡ id = find_run-id id db r found in
        let one = (Reach-Ledger d db reached).open_while_running id r found in
        let zero = no_open_attempt r.id db.attempts nothing in
        let at : count (is_open_for id) db.attempts ≡ 0 =
          subst (λ k. count (is_open_for k) db.attempts ≡ 0) named zero in
        omega (arith, one, held_by_running r held, at))
  ]

  recover_one-total :
      (env : Env) (a : RunAttempt)
      → latest_open_attempt r.id db ≡ some a
      → is_short env.now a ≡ true
      → is_near env.now r ≡ true
      → (db' : Db) × (recover_one env id db ≡ ok db')
  unfolding recover_one finish_failed_attempt
  recover_one-total env a at short near =
      let l = Reach-Ledger d db reached in
      let can = JobRows-IsFinalizable db id r (Reach-JobRows d db reached) found in
      let (stored, _, _) = latest_open_attempt-Mem r.id db a at in
      let (policy, valid) = l.valid_while_running id r found held in
      let first =
        All-Mem (λ (x : RunAttempt). 1 ≤ x.attempt_number) db.attempts a l.numbers_positive
          stored in
      rw (found, recover_one)
        (rw (at, recover_one)
          (schedule_retry_or_finalize-total env (value execution_lease_expired) true r
            (finish_failed_attempt a env.now (value execution_lease_expired)) policy _ valid held
            first
            (fits-failed a env.now (value execution_lease_expired) short
              (unfold value fits_code in refl))
            near (unfold IsFinalizable find_evaluation_of_job put_attempt add_event in can)))

  -- After any transactions from an empty database, in whatever order: a round of lease recovery on
  -- a RUNNING run returns and leaves the run in another status, where the latency of its open
  -- attempt in milliseconds fits the 32-bit column, and the longest retry delay of its stored
  -- policy, if that can be read, ends within the year 9999.
  pub recover_one-frees :
      (env : Env) (a : RunAttempt)
      → latest_open_attempt r.id db ≡ some a
      → is_short env.now a ≡ true
      → is_near env.now r ≡ true
      → (db' : Db) × (recover_one env id db ≡ ok db')
        × ((r' : Run) × (find_run id db' ≡ some r') × (r'.execution_status ≢ running))
  recover_one-frees env a at short near =
      let (db', done) = recover_one-total env a at short near in
      let m = recover_one-Moved_open d.config env id r a db db' found held at done in
      let (s, later) = find_run-Writes_self db m.old m.new db' m.writes in
      let named : m.old.id ≡ id = find_run-id id db m.old m.at in
      (
        db',
        done,
        (
          with_evaluation s m.new,
          subst (λ k. find_run k db' ≡ some (with_evaluation s m.new)) named later,
          m.not_leased,
        ),
      )

module _ (d : Deployment) (env : Env) (id attempt_id : Uuid) (worker_id : String) (db : Db)
    (r : Run) (a : RunAttempt) (reached : Reach d empty db) (found : find_run id db ≡ some r)
    (owned : owns_active_lease r worker_id env.now ≡ true)
    (at : find_attempt attempt_id db ≡ some a) (fresh : is_closed_to r a ≡ false) where
  can_end : IsFinalizable r db
  can_end = JobRows-IsFinalizable db id r (Reach-JobRows d db reached) found

  -- After any transactions from an empty database, in whatever order: a worker that owns the
  -- active lease of a run and reports the failure of its open attempt is not refused and sees no
  -- exception, where the reported code has at most 64 characters, the attempt's latency in
  -- milliseconds fits the 32-bit column, and the longest retry delay of the stored policy, if that
  -- can be read, ends within the year 9999.
  pub complete_failure-total :
      (error_code : String)
      → fits_code error_code ≡ true
      → is_short env.now a ≡ true
      → is_near env.now r ≡ true
      → (db' : Db) × (complete_failure env id attempt_id worker_id error_code db ≡ ok (true, db'))
  unfolding complete_failure write_failure finish_failed_attempt
  complete_failure-total error_code fits short near =
      let held = owned-running r env worker_id owned in
      let l = Reach-Ledger d db reached in
      let (policy, valid) = l.valid_while_running id r found held in
      let first =
        All-Mem (λ (x : RunAttempt). 1 ≤ x.attempt_number) db.attempts a l.numbers_positive
          (find_attempt-Mem attempt_id db a at) in
      let failed : RunAttempt = finish_failed_attempt a env.now error_code in
      let (db', done) =
        schedule_retry_or_finalize-total env error_code false r failed policy
          (put_attempt failed db) valid held first (fits-failed a env.now error_code short fits)
          near (unfold IsFinalizable find_evaluation_of_job put_attempt in can_end) in
      (
        db',
        with_lease-owned env id attempt_id worker_id (write_failure env error_code) db r a found
              owned at fresh
            ∙ ap (λ m. m >>= (λ x. ok (true, x))) done,
      )
