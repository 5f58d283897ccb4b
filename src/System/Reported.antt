-- ===== src/System/Reported.antt =====
-- `complete_success` and `complete_failure` do what System/Reports.antt says.
use mathlib.Core.Bool.{false≢true}
use agent_reliability_runtim.Prelude.{
  String, ◌≡◌, sym, ◌∙◌, subst, ◌⊎◌, inl, inr, Bool, true, false, some, [], arith, find-key,
}
use agent_reliability_runtim.Prelude.Result.{ok, >>=-eq-ok}
use agent_reliability_runtim.Store.{Uuid, Run, RunAttempt, run_succeeded, Db, Env}
use agent_reliability_runtim.Execution.Common.{
  ExecutionConfig, find_run, find_attempt, put_attempt, finish_failed_attempt,
}
use agent_reliability_runtim.Execution.Frames.{find_run-id}
use agent_reliability_runtim.Execution.Finish.{
  ExecutionResult, write_success, complete_success, schedule_retry_or_finalize, write_failure,
  complete_failure,
}
use agent_reliability_runtim.Lifecycle.Endings.{Moved, with_lease_cases, with_lease-owned}
use agent_reliability_runtim.Lifecycle.Completions.{complete_success-Moved, complete_failure-Moved}
use agent_reliability_runtim.System.Reports.{MayEnd, Written, succeeded_row, succeeded_try, Failed}
use agent_reliability_runtim.System.Written.{MayEnd-guards, MayEnd-of_Held}
use agent_reliability_runtim.System.Failures.{
  schedule_retry_or_finalize-Failed, write_success-Written,
}

module _ (cfg : ExecutionConfig) (env : Env) (run_id attempt_id : Uuid) (worker_id : String)
    (db : Db) where
  at_run : (run : Run) → find_run run_id db ≡ some run → find_run run.id db ≡ some run
  at_run run found =
      subst (λ k. find_run k db ≡ some run) (sym (find_run-id run_id db run found)) found

  at_attempt :
      (a : RunAttempt) → find_attempt attempt_id db ≡ some a → find_attempt a.id db ≡ some a
  unfolding find_attempt
  at_attempt a found =
      subst (λ k. find_attempt k db ≡ some a)
        (sym (find-key (λ (x : RunAttempt). x.id) attempt_id db.attempts a found)) found

  write_failure-Failed :
      (error_code : String) (run : Run) (attempt : RunAttempt) (b : Bool) (db' : Db)
      → find_run run.id db ≡ some run
      → find_attempt attempt.id db ≡ some attempt
      → write_failure env error_code run attempt db ≡ ok (b, db')
      → (b ≡ true) × Failed env error_code false run attempt db db'
  unfolding write_failure
  write_failure-Failed error_code run attempt b db' found stored h =
      let after = finish_failed_attempt attempt env.now error_code in
      let (db₁, ended, same) =
        >>=-eq-ok (schedule_retry_or_finalize env error_code false run after (put_attempt after db))
          _ h in
      let last : db₁ ≡ db' = ground arith in
      (
        ground arith,
        schedule_retry_or_finalize-Failed env run attempt db found stored error_code false db'
            (rw last at ended),
      )

  -- A success report that returns says False and has written nothing, and then the worker does not
  -- own the run's active lease or the attempt is not an open one of the run; or it says True, and
  -- then the worker owns the lease and the attempt is open: the run is SUCCEEDED with the reported
  -- result, without error, lease and retry time, completed now, its attempt is closed with the
  -- reported provider, usage and latency, the event RUN_SUCCEEDED is added first, nothing is sent,
  -- and the tables change by one move of the run, which may mark the evaluation summary of
  -- another.
  pub complete_success_cases :
      (result : ExecutionResult) (b : Bool) (db' : Db)
      → complete_success env run_id attempt_id worker_id result db ≡ ok (b, db')
      → ((b ≡ false)
          × (db' ≡ db)
          × ¬ ((run : Run) × (a : RunAttempt) × MayEnd env run_id attempt_id worker_id db run a))
        ⊎ ((b ≡ true)
            × ((run : Run) × (a : RunAttempt) × MayEnd env run_id attempt_id worker_id db run a
                × Written env
                    (succeeded_row env result run)
                    (succeeded_try env result a)
                    (run_succeeded result.provider)
                    []
                    db
                    db')
            × Moved cfg run_id db db')
  unfolding complete_success
  complete_success_cases result b db' h =
      elim (complete_success-Moved cfg env run_id attempt_id worker_id db result b db' h) [
        | inl (refused, same) ↦ inl (
          refused,
          same,
          λ (run, a, m).
              let (owned, shut) = MayEnd-guards env run_id attempt_id worker_id db run a m in
              let taken =
                with_lease-owned env run_id attempt_id worker_id (write_success env result) db run a
                  m.run_found owned m.attempt_found shut in
              let (done, _) =
                write_success-Written env run a db (at_run run m.run_found)
                  (at_attempt a m.attempt_found) result b db' (sym taken ∙ h) in
              false≢true (sym refused ∙ done),
        )
        | inr (done, moved) ↦
            elim (with_lease_cases env run_id attempt_id worker_id (write_success env result) db b
              db' h) [
                | inl (refused, _) ↦ absurd (false≢true (sym refused ∙ done))
                | inr (g, wrote) ↦ inr (
                  done,
                  (
                    g.run,
                    g.attempt,
                    MayEnd-of_Held env run_id attempt_id worker_id db g,
                    (write_success-Written env g.run g.attempt db (at_run g.run g.run_found)
                        (at_attempt g.attempt g.attempt_found) result b db' wrote).1,
                  ),
                  moved,
                )
              ]
      ]

  -- A failure report that returns says False and has written nothing, and then the worker does not
  -- own the run's active lease or the attempt is not an open one of the run; or it says True, and
  -- then the worker owns the lease and the attempt is open: by the code's retryability and the
  -- stored policy, the run is RETRY_SCHEDULED for the exponential backoff from now, DEAD_LETTERED
  -- with one dead-letter delivery, or FAILED, in each case without lease and with the reported
  -- code, its attempt is closed as failed, the event of the case is added first, nothing else is
  -- sent, and the tables change by one move of the run, which may mark the evaluation summary of
  -- another.
  pub complete_failure_cases :
      (error_code : String) (b : Bool) (db' : Db)
      → complete_failure env run_id attempt_id worker_id error_code db ≡ ok (b, db')
      → ((b ≡ false)
          × (db' ≡ db)
          × ¬ ((run : Run) × (a : RunAttempt) × MayEnd env run_id attempt_id worker_id db run a))
        ⊎ ((b ≡ true)
            × ((run : Run) × (a : RunAttempt) × MayEnd env run_id attempt_id worker_id db run a
                × Failed env error_code false run a db db')
            × Moved cfg run_id db db')
  unfolding complete_failure
  complete_failure_cases error_code b db' h =
      elim (complete_failure-Moved cfg env run_id attempt_id worker_id db error_code b db' h) [
        | inl (refused, same) ↦ inl (
          refused,
          same,
          λ (run, a, m).
              let (owned, shut) = MayEnd-guards env run_id attempt_id worker_id db run a m in
              let taken =
                with_lease-owned env run_id attempt_id worker_id (write_failure env error_code) db
                  run a m.run_found owned m.attempt_found shut in
              let (done, _) =
                write_failure-Failed error_code run a b db' (at_run run m.run_found)
                  (at_attempt a m.attempt_found) (sym taken ∙ h) in
              false≢true (sym refused ∙ done),
        )
        | inr (done, moved) ↦
            elim (with_lease_cases env run_id attempt_id worker_id (write_failure env error_code) db
              b db' h) [
                | inl (refused, _) ↦ absurd (false≢true (sym refused ∙ done))
                | inr (g, wrote) ↦ inr (
                  done,
                  (
                    g.run,
                    g.attempt,
                    MayEnd-of_Held env run_id attempt_id worker_id db g,
                    (write_failure-Failed error_code g.run g.attempt b db'
                        (at_run g.run g.run_found) (at_attempt g.attempt g.attempt_found) wrote).1,
                  ),
                  moved,
                )
              ]
      ]
