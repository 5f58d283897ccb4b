-- ===== src/System/Failures.antt =====
-- `write_success` and `_schedule_retry_or_finalize` leave the rows that System/Reports.antt says.
use mathlib.Core.List.{append-nil}
use agent_reliability_runtim.Prelude.{
  ℕ, ◌+◌, ◌≤◌, ◌<◌, String, ◌≡◌, refl, sym, subst, inl, inr, Bool, true, false, ◌&&◌, some, [],
  arith, ltb, if◌then◌else◌, Bool-cases,
}
use agent_reliability_runtim.Prelude.Result.{ok, >>=-eq-ok}
use agent_reliability_runtim.Domain.Retry.{
  RetryPolicy, from_snapshot, delay_after_attempt, is_retryable_error,
}
use agent_reliability_runtim.Store.{Run, RunAttempt, run_succeeded, Db, Env, add_event, add_outbox}
use agent_reliability_runtim.Execution.Common.{
  find_run, put_run, find_attempt, put_attempt, clear_lease, finish_failed_attempt,
  finalize_evaluation_job, flushed, check_calendar,
}
use agent_reliability_runtim.Execution.Finish.{
  ExecutionResult, is_true, succeed_attempt, succeed_run, write_success, released, retrying,
  retry_later, exhausted, dead_letter, broken_off, fail_run, schedule_retry_or_finalize,
}
use agent_reliability_runtim.Lifecycle.Writes.{plain, job}
use agent_reliability_runtim.Lifecycle.Endings.{flushed-eq}
use agent_reliability_runtim.System.Reports.{
  Written, succeeded_row, succeeded_try, failed_try, backoff, is_retried, is_exhausted, is_final,
  Failed,
}
use agent_reliability_runtim.System.Written.{Written-of}

module _ (env : Env) (run : Run) (attempt : RunAttempt) (db : Db)
    (found : find_run run.id db ≡ some run)
    (stored : find_attempt attempt.id db ≡ some attempt) where
  pub write_success-Written :
      (result : ExecutionResult) (b : Bool) (db' : Db)
      → write_success env result run attempt db ≡ ok (b, db')
      → (b ≡ true)
        × Written env
            (succeeded_row env result run)
            (succeeded_try env result attempt)
            (run_succeeded result.provider)
            []
            db
            db'
  unfolding write_success add_event put_run put_attempt succeed_run succeed_attempt clear_lease
  write_success-Written result b db' h =
      let (db₁, ended, same) = >>=-eq-ok (finalize_evaluation_job env _ _) _ h in
      let last : db₁ ≡ db' = ground arith in
      (
        ground arith,
        Written-of env run (succeeded_row env result run) attempt (succeeded_try env result attempt)
            (run_succeeded result.provider) [] db _ db' found refl stored refl refl refl
            (sym (append-nil db.outbox))
            (job env (succeeded_row env result run) (rw last at ended)),
      )

  delay_of-backoff :
      (p : RetryPolicy) (n delay : ℕ) → delay_after_attempt p n ≡ ok delay → delay ≡ backoff p n
  unfolding delay_after_attempt
  delay_of-backoff p n delay h = elim (Bool-cases (ltb n 1)) [
    | inl none_yet ↦ absurd (let bad = rw none_yet at h in cc bad)
    | inr later ↦ let given = rw later at h in cc given
  ]

  module _ (error_code : String) (recovery : Bool) (db' : Db) where
    retry_later-Failed :
        (p : RetryPolicy) (delay : ℕ)
        → from_snapshot run.policy_snapshot ≡ ok p
        → is_retryable_error error_code ≡ true
        → attempt.attempt_number < p.max_attempts
        → delay ≡ backoff p attempt.attempt_number
        → retry_later env error_code recovery run
            (failed_try env error_code attempt)
            delay
            (put_attempt (failed_try env error_code attempt) db)
          ≡ db'
        → Failed env error_code recovery run attempt db db'
    unfolding retry_later add_event put_run put_attempt retrying released clear_lease
    retry_later-Failed p delay read retryable left timed same = record {
      policy = p;
      stored = read;
      ended = _;
      fact = _;
      sent = [];
      ending = is_retried retryable left;
      written =
          Written-of env run _ attempt (failed_try env error_code attempt) _ [] db _ db' found refl
            stored refl refl refl (sym (append-nil db.outbox))
            (plain (
              sym (
                subst
                  (λ k.
                    retry_later env error_code recovery run (failed_try env error_code attempt) k
                      (put_attempt (failed_try env error_code attempt) db)
                    ≡ db')
                  timed same)));
    }

    dead_letter-Failed :
        (p : RetryPolicy)
        → from_snapshot run.policy_snapshot ≡ ok p
        → is_retryable_error error_code ≡ true
        → p.max_attempts ≤ attempt.attempt_number
        → dead_letter env error_code recovery p.max_attempts run
            (failed_try env error_code attempt)
            (put_attempt (failed_try env error_code attempt) db)
          ≡ ok db'
        → Failed env error_code recovery run attempt db db'
    unfolding dead_letter add_event add_outbox put_run put_attempt exhausted released clear_lease
    dead_letter-Failed p read retryable used_up h = record {
      policy = p;
      stored = read;
      ended = _;
      fact = _;
      sent = _;
      ending = is_exhausted retryable used_up;
      written =
          Written-of env run _ attempt (failed_try env error_code attempt) _ _ db _ db' found refl
            stored refl refl refl refl (job env _ h);
    }

    fail_run-Failed :
        (p : RetryPolicy)
        → from_snapshot run.policy_snapshot ≡ ok p
        → is_retryable_error error_code ≡ false
        → fail_run env error_code recovery run
            (failed_try env error_code attempt)
            (put_attempt (failed_try env error_code attempt) db)
          ≡ ok db'
        → Failed env error_code recovery run attempt db db'
    unfolding fail_run add_event put_run put_attempt broken_off released clear_lease
    fail_run-Failed p read hopeless h = record {
      policy = p;
      stored = read;
      ended = _;
      fact = _;
      sent = [];
      ending = is_final hopeless;
      written =
          Written-of env run _ attempt (failed_try env error_code attempt) _ [] db _ db' found refl
            stored refl refl refl (sym (append-nil db.outbox)) (job env _ h);
    }

    stopped-Failed :
        (p : RetryPolicy) (mid : Db) (retryable : Bool)
        → from_snapshot run.policy_snapshot ≡ ok p
        → put_attempt (failed_try env error_code attempt) db ≡ mid
        → is_retryable_error error_code ≡ retryable
        → (retryable && ltb attempt.attempt_number p.max_attempts) ≡ false
        → (if retryable
            then dead_letter env error_code recovery p.max_attempts run
                (failed_try env error_code attempt)
                mid
            else fail_run env error_code recovery run (failed_try env error_code attempt) mid)
          ≡ ok db'
        → Failed env error_code recovery run attempt db db'
    stopped-Failed p mid true read same kind over h =
        dead_letter-Failed p read kind (ground (arith, over)) (rw same h)
    stopped-Failed p mid false read same kind over h = fail_run-Failed p read kind (rw same h)

    pub schedule_retry_or_finalize-Failed :
        schedule_retry_or_finalize env error_code recovery run
            (finish_failed_attempt attempt env.now error_code)
            (put_attempt (finish_failed_attempt attempt env.now error_code) db)
          ≡ ok db'
        → Failed env error_code recovery run attempt db db'
    unfolding schedule_retry_or_finalize finish_failed_attempt is_true
    schedule_retry_or_finalize-Failed h =
        let after = failed_try env error_code attempt in
        let (p, read, h₁) = >>=-eq-ok (from_snapshot run.policy_snapshot) _ h in
        elim (Bool-cases
          (is_retryable_error error_code && ltb attempt.attempt_number p.max_attempts)) [
            | inl again ↦
                let (delay, timed, h₂) =
                  >>=-eq-ok (delay_after_attempt p attempt.attempt_number) _ (rw again at h₁) in
                let (_, _, h₃) = >>=-eq-ok (check_calendar (env.now + delay)) _ h₂ in
                retry_later-Failed p delay read (ground (arith, again)) (ground (arith, again))
                  (delay_of-backoff p attempt.attempt_number delay timed)
                  (flushed-eq after _ db' h₃)
            | inr over ↦
                let (mid, flush, h₂) =
                  >>=-eq-ok (flushed after (put_attempt after db)) _ (rw over at h₁) in
                let same : put_attempt after db ≡ mid =
                  flushed-eq after (put_attempt after db) mid flush in
                stopped-Failed p mid (is_retryable_error error_code) read same refl over h₂
          ]
