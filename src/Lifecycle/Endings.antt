-- ===== src/Lifecycle/Endings.antt =====
-- The ends of an attempt that failed, in terms of moves
-- (src/agent_runtime/infrastructure/database/execution_service.py).
use agent_reliability_runtim.Prelude.{
  ℕ, ◌+◌, String, ◌≡◌, ◌≢◌, refl, sym, ◌∙◌, subst, Bool, true, false, ◌&&◌, ◌⊎◌, some, arith, inl,
  inr, ltb, Bool-cases, Option-cases,
}
use agent_reliability_runtim.Prelude.Result.{Result, ok, >>=-eq-ok}
use agent_reliability_runtim.Domain.States.{running, same_status-eq}
use agent_reliability_runtim.Domain.Retry.{from_snapshot, delay_after_attempt}
use agent_reliability_runtim.Store.{Uuid, Run, RunAttempt, Db, Env, add_event, add_outbox}
use agent_reliability_runtim.Execution.Common.{
  ExecutionConfig, find_run, put_run, find_attempt, put_attempt, owns_active_lease,
  finalize_evaluation_job, flushed, check_calendar,
}
use agent_reliability_runtim.Execution.Frames.{find_run-id}
use agent_reliability_runtim.Execution.Summaries.{finalize_keeps}
use agent_reliability_runtim.Execution.Finish.{
  ExecutionResult, is_closed_to, succeed_attempt, succeed_run, write_success, with_lease, retrying,
  retry_later, exhausted, dead_letter, broken_off, fail_run, is_true, schedule_retry_or_finalize,
}
use agent_reliability_runtim.Lifecycle.{Moves, succeed, retry, give_up, break_off}
use agent_reliability_runtim.Lifecycle.Tries.{Tries, Closing, closes}
use agent_reliability_runtim.Lifecycle.Posts.{Posts, Posts-quiet, Posts-more, Posts-of_same}
use agent_reliability_runtim.Lifecycle.Writes.{Writes, plain, job}

-- What the guards have established when the locked rows are written.
pub record Held (env : Env) (run_id attempt_id : Uuid) (worker_id : String) (db : Db) : Type 0 where
  pub run : Run
  pub attempt : RunAttempt
  pub run_found : find_run run_id db ≡ some run
  pub owned : owns_active_lease run worker_id env.now ≡ true
  pub attempt_found : find_attempt attempt_id db ≡ some attempt
  pub is_open : is_closed_to run attempt ≡ false

pub flushed-eq : (attempt : RunAttempt) (db db' : Db) → flushed attempt db ≡ ok db' → db ≡ db'
unfolding flushed
flushed-eq attempt db db' h = ground arith

module _ (env : Env) (run_id attempt_id : Uuid) (worker_id : String)
    (write : Run → RunAttempt → Db → Result (Bool × Db)) (db : Db) where
  -- The guards refuse without a write, or hand the locked rows on.
  pub with_lease_cases :
      (b : Bool) (db' : Db)
      → with_lease env run_id attempt_id worker_id write db ≡ ok (b, db')
      → ((b ≡ false) × (db' ≡ db))
        ⊎ ((h : Held env run_id attempt_id worker_id db) × (write h.run h.attempt db ≡ ok (b, db')))
  unfolding with_lease
  with_lease_cases b db' h = elim (Option-cases (find_run run_id db)) [
    | inl missing ↦ inl (ground arith)
    | inr (run, found) ↦ elim (Bool-cases (owns_active_lease run worker_id env.now)) [
      | inr lost ↦ inl (ground arith)
      | inl owned ↦ elim (Option-cases (find_attempt attempt_id db)) [
        | inl missing ↦ inl (ground arith)
        | inr (attempt, at) ↦ elim (Bool-cases (is_closed_to run attempt)) [
          | inl closed ↦ inl (ground arith)
          | inr fresh ↦ inr (
            record {
              run = run;
              attempt = attempt;
              run_found = found;
              owned = owned;
              attempt_found = at;
              is_open = fresh;
            },
            ground arith,
          )
        ]
      ]
    ]
  ]

-- The guards of both completions pass for the worker that owns the lease and names its open attempt.
pub with_lease-owned :
    (env : Env) (id attempt_id : Uuid) (worker_id : String)
    (write : Run → RunAttempt → Db → Result (Bool × Db)) (db : Db) (r : Run) (a : RunAttempt)
    → find_run id db ≡ some r
    → owns_active_lease r worker_id env.now ≡ true
    → find_attempt attempt_id db ≡ some a
    → is_closed_to r a ≡ false
    → with_lease env id attempt_id worker_id write db ≡ write r a db
unfolding with_lease
with_lease-owned env id attempt_id worker_id write db r a found owned at fresh =
    rw (found, with_lease)
      (rw (owned, with_lease) (rw (at, with_lease) (rw (fresh, with_lease) refl)))

pub owned-running :
    (run : Run) (env : Env) (worker_id : String)
    → owns_active_lease run worker_id env.now ≡ true
    → run.execution_status ≡ running
unfolding owns_active_lease
owned-running run env worker_id h = ground (arith, same_status-eq run.execution_status running)

-- One move of the run that is stored under an identifier.
pub record Moved (cfg : ExecutionConfig) (run_id : Uuid) (db db' : Db) : Type 0 where
  pub old : Run
  pub new : Run
  pub at : find_run run_id db ≡ some old
  pub move : Moves old new
  pub writes : Writes db old new db'
  pub tries : Tries cfg db old new db'
  pub posts : Posts db new db'
  pub not_leased : new.execution_status ≢ running

module _ (cfg : ExecutionConfig) (env : Env) (run_id : Uuid) (run : Run) (attempt : RunAttempt)
    (db : Db) (found : find_run run_id db ≡ some run) (held : run.execution_status ≡ running)
    (closing : Closing run db attempt) where
  at_run : find_run run.id db ≡ some run
  at_run = subst (λ k. find_run k db ≡ some run) (sym (find_run-id run_id db run found)) found

  -- A write that ends in the end of an evaluation job.
  Moved-of_finalize :
      (new : Run) (mid db' : Db)
      → Moves run new
      → new.id ≡ run.id
      → mid.runs ≡ (put_run new db).runs
      → mid.evaluations ≡ db.evaluations
      → mid.attempts ≡ (put_attempt attempt db).attempts
      → Posts db new mid
      → finalize_evaluation_job env new mid ≡ ok db'
      → new.execution_status ≢ running
      → Moved cfg run_id db db'
  Moved-of_finalize new mid db' move same written rows_kept closed posts ended idle = record {
    old = run;
    new = new;
    at = found;
    move = move;
    writes = record {
      found = at_run;
      same_id = same;
      mid = mid;
      written = written;
      rows_kept = rows_kept;
      finish = job env new ended;
    };
    tries = closes attempt held idle closing ((finalize_keeps env new mid db' ended).0 ∙ closed);
    posts = Posts-of_same db new mid db' (finalize_keeps env new mid db' ended).1 posts;
    not_leased = idle;
  }

  pub write_success-Moved :
      (result : ExecutionResult) (opened : RunAttempt) (b : Bool) (db' : Db)
      → attempt ≡ succeed_attempt env result opened
      → write_success env result run opened db ≡ ok (b, db')
      → (b ≡ true) × Moved cfg run_id db db'
  unfolding write_success add_event put_run put_attempt
  write_success-Moved result opened b db' same_attempt h =
      let (db₁, ended, same) = >>=-eq-ok (finalize_evaluation_job env _ _) _ h in
      let last : db₁ ≡ db' = ground arith in
      (
        ground arith,
        Moved-of_finalize (succeed_run env result run) _ db' (succeed env result held refl)
            (unfold succeed_run in refl) refl refl (rw same_attempt refl)
            (Posts-quiet db (succeed_run env result run) _ refl (unfold succeed_run in λ e. cc e))
            (rw last at ended) (unfold succeed_run in λ e. cc e),
      )

  retry_later-Moved :
      (error_code : String) (recovery : Bool) (delay : ℕ)
      → Moved cfg run_id db
          (retry_later env error_code recovery run attempt delay (put_attempt attempt db))
  unfolding retry_later add_event put_run put_attempt
  retry_later-Moved error_code recovery delay = record {
    old = run;
    new = retrying env error_code delay run;
    at = found;
    move = retry env error_code delay held refl;
    writes = record {
      found = at_run;
      same_id = unfold retrying in refl;
      mid = retry_later env error_code recovery run attempt delay (put_attempt attempt db);
      written = refl;
      rows_kept = refl;
      finish = plain refl;
    };
    tries = closes attempt held (unfold retrying in λ e. cc e) closing refl;
    posts =
        Posts-quiet db (retrying env error_code delay run) _ refl (unfold retrying in λ e. cc e);
    not_leased = unfold retrying in λ e. cc e;
  }

  dead_letter-Moved :
      (error_code : String) (recovery : Bool) (n : ℕ) (db' : Db)
      → dead_letter env error_code recovery n run attempt (put_attempt attempt db) ≡ ok db'
      → Moved cfg run_id db db'
  unfolding dead_letter add_event add_outbox put_run put_attempt
  dead_letter-Moved error_code recovery n db' h =
      Moved-of_finalize (exhausted env error_code run) _ db' (give_up env error_code held refl)
        (unfold exhausted in refl) refl refl refl
        (Posts-more db (exhausted env error_code run) _ _ refl (unfold exhausted in λ e. cc e)) h
        (unfold exhausted in λ e. cc e)

  fail_run-Moved :
      (error_code : String) (recovery : Bool) (db' : Db)
      → fail_run env error_code recovery run attempt (put_attempt attempt db) ≡ ok db'
      → Moved cfg run_id db db'
  unfolding fail_run add_event put_run put_attempt
  fail_run-Moved error_code recovery db' h =
      Moved-of_finalize (broken_off env error_code run) _ db' (break_off env error_code held refl)
        (unfold broken_off in refl) refl refl refl
        (Posts-quiet db (broken_off env error_code run) _ refl (unfold broken_off in λ e. cc e)) h
        (unfold broken_off in λ e. cc e)

  -- However a failed attempt ends, it makes one move of its run.
  pub schedule_retry_or_finalize-Moved :
      (error_code : String) (recovery : Bool) (db' : Db)
      → schedule_retry_or_finalize env error_code recovery run attempt (put_attempt attempt db)
        ≡ ok db'
      → Moved cfg run_id db db'
  unfolding schedule_retry_or_finalize
  schedule_retry_or_finalize-Moved error_code recovery db' h =
      let (policy, _, h₁) = >>=-eq-ok (from_snapshot run.policy_snapshot) _ h in
      elim (Bool-cases
        (is_true attempt.retryable && ltb attempt.attempt_number policy.max_attempts)) [
          | inl again ↦
              let (delay, _, h₂) =
                >>=-eq-ok (delay_after_attempt policy attempt.attempt_number) _ (rw again at h₁) in
              let (_, _, h₃) = >>=-eq-ok (check_calendar (env.now + delay)) _ h₂ in
              let last : retry_later env error_code recovery run attempt delay
                    (put_attempt attempt db)
                  ≡ db' =
                flushed-eq attempt _ db' h₃ in
              subst (Moved cfg run_id db) last (retry_later-Moved error_code recovery delay)
          | inr over ↦
              let (mid, flush, h₂) =
                >>=-eq-ok (flushed attempt (put_attempt attempt db)) _ (rw over at h₁) in
              let same : put_attempt attempt db ≡ mid =
                flushed-eq attempt (put_attempt attempt db) mid flush in
              elim (Bool-cases (is_true attempt.retryable)) [
                | inl used_up ↦
                    dead_letter-Moved error_code recovery policy.max_attempts db'
                      (rw same (rw used_up at h₂))
                | inr hopeless ↦
                    fail_run-Moved error_code recovery db' (rw same (rw hopeless at h₂))
              ]
        ]
