-- ===== src/Lifecycle/Tries.antt =====
-- What a move does to the attempts of its run: it opens the next one when it leases the run, it
-- closes the open one when it takes the lease away, and otherwise it leaves them alone.
use agent_reliability_runtim.Prelude.{Memᴰ}
use agent_reliability_runtim.Prelude.{◌≤◌, ◌≡◌, ◌≢◌, min, true, false, none, [], ◌∷◌, ◌++◌}
use agent_reliability_runtim.Prelude.Result.{ok}
use agent_reliability_runtim.Domain.States.{queued, running}
use agent_reliability_runtim.Domain.Retry.{RetryPolicy, from_snapshot}
use agent_reliability_runtim.Store.{Run, RunAttempt, Db}
use agent_reliability_runtim.Execution.Common.{
  ExecutionConfig, find_attempt, put_attempt, is_some_time, next_attempt_number,
}
use agent_reliability_runtim.Execution.Summaries.{finalize_keeps}
use agent_reliability_runtim.Execution.Claim.{provider_for}
use agent_reliability_runtim.Lifecycle.Writes.{Finishes, plain, job}

-- A new open attempt with the next number, within the budget of the stored policy and of the
-- service, on the provider that the policy gives for this number.
pub record Opens (cfg : ExecutionConfig) (old : Run) (db db' : Db) : Type 0 where
  pub attempt : RunAttempt
  pub policy : RetryPolicy
  pub stored : from_snapshot old.policy_snapshot ≡ ok policy
  pub is_new : find_attempt attempt.id db ≡ none
  pub of_run : attempt.run_id ≡ old.id
  pub is_open : attempt.finished_at ≡ none
  pub number : attempt.attempt_number ≡ next_attempt_number old.id db
  pub budget : attempt.attempt_number ≤ min policy.max_attempts cfg.max_attempts
  pub provider : provider_for policy attempt.attempt_number ≡ ok attempt.provider
  pub added : db'.attempts ≡ db.attempts ++ attempt ∷ []

-- The row of an open attempt of the run, and the same attempt finished.
pub record Closing (old : Run) (db : Db) (after : RunAttempt) : Type 0 where
  pub before : RunAttempt
  pub stored : Memᴰ before db.attempts
  pub of_run : before.run_id ≡ old.id
  pub was_open : is_some_time before.finished_at ≡ false
  pub same_id : after.id ≡ before.id
  pub same_run : after.run_id ≡ before.run_id
  pub same_number : after.attempt_number ≡ before.attempt_number
  pub is_closed : is_some_time after.finished_at ≡ true

pub data Tries (cfg : ExecutionConfig) (db : Db) (old new : Run) (db' : Db) : Type 0 where
  opens :
      old.execution_status ≡ queued
      → new.execution_status ≡ running
      → Opens cfg old db db'
      → Tries cfg db old new db'
  closes :
      (after : RunAttempt)
      → old.execution_status ≡ running
      → new.execution_status ≢ running
      → Closing old db after
      → db'.attempts ≡ (put_attempt after db).attempts
      → Tries cfg db old new db'
  untouched :
      old.execution_status ≢ running
      → new.execution_status ≢ running
      → db'.attempts ≡ db.attempts
      → Tries cfg db old new db'

pub attempts-Finishes : (mid db' : Db) → Finishes mid db' → db'.attempts ≡ mid.attempts
attempts-Finishes mid db' (plain e) = rw e
attempts-Finishes mid db' (job env run done) = (finalize_keeps env run mid db' done).0

-- A run that a move leases has a stored policy within its contract.
pub leased-Tries :
    (cfg : ExecutionConfig) (db : Db) (old new : Run) (db' : Db)
    → Tries cfg db old new db'
    → new.execution_status ≡ running
    → (policy : RetryPolicy) × (from_snapshot old.policy_snapshot ≡ ok policy)
leased-Tries cfg db old new db' (opens _ _ o) h = (o.policy, o.stored)
leased-Tries cfg db old new db' (closes _ _ idle _ _) h = absurd (idle h)
leased-Tries cfg db old new db' (untouched _ idle _) h = absurd (idle h)
