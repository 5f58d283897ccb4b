-- ===== src/Execution/Claim.antt =====
-- `ExecutionPersistenceService.claim`, with the result type of src/agent_runtime/application/execution.py.
use agent_reliability_runtim.Prelude.{
  ℕ, zero, suc, ◌+◌, ◌-◌, ◌*◌, min, String, Bool, true, false, not, ◌&&◌, Option, none, some, [],
  ◌∷◌, ◌++◌, ltb, leb, str_eq, is_text, count, length, get_elem?, if◌then◌else◌,
}
use agent_reliability_runtim.Prelude.Result.{
  Error, Result, ok, raise, index_error, value_error, ◌>>=◌,
}
use agent_reliability_runtim.Json.{pos, negsuc, Json, int, float, finite, Fields, put}
use agent_reliability_runtim.Domain.States.{
  queued, running, retry_scheduled, failed, same_status, is_terminal_execution_status,
}
use agent_reliability_runtim.Domain.Retry.{RetryPolicy, second, from_snapshot}
use agent_reliability_runtim.Store.{Uuid, Time, Run, RunAttempt, Db, Env, run_claimed, add_event}
use agent_reliability_runtim.Execution.Common.{
  ExecutionConfig, or_default, find_run, put_run, next_attempt_number, finalize_evaluation_job,
}

pub data ClaimDecision : Type 0 where
  claimed missing terminal active_lease not_ready : ClaimDecision

pub record ClaimResult : Type 0 where
  pub decision : ClaimDecision
  pub run_id : Uuid
  pub attempt_id : Option Uuid
  pub input_payload : Option Fields
  pub policy_snapshot : Option Fields
  pub provider : Option String

-- A result with its decision alone.
abbrev pub declined : ClaimDecision → Uuid → ClaimResult
declined decision run_id = record {
  decision = decision;
  run_id = run_id;
  attempt_id = none;
  input_payload = none;
  policy_snapshot = none;
  provider = none;
}

unfoldable pub count_principal_running : String → Db → ℕ
count_principal_running p db =
    count (λ run. is_text run.principal_id p && same_status run.execution_status running) db.runs

unfoldable pub count_tenant_running : String → Db → ℕ
count_tenant_running t db =
    count (λ run. str_eq run.client_id t && same_status run.execution_status running) db.runs

-- No capacity: try again in a second.
unfoldable pub postponed : Env → Run → Run
postponed env run = record run {
  execution_status = retry_scheduled;
  next_attempt_at = some (env.now + second);
}

-- The stored policy is not valid, or its attempts are used up.
unfoldable pub rejected : Env → Run → Run
rejected env run = record run {
  execution_status = failed;
  error_code = some "INVALID_STORED_POLICY";
  completed_at = some env.now;
}

unfoldable pub fail_claim : Env → Run → Db → Result (ClaimResult × Db)
fail_claim env run db =
    finalize_evaluation_job env (rejected env run) (put_run (rejected env run) db) >>= λ db'.
    ok (declined terminal run.id, db')

or_now : Option Time → Time → Time
or_now none now = now
or_now (some t) now = t

-- The run as the worker holds it.
unfoldable pub leased : ExecutionConfig → Env → String → Run → Run
unfolding or_now
leased cfg env worker_id run = record run {
  execution_status = running;
  execution_lease_owner = some worker_id;
  execution_lease_expires_at = some (env.now + cfg.lease_seconds * second);
  started_at = some (or_now run.started_at env.now);
}

unfoldable pub new_attempt : Env → String → Run → ℕ → String → RunAttempt
new_attempt env worker_id run attempt_number provider = record {
  id = env.uuid 0;
  run_id = run.id;
  attempt_number = attempt_number;
  provider = provider;
  worker_id = worker_id;
  started_at = env.server_now;
  finished_at = none;
  outcome = none;
  error_code = none;
  retryable = none;
  latency_ms = none;
  usage_metadata = none;
}

-- `min(retry_policy.attempt_timeout_seconds, self._lease_seconds - 1)`, a float or an int.
unfoldable pub claimed_timeout : ℕ → ℕ → Json
claimed_timeout timeout zero = int (negsuc 0)
claimed_timeout timeout (suc lease) =
    if ltb (lease * second) timeout then int (pos lease) else float (finite (pos timeout))

-- `{**run.policy_snapshot, "attempt_timeout_seconds": …}`
unfoldable pub claimed_policy : ExecutionConfig → RetryPolicy → Run → Fields
unfolding claimed_timeout
claimed_policy cfg policy run =
    put "attempt_timeout_seconds" (claimed_timeout policy.attempt_timeout cfg.lease_seconds)
      run.policy_snapshot

unfoldable pub start_attempt :
    ExecutionConfig → Env → String → Run → RetryPolicy → ℕ → String → Db → ClaimResult × Db
start_attempt cfg env worker_id run policy attempt_number provider db = (
  record {
    decision = claimed;
    run_id = run.id;
    attempt_id = some (env.uuid 0);
    input_payload = some run.input_payload;
    policy_snapshot = some (claimed_policy cfg policy run);
    provider = some provider;
  },
  add_event env 1 run.id (some (env.uuid 0)) (run_claimed worker_id attempt_number)
      (record (put_run (leased cfg env worker_id run) db) {
        attempts = db.attempts ++ new_attempt env worker_id run attempt_number provider ∷ [];
      }),
)

-- `provider_order[min(attempt_number - 1, len(provider_order) - 1)]`
unfoldable pub provider_for : RetryPolicy → ℕ → Result String
provider_for policy attempt_number =
    elim (get_elem? policy.provider_order
      (min (attempt_number - 1) (length policy.provider_order - 1))) [
        | none ↦ raise index_error
        | some provider ↦ ok provider
      ]

-- `except ValueError`
unfoldable pub is_value_error : Error → Bool
is_value_error value_error = true
is_value_error _ = false

unfoldable pub claim_policy :
    ExecutionConfig → Env → String → Run → ℕ → Result RetryPolicy → Db → Result (ClaimResult × Db)
claim_policy cfg env worker_id run attempt_number (raise e) db =
    if is_value_error e then fail_claim env run db else raise e
claim_policy cfg env worker_id run attempt_number (ok policy) db =
    if ltb (min policy.max_attempts cfg.max_attempts) attempt_number
    then fail_claim env run db
    else (provider_for policy attempt_number >>= λ provider.
        ok (start_attempt cfg env worker_id run policy attempt_number provider db))

-- A queued run: capacity, then the budget of attempts, then the lease.
unfoldable pub claim_queued : ExecutionConfig → Env → String → Run → Db → Result (ClaimResult × Db)
claim_queued cfg env worker_id run db =
    if leb cfg.quotas.principal_running
      (count_principal_running (or_default run.principal_id run.client_id) db)
    then ok (declined not_ready run.id, put_run (postponed env run) db)
    else if leb cfg.quotas.tenant_running (count_tenant_running run.client_id db)
    then ok (declined not_ready run.id, put_run (postponed env run) db)
    else claim_policy cfg env worker_id run (next_attempt_number run.id db)
        (from_snapshot run.policy_snapshot) db

-- `expires_at is None or expires_at > now`
unfoldable pub lease_holds : Option Time → Time → Bool
lease_holds none now = true
lease_holds (some t) now = ltb now t

unfoldable pub claim_run : ExecutionConfig → Env → String → Run → Db → Result (ClaimResult × Db)
claim_run cfg env worker_id run db =
    if is_terminal_execution_status run.execution_status
    then ok (declined terminal run.id, db)
    else if same_status run.execution_status running
    then (if lease_holds run.execution_lease_expires_at env.now
        then ok (declined active_lease run.id, db)
        else ok (declined not_ready run.id, db))
    else if not (same_status run.execution_status queued)
    then ok (declined not_ready run.id, db)
    else claim_queued cfg env worker_id run db

unfoldable pub claim : ExecutionConfig → Env → Uuid → String → Db → Result (ClaimResult × Db)
claim cfg env run_id worker_id db = elim (find_run run_id db) [
  | none ↦ ok (declined missing run_id, db)
  | some run ↦ claim_run cfg env worker_id run db
]
