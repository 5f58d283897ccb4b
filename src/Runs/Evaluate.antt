-- ===== src/Runs/Evaluate.antt =====
-- `evaluate` of src/agent_runtime/infrastructure/database/run_service.py: an evaluation is a job of its
-- own, queued with the row that will hold its result.
use Prim.Native.String.{◌++◌ as append}
use agent_reliability_runtim.Prelude.{
  ℕ, String, Bool, ◌&&◌, Option, none, some, List, [], ◌∷◌, ◌++◌, length, is_some, if◌then◌else◌,
}
use agent_reliability_runtim.Prelude.Result.{
  Result, ok, raise, run_not_succeeded, integrity_error, ◌>>=◌, ◌>>◌,
}
use agent_reliability_runtim.Json.{Json, int, pos, str, arr, Fields, end, field}
use agent_reliability_runtim.Domain.States.{queued, succeeded, not_run, pending, same_status}
use agent_reliability_runtim.Quotas.{QuotaLimits, check_admission}
use agent_reliability_runtim.Store.{
  Uuid, Run, evaluation, RunFact, evaluation_changed, Delivery, first_time, Evaluation, Db,
  add_event, add_outbox,
}
use agent_reliability_runtim.Execution.Common.{or_default, put_run, is_execution}
use agent_reliability_runtim.Evaluation.Safety.{as_items, validate_rules}
use agent_reliability_runtim.Runs.{
  find_by_idempotency_key, get_run_for_client, ApiEnv, add_run, canonical_request_hash,
}
use agent_reliability_runtim.Runs.Replay.{job_policy}
use agent_reliability_runtim.Runs.History.{EvaluationSnapshot, to_evaluation_snapshot}

-- A successful execution, with a result.
unfoldable pub is_evaluable : Run → Bool
is_evaluable run =
    is_execution run.work_kind
    && same_status run.execution_status succeeded
    && is_some run.result_payload

-- The row of the evaluation, until its job ends.
unfoldable pub pending_evaluation : (Uuid → String) → ApiEnv → Uuid → ℕ → Uuid → Evaluation
pending_evaluation uuid_text api run_id rule_count job_id = record {
  id = api.env.uuid 1;
  run_id = run_id;
  evaluator = "deterministic_rules";
  job_run_id = some job_id;
  status = pending;
  result = none;
  details =
      some (
        field "rule_count" (int (pos rule_count))
          (field "job_run_id" (str (uuid_text job_id)) end));
  created_at = api.env.server_now;
  completed_at = none;
}

unfoldable pub add_evaluation : Evaluation → Db → Db
add_evaluation e db = record db { evaluations = db.evaluations ++ e ∷ [] }

unfoldable pub show_pending : Run → Db → Db
show_pending run db = put_run (record run { evaluation_status = pending }) db

-- The rows of an accepted evaluation. The code inserts the job before it marks the source; the tables
-- come out the same.
unfoldable pub accept_evaluation : ApiEnv → Run → Evaluation → Run → Db → Db
accept_evaluation api job e run db =
    add_event api.env 4 run.id none (evaluation_changed pending job.id) (
      add_event api.env 3 job.id none (RunFact.run_queued (some evaluation)) (
        add_outbox api.env 2 job.id (Delivery.run_queued first_time) api.trace_context
          (add_evaluation e (add_run job (show_pending run db)))))

module _ (digest : Json → String) (uuid_text : Uuid → String) where
  unfoldable pub evaluation_job : ℕ → ApiEnv → String → String → Uuid → List Fields → Run
  evaluation_job job_timeout api client_id principal_id run_id rules = record {
    id = api.env.uuid 0;
    client_id = client_id;
    principal_id = some principal_id;
    work_kind = evaluation;
    idempotency_key = append "evaluation-" (uuid_text (api.env.uuid 5));
    request_hash =
        canonical_request_hash digest (field "source" (str (uuid_text run_id)) end)
          (field "rules" (arr (as_items rules)) end);
    input_payload =
        field "source_run_id" (str (uuid_text run_id)) (field "rules" (arr (as_items rules)) end);
    policy_snapshot = job_policy job_timeout;
    trace_context = api.trace_context;
    execution_status = queued;
    evaluation_status = not_run;
    result_payload = none;
    error_code = none;
    created_at = api.env.server_now;
    started_at = none;
    completed_at = none;
    execution_lease_owner = none;
    execution_lease_expires_at = none;
    next_attempt_at = none;
    replay_of_run_id = none;
  }

  module _ (check_schema : Json → Bool) where
    -- The unique constraint refuses a job whose key the client has used.
    unfoldable pub evaluate :
        QuotaLimits
        → ℕ
        → ApiEnv
        → String
        → Uuid
        → List Fields
        → Option String
        → Db
        → Result (EvaluationSnapshot × Db)
    evaluate quotas job_timeout api client_id run_id rules principal_id db = do
      let principal = or_default principal_id client_id
      let job = evaluation_job job_timeout api client_id principal run_id rules
      let e = pending_evaluation uuid_text api run_id (length rules) job.id
      validate_rules check_schema rules
      run ← get_run_for_client client_id run_id db
      (if is_evaluable run then ok tt else raise run_not_succeeded)
      check_admission api.epoch principal client_id quotas db
      (if is_some (find_by_idempotency_key client_id job.idempotency_key db)
          then raise integrity_error
          else ok tt)
      ok (to_evaluation_snapshot e, accept_evaluation api job e run db)
