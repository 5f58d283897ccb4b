-- ===== src/Runs/Replay.antt =====
-- `replay`, `submit_regression` and `job_policy` of src/agent_runtime/infrastructure/database/run_service.py.
use agent_reliability_runtim.Prelude.{
  ℕ, String, Bool, false, not, Option, none, some, if◌then◌else◌,
}
use agent_reliability_runtim.Prelude.Result.{Result, ok, raise, run_not_found, ◌>>=◌, ◌>>◌}
use agent_reliability_runtim.Json.{
  pos, finite, Json, int, float, str, arr, obj, nil, cons, Fields, end, field,
}
use agent_reliability_runtim.Domain.States.{queued, not_run}
use agent_reliability_runtim.Quotas.{QuotaLimits, check_admission}
use agent_reliability_runtim.Store.{
  Uuid, Run, execution, regression, replay_created, run_replay_queued, Delivery, replayed, Db,
  add_event, add_outbox,
}
use agent_reliability_runtim.Execution.Common.{or_default, is_execution}
use agent_reliability_runtim.Runs.{
  RunSnapshot, to_run_snapshot, find_by_idempotency_key, get_run_for_client, match_replay_or_raise,
  answer_existing, get_idempotent_run_after_race, ApiEnv, add_run, canonical_request_hash, submit,
}

-- The constructor argument of the service, in microseconds.
unfoldable pub job_policy : ℕ → Fields
job_policy job_timeout = field "max_attempts" (int (pos 1)) (
    field "attempt_timeout_seconds" (float (finite (pos job_timeout))) (
      field "initial_backoff_seconds" (int (pos 1)) (
        field "max_backoff_seconds" (int (pos 1))
          (field "provider_order" (arr (cons (str "deterministic") nil)) end))))

unfoldable pub replay_run : ApiEnv → String → String → String → String → Run → Run
replay_run api client_id principal_id idempotency_key hash source = record {
  id = api.env.uuid 0;
  client_id = client_id;
  principal_id = some principal_id;
  work_kind = execution;
  idempotency_key = idempotency_key;
  request_hash = hash;
  input_payload = source.input_payload;
  policy_snapshot = source.policy_snapshot;
  trace_context = api.trace_context;
  execution_status = queued;
  evaluation_status = not_run;
  result_payload = none;
  error_code = none;
  created_at = api.env.server_now;
  started_at = none;
  completed_at = none;
  execution_lease_owner = none;
  execution_lease_expires_at = none;
  next_attempt_at = none;
  replay_of_run_id = some source.id;
}

-- The rows of an accepted replay.
unfoldable pub accept_replay : ApiEnv → Run → Run → Db → Db
accept_replay api source run db = add_event api.env 3 run.id none (run_replay_queued source.id) (
    add_event api.env 2 source.id none (replay_created run.id) (
      add_outbox api.env 1 run.id (Delivery.run_queued replayed) api.trace_context
        (add_run run db)))

module _ (digest : Json → String) (uuid_text : Uuid → String) where
  unfoldable pub replay_hash : Run → String
  replay_hash source =
      canonical_request_hash digest
        (field "replay_of_run_id" (str (uuid_text source.id))
          (field "input" (obj source.input_payload) end))
        source.policy_snapshot

  unfoldable pub replay :
      QuotaLimits
      → ApiEnv
      → String
      → Uuid
      → String
      → Option String
      → Db
      → Result ((RunSnapshot × Bool) × Db)
  replay quotas api client_id run_id idempotency_key principal_id db = do
    let principal = or_default principal_id client_id
    source ← get_run_for_client client_id run_id db
    if not (is_execution source.work_kind)
        then raise run_not_found
        else elim (find_by_idempotency_key client_id idempotency_key db) [
          | some existing ↦
              answer_existing existing
                (match_replay_or_raise existing (replay_hash source) source.id) db
          | none ↦
              check_admission api.epoch principal client_id quotas db
              >> (let run =
                    replay_run api client_id principal idempotency_key (replay_hash source)
                      source in
                  ok ((to_run_snapshot run, false), accept_replay api source run db))
        ]

  -- The handler of `IntegrityError` in `replay`.
  unfoldable pub replay_after_race :
      String → Uuid → String → Db → Result ((RunSnapshot × Bool) × Db)
  unfolding get_idempotent_run_after_race
  replay_after_race client_id run_id idempotency_key db =
      get_idempotent_run_after_race client_id idempotency_key db >>= λ existing.
      get_run_for_client client_id run_id db >>= λ source.
      answer_existing existing (match_replay_or_raise existing (replay_hash source) source.id) db

-- `submit_regression`
module _ (digest : Json → String) where
  unfoldable pub submit_regression :
      QuotaLimits
      → ℕ
      → ApiEnv
      → String
      → String
      → Fields
      → String
      → Db
      → Result ((RunSnapshot × Bool) × Db)
  submit_regression quotas job_timeout api client_id principal_id payload idempotency_key =
      submit digest quotas api (record {
        client_id = client_id;
        idempotency_key = idempotency_key;
        input_payload = payload;
        policy_snapshot = job_policy job_timeout;
        principal_id = some principal_id;
        work_kind = regression;
      })
