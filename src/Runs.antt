-- ===== src/Runs.antt =====
-- src/agent_runtime/infrastructure/database/run_service.py: durable submission and replay, and the
-- reads of a run, with the snapshot types of src/agent_runtime/application/runs.py. The digest is SHA-256
-- over the sorted JSON text; it and the text of an identifier are parameters.
pub mod Replay
pub mod Submission
pub mod Retried
pub mod Replayed
pub mod Replays
pub mod Evaluate
pub mod Evaluated
pub mod History
use agent_reliability_runtim.Prelude.{
  ℕ, ◌+◌, String, Bool, true, false, not, ◌&&◌, ◌||◌, Option, none, some, List, [], ◌∷◌, ◌++◌,
  str_eq, ◌==◌, first_row, if◌then◌else◌,
}
use agent_reliability_runtim.Prelude.Result.{
  Result, ok, raise, index_error, type_error, key_error, runtime_error, run_not_found,
  idempotency_conflict, ◌>>=◌, ◌>>◌,
}
use agent_reliability_runtim.Json.{
  Json, null, boolean, int, float, str, arr, obj, Items, nil, cons, Fields, end, field, get, get_or,
  put,
}
use agent_reliability_runtim.Domain.States.{ExecutionStatus, queued, EvaluationStatus, not_run}
use agent_reliability_runtim.Quotas.{QuotaLimits, check_admission}
use agent_reliability_runtim.Store.{
  Uuid, Time, Run, WorkKind, execution, evaluation, regression, RunFact, routing_decision_recorded,
  replay_created, run_replay_queued, Delivery, Reason, first_time, replayed, Db, Env, add_event,
  add_outbox,
}
use agent_reliability_runtim.Execution.Common.{or_default, is_execution}

-- `isinstance(value, dict)`
unfoldable pub as_object : Option Json → Option Fields
as_object (some (obj d)) = some d
as_object _ = none

-- `_routing_decision`
unfoldable pub routing_decision : Fields → Option Fields
routing_decision policy = elim (as_object (get "routing" policy)) [
  | none ↦ none
  | some routing ↦ as_object (get "decision" routing)
]

pub record RunSnapshot : Type 0 where
  pub id : Uuid
  pub execution_status : ExecutionStatus
  pub evaluation_status : EvaluationStatus
  pub created_at : Time
  pub started_at : Option Time
  pub completed_at : Option Time
  pub replay_of_run_id : Option Uuid
  pub error_code : Option String
  pub routing : Option Fields
  pub work_kind : WorkKind
  pub result_payload : Option Fields

-- `_to_run_snapshot`; a stored run has its creation time.
unfoldable pub to_run_snapshot : Run → RunSnapshot
to_run_snapshot run = record {
  id = run.id;
  execution_status = run.execution_status;
  evaluation_status = run.evaluation_status;
  created_at = run.created_at;
  started_at = run.started_at;
  completed_at = run.completed_at;
  replay_of_run_id = run.replay_of_run_id;
  error_code = run.error_code;
  routing = routing_decision run.policy_snapshot;
  work_kind = run.work_kind;
  result_payload = run.result_payload;
}

unfoldable pub has_key : String → String → Run → Bool
has_key client_id idempotency_key run =
    str_eq run.client_id client_id && str_eq run.idempotency_key idempotency_key

-- `_find_by_idempotency_key`
unfoldable pub find_by_idempotency_key : String → String → Db → Option Run
find_by_idempotency_key client_id idempotency_key db =
    first_row (has_key client_id idempotency_key) db.runs

-- `_get_run_for_client`
unfoldable pub get_run_for_client : String → Uuid → Db → Result Run
get_run_for_client client_id run_id db =
    elim (first_row (λ (r : Run). r.id == run_id && str_eq r.client_id client_id) db.runs) [
      | none ↦ raise run_not_found
      | some run ↦ ok run
    ]

unfoldable pub get_run : String → Uuid → Db → Result RunSnapshot
get_run client_id run_id db =
    get_run_for_client client_id run_id db >>= λ run. ok (to_run_snapshot run)

-- `_match_or_raise`
unfoldable pub match_or_raise : Run → String → Result Bool
match_or_raise run request_hash =
    if not (str_eq run.request_hash request_hash) then raise idempotency_conflict else ok true

is_source : Option Uuid → Uuid → Bool
is_source none id = false
is_source (some s) id = s == id

-- `_match_replay_or_raise`
unfoldable pub match_replay_or_raise : Run → String → Uuid → Result Bool
unfolding is_source
match_replay_or_raise run request_hash source_run_id =
    if not (str_eq run.request_hash request_hash)
      || not (is_source run.replay_of_run_id source_run_id)
    then raise idempotency_conflict
    else ok true

-- `return self._to_run_snapshot(existing), …`
unfoldable pub answer_existing : Run → Result Bool → Db → Result ((RunSnapshot × Bool) × Db)
answer_existing existing matched db = matched >>= λ same. ok ((to_run_snapshot existing, same), db)

-- `_get_idempotent_run_after_race`
unfoldable pub get_idempotent_run_after_race : String → String → Db → Result Run
get_idempotent_run_after_race client_id idempotency_key db =
    elim (find_by_idempotency_key client_id idempotency_key db) [
      | none ↦ raise runtime_error
      | some existing ↦ ok existing
    ]

-- `policy_snapshot.get("provider_order", ["deterministic"])[0]`, which the metrics need.
unfoldable pub first_provider : Fields → Result Json
first_provider policy = elim (get "provider_order" policy) [
  | none ↦ ok (str "deterministic")
  | some (arr (cons p _)) ↦ ok p
  | some (arr nil) ↦ raise index_error
  | some (str String.[]) ↦ raise index_error
  | some (str (String.◌∷◌ c s)) ↦ ok (str (String.◌∷◌ c String.[]))
  | some (obj _) ↦ raise key_error
  | some _ ↦ raise type_error
]

unfoldable pub work_kind_value : WorkKind → String
work_kind_value execution = "execution"
work_kind_value evaluation = "evaluation"
work_kind_value regression = "regression"

-- What a call reads beside the tables: the clocks and identifiers, the database clock in seconds and
-- the caller's trace context.
pub record ApiEnv : Type 0 where
  pub env : Env
  pub epoch : ℕ
  pub trace_context : Fields

-- The arguments of `submit`.
pub record Request : Type 0 where
  pub client_id : String
  pub idempotency_key : String
  pub input_payload : Fields
  pub policy_snapshot : Fields
  pub principal_id : Option String
  pub work_kind : WorkKind

-- The four entries of the decision that the event keeps.
decision_facts : Fields → Fields
decision_facts d = field "strategy" (get_or "strategy" null d) (
    field "selected_provider" (get_or "selected_provider" null d) (
      field "reason" (get_or "reason" null d)
        (field "metrics_source" (get_or "metrics_source" null d) end)))

unfoldable pub record_routing : Env → Uuid → Fields → Db → Db
unfolding decision_facts
record_routing env run_id policy db = elim (routing_decision policy) [
  | none ↦ db
  | some decision ↦
      add_event env 3 run_id none (routing_decision_recorded (decision_facts decision)) db
]

unfoldable pub queued_run : ApiEnv → Request → String → Run
queued_run api r request_hash = record {
  id = api.env.uuid 0;
  client_id = r.client_id;
  principal_id = some (or_default r.principal_id r.client_id);
  work_kind = r.work_kind;
  idempotency_key = r.idempotency_key;
  request_hash = request_hash;
  input_payload = r.input_payload;
  policy_snapshot = r.policy_snapshot;
  trace_context = api.trace_context;
  execution_status = queued;
  evaluation_status = not_run;
  result_payload = none;
  error_code = none;
  created_at = api.env.server_now;
  started_at = none;
  completed_at = none;
  execution_lease_owner = none;
  execution_lease_expires_at = none;
  next_attempt_at = none;
  replay_of_run_id = none;
}

unfoldable pub add_run : Run → Db → Db
add_run run db = record db { runs = db.runs ++ run ∷ [] }

-- The rows of an accepted request.
unfoldable pub accept : ApiEnv → Run → Db → Db
accept api run db = record_routing api.env run.id run.policy_snapshot (
    add_event api.env 2 run.id none (RunFact.run_queued none) (
      add_outbox api.env 1 run.id (Delivery.run_queued first_time) api.trace_context
        (add_run run db)))

module _ (digest : Json → String) where
  unfoldable pub canonical_request_hash : Fields → Fields → String
  canonical_request_hash input_payload policy_snapshot =
      digest (obj (field "input" (obj input_payload) (field "policy" (obj policy_snapshot) end)))

  -- The hash that `submit` stores: a job's kind is part of its policy there.
  unfoldable pub request_hash : Request → String
  request_hash r = canonical_request_hash r.input_payload (
      if is_execution r.work_kind
      then r.policy_snapshot
      else put "work_kind" (str (work_kind_value r.work_kind)) r.policy_snapshot)

  unfoldable pub submit_new :
      QuotaLimits → ApiEnv → Request → Db → Result ((RunSnapshot × Bool) × Db)
  submit_new quotas api r db = do
    check_admission api.epoch (or_default r.principal_id r.client_id) r.client_id quotas db
    let run = queued_run api r (request_hash r)
    provider ← first_provider r.policy_snapshot
    ok ((to_run_snapshot run, false), accept api run db)

  unfoldable pub submit : QuotaLimits → ApiEnv → Request → Db → Result ((RunSnapshot × Bool) × Db)
  submit quotas api r db = elim (find_by_idempotency_key r.client_id r.idempotency_key db) [
    | some existing ↦ answer_existing existing (match_or_raise existing (request_hash r)) db
    | none ↦ submit_new quotas api r db
  ]

  -- The handler of `IntegrityError` in `submit`: another request took the key first.
  unfoldable pub submit_after_race : Request → Db → Result ((RunSnapshot × Bool) × Db)
  unfolding get_idempotent_run_after_race
  submit_after_race r db =
      get_idempotent_run_after_race r.client_id r.idempotency_key db >>= λ existing.
      answer_existing existing (match_or_raise existing (request_hash r)) db
