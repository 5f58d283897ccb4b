-- ===== src/Store/Tables.antt =====
-- The mapped classes of models.py. Identifiers are 128-bit numbers, of which only equality and
-- order matter; a time is a number of
-- microseconds since the start of 1970. Event types and their metadata are one
-- constructor each. The column `version`, SQLAlchemy's own counter, and the score of an
-- evaluation, which no code sets, are left out.
use agent_reliability_runtim.Prelude.{ℕ, String, Bool, Option, none, List, [], ◌∷◌, ◌++◌}
use agent_reliability_runtim.Json.{ℤ, Fields}
use agent_reliability_runtim.Domain.States.{ExecutionStatus, EvaluationStatus}

abbrev pub Uuid : Type 0
Uuid = ℕ

abbrev pub Time : Type 0
Time = ℕ

pub data WorkKind : Type 0 where
  execution evaluation regression : WorkKind

pub record Run : Type 0 where
  pub id : Uuid
  pub client_id : String
  pub principal_id : Option String
  pub work_kind : WorkKind
  pub idempotency_key : String
  pub request_hash : String
  pub input_payload : Fields
  pub policy_snapshot : Fields
  pub trace_context : Fields
  pub execution_status : ExecutionStatus
  pub evaluation_status : EvaluationStatus
  pub result_payload : Option Fields
  pub error_code : Option String
  pub created_at : Time
  pub started_at : Option Time
  pub completed_at : Option Time
  pub execution_lease_owner : Option String
  pub execution_lease_expires_at : Option Time
  pub next_attempt_at : Option Time
  pub replay_of_run_id : Option Uuid

pub data Outcome : Type 0 where
  succeeded failed : Outcome

pub record RunAttempt : Type 0 where
  pub id : Uuid
  pub run_id : Uuid
  pub attempt_number : ℕ
  pub provider : String
  pub worker_id : String
  pub started_at : Time
  pub finished_at : Option Time
  pub outcome : Option Outcome
  pub error_code : Option String
  pub retryable : Option Bool
  pub latency_ms : Option ℤ
  pub usage_metadata : Option Fields

-- Why a run was queued again: the `reason` of the payload.
pub data Reason : Type 0 where
  first_time retry_due replayed : Reason

-- `event_type` with `metadata_`.
pub data RunFact : Type 0 where
  -- `none` stands for the metadata `source: api`.
  run_queued : Option WorkKind → RunFact
  routing_decision_recorded : Fields → RunFact
  run_claimed : String → ℕ → RunFact
  run_succeeded : String → RunFact
  run_retry_scheduled : String → ℕ → Time → ℕ → Bool → RunFact
  run_dead_lettered : String → ℕ → ℕ → Bool → RunFact
  run_failed : String → Bool → RunFact
  run_retry_queued : Time → RunFact
  evaluation_changed : EvaluationStatus → Uuid → RunFact
  replay_created run_replay_queued : Uuid → RunFact
  outbox_published : Uuid → RunFact
  outbox_publish_failed : Uuid → String → RunFact

pub record RunEvent : Type 0 where
  pub id : Uuid
  pub run_id : Uuid
  pub attempt_id : Option Uuid
  pub fact : RunFact
  pub created_at : Time

-- `event_type` with what `payload` holds beside the trace context.
pub data Delivery : Type 0 where
  run_queued : Reason → Delivery
  run_dead_lettered : String → Delivery

pub record OutboxEvent : Type 0 where
  pub id : Uuid
  pub aggregate_id : Uuid
  pub delivery : Delivery
  pub trace_context : Fields
  pub created_at : Time
  pub published_at : Option Time
  pub publish_attempts : ℕ
  pub last_error : Option String

pub record Evaluation : Type 0 where
  pub id : Uuid
  pub run_id : Uuid
  pub evaluator : String
  pub job_run_id : Option Uuid
  pub status : EvaluationStatus
  pub result : Option Fields
  pub details : Option Fields
  pub created_at : Time
  pub completed_at : Option Time

pub data Scope : Type 0 where
  principal tenant : String → Scope

pub record ProviderQuota : Type 0 where
  pub scope : Scope
  pub window_start : ℕ
  pub used : ℕ

pub record Db : Type 0 where
  pub runs : List Run
  pub attempts : List RunAttempt
  pub events : List RunEvent
  pub outbox : List OutboxEvent
  pub evaluations : List Evaluation
  pub quotas : List ProviderQuota

-- What a transaction takes from outside: the worker's clock, the server's transaction time, the
-- identifiers that `uuid4` draws, and the rows that other transactions have locked.
pub record Env : Type 0 where
  pub now : Time
  pub server_now : Time
  pub uuid : ℕ → Uuid
  pub locked : Uuid → Bool

unfoldable pub add_event : Env → ℕ → Uuid → Option Uuid → RunFact → Db → Db
add_event env n run_id attempt_id fact db = record db {
  events =
      db.events
      ++ record {
        id = env.uuid n;
        run_id = run_id;
        attempt_id = attempt_id;
        fact = fact;
        created_at = env.server_now;
      }
        ∷ [];
}

unfoldable pub add_outbox : Env → ℕ → Uuid → Delivery → Fields → Db → Db
add_outbox env n run_id delivery trace_context db = record db {
  outbox =
      db.outbox
      ++ record {
        id = env.uuid n;
        aggregate_id = run_id;
        delivery = delivery;
        trace_context = trace_context;
        created_at = env.server_now;
        published_at = none;
        publish_attempts = 0;
        last_error = none;
      }
        ∷ [];
}
