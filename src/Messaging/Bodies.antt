-- ===== src/Messaging/Bodies.antt =====
-- The bodies of messages: `publish` and `message_payload` of publisher.py, and what `RabbitMqWorker` of
-- worker.py reads from a body. The text of an identifier, and `json`, are parameters.
use agent_reliability_runtim.Prelude.{String, Option, none, some}
use agent_reliability_runtim.Prelude.Result.{Result, ok, raise, value_error, ◌>>=◌}
use agent_reliability_runtim.Json.{Json, str, obj, Fields, end, field, get, get_or}
use agent_reliability_runtim.Store.{Uuid, OutboxEvent, Db, Env}
use agent_reliability_runtim.Execution.Common.{ExecutionConfig}
use agent_reliability_runtim.Security.Vault.{Bytes}
use agent_reliability_runtim.Messaging.Traces.{sanitize_trace_context, kept_headers}
use agent_reliability_runtim.Messaging.Worker.{Handling, receive}

-- `str` and `UUID`, and `json.dumps` with its encoding and `json.loads`. What `loads` raises for a body
-- that is not JSON is a `ValueError`; it may raise others, such as `RecursionError`.
pub record Wire : Type 0 where
  pub text_of : Uuid → String
  pub uuid_of : String → Option Uuid
  pub dumps : Json → Bytes
  pub loads : Bytes → Result Json

module _ (wire : Wire) where
  -- `message_payload`
  unfoldable pub payload_fields : OutboxEvent → Fields
  payload_fields event = field "event_id" (str (wire.text_of event.id)) (
      field "run_id" (str (wire.text_of event.aggregate_id))
        (field "trace_context" (obj (sanitize_trace_context event.trace_context)) end))

  -- The body that `publish` sends.
  unfoldable pub body_of : OutboxEvent → Bytes
  unfolding payload_fields
  body_of event = wire.dumps (obj (payload_fields event))

  unfoldable pub as_mapping : Json → Result Fields
  as_mapping (obj d) = ok d
  as_mapping _ = raise value_error

  -- `_message_payload`
  unfoldable pub payload_of_body : Bytes → Result Fields
  unfolding as_mapping
  payload_of_body body = wire.loads body >>= as_mapping

  unfoldable pub run_id_in : Option Json → Result Uuid
  run_id_in (some (str s)) = elim (wire.uuid_of s) [ none ↦ raise value_error | some id ↦ ok id ]
  run_id_in _ = raise value_error

  unfoldable pub run_id_from_message : Bytes → Result Uuid
  unfolding payload_of_body run_id_in
  run_id_from_message body = payload_of_body body >>= λ payload. run_id_in (get "run_id" payload)

  unfoldable pub headers_in : Json → Fields
  headers_in (obj d) = sanitize_trace_context (kept_headers d)
  headers_in _ = end

  unfoldable pub trace_context_in : Result Fields → Result Fields
  unfolding headers_in
  trace_context_in (raise value_error) = ok end
  trace_context_in (raise e) = raise e
  trace_context_in (ok payload) = ok (headers_in (get_or "trace_context" (obj end) payload))

  unfoldable pub trace_context_from_message : Bytes → Result Fields
  unfolding payload_of_body trace_context_in
  trace_context_from_message body = trace_context_in (payload_of_body body)

  module _ (cfg : ExecutionConfig) (env : Env) (worker_id : String) where
    unfoldable pub handle_parsed : Bytes → Result Uuid → Db → Result Handling
    handle_parsed body (raise value_error) db = ok (receive cfg env worker_id none db)
    handle_parsed body (raise e) db = raise e
    handle_parsed body (ok run_id) db = trace_context_from_message body >>= λ trace_context.
        ok (receive cfg env worker_id (some run_id) db)

    -- `_handle_delivery`, as far as the claim.
    unfoldable pub handle_delivery : Bytes → Db → Result Handling
    unfolding handle_parsed
    handle_delivery body db = handle_parsed body (run_id_from_message body) db
