-- ===== src/Messaging/Delivered.antt =====
-- From the outbox to the worker: a published message is read as the delivery that it stands for.
use agent_reliability_runtim.Prelude.{String, ◌≡◌, refl, ap, Bool, true, false, some, [], ◌∷◌}
use agent_reliability_runtim.Prelude.Result.{ok}
use agent_reliability_runtim.Json.{obj, get, get_or}
use agent_reliability_runtim.Store.{OutboxEvent, Delivery, Db, Env}
use agent_reliability_runtim.Execution.Common.{ExecutionConfig}
use agent_reliability_runtim.Messaging.{destination_for}
use agent_reliability_runtim.Messaging.Traces.{sanitize_trace_context}
use agent_reliability_runtim.Messaging.Sanitized.{sanitize-sanitize}
use agent_reliability_runtim.Messaging.Topology.{
  queue_name, dead_letter_queue_name, queues_for, is_consumed,
}
use agent_reliability_runtim.Messaging.Bodies.{
  Wire, payload_fields, body_of, payload_of_body, run_id_in, run_id_from_message, headers_in,
  trace_context_in, trace_context_from_message, handle_parsed, handle_delivery,
}
use agent_reliability_runtim.Messaging.Worker.{receive}

-- Whether a row of the outbox asks for work.
abbrev pub asks_for_work : OutboxEvent → Bool
asks_for_work event = elim event.delivery [
  | Delivery.run_queued _ ↦ true
  | Delivery.run_dead_lettered _ ↦ false
]

-- Its queue.
reached :
    (event : OutboxEvent) (d : Delivery)
    → event.delivery ≡ d
    → (queue : String) × (queues_for event ≡ queue ∷ []) × (is_consumed queue ≡ asks_for_work event)
unfolding queues_for destination_for is_consumed
reached event (Delivery.run_queued reason) h = (queue_name, rw h refl, rw h refl)
reached event (Delivery.run_dead_lettered code) h = (dead_letter_queue_name, rw h refl, rw h refl)

module _ (wire : Wire) (event : OutboxEvent)
    (reads : wire.loads (body_of wire event) ≡ ok (obj (payload_fields wire event))) where
  payload-body : payload_of_body wire (body_of wire event) ≡ ok (payload_fields wire event)
  unfolding payload_of_body
  payload-body = rw reads refl

  run_id-body :
      wire.uuid_of (wire.text_of event.aggregate_id) ≡ some event.aggregate_id
      → run_id_from_message wire (body_of wire event) ≡ ok event.aggregate_id
  unfolding run_id_from_message run_id_in payload_fields get
  run_id-body names = rw payload-body (rw names refl)

  trace_context-body :
      trace_context_from_message wire (body_of wire event)
      ≡ ok (sanitize_trace_context event.trace_context)
  unfolding trace_context_from_message trace_context_in headers_in payload_fields get_or
  trace_context-body = rw payload-body (ap (λ d. ok d) (sanitize-sanitize event.trace_context))

module _ (wire : Wire) (cfg : ExecutionConfig) (env : Env) (worker_id : String)
    (event : OutboxEvent) (db : Db) where
  pub record IsDelivered : Type 0 where
    pub queue : String
    pub once : queues_for event ≡ queue ∷ []
    pub consumed : is_consumed queue ≡ asks_for_work event
    pub traced :
        trace_context_from_message wire (body_of wire event)
        ≡ ok (sanitize_trace_context event.trace_context)
    pub handled :
        handle_delivery wire cfg env worker_id (body_of wire event) db
        ≡ ok (receive cfg env worker_id (some event.aggregate_id) db)

  -- Where json reads back what it wrote for the message, and UUID the text of the run's
  -- identifier: a published message reaches one queue, which the worker consumes exactly where the
  -- row asks for work; from its body the worker reads the sanitized trace headers of the row, and
  -- it handles the body as a delivery of the row's run.
  pub publish-IsDelivered :
      wire.loads (body_of wire event) ≡ ok (obj (payload_fields wire event))
      → wire.uuid_of (wire.text_of event.aggregate_id) ≡ some event.aggregate_id
      → IsDelivered
  unfolding handle_delivery handle_parsed
  publish-IsDelivered reads names =
      let (queue, once, consumed) = reached event event.delivery refl in
      record {
        queue = queue;
        once = once;
        consumed = consumed;
        traced = trace_context-body wire event reads;
        handled =
            rw (run_id-body wire event reads names) (rw (trace_context-body wire event reads) refl);
      }
