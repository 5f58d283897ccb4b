-- ===== src/Scenario/Bodies.antt =====
-- A message with trace headers on its way to the worker, over a wire that knows two bodies.
use agent_reliability_runtim.Prelude.{
  zero, suc, String, ◌≡◌, refl, Option, none, some, [], ◌∷◌, false,
}
use agent_reliability_runtim.Prelude.Result.{Result, ok, raise, value_error}
use agent_reliability_runtim.Json.{Json, str, obj, Fields, end, field, get_or}
use agent_reliability_runtim.Store.{Uuid, OutboxEvent, Delivery, first_time}
use agent_reliability_runtim.Security.Vault.{Bytes}
use agent_reliability_runtim.Messaging.Traces.{sanitize_trace_context, is_parent, is_state}
use agent_reliability_runtim.Messaging.Topology.{
  queue_name, dead_letter_queue_name, legacy_queue_name, rejected_to,
}
use agent_reliability_runtim.Messaging.Bodies.{
  Wire, payload_fields, body_of, run_id_from_message, handle_delivery,
}
use agent_reliability_runtim.Messaging.Delivered.{IsDelivered, publish-IsDelivered}
use agent_reliability_runtim.Messaging.Worker.{receive, replied, reject}
use agent_reliability_runtim.Scenario.Start.{deployment, at, submitted}

abbrev parent : String
parent = "00-0123456789abcdef0123456789abcdef-0123456789abcdef-01"

abbrev traced : Fields
traced = field "traceparent" (str parent) (field "tracestate" (str "vendor=a, t@sys=b") end)

-- The headers as they are, and with one that names a key twice, one of zeros and one in capitals.
headers_kept : sanitize_trace_context (field "other" (str "x") traced) ≡ traced
unfolding sanitize_trace_context is_parent is_state get_or
headers_kept = refl

state_dropped : is_state "a=1,a=2" ≡ false
unfolding is_state
state_dropped = refl

zeros_dropped : is_parent "00-00000000000000000000000000000000-0123456789abcdef-01" ≡ false
unfolding is_parent
zeros_dropped = refl

capitals_dropped : is_parent "00-0123456789ABCDEF0123456789abcdef-0123456789abcdef-01" ≡ false
unfolding is_parent
capitals_dropped = refl

abbrev text_of : Uuid → String
text_of zero = ""
text_of (suc n) = String.◌∷◌ "1" (text_of n)

abbrev uuid_of : String → Option Uuid
uuid_of String.[] = some 0
uuid_of (String.◌∷◌ c s) = elim (uuid_of s) [ none ↦ none | some n ↦ some (suc n) ]

abbrev sent : Fields
sent =
    field "event_id" (str "111")
      (field "run_id" (str "11") (field "trace_context" (obj traced) end))

abbrev loads : Bytes → Result Json
loads [] = ok (obj sent)
loads _ = raise value_error

abbrev wire : Wire
wire = record { text_of = text_of; uuid_of = uuid_of; dumps = λ value. []; loads = loads }

abbrev event : OutboxEvent
event = record {
  id = 3;
  aggregate_id = 2;
  delivery = Delivery.run_queued first_time;
  trace_context = traced;
  created_at = 1;
  published_at = none;
  publish_attempts = 0;
  last_error = none;
}

publish-IsDelivered_example : IsDelivered wire deployment.config (at 2 150) "worker" event submitted
unfolding body_of payload_fields sanitize_trace_context is_parent is_state get_or
publish-IsDelivered_example =
    publish-IsDelivered wire deployment.config (at 2 150) "worker" event submitted refl refl

-- Another body is rejected, and the broker keeps it with the dead letters.
junk_rejected :
    (handle_delivery wire deployment.config (at 2 150) "worker" (7 ∷ []) submitted
      ≡ ok (replied reject submitted))
    × (rejected_to queue_name ≡ dead_letter_queue_name ∷ [])
    × (rejected_to legacy_queue_name ≡ [])
unfolding handle_delivery run_id_from_message receive rejected_to
junk_rejected = (refl, refl, refl)
