-- ===== src/Messaging/Topology.antt =====
-- The exchanges, queues and bindings that `RabbitMqPublisher._get_exchanges` and `RabbitMqWorker.run` of
-- src/agent_runtime/infrastructure/messaging declare, both alike, and where they lead a message.
use agent_reliability_runtim.Prelude.{String, Bool, ◌&&◌, List, [], ◌∷◌, str_eq, if◌then◌else◌}
use agent_reliability_runtim.Store.{OutboxEvent}
use agent_reliability_runtim.Evaluation.Safety.{is_one_of}
use agent_reliability_runtim.Messaging.{Destination, destination_for}

abbrev pub exchange_name : String
exchange_name = "agent_runtime"

abbrev pub legacy_queue_name : String
legacy_queue_name = "agent_runtime.execution"

abbrev pub queue_name : String
queue_name = "agent_runtime.execution.v2"

abbrev pub routing_key : String
routing_key = "run.queued"

abbrev pub dead_letter_exchange_name : String
dead_letter_exchange_name = "agent_runtime.dlx"

abbrev pub dead_letter_queue_name : String
dead_letter_queue_name = "agent_runtime.dead_letter"

abbrev pub dead_letter_routing_key : String
dead_letter_routing_key = "run.dead_lettered"

abbrev pub poison_routing_key : String
poison_routing_key = "poison"

pub record Binding : Type 0 where
  pub queue : String
  pub exchange : String
  pub key : String

abbrev binding : String → String → String → Binding
binding queue exchange key = record { queue = queue; exchange = exchange; key = key }

unfoldable pub declared_bindings : List Binding
declared_bindings =
    binding queue_name exchange_name routing_key
    ∷ binding dead_letter_queue_name dead_letter_exchange_name dead_letter_routing_key
    ∷ binding dead_letter_queue_name dead_letter_exchange_name poison_routing_key
    ∷ []

-- Direct exchanges: the queues bound to one under the key of the message.
unfoldable pub bound_queues : List Binding → String → String → List String
bound_queues [] exchange key = []
bound_queues (b ∷ bs) exchange key =
    let rest = bound_queues bs exchange key in
    if str_eq b.exchange exchange && str_eq b.key key then b.queue ∷ rest else rest

-- The exchange and the key of `_destination_for`.
unfoldable pub address : Destination → String × String
address Destination.run_queued = (exchange_name, routing_key)
address Destination.run_dead_lettered = (dead_letter_exchange_name, dead_letter_routing_key)

unfoldable pub queues_for : OutboxEvent → List String
unfolding declared_bindings bound_queues address
queues_for event =
    let to = address (destination_for event) in bound_queues declared_bindings to.0 to.1

-- The queues that the worker consumes.
unfoldable pub is_consumed : String → Bool
unfolding is_one_of
is_consumed queue = is_one_of queue (queue_name ∷ legacy_queue_name ∷ [])

-- Where the broker puts a message that was rejected without a requeue: the legacy queue has no
-- dead-letter exchange.
unfoldable pub rejected_to : String → List String
unfolding declared_bindings bound_queues
rejected_to queue =
    if str_eq queue queue_name
    then bound_queues declared_bindings dead_letter_exchange_name poison_routing_key
    else []
