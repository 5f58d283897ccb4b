-- ===== src/Messaging.antt =====
-- src/agent_runtime/infrastructure/messaging: the outbox dispatcher, the publisher's routing and the worker's
-- handling of a delivery. A message is the event and the run that it names; its trace context, which
-- only decorates spans, is left to Bodies and Traces. The broker keeps one list for each queue.
pub mod Dispatch
pub mod Worker
pub mod World
pub mod Notices
pub mod Heard
pub mod Waiting
pub mod Sanitized
pub mod Traces
pub mod Topology
pub mod Bodies
pub mod Delivered
use agent_reliability_runtim.Prelude.{List, [], ◌∷◌, ◌++◌}
use agent_reliability_runtim.Store.{Uuid, Delivery, OutboxEvent}

pub record Message : Type 0 where
  pub event_id : Uuid
  pub run_id : Uuid

pub record Broker : Type 0 where
  pub execution : List Message
  pub dead_letters : List Message

-- The exchange with its routing key.
pub data Destination : Type 0 where
  run_queued run_dead_lettered : Destination

-- `_destination_for`
unfoldable pub destination_for : OutboxEvent → Destination
destination_for event = elim event.delivery [
  | Delivery.run_queued _ ↦ Destination.run_queued
  | Delivery.run_dead_lettered _ ↦ Destination.run_dead_lettered
]

-- `message_payload`
unfoldable pub message_payload : OutboxEvent → Message
message_payload event = record { event_id = event.id; run_id = event.aggregate_id }

-- What the exchanges do with a message, by the bindings that `_get_exchanges` declares.
unfoldable pub enqueue : OutboxEvent → Broker → Broker
enqueue event broker = elim (destination_for event) [
  | Destination.run_queued ↦ record broker {
    execution = broker.execution ++ message_payload event ∷ [];
  }
  | Destination.run_dead_lettered ↦ record broker {
    dead_letters = broker.dead_letters ++ message_payload event ∷ [];
  }
]
