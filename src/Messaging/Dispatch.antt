-- ===== src/Messaging/Dispatch.antt =====
-- src/agent_runtime/infrastructure/messaging/dispatcher.py: `OutboxDispatcher`.
use agent_reliability_runtim.Prelude
use agent_reliability_runtim.Prelude.{
  ℕ, zero, suc, ◌+◌, String, Bool, true, false, not, ◌&&◌, Option, none, some, List, [], ◌∷◌, leb,
  if◌then◌else◌,
}
use agent_reliability_runtim.Store.{
  OutboxEvent, outbox_published, outbox_publish_failed, Db, Env, add_event,
}
use agent_reliability_runtim.Messaging.{Broker, enqueue}

pub record DispatchResult : Type 0 where
  pub found_event : Bool
  pub published : Bool

-- How `publish` ends: with the broker's confirmation, or with an exception of a class. A message whose
-- confirmation was lost has arrived all the same.
pub data Publication : Type 0 where
  confirmed : Publication
  failed : String → Bool → Publication

unfoldable pub is_waiting : Env → OutboxEvent → Bool
is_waiting env event = elim event.published_at [ none ↦ not (env.locked event.id) | some _ ↦ false ]

-- `WHERE published_at IS NULL ORDER BY created_at ASC LIMIT 1 FOR UPDATE SKIP LOCKED`
unfoldable pub older : OutboxEvent → Option OutboxEvent → OutboxEvent
older a none = a
older a (some b) = if leb a.created_at b.created_at then a else b

unfoldable pub oldest_waiting : Env → List OutboxEvent → Option OutboxEvent
unfolding older
oldest_waiting env [] = none
oldest_waiting env (e ∷ rest) =
    let later = oldest_waiting env rest in if is_waiting env e then some (older e later) else later

unfoldable pub put_event : OutboxEvent → Db → Db
put_event event db = record db { outbox = Prelude.put (λ (e : OutboxEvent). e.id) event db.outbox }

unfoldable pub published : Env → OutboxEvent → OutboxEvent
published env event = record event {
  publish_attempts = event.publish_attempts + 1;
  published_at = some env.now;
  last_error = none;
}

unfoldable pub unpublished : String → OutboxEvent → OutboxEvent
unpublished error event = record event {
  publish_attempts = event.publish_attempts + 1;
  last_error = some error;
}

-- What the transaction writes once `publish` has ended.
unfoldable pub settle_publication :
    Env → OutboxEvent → Publication → Db → Broker → DispatchResult × Db × Broker
settle_publication env event confirmed db broker = (
  record { found_event = true; published = true },
  add_event env 0 event.aggregate_id none (outbox_published event.id)
      (put_event (published env event) db),
  enqueue event broker,
)
settle_publication env event (failed error arrived) db broker = (
  record { found_event = true; published = false },
  add_event env 0 event.aggregate_id none (outbox_publish_failed event.id error)
      (put_event (unpublished error event) db),
  (if arrived then enqueue event broker else broker),
)

-- `_dispatch_one`
unfoldable pub dispatch_one : Env → Publication → Db → Broker → DispatchResult × Db × Broker
dispatch_one env publication db broker = elim (oldest_waiting env db.outbox) [
  | none ↦ (record { found_event = false; published = false }, db, broker)
  | some event ↦ settle_publication env event publication db broker
]

-- `dispatch_once`: the round numbered `n` has its own clock and its own answer of the broker.
unfoldable pub dispatch_from : ℕ → (ℕ → Env) → (ℕ → Publication) → ℕ → Db → Broker → ℕ × Db × Broker
dispatch_from zero env publication n db broker = (0, db, broker)
dispatch_from (suc rounds) env publication n db broker =
    let (result, db', broker') = dispatch_one (env n) (publication n) db broker in
    let (count, db'', broker'') = dispatch_from rounds env publication (n + 1) db' broker' in
    if result.found_event && result.published
    then (count + 1, db'', broker'')
    else (0, db', broker')

unfoldable pub dispatch_once : ℕ → (ℕ → Env) → (ℕ → Publication) → Db → Broker → ℕ × Db × Broker
dispatch_once batch_size env publication db broker =
    dispatch_from batch_size env publication 0 db broker
