-- ===== src/Messaging/World.antt =====
-- The database and the broker together: transactions, dispatches, and the deliveries of messages to
-- workers, each delivery until its reply.
use agent_reliability_runtim.Prelude.{
  Bool, ◌≤◌, String, ◌≡◌, none, some, List, [], ◌∷◌, ◌++◌, ◌==◌, count,
}
use agent_reliability_runtim.Store.{Uuid, OutboxEvent, Db, Env}
use agent_reliability_runtim.Execution.Common.{find_attempt}
use agent_reliability_runtim.Execution.Claim.{ClaimResult}
use agent_reliability_runtim.System.{Deployment, Step, empty}
use agent_reliability_runtim.Messaging.{Message, Broker}
use agent_reliability_runtim.Messaging.Dispatch.{DispatchResult, Publication, dispatch_one}
use agent_reliability_runtim.Messaging.Worker.{
  ack, nack_requeue, replied, executing, receive, Execution, finish,
}

-- `held` are the messages that workers have received and not yet replied to.
pub record World : Type 0 where
  pub db : Db
  pub broker : Broker
  pub held : List Message

abbrev pub has_event_id : Uuid → OutboxEvent → Bool
has_event_id id e = e.id == id

-- The primary key of the outbox.
abbrev pub OutboxKey : Db → Type 0
OutboxKey db = (id : Uuid) → count (has_event_id id) db.outbox ≤ 1

pub data Event (d : Deployment) (w w' : World) : Type 0 where
  transacts : Step d w.db w'.db → w'.broker ≡ w.broker → w'.held ≡ w.held → Event d w w'
  dispatches :
      (env : Env) (publication : Publication) (result : DispatchResult)
      → OutboxKey w.db
      → dispatch_one env publication w.db w.broker ≡ (result, w'.db, w'.broker)
      → w'.held ≡ w.held
      → Event d w w'
  -- The claim is answered at once, and the message is gone.
  acknowledges :
      (env : Env) (worker_id : String) (before after : List Message) (m : Message)
      → w.broker.execution ≡ before ++ m ∷ after
      → find_attempt (env.uuid 0) w.db ≡ none
      → receive d.config env worker_id (some m.run_id) w.db ≡ replied ack w'.db
      → w'.broker ≡ record w.broker { execution = before ++ after }
      → w'.held ≡ w.held
      → Event d w w'
  -- The worker has the run, and keeps the message until it has finished.
  starts :
      (env : Env) (worker_id : String) (before after : List Message) (m : Message)
      (claim : ClaimResult)
      → w.broker.execution ≡ before ++ m ∷ after
      → find_attempt (env.uuid 0) w.db ≡ none
      → receive d.config env worker_id (some m.run_id) w.db ≡ executing claim w'.db
      → w'.broker ≡ record w.broker { execution = before ++ after }
      → w'.held ≡ m ∷ w.held
      → Event d w w'
  finishes :
      (env : Env) (worker_id : String) (before after : List Message) (m : Message)
      (claim : ClaimResult) (execution : Execution)
      → w.held ≡ before ++ m ∷ after
      → finish env worker_id claim execution w.db ≡ (ack, w'.db)
      → w'.broker ≡ w.broker
      → w'.held ≡ before ++ after
      → Event d w w'
  returns :
      (env : Env) (worker_id : String) (before after : List Message) (m : Message)
      (claim : ClaimResult) (execution : Execution)
      → w.held ≡ before ++ m ∷ after
      → finish env worker_id claim execution w.db ≡ (nack_requeue, w'.db)
      → w'.broker ≡ record w.broker { execution = w.broker.execution ++ m ∷ [] }
      → w'.held ≡ before ++ after
      → Event d w w'
  -- The connection of a worker is lost, and the broker takes its message back.
  crashes :
      (before after : List Message) (m : Message)
      → w.held ≡ before ++ m ∷ after
      → w'.db ≡ w.db
      → w'.broker ≡ record w.broker { execution = w.broker.execution ++ m ∷ [] }
      → w'.held ≡ before ++ after
      → Event d w w'

-- Any sequence of events from an empty database and empty queues.
pub data History (d : Deployment) : World → Type 0 where
  begins :
      History d
        (record { db = empty; broker = record { execution = []; dead_letters = [] }; held = [] })
  goes_on : {w w' : World} → History d w → Event d w w' → History d w'
