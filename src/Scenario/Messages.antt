-- ===== src/Scenario/Messages.antt =====
-- The first delivery of the run of Start.antt, from the outbox to the queue.
use agent_reliability_runtim.Prelude
use agent_reliability_runtim.Prelude.{
  ℕ, ◌≤◌, ◌≡◌, refl, Bool, true, none, some, Option, [], ◌∷◌, arith, ◌==◌, one_if, count,
}
use agent_reliability_runtim.Domain.States.{queued}
use agent_reliability_runtim.Json.{get}
use agent_reliability_runtim.Store.{Run, Db, add_event, add_outbox}
use agent_reliability_runtim.Quotas.{
  check_provider_budget, check_admission, find_quota, spent, current_window, count_principal_active,
  count_tenant_active,
}
use agent_reliability_runtim.Execution.Common.{find_run, is_evaluation}
use agent_reliability_runtim.Runs.{
  first_provider, record_routing, routing_decision, as_object, queued_run, add_run, accept,
  submit_new, submit, find_by_idempotency_key, has_key, request_hash, canonical_request_hash,
}
use agent_reliability_runtim.Messaging
use agent_reliability_runtim.Messaging.{Message, Broker, destination_for, message_payload}
use agent_reliability_runtim.Messaging.Dispatch.{
  DispatchResult, confirmed, is_waiting, older, oldest_waiting, put_event, published,
  settle_publication, dispatch_one,
}
use agent_reliability_runtim.Messaging.World.{
  OutboxKey, transacts, dispatches, History, begins, goes_on,
}
use agent_reliability_runtim.Messaging.Notices.{notices}
use agent_reliability_runtim.Messaging.Waiting.{queued_run-heard}
use agent_reliability_runtim.System.{submits}
use agent_reliability_runtim.Scenario.Start.{deployment, request, at, api, submitted}
use agent_reliability_runtim.Scenario.Life.{first_answer, life}

abbrev silent : Broker
silent = record { execution = []; dead_letters = [] }

abbrev dispatched : DispatchResult × Db × Broker
dispatched = dispatch_one (at 2 150) confirmed submitted silent

abbrev waiting_run : Run
waiting_run = queued_run (api 1 100) request "question"

-- One published row, one message, and the run still queued.
record Dispatched : Type 0 where
  key : OutboxKey submitted
  message : dispatched.2.execution ≡ record { event_id = 101; run_id = 100 } ∷ []
  found : find_run 100 dispatched.1 ≡ some waiting_run
  waits : waiting_run.execution_status ≡ queued

dispatch : Dispatched
unfolding submit submit_new find_by_idempotency_key has_key check_admission count_principal_active
    count_tenant_active check_provider_budget spent find_quota current_window first_provider get
    accept record_routing routing_decision as_object queued_run add_run add_event add_outbox
    dispatch_one oldest_waiting older is_waiting settle_publication put_event published
    Messaging.enqueue destination_for message_payload find_run Prelude.find Prelude.put request_hash
    canonical_request_hash
dispatch = record { key = λ id. ground arith; message = refl; found = refl; waits = refl }

history : History deployment (record { db = dispatched.1; broker = dispatched.2; held = [] })
history =
    goes_on {w = record { db = submitted; broker = silent; held = [] }}
      (goes_on begins (
        transacts
          (submits (api 1 100) request (first_answer, Bool.false) life.run_is_new
            (unfold is_evaluation in refl) life.submits_ok)
          refl refl))
      (dispatches (at 2 150) confirmed dispatched.0 dispatch.key refl refl)

queued_run-heard_example : 1 ≤ notices 100 dispatched.1 dispatched.2
queued_run-heard_example =
    queued_run-heard deployment (record { db = dispatched.1; broker = dispatched.2; held = [] }) 100
      waiting_run history dispatch.found dispatch.waits
