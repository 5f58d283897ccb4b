-- ===== src/Lifecycle/Rows.antt =====
-- What a move does to one row: the status follows the lifecycle contract, the accepted request is
-- kept, and the columns for the lease, the retry and the completion agree with the status.
use agent_reliability_runtim.Prelude.{◌≡◌, ◌⊎◌, false, is_some, arith}
use agent_reliability_runtim.Prelude.Result.{ok}
use agent_reliability_runtim.Domain.States.{
  queued, running, retry_scheduled, same_status, ensure_execution_transition,
  is_terminal_execution_status,
}
use agent_reliability_runtim.Store.{Run}
use agent_reliability_runtim.Execution.Claim.{leased, postponed, rejected}
use agent_reliability_runtim.Execution.Finish.{succeed_run, retrying, exhausted, broken_off}
use agent_reliability_runtim.Execution.Scheduler.{requeue}
use agent_reliability_runtim.Execution.Frames.{Blind}
use agent_reliability_runtim.Lifecycle.{
  Moves, lease, postpone, reject, succeed, retry, give_up, break_off, enqueue,
}

-- Every move is a transition that `ensure_execution_transition` allows, but one: a claim without
-- capacity takes a queued run to RETRY_SCHEDULED.
pub Moves-allowed :
    (old new : Run)
    → Moves old new
    → (ensure_execution_transition old.execution_status new.execution_status ≡ ok tt)
      ⊎ ((old.execution_status ≡ queued) × (new.execution_status ≡ retry_scheduled))
unfolding ensure_execution_transition leased postponed rejected succeed_run retrying exhausted
    broken_off requeue
Moves-allowed old new (lease cfg env worker_id s e) = ground arith
Moves-allowed old new (postpone env s e) = ground arith
Moves-allowed old new (reject env s e) = ground arith
Moves-allowed old new (succeed env result s e) = ground arith
Moves-allowed old new (retry env error_code delay s e) = ground arith
Moves-allowed old new (give_up env error_code s e) = ground arith
Moves-allowed old new (break_off env error_code s e) = ground arith
Moves-allowed old new (enqueue s e) = ground arith

-- A move starts from a status that is not terminal.
pub Moves-live :
    (old new : Run) → Moves old new → is_terminal_execution_status old.execution_status ≡ false
unfolding is_terminal_execution_status
Moves-live old new (lease cfg env worker_id s e) = ground arith
Moves-live old new (postpone env s e) = ground arith
Moves-live old new (reject env s e) = ground arith
Moves-live old new (succeed env result s e) = ground arith
Moves-live old new (retry env error_code delay s e) = ground arith
Moves-live old new (give_up env error_code s e) = ground arith
Moves-live old new (break_off env error_code s e) = ground arith
Moves-live old new (enqueue s e) = ground arith

-- The columns of the accepted request.
pub record SameRequest (old new : Run) : Type 0 where
  pub id : new.id ≡ old.id
  pub client_id : new.client_id ≡ old.client_id
  pub principal_id : new.principal_id ≡ old.principal_id
  pub work_kind : new.work_kind ≡ old.work_kind
  pub idempotency_key : new.idempotency_key ≡ old.idempotency_key
  pub request_hash : new.request_hash ≡ old.request_hash
  pub input_payload : new.input_payload ≡ old.input_payload
  pub policy_snapshot : new.policy_snapshot ≡ old.policy_snapshot
  pub trace_context : new.trace_context ≡ old.trace_context
  pub created_at : new.created_at ≡ old.created_at
  pub replay_of_run_id : new.replay_of_run_id ≡ old.replay_of_run_id

-- No move of a run changes its identity, its owner, its key, its request or its origin.
pub Moves-SameRequest : (old new : Run) → Moves old new → SameRequest old new
unfolding leased postponed rejected succeed_run retrying exhausted broken_off requeue
Moves-SameRequest old new (lease cfg env worker_id s e) = ground arith
Moves-SameRequest old new (postpone env s e) = ground arith
Moves-SameRequest old new (reject env s e) = ground arith
Moves-SameRequest old new (succeed env result s e) = ground arith
Moves-SameRequest old new (retry env error_code delay s e) = ground arith
Moves-SameRequest old new (give_up env error_code s e) = ground arith
Moves-SameRequest old new (break_off env error_code s e) = ground arith
Moves-SameRequest old new (enqueue s e) = ground arith

-- The lease is there exactly while the run is running, the time of the next attempt exactly while a
-- retry is scheduled, and the time of completion exactly in a terminal status.
pub record IsConsistent (r : Run) : Type 0 where
  pub owner : is_some r.execution_lease_owner ≡ same_status r.execution_status running
  pub expiry : is_some r.execution_lease_expires_at ≡ same_status r.execution_status running
  pub retry_time : is_some r.next_attempt_at ≡ same_status r.execution_status retry_scheduled
  pub completion : is_some r.completed_at ≡ is_terminal_execution_status r.execution_status

pub IsConsistent-blind : Blind IsConsistent
IsConsistent-blind r s h = record {
  owner = h.owner;
  expiry = h.expiry;
  retry_time = h.retry_time;
  completion = h.completion;
}

-- Every move of a run keeps the lease present exactly while it is RUNNING, the time of the next
-- attempt exactly while it is RETRY_SCHEDULED, and the time of completion exactly in a terminal
-- status.
pub Moves-IsConsistent : (old new : Run) → Moves old new → IsConsistent old → IsConsistent new
unfolding leased postponed rejected succeed_run retrying exhausted broken_off requeue same_status
    is_terminal_execution_status
Moves-IsConsistent old new (lease cfg env worker_id s e) h = ground arith
Moves-IsConsistent old new (postpone env s e) h = ground arith
Moves-IsConsistent old new (reject env s e) h = ground arith
Moves-IsConsistent old new (succeed env result s e) h = ground arith
Moves-IsConsistent old new (retry env error_code delay s e) h = ground arith
Moves-IsConsistent old new (give_up env error_code s e) h = ground arith
Moves-IsConsistent old new (break_off env error_code s e) h = ground arith
Moves-IsConsistent old new (enqueue s e) h = ground arith
