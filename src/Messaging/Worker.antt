-- ===== src/Messaging/Worker.antt =====
-- src/agent_runtime/infrastructure/messaging/worker.py: `RabbitMqWorker`. Handling a delivery takes two
-- transactions, with the execution between them, so it is two functions here.
use agent_reliability_runtim.Prelude.{
  String, Bool, true, false, not, ◌&&◌, is_some, ◌≡◌, ◌⊎◌, inl, inr, arith, Bool-cases,
  Option-cases, Option, none, some, if◌then◌else◌,
}
use agent_reliability_runtim.Prelude.Result.{Result, ok, raise, Result-cases}
use agent_reliability_runtim.Json.{Fields}
use agent_reliability_runtim.Domain.Retry.{
  value, ProviderException, other_error, classify_exception, from_snapshot,
}
use agent_reliability_runtim.Store.{Uuid, Db, Env}
use agent_reliability_runtim.Execution.Common.{ExecutionConfig}
use agent_reliability_runtim.Execution.Claim.{ClaimDecision, claimed, ClaimResult, claim}
use agent_reliability_runtim.Execution.Finish.{ExecutionResult, complete_success, complete_failure}

pub data Reply : Type 0 where
  ack nack_requeue reject : Reply

-- What a delivery has come to after its first transaction.
pub data Handling : Type 0 where
  replied : Reply → Db → Handling
  executing : ClaimResult → Db → Handling

unfoldable pub is_claimed : ClaimDecision → Bool
is_claimed claimed = true
is_claimed _ = false

unfoldable pub after_claim : Result (ClaimResult × Db) → Db → Handling
unfolding is_claimed
after_claim (raise e) db = replied nack_requeue db
after_claim (ok (res, db')) db =
    if is_claimed res.decision then executing res db' else replied ack db'

-- `_handle_delivery` as far as the claim. The run is read from the body; `none` where that raises.
unfoldable pub receive : ExecutionConfig → Env → String → Option Uuid → Db → Handling
unfolding after_claim
receive cfg env worker_id none db = replied reject db
receive cfg env worker_id (some run_id) db = after_claim (claim cfg env run_id worker_id db) db

-- How the call of the executor ends within its time.
pub data Execution : Type 0 where
  returned : ExecutionResult → Execution
  threw : ProviderException → Execution

-- A stored policy that is not valid raises `ValueError` before the call.
unfoldable pub under_policy : Fields → Execution → Execution
under_policy policy_snapshot execution = elim (from_snapshot policy_snapshot) [
  | raise _ ↦ threw (other_error none)
  | ok _ ↦ execution
]

unfoldable pub persist : Env → Uuid → Uuid → String → Execution → Db → Result (Bool × Db)
persist env run_id attempt_id worker_id (threw exception) db =
    complete_failure env run_id attempt_id worker_id (value (classify_exception exception)) db
persist env run_id attempt_id worker_id (returned result) db =
    complete_success env run_id attempt_id worker_id result db

reply_of : Result (Bool × Db) → Db → Reply × Db
reply_of (raise e) db = (nack_requeue, db)
reply_of (ok (true, db')) db = (ack, db')
reply_of (ok (false, db')) db = (nack_requeue, db')

-- A claim carries what an execution needs.
unfoldable pub has_payload : ClaimResult → Bool
has_payload claim =
    is_some claim.attempt_id
    && is_some claim.input_payload
    && is_some claim.policy_snapshot
    && is_some claim.provider

-- `_execute_claim` and the reply. A claim without its payload raises `RuntimeError`.
unfoldable pub finish : Env → String → ClaimResult → Execution → Db → Reply × Db
unfolding reply_of
finish env worker_id claim execution db =
    if not (has_payload claim) then (nack_requeue, db) else elim claim.attempt_id [
      | none ↦ (nack_requeue, db)
      | some attempt_id ↦ elim claim.policy_snapshot [
        | none ↦ (nack_requeue, db)
        | some policy_snapshot ↦
            reply_of
              (persist env claim.run_id attempt_id worker_id
                (under_policy policy_snapshot execution) db)
              db
      ]
    ]

-- Handling that ends with a reply has changed the tables by a completion, or not at all.
pub finish_cases :
    (env : Env) (worker_id : String) (claim : ClaimResult) (execution : Execution) (db : Db)
    (reply : Reply) (db' : Db)
    → finish env worker_id claim execution db ≡ (reply, db')
    → (db' ≡ db)
      ⊎ ((attempt_id : Uuid) × ((ended : Execution) × ((b : Bool) × (persist env claim.run_id
                  attempt_id worker_id ended db
                ≡ ok (b, db')))))
unfolding finish
finish_cases env worker_id claim execution db reply db' h = elim (Bool-cases (has_payload claim)) [
  | inr bare ↦ inl (ground arith)
  | inl full ↦ elim (Option-cases claim.attempt_id) [
    | inl missing ↦ inl (ground arith)
    | inr (attempt_id, a) ↦ elim (Option-cases claim.policy_snapshot) [
      | inl missing ↦ inl (ground arith)
      | inr (policy_snapshot, p) ↦
          let ended : Execution = under_policy policy_snapshot execution in
          elim (Result-cases (persist env claim.run_id attempt_id worker_id ended db)) [
            | inl (e, raised) ↦ inl (ground arith)
            | inr ((b, last), done) ↦ inr (attempt_id, (ended, (b, ground arith)))
          ]
    ]
  ]
]
