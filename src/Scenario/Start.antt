-- ===== src/Scenario/Start.antt =====
-- A deployment with small limits, a client's request, and the tables after its first steps.
use agent_reliability_runtim.Prelude.{ℕ, ◌+◌, ◌*◌, String, false, none, some}
use agent_reliability_runtim.Prelude.Result.{Result, ok, raise}
use agent_reliability_runtim.Json.{Json, str, obj, arr, cons, nil, int, pos, Fields, end, field}
use agent_reliability_runtim.Domain.Retry.{second}
use agent_reliability_runtim.Store.{Uuid, execution, Db, Env}
use agent_reliability_runtim.Quotas.{QuotaLimits}
use agent_reliability_runtim.Execution.Common.{ExecutionConfig}
use agent_reliability_runtim.Execution.Claim.{claim}
use agent_reliability_runtim.Execution.Finish.{ExecutionResult, complete_success, complete_failure}
use agent_reliability_runtim.Execution.Scheduler.{schedule_one}
use agent_reliability_runtim.Runs.{ApiEnv, Request, submit}
use agent_reliability_runtim.System.{Deployment, empty}

abbrev pub limits : QuotaLimits
limits = record {
  principal_active = 2;
  tenant_active = 3;
  principal_calls = 2;
  tenant_calls = 3;
  window_seconds = 60;
  principal_running = 1;
  tenant_running = 2;
}

abbrev pub config : ExecutionConfig
config = record { lease_seconds = 30; quotas = limits; max_attempts = 3 }

-- A digest that tells requests apart by the first key of their input.
abbrev pub first_key : Json → String
first_key (obj (field k (obj (field j v rest)) more)) = j
first_key _ = ""

abbrev pub deployment : Deployment
deployment = record { config = config; digest = first_key; uuid_text = λ id. "id" }

-- Two attempts, on two providers, with backoffs of one and two seconds.
abbrev pub policy : Fields
policy =
    field "max_attempts" (int (pos 2))
      (field "provider_order" (arr (cons (str "primary") (cons (str "fallback") nil))) end)

abbrev pub request : Request
request = record {
  client_id = "acme";
  idempotency_key = "order-1";
  input_payload = field "question" (str "why") end;
  policy_snapshot = policy;
  principal_id = some "ann";
  work_kind = execution;
}

-- The clock in seconds, and identifiers from a given number on.
abbrev pub at : ℕ → Uuid → Env
at t id = record {
  now = t * second;
  server_now = t * second;
  uuid = λ n. id + n;
  locked = λ _. false;
}

abbrev pub api : ℕ → Uuid → ApiEnv
api t id = record { env = at t id; epoch = t; trace_context = end }

abbrev pub tables {ℓ} : {A : Type ℓ} → Result (A × Db) → Db
tables (ok (_, db)) = db
tables (raise _) = empty

abbrev pub answer {ℓ} : {A : Type ℓ} → A → Result (A × Db) → A
answer a (ok (b, _)) = b
answer a (raise _) = a

abbrev pub tables_of : Result Db → Db
tables_of (ok db) = db
tables_of (raise _) = empty

abbrev pub result : ExecutionResult
result = record {
  provider = "fallback";
  result_payload = field "answer" (str "so") end;
  usage_metadata = none;
}

-- Submitted, claimed, failed on a timeout, queued again, claimed again, and succeeded.
abbrev pub submitted : Db
submitted = tables (submit first_key limits (api 1 100) request empty)

abbrev pub claimed_once : Db
claimed_once = tables (claim config (at 2 200) 100 "w1" submitted)

abbrev pub failed_once : Db
failed_once = tables (complete_failure (at 3 300) 100 200 "w1" "PROVIDER_TIMEOUT" claimed_once)

abbrev pub queued_again : Db
queued_again = schedule_one (at 5 400) 100 failed_once

abbrev pub claimed_twice : Db
claimed_twice = tables (claim config (at 6 500) 100 "w2" queued_again)

abbrev pub succeeded_at_last : Db
succeeded_at_last = tables (complete_success (at 7 600) 100 500 "w2" result claimed_twice)
