-- ===== src/Scenario/Runs.antt =====
-- The theorems on the life of a run and on the calls of its client, at the tables of Start.antt.
use agent_reliability_runtim.Prelude.{
  length, All, ◌<◌, ◌≡◌, ◌≢◌, refl, ◌⊎◌, true, false, none, some, [],
}
use agent_reliability_runtim.Prelude.Result.{ok, raise, idempotency_conflict}
use agent_reliability_runtim.Json.{field, end, str}
use agent_reliability_runtim.Domain.States.{
  EvaluationStatus, running, queued, retry_scheduled, ensure_execution_transition,
}
use agent_reliability_runtim.Store.{Run, RunAttempt, execution, run_succeeded, Db}
use agent_reliability_runtim.Quotas.{count_principal_active, count_tenant_active}
use agent_reliability_runtim.Execution.Common.{fits_code, or_default, find_run, is_execution}
use agent_reliability_runtim.Execution.Frames.{with_evaluation}
use agent_reliability_runtim.Execution.Finish.{complete_failure}
use agent_reliability_runtim.Execution.Scheduler.{
  recover_one, recover_expired_leases, schedule_due_retries,
}
use agent_reliability_runtim.Runs.{
  Request, find_by_idempotency_key, get_run_for_client, queued_run, canonical_request_hash,
  request_hash, submit, submit_after_race,
}
use agent_reliability_runtim.Runs.Submission.{Enqueued, submit-Enqueued}
use agent_reliability_runtim.Runs.Retried.{submit_conflict, submit_after_race-winner}
use agent_reliability_runtim.Runs.Replay.{replay_hash}
use agent_reliability_runtim.Runs.Replays.{IsRepeat, IsReplay, replay-IsReplay}
use agent_reliability_runtim.Lifecycle.Leases.{ClaimOutcome}
use agent_reliability_runtim.Lifecycle.Claims.{claim-Outcome}
use agent_reliability_runtim.Lifecycle.Endings.{Moved}
use agent_reliability_runtim.System.Reports.{MayEnd, Written, succeeded_row, succeeded_try, Failed}
use agent_reliability_runtim.System.Reported.{complete_success_cases, complete_failure_cases}
use agent_reliability_runtim.System.Requeues.{IsPass, schedule_due_retries-IsPass}
use agent_reliability_runtim.System.{Reach, empty}
use agent_reliability_runtim.System.Change.{Change}
use agent_reliability_runtim.System.Steps.{Step-Change}
use agent_reliability_runtim.System.Limits.{Invariant}
use agent_reliability_runtim.System.Invariant.{Reach-Invariant}
use agent_reliability_runtim.System.Accounts.{Ledger}
use agent_reliability_runtim.System.Ledger.{Reach-Ledger}
use agent_reliability_runtim.System.Traces.{Step-allowed, ended_run-final}
use agent_reliability_runtim.System.Jobs.{JobRows, Reach-JobRows}
use agent_reliability_runtim.System.Recoveries.{
  expired_batch, IsFreed, recover_expired_leases-frees,
}
use agent_reliability_runtim.System.Progress.{recover_one-frees, complete_failure-total}
use agent_reliability_runtim.System.Passes.{Reach-trans}
use agent_reliability_runtim.Scenario.Start.{
  deployment, config, result, limits, request, policy, at, api, submitted, claimed_once,
  failed_once, queued_again, claimed_twice, succeeded_at_last,
}
use agent_reliability_runtim.Scenario.Life.{
  first_answer, first_claim, waiting, ended, held, first_attempt, replay_answer, replayed_db, life,
  reached_submitted, reached_claimed, reached_failed_once, requeue-Step, reached_late, reached,
}

Reach-Invariant_example : Invariant deployment.config succeeded_at_last
Reach-Invariant_example = Reach-Invariant deployment succeeded_at_last reached

Reach-Ledger_example : Ledger deployment.config succeeded_at_last
Reach-Ledger_example = Reach-Ledger deployment succeeded_at_last reached

ended_run-final_example :
    (s : EvaluationStatus) × (find_run 100 succeeded_at_last ≡ some (with_evaluation s ended))
ended_run-final_example =
    ended_run-final deployment succeeded_at_last succeeded_at_last 100 ended reached_late
      life.ended_found life.ends

Step-allowed_example :
    (r' : Run) × (find_run 100 queued_again ≡ some r')
    × ((r'.execution_status ≡ waiting.execution_status)
        ⊎ ((ensure_execution_transition waiting.execution_status r'.execution_status ≡ ok tt)
            ⊎ ((waiting.execution_status ≡ queued) × (r'.execution_status ≡ retry_scheduled))))
Step-allowed_example =
    Step-allowed deployment failed_once queued_again 100 waiting requeue-Step life.waits_found

Step-Change_example : Change deployment.config failed_once queued_again
Step-Change_example = Step-Change deployment failed_once queued_again requeue-Step

claimed_once-Ledger : Ledger config claimed_once
claimed_once-Ledger = Reach-Ledger deployment claimed_once reached_claimed

failed_once-Ledger : Ledger config failed_once
failed_once-Ledger =
    Reach-Ledger deployment failed_once
      (Reach-trans deployment empty submitted failed_once reached_submitted reached_failed_once)

Reach-JobRows_example : JobRows claimed_once
Reach-JobRows_example = Reach-JobRows deployment claimed_once reached_claimed

recover_one-frees_example :
    (db' : Db) × (recover_one (at 40 800) 100 claimed_once ≡ ok db')
    × ((r' : Run) × (find_run 100 db' ≡ some r') × (r'.execution_status ≢ running))
recover_one-frees_example =
    recover_one-frees deployment claimed_once reached_claimed 100 held life.held_found life.holds
      (at 40 800) first_attempt life.latest life.short life.near

complete_failure-total_example :
    (db' : Db) × (complete_failure (at 3 300) 100 200 "w1" "PROVIDER_TIMEOUT" claimed_once
      ≡ ok (true, db'))
complete_failure-total_example =
    complete_failure-total deployment (at 3 300) 100 200 "w1" claimed_once held first_attempt
      reached_claimed life.held_found life.owns life.attempt_found life.is_open "PROVIDER_TIMEOUT"
      (unfold fits_code in refl) life.short_early life.near_early

recover_expired_leases-frees_example :
    (db' : Db) × (recover_expired_leases (at 40 800) 10 claimed_once
      ≡ ok (length (expired_batch (at 40 800) 10 claimed_once), db'))
    × Reach deployment claimed_once db'
    × All (IsFreed db') (expired_batch (at 40 800) 10 claimed_once)
recover_expired_leases-frees_example =
    recover_expired_leases-frees deployment (at 40 800) 10 claimed_once reached_claimed life.timely

schedule_due_retries-IsPass_example :
    IsPass deployment
      (at 5 400)
      10
      failed_once
      (schedule_due_retries (at 5 400) 10 failed_once).0
      (schedule_due_retries (at 5 400) 10 failed_once).1
schedule_due_retries-IsPass_example =
    schedule_due_retries-IsPass deployment (at 5 400) 10 failed_once failed_once-Ledger

claim-Outcome_example : ClaimOutcome config 100 submitted first_claim claimed_once
claim-Outcome_example =
    claim-Outcome config (at 2 200) 100 "w1" submitted life.attempt_is_new first_claim claimed_once
      life.claims_ok

complete_success_cases_example :
    ((true ≡ false)
      × (succeeded_at_last ≡ claimed_twice)
      × ¬ ((run : Run) × (a : RunAttempt) × MayEnd (at 7 600) 100 500 "w2" claimed_twice run a))
    ⊎ ((true ≡ true)
        × ((run : Run) × (a : RunAttempt) × MayEnd (at 7 600) 100 500 "w2" claimed_twice run a
            × Written
                (at 7 600)
                (succeeded_row (at 7 600) result run)
                (succeeded_try (at 7 600) result a)
                (run_succeeded result.provider)
                []
                claimed_twice
                succeeded_at_last)
        × Moved config 100 claimed_twice succeeded_at_last)
complete_success_cases_example =
    complete_success_cases config (at 7 600) 100 500 "w2" claimed_twice result true
      succeeded_at_last life.succeeds_ok

complete_failure_cases_example :
    ((true ≡ false)
      × (failed_once ≡ claimed_once)
      × ¬ ((run : Run) × (a : RunAttempt) × MayEnd (at 3 300) 100 200 "w1" claimed_once run a))
    ⊎ ((true ≡ true)
        × ((run : Run) × (a : RunAttempt) × MayEnd (at 3 300) 100 200 "w1" claimed_once run a
            × Failed (at 3 300) "PROVIDER_TIMEOUT" false run a claimed_once failed_once)
        × Moved config 100 claimed_once failed_once)
complete_failure_cases_example =
    complete_failure_cases config (at 3 300) 100 200 "w1" claimed_once "PROVIDER_TIMEOUT" true
      failed_once life.fails_ok

submit-Enqueued_example :
    (find_by_idempotency_key "acme" "order-1" empty ≡ none)
    × (count_principal_active (or_default (some "ann") "acme") empty < 2)
    × (count_tenant_active "acme" empty < 3)
    × Enqueued
        (queued_run (api 1 100) request (request_hash deployment.digest request))
        empty
        submitted
submit-Enqueued_example =
    submit-Enqueued deployment.digest limits (api 1 100) request empty first_answer submitted
      life.submits_ok

-- The same key for another input.
abbrev other : Request
other = record {
  client_id = "acme";
  idempotency_key = "order-1";
  input_payload = field "topic" (str "when") end;
  policy_snapshot = policy;
  principal_id = none;
  work_kind = request.work_kind;
}

other_hash : request_hash deployment.digest other ≢ request_hash deployment.digest request
unfolding request_hash canonical_request_hash is_execution
other_hash = λ e. cc e

submit_conflict_example :
    submit deployment.digest limits (api 9 900) other submitted ≡ raise idempotency_conflict
submit_conflict_example =
    submit_conflict deployment.digest limits (api 1 100) (api 9 900) request other empty
      first_answer false submitted refl refl other_hash life.submits_ok

submit_after_race-winner_example :
    submit_after_race deployment.digest request submitted ≡ ok ((first_answer, true), submitted)
submit_after_race-winner_example =
    submit_after_race-winner deployment.digest limits (api 1 100) request empty first_answer
      submitted life.submits_ok

replay-IsReplay_example :
    (source : Run) × (get_run_for_client "acme" 100 succeeded_at_last ≡ ok source)
    × (source.work_kind ≡ execution)
    × (((replay_answer.1 ≡ true)
          × IsRepeat source
              (replay_hash deployment.digest deployment.uuid_text source)
              "acme"
              "again"
              succeeded_at_last
              replay_answer.0
              replayed_db)
        ⊎ ((replay_answer.1 ≡ false)
            × IsReplay limits
                (api 9 900)
                "acme"
                (or_default none "acme")
                "again"
                (replay_hash deployment.digest deployment.uuid_text source)
                source
                succeeded_at_last
                replay_answer.0
                replayed_db))
replay-IsReplay_example =
    replay-IsReplay deployment.digest deployment.uuid_text limits (api 9 900) "acme" 100 "again"
      none succeeded_at_last replay_answer.0 replay_answer.1 replayed_db life.replays_ok
