-- ===== src/Scenario/Life.antt =====
-- The steps of the life in Start.antt, one by one, and the trace of the system that they make.
use agent_reliability_runtim.Prelude
use agent_reliability_runtim.Prelude.{Bool, ◌≡◌, refl, true, false, get_elem?, Option, none, some}
use agent_reliability_runtim.Prelude.Result.{ok}
use agent_reliability_runtim.Json.{get, get_or, put}
use agent_reliability_runtim.Domain.States.{contains, same_status, is_terminal_execution_status}
use agent_reliability_runtim.Domain.Retry.{
  is_huge, value, of_value, is_retryable_code, is_retryable_error, any_blank, post_init,
  delay_after_attempt, positive_int, positive_float, strings, string_list, from_snapshot, is_blank,
}
use agent_reliability_runtim.Store.{add_event, add_outbox, Db, Run, RunAttempt}
use agent_reliability_runtim.Quotas.{
  find_quota, current_window, spent, check_provider_budget, is_active, count_principal_active,
  count_tenant_active, check_admission,
}
use agent_reliability_runtim.Execution.Common.{
  or_default, find_run, put_run, find_attempt, put_attempt, is_execution, is_evaluation,
  latest_number, next_attempt_number, is_some_time, later_attempt, open_attempt,
  latest_open_attempt, is_after, owns_active_lease, clear_lease, latency, finish_failed_attempt,
  finalize_evaluation_job, fits_integer, fits_code, fits_columns, flushed, check_calendar,
  last_time,
}
use agent_reliability_runtim.Execution.Claim.{
  is_value_error, count_principal_running, count_tenant_running, leased, new_attempt,
  claimed_policy, start_attempt, provider_for, claim_policy, claim_queued, claim_run, claim,
  ClaimResult, declined, missing, terminal,
}
use agent_reliability_runtim.Execution.Finish.{
  is_closed_to, succeed_attempt, succeed_run, write_success, with_lease, complete_success, released,
  retrying, retry_later, is_true, schedule_retry_or_finalize, write_failure, complete_failure,
}
use agent_reliability_runtim.Execution.Scheduler.{
  requeue, queue_again, schedule_one, is_due, order_by, select_batch, has_expired, next_round,
  recover_one, recover_all, recover_expired_leases,
}
use agent_reliability_runtim.Runs.Replay.{replay_run, accept_replay, replay_hash, replay}
use agent_reliability_runtim.Runs.History.{precedes, order_rows, is_of_run, attempt_history}
use agent_reliability_runtim.Runs.{
  get_run_for_client, as_object, routing_decision, to_run_snapshot, has_key,
  find_by_idempotency_key, first_provider, record_routing, queued_run, add_run, accept,
  canonical_request_hash, request_hash, submit_new, submit, RunSnapshot,
}
use agent_reliability_runtim.System.{
  Step, submits, claims, succeeds, fails, requeues, Reach, here, next, empty,
}
use agent_reliability_runtim.Domain.States.{running, retry_scheduled}
use agent_reliability_runtim.Runs.History.Pages.{history}
use agent_reliability_runtim.System.Progress.{is_short, is_near}
use agent_reliability_runtim.System.Recoveries.{IsTimely}
use agent_reliability_runtim.System.Passes.{Reach-trans}
use agent_reliability_runtim.Execution.Claim
use agent_reliability_runtim.Scenario.Start.{
  deployment, request, at, api, tables, answer, result, limits, config, submitted, claimed_once,
  failed_once, queued_again, claimed_twice, succeeded_at_last,
}

-- The run as the client sees it when it is accepted.
abbrev pub first_answer : RunSnapshot
first_answer = to_run_snapshot (queued_run (api 1 100) request "question")

abbrev pub first_claim : ClaimResult
first_claim = answer (declined missing 0) (claim config (at 2 200) 100 "w1" submitted)

abbrev pub second_claim : ClaimResult
second_claim = answer (declined missing 0) (claim config (at 6 500) 100 "w2" queued_again)

abbrev run_in : Db → Run
run_in db = elim (find_run 100 db) [ none ↦ queued_run (api 1 100) request "" | some r ↦ r ]

-- The run while it waits for its retry, and at its end.
abbrev pub waiting : Run
waiting = run_in failed_once

abbrev pub ended : Run
ended = run_in succeeded_at_last

abbrev pub held : Run
held = run_in claimed_once

abbrev pub first_attempt : RunAttempt
first_attempt = elim (find_attempt 200 claimed_once) [
  | none ↦ Claim.new_attempt (at 2 200) "w1" held 1 "primary"
  | some a ↦ a
]

abbrev pub first_attempt_ended : RunAttempt
first_attempt_ended = elim (find_attempt 200 succeeded_at_last) [
  | none ↦ first_attempt
  | some a ↦ a
]

-- The lease has run out before a pass of the scheduler.
abbrev pub recovered : Db
recovered = tables (recover_expired_leases (at 40 800) 10 claimed_once)

abbrev pub replay_answer : RunSnapshot × Bool
replay_answer =
    answer (first_answer, true)
      (replay deployment.digest deployment.uuid_text limits (api 9 900) "acme" 100 "again" none
        succeeded_at_last)

abbrev pub replayed_db : Db
replayed_db = tables (
    replay deployment.digest deployment.uuid_text limits (api 9 900) "acme" 100 "again" none
      succeeded_at_last)

-- Every operation returns, with the tables that Start.antt names, and draws new identifiers.
pub record Life : Type 0 where
  pub submits_ok :
      submit deployment.digest limits (api 1 100) request empty
      ≡ ok ((first_answer, false), submitted)
  pub claims_ok : claim config (at 2 200) 100 "w1" submitted ≡ ok (first_claim, claimed_once)
  pub fails_ok :
      complete_failure (at 3 300) 100 200 "w1" "PROVIDER_TIMEOUT" claimed_once
      ≡ ok (true, failed_once)
  pub claims_again_ok :
      claim config (at 6 500) 100 "w2" queued_again ≡ ok (second_claim, claimed_twice)
  pub succeeds_ok :
      complete_success (at 7 600) 100 500 "w2" result claimed_twice ≡ ok (true, succeeded_at_last)
  pub run_is_new : find_run 100 empty ≡ none
  pub attempt_is_new : find_attempt 200 submitted ≡ none
  pub next_is_new : find_attempt 500 queued_again ≡ none
  pub waits_found : find_run 100 failed_once ≡ some waiting
  pub waits : waiting.execution_status ≡ retry_scheduled
  pub ended_found : find_run 100 succeeded_at_last ≡ some ended
  pub held_found : find_run 100 claimed_once ≡ some held
  pub holds : held.execution_status ≡ running
  pub owns : owns_active_lease held "w1" (at 3 300).now ≡ true
  pub attempt_found : find_attempt 200 claimed_once ≡ some first_attempt
  pub is_open : is_closed_to held first_attempt ≡ false
  pub latest : latest_open_attempt held.id claimed_once ≡ some first_attempt
  pub short : is_short (at 40 800).now first_attempt ≡ true
  pub short_early : is_short (at 3 300).now first_attempt ≡ true
  pub near : is_near (at 40 800).now held ≡ true
  pub near_early : is_near (at 3 300).now held ≡ true
  pub timely : IsTimely (at 40 800).now claimed_once
  pub recovers_ok : recover_expired_leases (at 40 800) 10 claimed_once ≡ ok (1, recovered)
  pub late_ok :
      claim config (at 8 700) 100 "w1" succeeded_at_last
      ≡ ok (declined terminal 100, succeeded_at_last)
  pub late_is_new : find_attempt 700 succeeded_at_last ≡ none
  pub replays_ok :
      replay deployment.digest deployment.uuid_text limits
        (api 9 900)
        "acme"
        100
        "again"
        none
        succeeded_at_last
      ≡ ok (replay_answer, replayed_db)
  pub first_found :
      get_elem? (history attempt_history 100 succeeded_at_last.attempts) 0
      ≡ some first_attempt_ended
  pub visible : get_run_for_client "acme" 100 succeeded_at_last ≡ ok ended
  pub ends : is_terminal_execution_status ended.execution_status ≡ true

pub life : Life
unfolding get get_or put contains same_status is_terminal_execution_status value of_value is_short
    is_near is_huge is_value_error fits_integer fits_code fits_columns flushed check_calendar
    last_time is_retryable_code is_retryable_error any_blank post_init delay_after_attempt
    positive_int positive_float strings string_list from_snapshot is_blank add_event add_outbox
    find_quota current_window spent check_provider_budget is_active count_principal_active
    count_tenant_active check_admission or_default find_run put_run find_attempt put_attempt
    is_execution is_evaluation latest_number next_attempt_number is_some_time later_attempt
    open_attempt latest_open_attempt is_after owns_active_lease clear_lease latency
    finish_failed_attempt finalize_evaluation_job count_principal_running count_tenant_running
    leased new_attempt claimed_policy start_attempt provider_for claim_policy claim_queued claim_run
    claim is_closed_to succeed_attempt succeed_run write_success with_lease complete_success
    released retrying retry_later is_true schedule_retry_or_finalize write_failure complete_failure
    requeue queue_again schedule_one is_due order_by select_batch has_expired next_round recover_one
    recover_all recover_expired_leases replay_run accept_replay replay_hash replay precedes
    order_rows is_of_run get_run_for_client as_object routing_decision to_run_snapshot has_key
    find_by_idempotency_key first_provider record_routing queued_run add_run accept
    canonical_request_hash request_hash submit_new submit Prelude.find Prelude.put
life = record {
  submits_ok = refl;
  claims_ok = refl;
  fails_ok = refl;
  claims_again_ok = refl;
  succeeds_ok = refl;
  run_is_new = refl;
  attempt_is_new = refl;
  next_is_new = refl;
  waits_found = refl;
  waits = refl;
  ended_found = refl;
  held_found = refl;
  holds = refl;
  owns = refl;
  attempt_found = refl;
  is_open = refl;
  latest = refl;
  short = refl;
  short_early = refl;
  near = refl;
  near_early = refl;
  timely = record { short = (refl, tt); near = (refl, tt) };
  recovers_ok = refl;
  late_ok = refl;
  late_is_new = refl;
  replays_ok = refl;
  first_found = refl;
  visible = refl;
  ends = refl;
}

pub reached_submitted : Reach deployment empty submitted
reached_submitted = next here (
    submits (api 1 100) request (first_answer, false) life.run_is_new (unfold is_evaluation in refl)
      life.submits_ok)

pub reached_claimed : Reach deployment empty claimed_once
reached_claimed =
    next reached_submitted
      (claims (at 2 200) 100 "w1" first_claim life.attempt_is_new life.claims_ok)

pub reached_late : Reach deployment succeeded_at_last succeeded_at_last
reached_late =
    next here (claims (at 8 700) 100 "w1" (declined terminal 100) life.late_is_new life.late_ok)

pub reached_failed_once : Reach deployment submitted failed_once
reached_failed_once =
    next (next here (claims (at 2 200) 100 "w1" first_claim life.attempt_is_new life.claims_ok))
      (fails (at 3 300) 100 200 "w1" "PROVIDER_TIMEOUT" true life.fails_ok)

pub requeue-Step : Step deployment failed_once queued_again
requeue-Step = requeues (at 5 400) 100 waiting life.waits_found life.waits refl

pub reached_end : Reach deployment queued_again succeeded_at_last
reached_end =
    next (next here (claims (at 6 500) 100 "w2" second_claim life.next_is_new life.claims_again_ok))
      (succeeds (at 7 600) 100 500 "w2" result true life.succeeds_ok)

pub reached_from_submitted : Reach deployment submitted succeeded_at_last
reached_from_submitted =
    Reach-trans deployment submitted queued_again succeeded_at_last
      (next reached_failed_once requeue-Step) reached_end

pub reached : Reach deployment empty succeeded_at_last
reached =
    Reach-trans deployment empty submitted succeeded_at_last reached_submitted
      reached_from_submitted
