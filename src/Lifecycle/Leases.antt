-- ===== src/Lifecycle/Leases.antt =====
-- The outcomes of `claim`, and its ends one by one
-- (src/agent_runtime/infrastructure/database/execution_service.py).
use agent_reliability_runtim.Prelude.{
  ℕ, ◌≤◌, ◌<◌, min, String, ◌≡◌, ◌≢◌, refl, sym, ◌∙◌, subst, none, some, arith, inl, inr, leb, ltb,
  leb→lt, Bool-cases,
}
use agent_reliability_runtim.Prelude.Result.{Result, ok, raise, >>=-eq-ok}
use agent_reliability_runtim.Domain.States.{queued, running}
use agent_reliability_runtim.Domain.Retry.{RetryPolicy, from_snapshot}
use agent_reliability_runtim.Store.{Uuid, Run, Db, Env, add_event}
use agent_reliability_runtim.Execution.Common.{
  ExecutionConfig, or_default, find_run, find_attempt, put_run, next_attempt_number,
  finalize_evaluation_job,
}
use agent_reliability_runtim.Execution.Frames.{find_run-id}
use agent_reliability_runtim.Execution.Summaries.{finalize_keeps}
use agent_reliability_runtim.Execution.Claim.{
  ClaimResult, claimed, count_principal_running, count_tenant_running, postponed, rejected,
  fail_claim, leased, new_attempt, start_attempt, provider_for, claim_policy, is_value_error,
  claim_queued,
}
use agent_reliability_runtim.Lifecycle.{Moves, lease, postpone, reject}
use agent_reliability_runtim.Lifecycle.Tries.{Tries, opens, untouched}
use agent_reliability_runtim.Lifecycle.Posts.{Posts, Posts-quiet}
use agent_reliability_runtim.Lifecycle.Writes.{Writes, plain, job}

-- The capacity that a lease needs: fewer running runs than the principal and the tenant may have.
pub record HasRoom (cfg : ExecutionConfig) (run : Run) (db : Db) : Type 0 where
  pub principal_room :
      count_principal_running (or_default run.principal_id run.client_id) db
      < cfg.quotas.principal_running
  pub tenant_room : count_tenant_running run.client_id db < cfg.quotas.tenant_running

pub data ClaimOutcome (cfg : ExecutionConfig) (run_id : Uuid) (db : Db) (res : ClaimResult)
    (db' : Db) : Type 0 where
  unchanged :
      db' ≡ db
      → res.decision ≢ claimed
      → ((r : Run) → find_run run_id db ≡ some r → r.execution_status ≢ queued)
      → ClaimOutcome cfg run_id db res db'
  changed :
      (old new : Run)
      → find_run run_id db ≡ some old
      → old.execution_status ≡ queued
      → Moves old new
      → Writes db old new db'
      → Tries cfg db old new db'
      → Posts db new db'
      → (new.execution_status ≡ running → HasRoom cfg old db)
      → ClaimOutcome cfg run_id db res db'

module _ (cfg : ExecutionConfig) (env : Env) (worker_id : String) (run_id : Uuid) (run : Run)
    (db : Db) (found : find_run run_id db ≡ some run) (ready : run.execution_status ≡ queued)
    (is_new : find_attempt (env.uuid 0) db ≡ none) where
  at_run : find_run run.id db ≡ some run
  at_run = subst (λ k. find_run k db ≡ some run) (sym (find_run-id run_id db run found)) found

  fail_claim-Outcome :
      (res : ClaimResult) (db' : Db)
      → fail_claim env run db ≡ ok (res, db')
      → ClaimOutcome cfg run_id db res db'
  unfolding fail_claim
  fail_claim-Outcome res db' h =
      let (db₁, ended, same) =
        >>=-eq-ok (finalize_evaluation_job env (rejected env run) (put_run (rejected env run) db)) _
          h in
      let last : db₁ ≡ db' = ground arith in
      changed run (rejected env run) found ready (reject env ready refl)
        (record {
          found = at_run;
          same_id = unfold rejected in refl;
          mid = put_run (rejected env run) db;
          written = refl;
          rows_kept = unfold put_run in refl;
          finish = job env (rejected env run) (rw last at ended);
        })
        (untouched (λ e. cc (ready, e)) (unfold rejected in λ e. cc e)
          ((finalize_keeps env (rejected env run) (put_run (rejected env run) db) db'
              (rw last at ended)).0
            ∙ (unfold put_run in refl)))
        (Posts-quiet db (rejected env run) db'
          ((finalize_keeps env (rejected env run) (put_run (rejected env run) db) db'
              (rw last at ended)).1
            ∙ (unfold put_run in refl))
          (unfold rejected in λ e. cc e))
        (unfold rejected in λ e. cc e)

  postponed-Outcome :
      (res : ClaimResult) → ClaimOutcome cfg run_id db res (put_run (postponed env run) db)
  postponed-Outcome res =
      changed run (postponed env run) found ready (postpone env ready refl)
        (record {
          found = at_run;
          same_id = unfold postponed in refl;
          mid = put_run (postponed env run) db;
          written = refl;
          rows_kept = unfold put_run in refl;
          finish = plain refl;
        })
        (untouched (λ e. cc (ready, e)) (unfold postponed in λ e. cc e) (unfold put_run in refl))
        (Posts-quiet db (postponed env run) (put_run (postponed env run) db)
          (unfold put_run in refl) (unfold postponed in λ e. cc e))
        (unfold postponed in λ e. cc e)

  start_attempt-Outcome :
      (room : HasRoom cfg run db) (policy : RetryPolicy) (n : ℕ) (provider : String)
      → from_snapshot run.policy_snapshot ≡ ok policy
      → n ≡ next_attempt_number run.id db
      → n ≤ min policy.max_attempts cfg.max_attempts
      → provider_for policy n ≡ ok provider
      → ClaimOutcome cfg run_id db
          (start_attempt cfg env worker_id run policy n provider db).0
          (start_attempt cfg env worker_id run policy n provider db).1
  unfolding start_attempt add_event new_attempt
  start_attempt-Outcome room policy n provider stored number budget chosen =
      changed run (leased cfg env worker_id run) found ready (lease cfg env worker_id ready refl)
        (record {
          found = at_run;
          same_id = unfold leased in refl;
          mid = (start_attempt cfg env worker_id run policy n provider db).1;
          written = refl;
          rows_kept = unfold put_run in refl;
          finish = plain refl;
        })
        (opens ready (unfold leased in refl) (record {
          attempt = new_attempt env worker_id run n provider;
          policy = policy;
          stored = stored;
          is_new = is_new;
          of_run = refl;
          is_open = refl;
          number = number;
          budget = budget;
          provider = chosen;
          added = refl;
        }))
        (Posts-quiet db (leased cfg env worker_id run)
          (start_attempt cfg env worker_id run policy n provider db).1 (unfold put_run in refl)
          (unfold leased in λ e. cc e))
        (λ _. room)

  claim_policy-Outcome :
      (room : HasRoom cfg run db) (n : ℕ) (policy : Result RetryPolicy) (res : ClaimResult)
      (db' : Db)
      → from_snapshot run.policy_snapshot ≡ policy
      → n ≡ next_attempt_number run.id db
      → claim_policy cfg env worker_id run n policy db ≡ ok (res, db')
      → ClaimOutcome cfg run_id db res db'
  unfolding claim_policy
  claim_policy-Outcome room n (raise e) res db' stored number h =
      elim (Bool-cases (is_value_error e)) [
        | inl caught ↦ fail_claim-Outcome res db' (rw caught at h)
        | inr passed_on ↦ absurd (let bad = rw passed_on at h in cc bad)
      ]
  claim_policy-Outcome room n (ok policy) res db' stored number h =
      elim (Bool-cases (ltb (min policy.max_attempts cfg.max_attempts) n)) [
        | inl spent ↦ fail_claim-Outcome res db' (rw spent at h)
        | inr left ↦
            let (provider, chosen, same) = >>=-eq-ok (provider_for policy n) _ (rw left at h) in
            let given : start_attempt cfg env worker_id run policy n provider db ≡ (res, db') =
              ground arith in
            subst (λ (t : ClaimResult × Db). ClaimOutcome cfg run_id db t.0 t.1) given
              (start_attempt-Outcome room policy n provider stored number (ground arith) chosen)
      ]

  pub claim_queued-Outcome :
      (res : ClaimResult) (db' : Db)
      → claim_queued cfg env worker_id run db ≡ ok (res, db')
      → ClaimOutcome cfg run_id db res db'
  unfolding claim_queued
  claim_queued-Outcome res db' h =
      elim (Bool-cases (
        leb cfg.quotas.principal_running
          (count_principal_running (or_default run.principal_id run.client_id) db))) [
            | inl full ↦
                let given : put_run (postponed env run) db ≡ db' = ground arith in
                subst (ClaimOutcome cfg run_id db res) given (postponed-Outcome res)
            | inr free ↦
                elim (Bool-cases
                  (leb cfg.quotas.tenant_running (count_tenant_running run.client_id db))) [
                    | inl full ↦
                        let given : put_run (postponed env run) db ≡ db' = ground arith in
                        subst (ClaimOutcome cfg run_id db res) given (postponed-Outcome res)
                    | inr room ↦
                        claim_policy-Outcome
                          (record {
                            principal_room = leb→lt _ _ free;
                            tenant_room = leb→lt _ _ room;
                          })
                          (next_attempt_number run.id db) (from_snapshot run.policy_snapshot) res
                          db' refl refl (rw (free, room) at h)
                  ]
          ]
