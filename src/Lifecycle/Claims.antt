-- ===== src/Lifecycle/Claims.antt =====
-- What `claim` does to the table of runs: nothing, or one move of the claimed run.
use agent_reliability_runtim.Prelude.{
  String, ◌≡◌, ◌≢◌, sym, ap, ◌∙◌, none, some, arith, inl, inr, Bool-cases, Option-cases,
}
use agent_reliability_runtim.Prelude.Result.{ok}
use agent_reliability_runtim.Domain.States.{
  queued, running, same_status, same_status-eq, is_terminal_execution_status,
}
use agent_reliability_runtim.Store.{Uuid, Run, Db, Env}
use agent_reliability_runtim.Execution.Common.{ExecutionConfig, find_run, find_attempt}
use agent_reliability_runtim.Execution.Claim.{ClaimResult, claim_run, claim}
use agent_reliability_runtim.Lifecycle.Leases.{ClaimOutcome, claim_queued-Outcome, unchanged}

module _ (cfg : ExecutionConfig) (env : Env) (run_id : Uuid) (worker_id : String) (db : Db)
    (is_new : find_attempt (env.uuid 0) db ≡ none) where
  not_queued :
      (run : Run)
      → find_run run_id db ≡ some run
      → run.execution_status ≢ queued
      → (r : Run) → find_run run_id db ≡ some r
      → r.execution_status ≢ queued
  not_queued run found h r other q =
      let same : r ≡ run = cc (found, other) in
      h (ap (λ (x : Run). x.execution_status) (sym same) ∙ q)

  claim_run-Outcome :
      (run : Run) (res : ClaimResult) (db' : Db)
      → find_run run_id db ≡ some run
      → claim_run cfg env worker_id run db ≡ ok (res, db')
      → ClaimOutcome cfg run_id db res db'
  unfolding claim_run is_terminal_execution_status same_status
  claim_run-Outcome run res db' found h =
      elim (Bool-cases (is_terminal_execution_status run.execution_status)) [
        | inl ended ↦
            unchanged (ground arith) (ground arith) (not_queued run found (λ q. ground arith))
        | inr live ↦ elim (Bool-cases (same_status run.execution_status running)) [
          | inl held ↦
              unchanged (ground arith) (ground arith) (not_queued run found (λ q. ground arith))
          | inr idle ↦ elim (Bool-cases (same_status run.execution_status queued)) [
            | inl ready ↦
                claim_queued-Outcome cfg env worker_id run_id run db found
                  (same_status-eq run.execution_status queued ready) is_new res db'
                  (rw (live, idle, ready) at h)
            | inr waiting ↦
                unchanged (ground arith) (ground arith) (not_queued run found (λ q. ground arith))
          ]
        ]
      ]

  -- A claim that commits, its attempt's identifier being new, either leaves the tables alone, is
  -- not CLAIMED and found no queued run, or makes one move of the queued run that it names: a
  -- lease with the next attempt, within the capacity and the budget of attempts, a postponement,
  -- or a rejection.
  pub claim-Outcome :
      (res : ClaimResult) (db' : Db)
      → claim cfg env run_id worker_id db ≡ ok (res, db')
      → ClaimOutcome cfg run_id db res db'
  unfolding claim
  claim-Outcome res db' h = elim (Option-cases (find_run run_id db)) [
    | inl none_found ↦ unchanged (ground arith) (ground arith) (λ r h' q. cc (none_found, h'))
    | inr (run, found) ↦ claim_run-Outcome run res db' found (ground arith)
  ]
