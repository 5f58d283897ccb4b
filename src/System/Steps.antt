-- ===== src/System/Steps.antt =====
-- Every step makes one of the changes of `Change`.
use agent_reliability_runtim.Prelude.{String, refl, ap, ◌∙◌, inl, inr, subst}
use agent_reliability_runtim.Store.{Run, Db, add_event, add_outbox}
use agent_reliability_runtim.Quotas.Budget.{charge_provider_call-Charged}
use agent_reliability_runtim.Execution.Common.{or_default, is_evaluation}
use agent_reliability_runtim.Runs.{queued_run, request_hash, add_run}
use agent_reliability_runtim.Runs.Submission.{submit_cases, accept-Enqueued}
use agent_reliability_runtim.Runs.Replay.{replay_run, replay_hash, accept_replay}
use agent_reliability_runtim.Runs.Replayed.{
  replay_cases, runs-accept_replay, attempts-accept_replay,
}
use agent_reliability_runtim.Runs.Evaluated.{evaluate-Accepted}
use agent_reliability_runtim.Lifecycle.Claims.{claim-Outcome}
use agent_reliability_runtim.Lifecycle.Endings.{Moved}
use agent_reliability_runtim.Lifecycle.Completions.{complete_success-Moved, complete_failure-Moved}
use agent_reliability_runtim.Lifecycle.Recovery.{recover_one-Moved, schedule_one-Moved}
use agent_reliability_runtim.System.{
  Deployment, Step, submits, replays, evaluates, claims, succeeds, fails, recovers, requeues,
  charges,
}
use agent_reliability_runtim.System.Change.{Change, same_runs, added}
use agent_reliability_runtim.System.Admissions.{
  Admitted-of_replay, Admitted-of_submit, Change-of_Moved, Change-of_claim, Change-of_write,
  Posts-of_accept, Posts-of_accept_replay,
}
use agent_reliability_runtim.System.Judgements.{Change-of_evaluation}

-- Every committed transaction leaves the runs, attempts and outbox alone, makes one move of one
-- run with the attempt and the deliveries that belong to it, or adds one admitted run with its
-- delivery, perhaps with a mark on the evaluation summary of one run.
pub Step-Change : (d : Deployment) (db db' : Db) → Step d db db' → Change d.config db db'
Step-Change d db db' (submits api r (snap, again) fresh not_judging h) =
    elim (submit_cases d.digest d.config.quotas api r db snap again db' h) [
      | inl old ↦
          same_runs (ap (λ (x : Db). x.runs) old.kept) (ap (λ (x : Db). x.attempts) old.kept)
            (ap (λ (x : Db). x.outbox) old.kept) (ap (λ (x : Db). x.evaluations) old.kept)
      | inr new ↦
          let run : Run = queued_run api r (request_hash d.digest r) in
          added run
            (Admitted-of_submit d.config api r (request_hash d.digest r) db fresh new.unused
              new.admitted)
            (ap (λ (x : Db). x.runs) new.added ∙ (accept-Enqueued api run db).one_run)
            (ap (λ (x : Db). x.attempts) new.added ∙ (accept-Enqueued api run db).attempts_kept)
            (Posts-of_accept api run db db' (ap (λ (x : Db). x.outbox) new.added))
            (record {
              not_judging = unfold queued_run in not_judging;
              rows_kept =
                  ap (λ (x : Db). x.evaluations) new.added
                  ∙ (accept-Enqueued api run db).evaluations_kept;
            })
    ]
Step-Change d db db' (replays api client_id run_id key principal_id (snap, again) fresh h) =
    elim (replay_cases d.digest d.uuid_text d.config.quotas api client_id run_id key principal_id db
      snap again db' h) [
        | inl (_, same) ↦
            same_runs (ap (λ (x : Db). x.runs) same) (ap (λ (x : Db). x.attempts) same)
              (ap (λ (x : Db). x.outbox) same) (ap (λ (x : Db). x.evaluations) same)
        | inr (_, new) ↦
            let hash : String = replay_hash d.digest d.uuid_text new.source in
            let run : Run =
              replay_run api client_id (or_default principal_id client_id) key hash new.source in
            added run
              (Admitted-of_replay d.config api client_id principal_id key hash new.source db fresh
                new.unused new.admitted)
              (ap (λ (x : Db). x.runs) new.added ∙ runs-accept_replay api new.source run db)
              (ap (λ (x : Db). x.attempts) new.added ∙ attempts-accept_replay api new.source run db)
              (Posts-of_accept_replay api new.source run db db'
                (ap (λ (x : Db). x.outbox) new.added))
              (record {
                not_judging = unfold replay_run is_evaluation in refl;
                rows_kept =
                    ap (λ (x : Db). x.evaluations) new.added
                    ∙ (unfold accept_replay add_event add_outbox add_run in refl);
              })
      ]
Step-Change d db db'
      (evaluates check_schema job_timeout api client_id run_id rules principal_id snap source fresh
        visible found new_row h) =
    Change-of_evaluation d.config d.digest d.uuid_text check_schema job_timeout api client_id run_id
      rules principal_id source db snap db' fresh visible found new_row
      (evaluate-Accepted d.digest d.uuid_text check_schema d.config.quotas job_timeout api client_id
        run_id rules principal_id db snap db' h)
Step-Change d db db' (claims env run_id worker_id res fresh h) =
    Change-of_claim d.config db db' run_id res
      (claim-Outcome d.config env run_id worker_id db fresh res db' h)
Step-Change d db db' (succeeds env run_id attempt_id worker_id result b h) =
    Change-of_write d.config db db' run_id
      (complete_success-Moved d.config env run_id attempt_id worker_id db result b db' h)
Step-Change d db db' (fails env run_id attempt_id worker_id error_code b h) =
    Change-of_write d.config db db' run_id
      (complete_failure-Moved d.config env run_id attempt_id worker_id db error_code b db' h)
Step-Change d db db' (recovers env run_id run found held h) =
    elim (recover_one-Moved d.config env run_id run db db' found held h) [
      | inl same ↦ same_runs (rw same) (rw same) (rw same) (rw same)
      | inr m ↦ Change-of_Moved d.config db db' run_id m
    ]
Step-Change d db db' (requeues env run_id run found waits h) =
    Change-of_Moved d.config db db' run_id (
      subst (Moved d.config run_id db) h
        (schedule_one-Moved d.config env run_id run db found waits))
Step-Change d db db' (charges now principal_id tenant_id h) =
    let kept =
      (charge_provider_call-Charged now principal_id tenant_id d.config.quotas db db'
        h).tables_kept in
    same_runs (ap (λ (x : Db). x.runs) kept) (ap (λ (x : Db). x.attempts) kept)
      (ap (λ (x : Db). x.outbox) kept) (ap (λ (x : Db). x.evaluations) kept)
