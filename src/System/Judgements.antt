-- ===== src/System/Judgements.antt =====
-- The job that `evaluate` adds is admitted, and the mark on its source is a write of one run.
use agent_reliability_runtim.Prelude.{
  ℕ, List, Bool, ◌&&◌, is_text, str_eq, String, ◌≡◌, refl, sym, ap, Option, none, some, arith,
  subst,
}
use agent_reliability_runtim.Prelude.Result.{ok}
use agent_reliability_runtim.Store.{Uuid, Run, Db}
use agent_reliability_runtim.Domain.States.{pending, same_status, is_terminal_execution_status}
use agent_reliability_runtim.Quotas.{is_active, count_principal_active, count_tenant_active}
use agent_reliability_runtim.Execution.Common.{ExecutionConfig, or_default, find_run, put_run}
use agent_reliability_runtim.Runs.{ApiEnv, get_run_for_client}
use agent_reliability_runtim.Runs.History.{EvaluationSnapshot}
use agent_reliability_runtim.Runs.Evaluate.{show_pending, evaluation_job, pending_evaluation}
use agent_reliability_runtim.System.{find_evaluation}
use agent_reliability_runtim.Runs.Evaluated.{Accepted}
use agent_reliability_runtim.Lifecycle.Writes.{plain}
use agent_reliability_runtim.Lifecycle.Posts.{Posts-sent}
use agent_reliability_runtim.Lifecycle.Rows.{IsConsistent}
use agent_reliability_runtim.System.Lookups.{find_run-Marks-none}
use agent_reliability_runtim.Json.{Json, Fields}
use agent_reliability_runtim.Execution.Frames.{find_run-id}
use agent_reliability_runtim.System.Change.{Admitted, Change, judged}
use agent_reliability_runtim.System.Marks.{Marks, count-Marks, unused-Marks}
use agent_reliability_runtim.System.Admissions.{or_default_idem}

evaluation_job-IsConsistent :
    (digest : Json → String) (uuid_text : Uuid → String) (job_timeout : ℕ) (api : ApiEnv)
    (client_id principal_id : String) (run_id : Uuid) (rules : List Fields)
    → IsConsistent
        (evaluation_job digest uuid_text job_timeout api client_id principal_id run_id rules)
unfolding evaluation_job same_status is_terminal_execution_status
evaluation_job-IsConsistent digest uuid_text job_timeout api client_id principal_id run_id rules =
    record { owner = refl; expiry = refl; retry_time = refl; completion = refl }

-- The source of an evaluation with its mark, before the job is there.
Marks-show_pending :
    (run : Run) (db : Db) → find_run run.id db ≡ some run → Marks db (show_pending run db)
unfolding show_pending put_run
Marks-show_pending run db found = record {
  source = run;
  status = pending;
  writes = record {
    found = found;
    same_id = refl;
    mid = show_pending run db;
    written = refl;
    rows_kept = refl;
    finish = plain refl;
  };
  attempts_kept = refl;
  outbox_kept = refl;
}

Admitted-of_evaluation :
    (cfg : ExecutionConfig) (digest : Json → String) (uuid_text : Uuid → String)
    (check_schema : Json → Bool) (job_timeout : ℕ) (api : ApiEnv) (client_id : String)
    (run_id : Uuid) (rules : List Fields) (principal_id : Option String) (db mid : Db)
    (snap : EvaluationSnapshot) (db' : Db)
    → find_run (api.env.uuid 0) db ≡ none
    → Accepted digest uuid_text check_schema cfg.quotas job_timeout api client_id run_id rules
        principal_id db snap db'
    → Marks db mid
    → Admitted cfg mid (
        evaluation_job digest uuid_text job_timeout api client_id
          (or_default principal_id client_id)
          run_id
          rules)
unfolding evaluation_job count_principal_active count_tenant_active is_active
Admitted-of_evaluation cfg digest uuid_text check_schema job_timeout api client_id run_id rules
      principal_id db mid snap db' fresh a k =
    let named : or_default (some (or_default principal_id client_id)) client_id
        ≡ or_default principal_id client_id =
      or_default_idem principal_id client_id in
    record {
      waits = refl;
      consistent =
          evaluation_job-IsConsistent digest uuid_text job_timeout api client_id
            (or_default principal_id client_id) run_id rules;
      fresh = find_run-Marks-none db mid k (api.env.uuid 0) fresh;
      unused = unused-Marks db mid k client_id _ a.unused;
      named = ap some (sym named);
      principal_room =
          rw
            (
              named,
              count-Marks db mid k
                  (λ r. is_text r.principal_id (or_default principal_id client_id) && is_active r)
                  (λ r s. refl),
            )
            a.principal_room;
      tenant_room =
          rw (count-Marks db mid k (λ r. str_eq r.client_id client_id && is_active r) (λ r s. refl))
            a.tenant_room;
    }

pub Change-of_evaluation :
    (cfg : ExecutionConfig) (digest : Json → String) (uuid_text : Uuid → String)
    (check_schema : Json → Bool) (job_timeout : ℕ) (api : ApiEnv) (client_id : String)
    (run_id : Uuid) (rules : List Fields) (principal_id : Option String) (source : Run) (db : Db)
    (snap : EvaluationSnapshot) (db' : Db)
    → find_run (api.env.uuid 0) db ≡ none
    → get_run_for_client client_id run_id db ≡ ok source
    → find_run run_id db ≡ some source
    → find_evaluation (api.env.uuid 1) db ≡ none
    → Accepted digest uuid_text check_schema cfg.quotas job_timeout api client_id run_id rules
        principal_id db snap db'
    → Change cfg db db'
unfolding show_pending put_run pending_evaluation find_evaluation evaluation_job
Change-of_evaluation cfg digest uuid_text check_schema job_timeout api client_id run_id rules
      principal_id source db snap db' fresh visible found new_row a =
    let same : source ≡ a.source = cc (visible, a.visible) in
    let here : find_run a.source.id db ≡ some a.source =
      subst (λ (r : Run). find_run r.id db ≡ some r) same
        (subst (λ k. find_run k db ≡ some source) (sym (find_run-id run_id db source found))
          found) in
    let mid = show_pending a.source db in
    let k = Marks-show_pending a.source db here in
    judged mid _ k
      (Admitted-of_evaluation cfg digest uuid_text check_schema job_timeout api client_id run_id
        rules principal_id db mid snap db' fresh a k)
      a.rows.one_run a.rows.attempts_kept
      (Posts-sent mid _ db' a.rows.delivery a.rows.one_delivery
        (ground (arith, a.rows.of_job, a.rows.kind, a.rows.unpublished)))
      (record { row = _; of_job = refl; fresh = new_row; one_row = a.rows.one_evaluation })
