-- ===== src/Runs/Evaluated.antt =====
-- What a call of `evaluate` has done when it returns
-- (src/agent_runtime/infrastructure/database/run_service.py).
use agent_reliability_runtim.Prelude.{
  ℕ, ◌<◌, String, ◌≡◌, refl, Bool, true, false, Option, none, some, List, [], ◌∷◌, ◌++◌, length,
  is_some, if◌then◌else◌,
}
use agent_reliability_runtim.Prelude.Result.{
  ok, raise, run_not_succeeded, integrity_error, >>=-eq-ok,
}
use agent_reliability_runtim.Json.{Json, Fields}
use agent_reliability_runtim.Quotas.{
  QuotaLimits, count_principal_active, count_tenant_active, check_admission,
}
use agent_reliability_runtim.Domain.States.{pending}
use agent_reliability_runtim.Store.{
  Uuid, Run, OutboxEvent, Delivery, first_time, Evaluation, Db, add_event, add_outbox,
}
use agent_reliability_runtim.Execution.Common.{or_default, put_run}
use agent_reliability_runtim.Execution.Frames.{with_evaluation}
use agent_reliability_runtim.Evaluation.Safety.{validate_rules}
use agent_reliability_runtim.Runs.{find_by_idempotency_key, get_run_for_client, ApiEnv, add_run}
use agent_reliability_runtim.Runs.Submission.{admission_room}
use agent_reliability_runtim.Runs.History.{EvaluationSnapshot, to_evaluation_snapshot}
use agent_reliability_runtim.Runs.Evaluate.{
  is_evaluable, pending_evaluation, add_evaluation, show_pending, accept_evaluation, evaluation_job,
  evaluate,
}

-- The rows that an acceptance adds, and the source that it marks.
pub record Judged (run job : Run) (e : Evaluation) (db db' : Db) : Type 0 where
  pub one_run : db'.runs ≡ (put_run (with_evaluation pending run) db).runs ++ job ∷ []
  pub delivery : OutboxEvent
  pub one_delivery : db'.outbox ≡ db.outbox ++ delivery ∷ []
  pub of_job : delivery.aggregate_id ≡ job.id
  pub kind : delivery.delivery ≡ Delivery.run_queued first_time
  pub unpublished : delivery.published_at ≡ none
  pub one_evaluation : db'.evaluations ≡ db.evaluations ++ e ∷ []
  pub attempts_kept : db'.attempts ≡ db.attempts
  pub quotas_kept : db'.quotas ≡ db.quotas

pub accept_evaluation-Judged :
    (api : ApiEnv) (job : Run) (e : Evaluation) (run : Run) (db : Db)
    → Judged run job e db (accept_evaluation api job e run db)
unfolding accept_evaluation add_event add_outbox add_evaluation add_run show_pending put_run
accept_evaluation-Judged api job e run db = record {
  one_run = refl;
  delivery = record {
    id = api.env.uuid 2;
    aggregate_id = job.id;
    delivery = Delivery.run_queued first_time;
    trace_context = api.trace_context;
    created_at = api.env.server_now;
    published_at = none;
    publish_attempts = 0;
    last_error = none;
  };
  one_delivery = refl;
  of_job = refl;
  kind = refl;
  unpublished = refl;
  one_evaluation = refl;
  attempts_kept = refl;
  quotas_kept = refl;
}

passed_test : (b : Bool) → (if b then ok (tt {0}) else raise run_not_succeeded) ≡ ok tt → b ≡ true
passed_test true h = refl
passed_test false h = cc

unused_key :
    {A : Type 0} (o : Option A)
    → (if is_some o then raise integrity_error else ok (tt {0})) ≡ ok tt
    → o ≡ none
unused_key none h = refl
unused_key (some a) h = cc

module _ (digest : Json → String) (uuid_text : Uuid → String) (check_schema : Json → Bool)
    (quotas : QuotaLimits) (job_timeout : ℕ) (api : ApiEnv) (client_id : String) (run_id : Uuid)
    (rules : List Fields) (principal_id : Option String) (db : Db) where
  abbrev job_row : Run
  job_row =
      evaluation_job digest uuid_text job_timeout api client_id (or_default principal_id client_id)
        run_id rules

  abbrev evaluation_row : Evaluation
  evaluation_row = pending_evaluation uuid_text api run_id (length rules) job_row.id

  pub record Accepted (snap : EvaluationSnapshot) (db' : Db) : Type 0 where
    pub source : Run
    pub visible : get_run_for_client client_id run_id db ≡ ok source
    pub evaluable : is_evaluable source ≡ true
    pub valid_rules : validate_rules check_schema rules ≡ ok tt
    pub unused : find_by_idempotency_key client_id job_row.idempotency_key db ≡ none
    pub admitted :
        check_admission api.epoch (or_default principal_id client_id) client_id quotas db ≡ ok tt
    pub principal_room :
        count_principal_active (or_default principal_id client_id) db < quotas.principal_active
    pub tenant_room : count_tenant_active client_id db < quotas.tenant_active
    pub shown : snap ≡ to_evaluation_snapshot evaluation_row
    pub added : db' ≡ accept_evaluation api job_row evaluation_row source db
    pub rows : Judged source job_row evaluation_row db db'

  pub evaluate-Accepted :
      (snap : EvaluationSnapshot) (db' : Db)
      → evaluate digest uuid_text check_schema quotas job_timeout api client_id run_id rules
          principal_id db
        ≡ ok (snap, db')
      → Accepted snap db'
  unfolding evaluate
  evaluate-Accepted snap db' h =
      let (_, valid, h₁) = >>=-eq-ok (validate_rules check_schema rules) _ h in
      let (source, visible, h₂) = >>=-eq-ok (get_run_for_client client_id run_id db) _ h₁ in
      let (_, tested, h₃) =
        >>=-eq-ok (if is_evaluable source then ok tt else raise run_not_succeeded) _ h₂ in
      let (_, admitted, h₄) =
        >>=-eq-ok
          (check_admission api.epoch (or_default principal_id client_id) client_id quotas db) _
          h₃ in
      let (_, inserted, same) =
        >>=-eq-ok
          (if is_some (find_by_idempotency_key client_id job_row.idempotency_key db)
            then raise integrity_error
            else ok tt)
          _ h₄ in
      let added : db' ≡ accept_evaluation api job_row evaluation_row source db = cc in
      let (p, t) =
        admission_room api.epoch (or_default principal_id client_id) client_id quotas db admitted in
      record {
        source = source;
        visible = visible;
        evaluable = passed_test (is_evaluable source) tested;
        valid_rules = valid;
        unused = unused_key (find_by_idempotency_key client_id job_row.idempotency_key db) inserted;
        admitted = admitted;
        principal_room = p;
        tenant_room = t;
        shown = cc;
        added = added;
        rows = rw added (accept_evaluation-Judged api job_row evaluation_row source db);
      }
