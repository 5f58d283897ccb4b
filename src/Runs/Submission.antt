-- ===== src/Runs/Submission.antt =====
-- What a call of `submit` has done when it returns.
use mathlib.Core.Bool.{false≢true}
use agent_reliability_runtim.Prelude.{
  ℕ, ◌<◌, String, ◌≡◌, refl, ◌⊎◌, Bool, true, false, none, some, [], ◌∷◌, ◌++◌, arith, inl, inr,
  eq_iff, Option-cases,
}
use agent_reliability_runtim.Prelude.Result.{ok, >>=-eq-ok}
use agent_reliability_runtim.Json.{Json, Fields}
use agent_reliability_runtim.Quotas.{
  QuotaLimits, count_principal_active, count_tenant_active, check_admission,
}
use agent_reliability_runtim.Store.{
  Uuid, Run, RunFact, OutboxEvent, Delivery, first_time, Db, Env, add_event, add_outbox,
}
use agent_reliability_runtim.Execution.Common.{or_default}
use agent_reliability_runtim.Runs.{
  routing_decision, RunSnapshot, to_run_snapshot, find_by_idempotency_key, match_or_raise,
  answer_existing, first_provider, ApiEnv, Request, record_routing, queued_run, add_run, accept,
  request_hash, submit_new, submit,
}

module _ (digest : Json → String) (quotas : QuotaLimits) (api : ApiEnv) (r : Request)
    (db : Db) where
  -- The key was there, with the same request: nothing is written.
  pub record Repeated (snap : RunSnapshot) (again : Bool) (db' : Db) : Type 0 where
    pub existing : Run
    pub found : find_by_idempotency_key r.client_id r.idempotency_key db ≡ some existing
    pub same_hash : existing.request_hash ≡ request_hash digest r
    pub shown : snap ≡ to_run_snapshot existing
    pub flag : again ≡ true
    pub kept : db' ≡ db

  -- The key is new: the run was admitted and its rows are added.
  pub record Accepted (snap : RunSnapshot) (again : Bool) (db' : Db) : Type 0 where
    pub unused : find_by_idempotency_key r.client_id r.idempotency_key db ≡ none
    pub admitted :
        check_admission api.epoch (or_default r.principal_id r.client_id) r.client_id quotas db
        ≡ ok tt
    pub shown : snap ≡ to_run_snapshot (queued_run api r (request_hash digest r))
    pub flag : again ≡ false
    pub added : db' ≡ accept api (queued_run api r (request_hash digest r)) db

  Repeated-of_match :
      (existing : Run) (snap : RunSnapshot) (again : Bool) (db' : Db)
      → find_by_idempotency_key r.client_id r.idempotency_key db ≡ some existing
      → answer_existing existing (match_or_raise existing (request_hash digest r)) db
        ≡ ok ((snap, again), db')
      → Repeated snap again db'
  unfolding match_or_raise answer_existing
  Repeated-of_match existing snap again db' found h = record {
    existing = existing;
    found = found;
    same_hash = ground (arith, eq_iff existing.request_hash (request_hash digest r));
    shown = ground arith;
    flag = ground arith;
    kept = ground arith;
  }

  -- `submit` returns in one of these two ways.
  pub submit_cases :
      (snap : RunSnapshot) (again : Bool) (db' : Db)
      → submit digest quotas api r db ≡ ok ((snap, again), db')
      → Repeated snap again db' ⊎ Accepted snap again db'
  unfolding submit submit_new
  submit_cases snap again db' h =
      elim (Option-cases (find_by_idempotency_key r.client_id r.idempotency_key db)) [
        | inr (existing, found) ↦
            inl (Repeated-of_match existing snap again db' found (ground arith))
        | inl unused ↦
            let fresh : submit_new digest quotas api r db ≡ ok ((snap, again), db') =
              ground arith in
            let (_, admitted, h₁) =
              >>=-eq-ok
                (check_admission api.epoch (or_default r.principal_id r.client_id) r.client_id
                  quotas db)
                _ fresh in
            let (_, _, same) = >>=-eq-ok (first_provider r.policy_snapshot) _ h₁ in
            inr (record {
              unused = unused;
              admitted = admitted;
              shown = ground arith;
              flag = ground arith;
              added = ground arith;
            })
      ]

pub admission_room :
    (now : ℕ) (p t : String) (quotas : QuotaLimits) (db : Db)
    → check_admission now p t quotas db ≡ ok tt
    → (count_principal_active p db < quotas.principal_active)
      × (count_tenant_active t db < quotas.tenant_active)
unfolding check_admission
admission_room now p t quotas db h = ground arith

-- After an acceptance exactly one run and one unpublished delivery are new; both are of the request.
pub record Enqueued (run : Run) (db db' : Db) : Type 0 where
  pub one_run : db'.runs ≡ db.runs ++ run ∷ []
  pub delivery : OutboxEvent
  pub one_delivery : db'.outbox ≡ db.outbox ++ delivery ∷ []
  pub of_run : delivery.aggregate_id ≡ run.id
  pub kind : delivery.delivery ≡ Delivery.run_queued first_time
  pub unpublished : delivery.published_at ≡ none
  pub attempts_kept : db'.attempts ≡ db.attempts
  pub evaluations_kept : db'.evaluations ≡ db.evaluations
  pub quotas_kept : db'.quotas ≡ db.quotas

-- The tables other than the events.
pub record SameTables (a b : Db) : Type 0 where
  pub runs : b.runs ≡ a.runs
  pub attempts : b.attempts ≡ a.attempts
  pub outbox : b.outbox ≡ a.outbox
  pub evaluations : b.evaluations ≡ a.evaluations
  pub quotas : b.quotas ≡ a.quotas

record_routing-SameTables :
    (env : Env) (id : Uuid) (policy : Fields) (db : Db)
    → SameTables db (record_routing env id policy db)
unfolding record_routing add_event
record_routing-SameTables env id policy db = elim (Option-cases (routing_decision policy)) [
  | inl nothing ↦
      rw (nothing, record_routing)
        (record { runs = refl; attempts = refl; outbox = refl; evaluations = refl; quotas = refl })
  | inr (decision, e) ↦
      rw (e, record_routing)
        (record { runs = refl; attempts = refl; outbox = refl; evaluations = refl; quotas = refl })
]

pub accept-Enqueued : (api : ApiEnv) (run : Run) (db : Db) → Enqueued run db (accept api run db)
unfolding accept add_event add_outbox add_run
accept-Enqueued api run db =
    let before : Db = add_event api.env 2 run.id none (RunFact.run_queued none) (
      add_outbox api.env 1 run.id (Delivery.run_queued first_time) api.trace_context
        (add_run run db)) in
    let k = record_routing-SameTables api.env run.id run.policy_snapshot before in
    record {
      one_run = k.runs;
      delivery = record {
        id = api.env.uuid 1;
        aggregate_id = run.id;
        delivery = Delivery.run_queued first_time;
        trace_context = api.trace_context;
        created_at = api.env.server_now;
        published_at = none;
        publish_attempts = 0;
        last_error = none;
      };
      one_delivery = k.outbox;
      of_run = refl;
      kind = refl;
      unpublished = refl;
      attempts_kept = k.attempts;
      evaluations_kept = k.evaluations;
      quotas_kept = k.quotas;
    }

-- A call of submit that returns False has found no run of the client under the key, had capacity
-- for it, and has added exactly one queued run and one unpublished delivery of it.
pub submit-Enqueued :
    (digest : Json → String) (quotas : QuotaLimits) (api : ApiEnv) (r : Request) (db : Db)
    (snap : RunSnapshot) (db' : Db)
    → submit digest quotas api r db ≡ ok ((snap, false), db')
    → (find_by_idempotency_key r.client_id r.idempotency_key db ≡ none)
      × (count_principal_active (or_default r.principal_id r.client_id) db
          < quotas.principal_active)
      × (count_tenant_active r.client_id db < quotas.tenant_active)
      × Enqueued (queued_run api r (request_hash digest r)) db db'
submit-Enqueued digest quotas api r db snap db' h =
    elim (submit_cases digest quotas api r db snap false db' h) [
      | inl old ↦ absurd (false≢true old.flag)
      | inr new ↦
          let (p, t) =
            admission_room api.epoch (or_default r.principal_id r.client_id) r.client_id quotas db
              new.admitted in
          (
            new.unused,
            p,
            t,
            rw new.added (accept-Enqueued api (queued_run api r (request_hash digest r)) db),
          )
    ]
