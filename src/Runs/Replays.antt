-- ===== src/Runs/Replays.antt =====
-- What `replay` promises on the tables and in its answer
-- (src/agent_runtime/infrastructure/database/run_service.py).
use mathlib.Core.List.{append_assoc}
use agent_reliability_runtim.Prelude.{
  ◌<◌, String, ◌≡◌, ap, ◌∙◌, ◌⊎◌, inl, inr, Bool, true, false, Option, none, some, [], ◌∷◌, ◌++◌,
  arith, eq_iff, Bool-cases, Option-cases,
}
use agent_reliability_runtim.Prelude.Result.{ok, >>=-eq-ok}
use agent_reliability_runtim.Json.{Json}
use agent_reliability_runtim.Domain.States.{queued, not_run}
use agent_reliability_runtim.Quotas.{
  QuotaLimits, check_admission, count_principal_active, count_tenant_active,
}
use agent_reliability_runtim.Store.{
  Uuid, Run, execution, replay_created, run_replay_queued, Delivery, replayed, Db, add_event,
  add_outbox,
}
use agent_reliability_runtim.Execution.Common.{or_default, is_execution}
use agent_reliability_runtim.Runs.{
  RunSnapshot, to_run_snapshot, find_by_idempotency_key, get_run_for_client, match_replay_or_raise,
  answer_existing, is_source, ApiEnv, add_run,
}
use agent_reliability_runtim.Runs.Submission.{admission_room}
use agent_reliability_runtim.Runs.Replay.{replay_run, accept_replay, replay_hash, replay}
use agent_reliability_runtim.Runs.Replayed.{replay_cases, Replayed}

-- The answer names the run that an earlier replay of the same source has added.
pub record IsRepeat (source : Run) (hash client_id key : String) (db : Db) (snap : RunSnapshot)
    (db' : Db) : Type 0 where
  pub existing : Run
  pub found : find_by_idempotency_key client_id key db ≡ some existing
  pub same_hash : existing.request_hash ≡ hash
  pub same_source : existing.replay_of_run_id ≡ some source.id
  pub shown : snap ≡ to_run_snapshot existing
  pub kept : db' ≡ db

-- A queued run of the source's input and policy.
abbrev pub replayed_row : ApiEnv → String → String → String → String → Run → Run
replayed_row api client_id principal key hash source = record {
  id = api.env.uuid 0;
  client_id = client_id;
  principal_id = some principal;
  work_kind = execution;
  idempotency_key = key;
  request_hash = hash;
  input_payload = source.input_payload;
  policy_snapshot = source.policy_snapshot;
  trace_context = api.trace_context;
  execution_status = queued;
  evaluation_status = not_run;
  result_payload = none;
  error_code = none;
  created_at = api.env.server_now;
  started_at = none;
  completed_at = none;
  execution_lease_owner = none;
  execution_lease_expires_at = none;
  next_attempt_at = none;
  replay_of_run_id = some source.id;
}

-- The rows of a replay that was admitted under a key that the client has not used.
pub record IsReplay (quotas : QuotaLimits) (api : ApiEnv) (client_id principal key hash : String)
    (source : Run) (db : Db) (snap : RunSnapshot) (db' : Db) : Type 0 where
  pub unused : find_by_idempotency_key client_id key db ≡ none
  pub principal_room : count_principal_active principal db < quotas.principal_active
  pub tenant_room : count_tenant_active client_id db < quotas.tenant_active
  pub shown : snap ≡ to_run_snapshot (replayed_row api client_id principal key hash source)
  pub one_run : db'.runs ≡ db.runs ++ replayed_row api client_id principal key hash source ∷ []
  pub one_delivery :
      db'.outbox
      ≡ db.outbox
        ++ record {
          id = api.env.uuid 1;
          aggregate_id = api.env.uuid 0;
          delivery = Delivery.run_queued replayed;
          trace_context = api.trace_context;
          created_at = api.env.server_now;
          published_at = none;
          publish_attempts = 0;
          last_error = none;
        }
          ∷ []
  pub two_events :
      db'.events
      ≡ db.events
        ++ record {
          id = api.env.uuid 2;
          run_id = source.id;
          attempt_id = none;
          fact = replay_created (api.env.uuid 0);
          created_at = api.env.server_now;
        }
          ∷ record {
            id = api.env.uuid 3;
            run_id = api.env.uuid 0;
            attempt_id = none;
            fact = run_replay_queued source.id;
            created_at = api.env.server_now;
          }
          ∷ []
  pub attempts_kept : db'.attempts ≡ db.attempts
  pub evaluations_kept : db'.evaluations ≡ db.evaluations
  pub quotas_kept : db'.quotas ≡ db.quotas

source_of_match : (o : Option Uuid) (id : Uuid) → is_source o id ≡ true → o ≡ some id
unfolding is_source
source_of_match none id h = ground arith
source_of_match (some s) id h = ground arith

execution_of : (r : Run) → is_execution r.work_kind ≡ true → r.work_kind ≡ execution
unfolding is_execution
execution_of r h = ground arith

module _ (digest : Json → String) (uuid_text : Uuid → String) (quotas : QuotaLimits) (api : ApiEnv)
    (client_id : String) (run_id : Uuid) (key : String) (principal_id : Option String)
    (db : Db) where
  IsReplay-of_Replayed :
      (snap : RunSnapshot) (db' : Db)
      → (r : Replayed digest uuid_text quotas api client_id run_id key principal_id db snap db')
      → IsReplay quotas api client_id
          (or_default principal_id client_id)
          key
          (replay_hash digest uuid_text r.source)
          r.source
          db
          snap
          db'
  unfolding accept_replay add_event add_outbox add_run replay_run
  IsReplay-of_Replayed snap db' r =
      let (p, t) =
        admission_room api.epoch (or_default principal_id client_id) client_id quotas db
          r.admitted in
      record {
        unused = r.unused;
        principal_room = p;
        tenant_room = t;
        shown = r.shown;
        one_run = ap (λ (x : Db). x.runs) r.added;
        one_delivery = ap (λ (x : Db). x.outbox) r.added;
        two_events = ap (λ (x : Db). x.events) r.added ∙ append_assoc db.events _ _;
        attempts_kept = ap (λ (x : Db). x.attempts) r.added;
        evaluations_kept = ap (λ (x : Db). x.evaluations) r.added;
        quotas_kept = ap (λ (x : Db). x.quotas) r.added;
      }

  match-IsRepeat :
      (source existing : Run) (snap : RunSnapshot) (again : Bool) (db' : Db)
      → find_by_idempotency_key client_id key db ≡ some existing
      → answer_existing existing
          (match_replay_or_raise existing (replay_hash digest uuid_text source) source.id)
          db
        ≡ ok ((snap, again), db')
      → IsRepeat source (replay_hash digest uuid_text source) client_id key db snap db'
  unfolding match_replay_or_raise answer_existing
  match-IsRepeat source existing snap again db' found h = record {
    existing = existing;
    found = found;
    same_hash =
        (eq_iff existing.request_hash (replay_hash digest uuid_text source)).0 (ground arith);
    same_source = source_of_match existing.replay_of_run_id source.id (ground arith);
    shown = ground arith;
    kept = ground arith;
  }

  -- A call of replay that returns has found an execution run of the client, its source. If it says
  -- True, the client's key names a run with the same request hash that replays the same source,
  -- its snapshot is the answer, and nothing is written. If it says False, the key was unused, the
  -- principal and the tenant had room, and exactly one queued run with the source's input and
  -- policy and the source's identifier is added and answered, with one unpublished delivery and
  -- the two events of a replay; attempts, evaluations and quotas are as before.
  pub replay-IsReplay :
      (snap : RunSnapshot) (again : Bool) (db' : Db)
      → replay digest uuid_text quotas api client_id run_id key principal_id db
        ≡ ok ((snap, again), db')
      → (source : Run) × (get_run_for_client client_id run_id db ≡ ok source)
        × (source.work_kind ≡ execution)
        × (((again ≡ true)
              × IsRepeat source (replay_hash digest uuid_text source) client_id key db snap db')
            ⊎ ((again ≡ false)
                × IsReplay quotas api client_id
                    (or_default principal_id client_id)
                    key
                    (replay_hash digest uuid_text source)
                    source
                    db
                    snap
                    db'))
  unfolding replay
  replay-IsReplay snap again db' h =
      elim (replay_cases digest uuid_text quotas api client_id run_id key principal_id db snap again
        db' h) [
          | inr (flag, r) ↦ (
            r.source,
            r.visible,
            execution_of r.source r.kind,
            inr (flag, IsReplay-of_Replayed snap db' r),
          )
          | inl (flag, same) ↦
              let (source, visible, h₁) = >>=-eq-ok (get_run_for_client client_id run_id db) _ h in
              elim (Bool-cases (is_execution source.work_kind)) [
                | inr job ↦ absurd (let bad = rw job at h₁ in cc bad)
                | inl kind ↦ elim (Option-cases (find_by_idempotency_key client_id key db)) [
                  | inr (existing, found) ↦ (
                    source,
                    visible,
                    execution_of source kind,
                    inl (
                      flag,
                      match-IsRepeat source existing snap again db' found (rw (kind, found) at h₁),
                    ),
                  )
                  | inl missing ↦ absurd (
                      let (_, admitted, answered) =
                        >>=-eq-ok
                          (check_admission api.epoch (or_default principal_id client_id) client_id
                            quotas db)
                          _ (rw (kind, missing) at h₁) in
                      let no : false ≡ again = ground arith in ground (arith, no, flag))
                ]
              ]
        ]
