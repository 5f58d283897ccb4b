-- ===== src/Runs/Replayed.antt =====
-- What a call of `replay` has done when it returns.
use agent_reliability_runtim.Prelude.{
  String, ◌≡◌, refl, ◌⊎◌, Bool, true, false, Option, none, [], ◌∷◌, ◌++◌, arith, inl, inr,
  Bool-cases, Option-cases,
}
use agent_reliability_runtim.Prelude.Result.{ok, >>=-eq-ok}
use agent_reliability_runtim.Json.{Json}
use agent_reliability_runtim.Quotas.{QuotaLimits, check_admission}
use agent_reliability_runtim.Store.{Uuid, Run, Db, add_event, add_outbox}
use agent_reliability_runtim.Execution.Common.{or_default, is_execution}
use agent_reliability_runtim.Runs.{
  RunSnapshot, to_run_snapshot, find_by_idempotency_key, get_run_for_client, match_replay_or_raise,
  answer_existing, ApiEnv, add_run,
}
use agent_reliability_runtim.Runs.Replay.{replay_run, accept_replay, replay_hash, replay}

module _ (digest : Json → String) (uuid_text : Uuid → String) (quotas : QuotaLimits) (api : ApiEnv)
    (client_id : String) (run_id : Uuid) (key : String) (principal_id : Option String)
    (db : Db) where
  -- A replay that returns has found an execution run of the client; with a new key it was admitted
  -- and adds a run of the source's input and policy.
  pub record Replayed (snap : RunSnapshot) (db' : Db) : Type 0 where
    pub source : Run
    pub visible : get_run_for_client client_id run_id db ≡ ok source
    pub kind : is_execution source.work_kind ≡ true
    pub unused : find_by_idempotency_key client_id key db ≡ none
    pub admitted :
        check_admission api.epoch (or_default principal_id client_id) client_id quotas db ≡ ok tt
    pub shown :
        snap
        ≡ to_run_snapshot (
            replay_run api client_id
              (or_default principal_id client_id)
              key
              (replay_hash digest uuid_text source)
              source)
    pub added :
        db'
        ≡ accept_replay api source
            (replay_run api client_id
              (or_default principal_id client_id)
              key
              (replay_hash digest uuid_text source)
              source)
            db

  -- A call of replay that returns has written nothing and says True, or says False and has found
  -- an execution run of the client under an unused key, was admitted, and has added a run of the
  -- source's input and policy.
  pub replay_cases :
      (snap : RunSnapshot) (again : Bool) (db' : Db)
      → replay digest uuid_text quotas api client_id run_id key principal_id db
        ≡ ok ((snap, again), db')
      → ((again ≡ true) × (db' ≡ db)) ⊎ ((again ≡ false) × Replayed snap db')
  unfolding replay answer_existing match_replay_or_raise
  replay_cases snap again db' h =
      let (source, visible, h₁) = >>=-eq-ok (get_run_for_client client_id run_id db) _ h in
      elim (Bool-cases (is_execution source.work_kind)) [
        | inr job ↦ absurd (ground arith)
        | inl kind ↦ elim (Option-cases (find_by_idempotency_key client_id key db)) [
          | inr (existing, found) ↦ inl (ground arith, ground arith)
          | inl unused ↦
              let (_, admitted, same) =
                >>=-eq-ok
                  (check_admission api.epoch (or_default principal_id client_id) client_id quotas
                    db)
                  _ (rw (kind, unused) at h₁) in
              inr (
                ground arith,
                record {
                  source = source;
                  visible = visible;
                  kind = kind;
                  unused = unused;
                  admitted = admitted;
                  shown = ground arith;
                  added = ground arith;
                },
              )
        ]
      ]

pub runs-accept_replay :
    (api : ApiEnv) (source run : Run) (db : Db)
    → (accept_replay api source run db).runs ≡ db.runs ++ run ∷ []
unfolding accept_replay add_event add_outbox add_run
runs-accept_replay api source run db = refl

pub attempts-accept_replay :
    (api : ApiEnv) (source run : Run) (db : Db)
    → (accept_replay api source run db).attempts ≡ db.attempts
unfolding accept_replay add_event add_outbox add_run
attempts-accept_replay api source run db = refl
