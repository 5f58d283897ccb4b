-- ===== src/System/Admissions.antt =====
-- The runs that `submit` and `replay` add are admitted, and their deliveries are sent.
use agent_reliability_runtim.Prelude.{
  String, ◌≡◌, refl, sym, ap, ◌∙◌, ◌⊎◌, inl, inr, Option, none, some, arith,
}
use agent_reliability_runtim.Prelude.Result.{ok}
use agent_reliability_runtim.Store.{Uuid, Run, Db, add_event, add_outbox}
use agent_reliability_runtim.Domain.States.{same_status, is_terminal_execution_status}
use agent_reliability_runtim.Quotas.{check_admission}
use agent_reliability_runtim.Execution.Common.{ExecutionConfig, or_default, find_run}
use agent_reliability_runtim.Execution.Claim.{ClaimResult}
use agent_reliability_runtim.Runs.{
  ApiEnv, Request, find_by_idempotency_key, queued_run, accept, add_run,
}
use agent_reliability_runtim.Runs.Submission.{admission_room, accept-Enqueued}
use agent_reliability_runtim.Runs.Replay.{replay_run, accept_replay}
use agent_reliability_runtim.Lifecycle.Posts.{Posts, Posts-sent}
use agent_reliability_runtim.Lifecycle.Leases.{ClaimOutcome, unchanged, changed}
use agent_reliability_runtim.Lifecycle.Endings.{Moved}
use agent_reliability_runtim.Lifecycle.Rows.{IsConsistent}
use agent_reliability_runtim.System.Change.{Admitted, Change, same_runs, moved}

pub or_default_idem :
    (o : Option String) (d : String) → or_default (some (or_default o d)) d ≡ or_default o d
unfolding or_default
or_default_idem none String.[] = refl
or_default_idem none (String.◌∷◌ c s) = refl
or_default_idem (some String.[]) String.[] = refl
or_default_idem (some String.[]) (String.◌∷◌ c s) = refl
or_default_idem (some (String.◌∷◌ c s)) d = refl

module _ (cfg : ExecutionConfig) (db db' : Db) where
  pub Change-of_Moved : (id : Uuid) → Moved cfg id db db' → Change cfg db db'
  Change-of_Moved id m =
      moved m.old m.new m.move m.writes m.tries m.posts (λ e. absurd (m.not_leased e))

  pub Change-of_write :
      {A B : Type 0} (id : Uuid) → (A × (db' ≡ db)) ⊎ (B × Moved cfg id db db') → Change cfg db db'
  Change-of_write id (inl (_, same)) = same_runs (rw same) (rw same) (rw same) (rw same)
  Change-of_write id (inr (_, m)) = Change-of_Moved id m

  pub Change-of_claim :
      (id : Uuid) (res : ClaimResult) → ClaimOutcome cfg id db res db' → Change cfg db db'
  Change-of_claim id res (unchanged same _ _) = same_runs (rw same) (rw same) (rw same) (rw same)
  Change-of_claim id res (changed old new _ _ move writes tries posts room) =
      moved old new move writes tries posts room

queued_run-IsConsistent :
    (api : ApiEnv) (r : Request) (hash : String) → IsConsistent (queued_run api r hash)
unfolding queued_run same_status is_terminal_execution_status
queued_run-IsConsistent api r hash = record {
  owner = refl;
  expiry = refl;
  retry_time = refl;
  completion = refl;
}

replay_run-IsConsistent :
    (api : ApiEnv) (client_id principal_id key hash : String) (source : Run)
    → IsConsistent (replay_run api client_id principal_id key hash source)
unfolding replay_run same_status is_terminal_execution_status
replay_run-IsConsistent api client_id principal_id key hash source = record {
  owner = refl;
  expiry = refl;
  retry_time = refl;
  completion = refl;
}

pub Admitted-of_submit :
    (cfg : ExecutionConfig) (api : ApiEnv) (r : Request) (hash : String) (db : Db)
    → find_run (api.env.uuid 0) db ≡ none
    → find_by_idempotency_key r.client_id r.idempotency_key db ≡ none
    → check_admission api.epoch (or_default r.principal_id r.client_id) r.client_id cfg.quotas db
      ≡ ok tt
    → Admitted cfg db (queued_run api r hash)
unfolding queued_run
Admitted-of_submit cfg api r hash db fresh unused admitted =
    let (p, t) =
      admission_room api.epoch (or_default r.principal_id r.client_id) r.client_id cfg.quotas db
        admitted in
    let named : or_default (some (or_default r.principal_id r.client_id)) r.client_id
        ≡ or_default r.principal_id r.client_id =
      or_default_idem r.principal_id r.client_id in
    record {
      waits = refl;
      consistent = queued_run-IsConsistent api r hash;
      fresh = fresh;
      unused = unused;
      named = ap some (sym named);
      principal_room = rw named p;
      tenant_room = t;
    }

pub Admitted-of_replay :
    (cfg : ExecutionConfig) (api : ApiEnv) (client_id : String) (principal_id : Option String)
    (key hash : String) (source : Run) (db : Db)
    → find_run (api.env.uuid 0) db ≡ none
    → find_by_idempotency_key client_id key db ≡ none
    → check_admission api.epoch (or_default principal_id client_id) client_id cfg.quotas db ≡ ok tt
    → Admitted cfg db (replay_run api client_id (or_default principal_id client_id) key hash source)
unfolding replay_run
Admitted-of_replay cfg api client_id principal_id key hash source db fresh unused admitted =
    let (p, t) =
      admission_room api.epoch (or_default principal_id client_id) client_id cfg.quotas db
        admitted in
    let named : or_default (some (or_default principal_id client_id)) client_id
        ≡ or_default principal_id client_id =
      or_default_idem principal_id client_id in
    record {
      waits = refl;
      consistent =
          replay_run-IsConsistent api client_id (or_default principal_id client_id) key hash source;
      fresh = fresh;
      unused = unused;
      named = ap some (sym named);
      principal_room = rw named p;
      tenant_room = t;
    }

pub Posts-of_accept :
    (api : ApiEnv) (run : Run) (db db' : Db)
    → db'.outbox ≡ (accept api run db).outbox
    → Posts db run db'
Posts-of_accept api run db db' e =
    let k = accept-Enqueued api run db in
    Posts-sent db run db' k.delivery (e ∙ k.one_delivery)
      (ground (arith, k.of_run, k.kind, k.unpublished))

pub Posts-of_accept_replay :
    (api : ApiEnv) (source run : Run) (db db' : Db)
    → db'.outbox ≡ (accept_replay api source run db).outbox
    → Posts db run db'
unfolding accept_replay add_event add_outbox add_run
Posts-of_accept_replay api source run db db' e = Posts-sent db run db' _ e (ground arith)
