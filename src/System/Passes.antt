-- ===== src/System/Passes.antt =====
-- The scheduler's two passes as sequences of steps: one transaction with several rounds does what the
-- rounds would do one by one, since no round touches the run of another.
use agent_reliability_runtim.Prelude.{
  ℕ, ◌≤◌, ◌≡◌, ◌≢◌, refl, subst, inl, inr, some, List, [], ◌∷◌, arith, count, Memᴰ, find_of_Mem,
}
use agent_reliability_runtim.Prelude.Result.{ok, >>=-eq-ok}
use agent_reliability_runtim.Domain.States.{
  ExecutionStatus, running, retry_scheduled, same_status-eq,
}
use agent_reliability_runtim.Store.{Uuid, Run, Db, Env}
use agent_reliability_runtim.Execution.Common.{ExecutionConfig, find_run}
use agent_reliability_runtim.Execution.Frames.{find_run-id, with_evaluation}
use agent_reliability_runtim.Execution.Scheduler.{
  select_batch, has_expired, next_round, recover_one, recover_all, recover_expired_leases,
  retry_is_due, schedule_one, schedule_all, schedule_due_retries,
}
use agent_reliability_runtim.Execution.Scheduler.Batches.{Mem-select_batch, count-select_batch}
use agent_reliability_runtim.Lifecycle.Writes.{find_run-Writes_ne}
use agent_reliability_runtim.Lifecycle.Endings.{Moved}
use agent_reliability_runtim.Lifecycle.Recovery.{recover_one-Moved, schedule_one-Moved}
use agent_reliability_runtim.System.{Deployment, Step, recovers, requeues, Reach, here, next}
use agent_reliability_runtim.System.Accounts.{Ledger, has_run_id}

pub Reach-trans : (d : Deployment) (a b c : Db) → Reach d a b → Reach d b c → Reach d a c
Reach-trans d a b c f here = f
Reach-trans d a b c f (next {mid} g s) = next (Reach-trans d a b mid f g) s

pub Reach-after : (d : Deployment) (a b c : Db) → Step d a b → Reach d b c → Reach d a c
Reach-after d a b c s g = Reach-trans d a b c (next here s) g

-- The stored row of each run of a batch has a status.
abbrev pub Ready : ExecutionStatus → Db → List Run → Type 0
Ready status db [] = Unit
Ready status db (r ∷ rest) =
    ((stored : Run) × (find_run r.id db ≡ some stored) × (stored.execution_status ≡ status))
    × Ready status db rest

abbrev pub Distinct : List Run → Type 0
Distinct runs = (id : Uuid) → count (has_run_id id) runs ≤ 1

pub Distinct-tail : (x : Run) (xs : List Run) → Distinct (x ∷ xs) → Distinct xs
Distinct-tail x xs h id = omega (arith, h id)

pub Ready-of_Mem :
    (status : ExecutionStatus) (db : Db) (runs : List Run)
    → ((id : Uuid) → count (has_run_id id) db.runs ≤ 1)
    → ((r : Run) → Memᴰ r runs → Memᴰ r db.runs × (r.execution_status ≡ status))
    → Ready status db runs
unfolding find_run
Ready-of_Mem status db [] unique h = tt
Ready-of_Mem status db (r ∷ rest) unique h =
    let (stored, fits) = h r (Memᴰ.head refl) in
    (
      (r, find_of_Mem (λ (x : Run). x.id) db.runs r (unique r.id) stored, fits),
      Ready-of_Mem status db rest unique (λ x m. h x (Memᴰ.tail m)),
    )

-- A move of one run leaves the others of a batch ready.
pub Ready-Moved :
    (cfg : ExecutionConfig) (status : ExecutionStatus) (id : Uuid) (db db' : Db) (rest : List Run)
    → Moved cfg id db db'
    → count (has_run_id id) rest ≡ 0
    → Ready status db rest
    → Ready status db' rest
Ready-Moved cfg status id db db' [] m apart h = tt
Ready-Moved cfg status id db db' (x ∷ rest) m apart ((stored, found, fits), later) =
    let named : m.old.id ≡ id = find_run-id id db m.old m.at in
    let other : x.id ≢ m.old.id = λ e. ground (arith, apart, e, named) in
    let (s, still) = find_run-Writes_ne db m.old m.new db' m.writes x.id stored other found in
    (
      (with_evaluation s stored, still, fits),
      Ready-Moved cfg status id db db' rest m (omega (arith, apart)) later,
    )

pub no_other : (x : Run) (xs : List Run) → Distinct (x ∷ xs) → count (has_run_id x.id) xs ≡ 0
no_other x xs h = let one = h x.id in ground (arith, one)

module _ (d : Deployment) where
  recover_all-Reach :
      (env : Env) (runs : List Run) (db db' : Db)
      → Ready running db runs
      → Distinct runs
      → recover_all env runs db ≡ ok db'
      → Reach d db db'
  unfolding recover_all
  recover_all-Reach env [] db db' ready distinct h =
      let same : db ≡ db' = cc h in subst (Reach d db) same here
  recover_all-Reach env (r ∷ rest) db db' ((stored, found, held), ready) distinct h =
      let (mid, done, h₁) = >>=-eq-ok (recover_one env r.id db) _ h in
      let step : Step d db mid = recovers env r.id stored found held done in
      let after : Ready running mid rest =
        elim (recover_one-Moved d.config env r.id stored db mid found held done) [
          | inl same ↦ rw same ready
          | inr m ↦ Ready-Moved d.config running r.id db mid rest m (no_other r rest distinct) ready
        ] in
      Reach-after d db mid db' step
        (recover_all-Reach (next_round env) rest mid db' after (Distinct-tail r rest distinct) h₁)

  schedule_all-Reach :
      (env : Env) (runs : List Run) (db : Db)
      → Ready retry_scheduled db runs
      → Distinct runs
      → Reach d db (schedule_all env runs db)
  unfolding schedule_all
  schedule_all-Reach env [] db ready distinct = here
  schedule_all-Reach env (r ∷ rest) db ((stored, found, waits), ready) distinct =
      let mid : Db = schedule_one env r.id db in
      let step : Step d db mid = requeues env r.id stored found waits refl in
      let m = schedule_one-Moved d.config env r.id stored db found waits in
      Reach-after d db mid (schedule_all (next_round env) rest mid) step (
        schedule_all-Reach (next_round env) rest mid
          (Ready-Moved d.config retry_scheduled r.id db mid rest m (no_other r rest distinct) ready)
          (Distinct-tail r rest distinct))

  -- Where identifiers are unique, a pass of lease recovery that returns, over a batch of any size,
  -- does what its rounds do as single transactions.
  pub recover_expired_leases-Reach :
      (env : Env) (batch_size : ℕ) (db : Db) (n : ℕ) (db' : Db)
      → Ledger d.config db
      → recover_expired_leases env batch_size db ≡ ok (n, db')
      → Reach d db db'
  unfolding recover_expired_leases has_expired
  recover_expired_leases-Reach env batch_size db n db' l h =
      let column = λ (run : Run). run.execution_lease_expires_at in
      let runs : List Run = select_batch env (has_expired env) column batch_size db in
      let (mid, done, same) = >>=-eq-ok (recover_all env runs db) _ h in
      let last : mid ≡ db' = ground arith in
      let ready : Ready running db runs = Ready-of_Mem running db runs l.unique_runs (λ r m.
        let (stored, fits) = Mem-select_batch env (has_expired env) column batch_size db r m in
        (stored, same_status-eq r.execution_status running (ground arith))) in
      recover_all-Reach env runs db db' ready
        (λ id. omega (
          arith,
          count-select_batch env (has_expired env) column batch_size db (has_run_id id),
          l.unique_runs id,
        ))
        (rw last at done)

  -- Where identifiers are unique, a pass over the due retries, over a batch of any size, does what
  -- its rounds do as single transactions.
  pub schedule_due_retries-Reach :
      (env : Env) (batch_size : ℕ) (db : Db)
      → Ledger d.config db
      → Reach d db (schedule_due_retries env batch_size db).1
  unfolding schedule_due_retries retry_is_due
  schedule_due_retries-Reach env batch_size db l =
      let column = λ (run : Run). run.next_attempt_at in
      let runs : List Run = select_batch env (retry_is_due env) column batch_size db in
      let ready : Ready retry_scheduled db runs =
        Ready-of_Mem retry_scheduled db runs l.unique_runs (λ r m.
          let (stored, fits) = Mem-select_batch env (retry_is_due env) column batch_size db r m in
          (stored, same_status-eq r.execution_status retry_scheduled (ground arith))) in
      schedule_all-Reach env runs db ready (λ id. omega (
        arith,
        count-select_batch env (retry_is_due env) column batch_size db (has_run_id id),
        l.unique_runs id,
      ))
