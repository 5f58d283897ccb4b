-- ===== src/System/Recoveries.antt =====
-- A whole pass of `recover_expired_leases`: whether it returns, and what becomes of the runs of its batch.
use agent_reliability_runtim.Prelude.{
  ℕ, ◌≡◌, ◌≢◌, refl, ap, ◌∙◌, inl, inr, some, List, [], ◌∷◌, arith, count, length, All, All-put,
  All-Mem, true, ◌||◌, Bool-cases,
}
use agent_reliability_runtim.Prelude.Result.{ok, ◌>>=◌}
use agent_reliability_runtim.Domain.States.{EvaluationStatus, running, same_status, same_status-eq}
use agent_reliability_runtim.Store.{Uuid, Time, Run, RunAttempt, Db, Env}
use agent_reliability_runtim.Execution.Common.{
  ExecutionConfig, find_run, put_attempt, is_some_time, latest_open_attempt,
}
use agent_reliability_runtim.Execution.Frames.{find_run-id, All-find_run, with_evaluation}
use agent_reliability_runtim.Execution.Scheduler.{
  select_batch, has_expired, next_round, recover_one, recover_all, recover_expired_leases,
}
use agent_reliability_runtim.Execution.Scheduler.Batches.{Mem-select_batch, count-select_batch}
use agent_reliability_runtim.Lifecycle.Writes.{find_run-Writes_ne, All-Writes}
use agent_reliability_runtim.Execution.Openings.{latest_open_attempt-Mem}
use agent_reliability_runtim.Lifecycle.Tries.{opens, closes, untouched}
use agent_reliability_runtim.Lifecycle.Endings.{Moved}
use agent_reliability_runtim.Lifecycle.Recovery.{recover_one-Moved}
use agent_reliability_runtim.System.{Deployment, recovers, Reach, next, empty}
use agent_reliability_runtim.System.Accounts.{has_run_id}
use agent_reliability_runtim.System.Ledger.{Reach-Ledger}
use agent_reliability_runtim.System.Progress.{
  is_near, is_short, open_attempt_exists, recover_one-frees,
}
use agent_reliability_runtim.System.Passes.{
  Ready, Distinct, Distinct-tail, Ready-of_Mem, Ready-Moved, no_other, recover_expired_leases-Reach,
}

-- The rows that a lease recovery selects, in its order.
abbrev pub expired_batch : Env → ℕ → Db → List Run
expired_batch env batch_size db =
    select_batch env (has_expired env) (λ run. run.execution_lease_expires_at) batch_size db

-- The run is stored, and no worker holds it.
abbrev pub IsFreed : Db → Run → Type 0
IsFreed db r = (r' : Run) × (find_run r.id db ≡ some r') × (r'.execution_status ≢ running)

-- Every unfinished attempt is short enough for its column, and every retry of a running run that ends
-- now falls within the calendar.
pub record IsTimely (now : Time) (db : Db) : Type 0 where
  pub short :
      All (λ (a : RunAttempt). (is_some_time a.finished_at || is_short now a) ≡ true) db.attempts
  pub near : All (λ (r : Run). is_near now r ≡ true) db.runs

is_near-idle : (now : Time) (r : Run) → r.execution_status ≢ running → is_near now r ≡ true
unfolding is_near
is_near-idle now r idle = elim (Bool-cases (same_status r.execution_status running)) [
  | inl held ↦ absurd (idle (same_status-eq r.execution_status running held))
  | inr other ↦ rw other refl
]

-- A move that takes a run from its worker.
IsTimely-Moved :
    (cfg : ExecutionConfig) (now : Time) (id : Uuid) (db db' : Db)
    → Moved cfg id db db'
    → IsTimely now db
    → IsTimely now db'
unfolding put_attempt is_near
IsTimely-Moved cfg now id db db' m t = record {
  short = elim m.tries [
    | opens _ leased _ ↦ absurd (m.not_leased leased)
    | closes after _ _ c e ↦ rw e (
        All-put (λ (a : RunAttempt). a.id)
          (λ (a : RunAttempt). (is_some_time a.finished_at || is_short now a) ≡ true) after
          db.attempts t.short (ground (arith, c.is_closed)))
    | untouched _ _ e ↦ rw e t.short
  ];
  near =
      All-Writes db m.old m.new db' m.writes (λ r. is_near now r ≡ true) (λ r s h. h)
        (λ _. is_near-idle now m.new m.not_leased) t.near;
}

-- Runs outside the batch stay, but for their evaluation summary.
abbrev KeepsOthers : List Run → Db → Db → Type 0
KeepsOthers runs db db' =
    (id : Uuid) (x : Run)
    → count (has_run_id id) runs ≡ 0
    → find_run id db ≡ some x
    → (s : EvaluationStatus) × (find_run id db' ≡ some (with_evaluation s x))

is_short-open :
    (now : Time) (id : Uuid) (a : RunAttempt) (db : Db)
    → IsTimely now db
    → latest_open_attempt id db ≡ some a
    → is_short now a ≡ true
is_short-open now id a db t at =
    let (stored, _, unfinished) = latest_open_attempt-Mem id db a at in
    let short =
      All-Mem (λ (x : RunAttempt). (is_some_time x.finished_at || is_short now x) ≡ true)
        db.attempts a t.short stored in
    ground (arith, short, unfinished)

module _ (d : Deployment) where
  recover_one-others :
      (env : Env) (r stored x : Run) (db mid : Db) (id : Uuid)
      → find_run r.id db ≡ some stored
      → stored.execution_status ≡ running
      → recover_one env r.id db ≡ ok mid
      → id ≢ r.id
      → find_run id db ≡ some x
      → (s : EvaluationStatus) × (find_run id mid ≡ some (with_evaluation s x))
  recover_one-others env r stored x db mid id found held done apart h =
      elim (recover_one-Moved d.config env r.id stored db mid found held done) [
        | inl same ↦ (x.evaluation_status, rw same h)
        | inr m ↦
            let named : m.old.id ≡ r.id = find_run-id r.id db m.old m.at in
            find_run-Writes_ne db m.old m.new mid m.writes id x (λ e. apart (e ∙ named)) h
      ]

  recover_all-frees :
      (env : Env) (runs : List Run) (db : Db)
      → Reach d empty db
      → IsTimely env.now db
      → Ready running db runs
      → Distinct runs
      → (db' : Db) × (recover_all env runs db ≡ ok db')
        × All (IsFreed db') runs
        × KeepsOthers runs db db'
  unfolding recover_all next_round
  recover_all-frees env [] db reached timely ready distinct =
      (db, refl, tt, λ id x apart h. (x.evaluation_status, h))
  recover_all-frees env (r ∷ rest) db reached timely ((stored, found, held), ready) distinct =
      let (a, at) = open_attempt_exists d db reached r.id stored found held in
      let (mid, done, (r', later, free)) =
        recover_one-frees d db reached r.id stored found held env a at
          (is_short-open env.now stored.id a db timely at)
          (All-find_run (λ x. is_near env.now x ≡ true) r.id db stored timely.near found) in
      let (after, timely') : Ready running mid rest × IsTimely env.now mid =
        elim (recover_one-Moved d.config env r.id stored db mid found held done) [
          | inl same ↦ (rw same ready, rw same timely)
          | inr m ↦ (
            Ready-Moved d.config running r.id db mid rest m (no_other r rest distinct) ready,
            IsTimely-Moved d.config env.now r.id db mid m timely,
          )
        ] in
      let (db', all_done, freed, others) =
        recover_all-frees (next_round env) rest mid
          (next reached (recovers env r.id stored found held done)) timely' after
          (Distinct-tail r rest distinct) in
      let (s, still) = others r.id r' (no_other r rest distinct) later in
      (
        db',
        rw done all_done,
        ((with_evaluation s r', still, free), freed),
        λ id x apart h.
            let (s₁, kept) =
              recover_one-others env r stored x db mid id found held done
                (λ e. ground (arith, apart, e)) h in
            let (s₂, kept_on) = others id (with_evaluation s₁ x) (omega (arith, apart)) kept in
            (s₂, kept_on),
      )

  -- After any transactions from an empty database, in whatever order: where the latency in
  -- milliseconds of every open attempt fits the 32-bit column, and the longest retry delay of the
  -- stored policy of every RUNNING run, if that can be read, ends within the year 9999, a pass of
  -- lease recovery over a batch of any size returns the size of its batch, does what its rounds do
  -- as single transactions, and leaves none of the runs of the batch RUNNING.
  pub recover_expired_leases-frees :
      (env : Env) (batch_size : ℕ) (db : Db)
      → Reach d empty db
      → IsTimely env.now db
      → (db' : Db) × (recover_expired_leases env batch_size db
          ≡ ok (length (expired_batch env batch_size db), db'))
        × Reach d db db'
        × All (IsFreed db') (expired_batch env batch_size db)
  unfolding recover_expired_leases has_expired
  recover_expired_leases-frees env batch_size db reached timely =
      let l = Reach-Ledger d db reached in
      let column = λ (run : Run). run.execution_lease_expires_at in
      let runs : List Run = expired_batch env batch_size db in
      let ready : Ready running db runs = Ready-of_Mem running db runs l.unique_runs (λ r m.
        let (stored, fits) = Mem-select_batch env (has_expired env) column batch_size db r m in
        (stored, same_status-eq r.execution_status running (ground arith))) in
      let (db', done, freed, _) = recover_all-frees env runs db reached timely ready (λ id. omega (
        arith,
        count-select_batch env (has_expired env) column batch_size db (has_run_id id),
        l.unique_runs id,
      )) in
      let returned : recover_expired_leases env batch_size db ≡ ok (length runs, db') =
        ap (λ m. m >>= (λ x. ok (length runs, x))) done in
      (
        db',
        returned,
        recover_expired_leases-Reach d env batch_size db (length runs) db' l returned,
        freed,
      )
