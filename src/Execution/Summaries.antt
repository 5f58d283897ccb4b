-- ===== src/Execution/Summaries.antt =====
-- What the end of an evaluation job leaves alone (`_finalize_evaluation_job`): every run but for the
-- summary of its evaluations, and the other tables.
use native.Mathlib.Decide.{ℕ_discrete}
use agent_reliability_runtim.Prelude.{
  ◌≡◌, ◌≢◌, refl, ap, ◌∙◌, subst, Bool, false, none, some, arith, inl, inr, ◌⊎◌, one_if, count, All,
  Bool-cases, Option-cases,
}
use agent_reliability_runtim.Prelude.Result.{ok}
use agent_reliability_runtim.Domain.States.{EvaluationStatus}
use agent_reliability_runtim.Store.{Uuid, Run, Evaluation, Db, Env, add_event, evaluation_changed}
use agent_reliability_runtim.Execution.Common.{
  find_run, put_run, is_evaluation, find_evaluation_of_job, put_evaluation, settle,
  latest_evaluation, is_latest, show_on_source, finalize_evaluation_job,
}
use agent_reliability_runtim.Execution.Frames.{
  All-find_run, All-put_run, Blind, BlindTest, count-put_run, find_run-id, find_run-put_run,
  find_run-put_run_ne, with_evaluation,
}

pub show_cases :
    (e : Evaluation) (db : Db)
    → (show_on_source e db ≡ db)
      ⊎ ((source : Run) × (find_run e.run_id db ≡ some source)
          × (show_on_source e db ≡ put_run (with_evaluation e.status source) db))
unfolding show_on_source
show_cases e db = elim (Option-cases (find_run e.run_id db)) [
  | inl missing ↦ inl (rw (missing, show_on_source))
  | inr (source, found) ↦
      elim (Bool-cases (is_latest e (latest_evaluation e.run_id db.evaluations))) [
        | inl newest ↦ inr (source, found, rw (found, newest, show_on_source))
        | inr other ↦ inl (rw (found, other, show_on_source))
      ]
]

pub find_run-show_on_source :
    (e : Evaluation) (id : Uuid) (db : Db) (r : Run)
    → find_run id db ≡ some r
    → (s : EvaluationStatus) × (find_run id (show_on_source e db) ≡ some (with_evaluation s r))
find_run-show_on_source e id db r h = elim (show_cases e db) [
  | inl same ↦ (r.evaluation_status, rw same h)
  | inr (source, found, changed) ↦ elim (ℕ_discrete id e.run_id) [
    | yes here ↦
        let at_source : find_run e.run_id db ≡ some r =
          subst (λ k. find_run k db ≡ some r) here h in
        let same : source ≡ r = cc (found, at_source) in
        (
          e.status,
          rw (changed, here, ← same)
              (find_run-put_run (with_evaluation e.status source) source e.run_id db found refl),
        )
    | no there ↦
        let apart : id ≢ source.id = λ q. there (q ∙ find_run-id e.run_id db source found) in
        (
          r.evaluation_status,
          rw changed (find_run-put_run_ne (with_evaluation e.status source) id db apart ∙ h),
        )
  ]
]

pub All-show_on_source {κ} :
    (P : Run → Type κ) (blind : Blind P) (e : Evaluation) (db : Db)
    → All P db.runs
    → All P (show_on_source e db).runs
All-show_on_source P blind e db h = elim (show_cases e db) [
  | inl same ↦ rw same h
  | inr (source, found, changed) ↦ rw changed (
      All-put_run P (with_evaluation e.status source) db h
        (blind source e.status (All-find_run P e.run_id db source h found)))
]

pub count-show_on_source :
    (test : Run → Bool) (blind : BlindTest test) (e : Evaluation) (db : Db)
    → count test (show_on_source e db).runs ≡ count test db.runs
count-show_on_source test blind e db = elim (show_cases e db) [
  | inl same ↦ rw same
  | inr (source, found, changed) ↦
      let moved =
        count-put_run test (with_evaluation e.status source) source e.run_id db found refl in
      rw changed (omega (arith, moved, ap one_if (blind source e.status)))
]

-- The end of an evaluation job raises, changes nothing, or settles the job's evaluation.
pub finalize_cases :
    (env : Env) (run : Run) (db db' : Db)
    → finalize_evaluation_job env run db ≡ ok db'
    → ((is_evaluation run.work_kind ≡ false) × (db' ≡ db))
      ⊎ ((e : Evaluation) × (find_evaluation_of_job run.id db ≡ some e)
          × (db'
              ≡ add_event env 9
                  (settle run e).run_id
                  none
                  (evaluation_changed (settle run e).status run.id)
                  (show_on_source (settle run e) (put_evaluation (settle run e) db))))
unfolding finalize_evaluation_job
finalize_cases env run db db' h = elim (Bool-cases (is_evaluation run.work_kind)) [
  | inr other ↦ inl (other, ground arith)
  | inl job ↦ elim (Option-cases (find_evaluation_of_job run.id db)) [
    | inl missing ↦ absurd (ground arith)
    | inr (e, found) ↦ inr (e, found, ground arith)
  ]
]

module _ (env : Env) (run : Run) (db db' : Db)
    (done : finalize_evaluation_job env run db ≡ ok db') where
  pub find_run-finalize :
      (id : Uuid) (r : Run)
      → find_run id db ≡ some r
      → (s : EvaluationStatus) × (find_run id db' ≡ some (with_evaluation s r))
  unfolding find_run add_event put_evaluation
  find_run-finalize id r h = elim (finalize_cases env run db db' done) [
    | inl (_, same) ↦ (r.evaluation_status, rw same h)
    | inr (e, _, changed) ↦
        let (s, found) =
          find_run-show_on_source (settle run e) id (put_evaluation (settle run e) db) r h in
        (s, rw changed found)
  ]

  pub All-finalize {κ} : (P : Run → Type κ) (blind : Blind P) → All P db.runs → All P db'.runs
  unfolding add_event put_evaluation
  All-finalize P blind h = elim (finalize_cases env run db db' done) [
    | inl (_, same) ↦ rw same h
    | inr (e, _, changed) ↦
        rw changed (All-show_on_source P blind (settle run e) (put_evaluation (settle run e) db) h)
  ]

  pub count-finalize :
      (test : Run → Bool) (blind : BlindTest test) → count test db'.runs ≡ count test db.runs
  unfolding add_event put_evaluation
  count-finalize test blind = elim (finalize_cases env run db db' done) [
    | inl (_, same) ↦ rw same
    | inr (e, _, changed) ↦
        rw changed
          (count-show_on_source test blind (settle run e) (put_evaluation (settle run e) db))
  ]

  pub finalize_keeps :
      (db'.attempts ≡ db.attempts) × (db'.outbox ≡ db.outbox) × (db'.quotas ≡ db.quotas)
  unfolding add_event put_evaluation show_on_source put_run
  finalize_keeps = elim (finalize_cases env run db db' done) [
    | inl (_, same) ↦ ground arith
    | inr (e, _, changed) ↦ ground arith
  ]
