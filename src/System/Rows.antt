-- ===== src/System/Rows.antt =====
-- The rows of `run_evaluations` across a transaction that writes a run: the end of an evaluation job
-- changes the row of that job, and keeps its keys.
use mathlib.Core.List.Memᴰ.{head, tail}
use agent_reliability_runtim.Prelude.{
  Memᴰ, ◌≤◌, ◌≡◌, ap, ◌∙◌, Bool, false, inl, inr, none, some, List, [], ◌∷◌, arith, ◌==◌, count,
  first_row, Bool-cases, find_of_Mem, count-put,
}
use agent_reliability_runtim.Prelude.Result.{ok}
use agent_reliability_runtim.Store.{Uuid, Run, Evaluation, Db, Env, add_event}
use agent_reliability_runtim.Execution.Common.{
  put_run, put_evaluation, find_evaluation_of_job, settle, show_on_source, finalize_evaluation_job,
}
use agent_reliability_runtim.Execution.Summaries.{finalize_cases, show_cases}
use agent_reliability_runtim.Lifecycle.Writes.{Writes, Finishes, plain, job}

abbrev pub has_id : Uuid → Evaluation → Bool
has_id id e = e.id == id

abbrev pub is_of_job : Uuid → Evaluation → Bool
is_of_job job_id e = elim e.job_run_id [ none ↦ false | some j ↦ j == job_id ]

unfoldable pub UniqueRows : Db → Type 0
UniqueRows db = (id : Uuid) → count (has_id id) db.evaluations ≤ 1

first_row-Mem :
    {A : Type 0} (test : A → Bool) (xs : List A) (r : A) → first_row test xs ≡ some r → Memᴰ r xs
first_row-Mem test [] r h = cc
first_row-Mem test (x ∷ xs) r h = elim (Bool-cases (test x)) [
  | inl on ↦ head (ground (arith, rw on at h))
  | inr off ↦ tail (first_row-Mem test xs r (rw off at h))
]

-- The columns that no end of a job changes.
module _ (run : Run) (e : Evaluation) where
  settle-id : (settle run e).id ≡ e.id
  unfolding settle
  settle-id = ground arith

  settle-job : (settle run e).job_run_id ≡ e.job_run_id
  unfolding settle
  settle-job = ground arith

-- A test on the rows that the end of a job does not affect.
abbrev pub Steady : (Evaluation → Bool) → Type 0
Steady test = (run : Run) (e : Evaluation) → test (settle run e) ≡ test e

pub has_id-Steady : (id : Uuid) → Steady (has_id id)
has_id-Steady id run e = rw (settle-id run e)

pub is_of_job-Steady : (id : Uuid) → Steady (is_of_job id)
is_of_job-Steady id run e = rw (settle-job run e)

module _ (test : Evaluation → Bool) (steady : Steady test) where
  count-put_evaluation :
      (run : Run) (e : Evaluation) (db : Db)
      → UniqueRows db
      → Memᴰ e db.evaluations
      → count test (put_evaluation (settle run e) db).evaluations ≡ count test db.evaluations
  unfolding put_evaluation UniqueRows
  count-put_evaluation run e db unique stored =
      let at = find_of_Mem (λ (x : Evaluation). x.id) db.evaluations e (unique e.id) stored in
      let change =
        count-put (λ (x : Evaluation). x.id) test (settle run e) db.evaluations e
          (rw (settle-id run e) at) in
      ground (arith, change, steady run e)

  count-show_on_source :
      (e : Evaluation) (db : Db)
      → count test (show_on_source e db).evaluations ≡ count test db.evaluations
  unfolding put_run
  count-show_on_source e db = elim (show_cases e db) [
    | inl same ↦ rw same
    | inr (source, found, changed) ↦ rw changed
  ]

  count-finalize_rows :
      (env : Env) (run : Run) (db db' : Db)
      → UniqueRows db
      → finalize_evaluation_job env run db ≡ ok db'
      → count test db'.evaluations ≡ count test db.evaluations
  unfolding add_event find_evaluation_of_job
  count-finalize_rows env run db db' unique done = elim (finalize_cases env run db db' done) [
    | inl (_, same) ↦ rw same
    | inr (e, found, changed) ↦
        let stored = first_row-Mem (is_of_job run.id) db.evaluations e found in
        ap (λ (x : Db). count test x.evaluations) changed
        ∙ count-show_on_source (settle run e) (put_evaluation (settle run e) db)
        ∙ count-put_evaluation run e db unique stored
  ]

  count-Finishes_rows :
      (mid db' : Db)
      → UniqueRows mid
      → Finishes mid db'
      → count test db'.evaluations ≡ count test mid.evaluations
  count-Finishes_rows mid db' unique (plain e) = rw e
  count-Finishes_rows mid db' unique (job env run done) =
      count-finalize_rows env run mid db' unique done

  pub count-Writes_rows :
      (db : Db) (old new : Run) (db' : Db)
      → UniqueRows db
      → Writes db old new db'
      → count test db'.evaluations ≡ count test db.evaluations
  unfolding UniqueRows
  count-Writes_rows db old new db' unique w =
      count-Finishes_rows w.mid db' (λ id. rw w.rows_kept (unique id)) w.finish
      ∙ ap (count test) w.rows_kept
