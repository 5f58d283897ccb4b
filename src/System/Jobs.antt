-- ===== src/System/Jobs.antt =====
-- Evaluation jobs and their rows in `run_evaluations`, whatever the order of committed transactions.
use agent_reliability_runtim.Prelude.{
  ◌≤◌, ◌≡◌, refl, true, false, ◌⊎◌, inl, inr, some, List, [], ◌∷◌, ◌++◌, arith, ◌==◌, count,
  count-append, count_of_find-none, All, All-insert, Bool-cases, Option-cases,
}
use agent_reliability_runtim.Store.{Uuid, Run, Evaluation, Db}
use agent_reliability_runtim.Execution.Common.{find_run, is_evaluation, find_evaluation_of_job}
use agent_reliability_runtim.Execution.Frames.{with_evaluation, All-find_run}
use agent_reliability_runtim.Lifecycle.Writes.{Writes, All-Writes}
use agent_reliability_runtim.Lifecycle.Rows.{Moves-SameRequest}
use agent_reliability_runtim.Execution.Common.{ExecutionConfig}
use agent_reliability_runtim.System.{Deployment, Reach, here, next, empty, find_evaluation}
use agent_reliability_runtim.System.Change.{Change, OneRow, NoRow, same_runs, moved, judged, added}
use agent_reliability_runtim.System.Marks.{count-first_row}
use agent_reliability_runtim.System.Rows.{
  has_id, is_of_job, UniqueRows, has_id-Steady, is_of_job-Steady, count-Writes_rows,
}
use agent_reliability_runtim.System.Steps.{Step-Change}

-- A run that is no evaluation job, or is one with its row.
unfoldable pub HasRow : List Evaluation → Run → Type 0
unfolding is_of_job
HasRow rows r = is_evaluation r.work_kind ≡ true → 1 ≤ count (is_of_job r.id) rows

pub record JobRows (db : Db) : Type 0 where
  pub unique_rows : UniqueRows db
  pub have_rows : All (HasRow db.evaluations) db.runs

All-map : {P Q : Run → Type 0} (xs : List Run) → ((r : Run) → P r → Q r) → All P xs → All Q xs
All-map [] step h = tt
All-map (x ∷ xs) step h = (step x h.0, All-map xs step h.1)

-- A write of one run that is still of the same request.
JobRows-Writes :
    (db : Db) (old new : Run) (db' : Db)
    → Writes db old new db'
    → new.work_kind ≡ old.work_kind
    → JobRows db
    → JobRows db'
unfolding UniqueRows HasRow
JobRows-Writes db old new db' w same_kind j = record {
  unique_rows = λ id.
      rw (count-Writes_rows (has_id id) (has_id-Steady id) db old new db' j.unique_rows w)
        (j.unique_rows id);
  have_rows =
      All-Writes db old new db' w (HasRow db'.evaluations) (λ r s h. h)
        (λ h. rw (same_kind, w.same_id) h)
        (All-map db.runs
          (λ r h kind.
            rw
              (count-Writes_rows (is_of_job r.id) (is_of_job-Steady r.id) db old new db'
                j.unique_rows w)
              (h kind))
          j.have_rows);
}

JobRows-same :
    (db db' : Db) → db'.runs ≡ db.runs → db'.evaluations ≡ db.evaluations → JobRows db → JobRows db'
unfolding UniqueRows
JobRows-same db db' runs rows j = record {
  unique_rows = rw rows j.unique_rows;
  have_rows = rw (runs, rows) j.have_rows;
}

JobRows-added :
    (db db' : Db) (run : Run)
    → db'.runs ≡ db.runs ++ run ∷ []
    → NoRow db run db'
    → JobRows db
    → JobRows db'
unfolding UniqueRows HasRow
JobRows-added db db' run runs n j = record {
  unique_rows = rw n.rows_kept j.unique_rows;
  have_rows =
      rw (runs, n.rows_kept)
        (All-insert (HasRow db.evaluations) db.runs run j.have_rows
          (λ kind. absurd (cc (kind, n.not_judging))));
}

JobRows-judged :
    (mid db' : Db) (job : Run)
    → db'.runs ≡ mid.runs ++ job ∷ []
    → OneRow mid job db'
    → JobRows mid
    → JobRows db'
unfolding UniqueRows HasRow find_evaluation
JobRows-judged mid db' job runs o j =
    let new = count_of_find-none (λ (e : Evaluation). e.id) o.row.id mid.evaluations o.fresh in
    record {
      unique_rows = λ id.
          rw (o.one_row, count-append (has_id id) mid.evaluations (o.row ∷ []))
            (elim (Bool-cases (o.row.id == id)) [
              | inl mine ↦ ground (arith, new, j.unique_rows id)
              | inr other ↦ ground (arith, j.unique_rows id)
            ]);
      have_rows = rw runs (
          All-insert (HasRow db'.evaluations) mid.runs job
            (All-map mid.runs
              (λ r h kind.
                rw (o.one_row, count-append (is_of_job r.id) mid.evaluations (o.row ∷ []))
                  (omega (arith, h kind)))
              j.have_rows)
            (λ kind.
              rw (o.one_row, count-append (is_of_job job.id) mid.evaluations (o.row ∷ []), o.of_job)
                (ground arith)));
    }

JobRows-Change :
    (cfg : ExecutionConfig) (db db' : Db) → Change cfg db db' → JobRows db → JobRows db'
JobRows-Change cfg db db' (same_runs e _ _ rows) j = JobRows-same db db' e rows j
JobRows-Change cfg db db' (moved old new m w _ _ _) j =
    JobRows-Writes db old new db' w (Moves-SameRequest old new m).work_kind j
JobRows-Change cfg db db' (judged mid job k _ e _ _ one) j =
    JobRows-judged mid db' job e one
      (JobRows-Writes db k.source (with_evaluation k.status k.source) mid k.writes refl j)
JobRows-Change cfg db db' (added run _ e _ _ none_added) j = JobRows-added db db' run e none_added j

-- From a database without rows, whatever the order of committed transactions: every evaluation job
-- has its row, and no two rows have one identifier.
pub Reach-JobRows : (d : Deployment) (db : Db) → Reach d empty db → JobRows db
unfolding UniqueRows
Reach-JobRows d db here = record { unique_rows = λ id. omega arith; have_rows = tt }
Reach-JobRows d db (next {mid} before step) =
    JobRows-Change d.config mid db (Step-Change d mid db step) (Reach-JobRows d mid before)

-- A run that is no evaluation job, or is one whose row `_finalize_evaluation_job` finds.
unfoldable pub IsFinalizable : Run → Db → Type 0
IsFinalizable run db =
    (is_evaluation run.work_kind ≡ false)
    ⊎ ((e : Evaluation) × (find_evaluation_of_job run.id db ≡ some e))

pub JobRows-IsFinalizable :
    (db : Db) (id : Uuid) (run : Run)
    → JobRows db
    → find_run id db ≡ some run
    → IsFinalizable run db
unfolding IsFinalizable HasRow find_evaluation_of_job
JobRows-IsFinalizable db id run j found = elim (Bool-cases (is_evaluation run.work_kind)) [
  | inr other ↦ inl other
  | inl kind ↦ elim (Option-cases (find_evaluation_of_job run.id db)) [
    | inr (e, at) ↦ inr (e, at)
    | inl missing ↦ absurd (
        let some_row = All-find_run (HasRow db.evaluations) id db run j.have_rows found kind in
        let no_row = count-first_row (is_of_job run.id) db.evaluations missing in
        omega (arith, some_row, no_row))
  ]
]
