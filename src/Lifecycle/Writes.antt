-- ===== src/Lifecycle/Writes.antt =====
-- A transaction that writes one run, and then perhaps ends an evaluation job: what it does to
-- lookups, to counts and to a property of all rows.
use agent_reliability_runtim.Prelude.{◌+◌, ◌≡◌, ◌≢◌, ap, ◌∙◌, Bool, some, arith, one_if, count, All}
use agent_reliability_runtim.Prelude.Result.{ok}
use agent_reliability_runtim.Domain.States.{EvaluationStatus}
use agent_reliability_runtim.Store.{Uuid, Run, Db, Env}
use agent_reliability_runtim.Execution.Common.{find_run, put_run, finalize_evaluation_job}
use agent_reliability_runtim.Execution.Frames.{
  with_evaluation, Blind, BlindTest, find_run-put_run, find_run-put_run_ne, All-put_run,
  All-find_run, count-put_run,
}
use agent_reliability_runtim.Execution.Summaries.{find_run-finalize, All-finalize, count-finalize}

-- From the tables right after the write to those at the commit.
pub data Finishes (mid db' : Db) : Type 0 where
  plain : db' ≡ mid → Finishes mid db'
  job : (env : Env) (run : Run) → finalize_evaluation_job env run mid ≡ ok db' → Finishes mid db'

pub record Writes (db : Db) (old new : Run) (db' : Db) : Type 0 where
  pub found : find_run old.id db ≡ some old
  pub same_id : new.id ≡ old.id
  pub mid : Db
  pub written : mid.runs ≡ (put_run new db).runs
  pub rows_kept : mid.evaluations ≡ db.evaluations
  pub finish : Finishes mid db'

module _ (mid db' : Db) where
  All-Finishes {κ} :
      (P : Run → Type κ) (blind : Blind P) → Finishes mid db' → All P mid.runs → All P db'.runs
  All-Finishes P blind (plain e) h = rw e h
  All-Finishes P blind (job env run e) h = All-finalize env run mid db' e P blind h

  count-Finishes :
      (test : Run → Bool) (blind : BlindTest test)
      → Finishes mid db'
      → count test db'.runs ≡ count test mid.runs
  count-Finishes test blind (plain e) = rw e
  count-Finishes test blind (job env run e) = count-finalize env run mid db' e test blind

  pub find_run-Finishes :
      (id : Uuid) (r : Run)
      → Finishes mid db'
      → find_run id mid ≡ some r
      → (s : EvaluationStatus) × (find_run id db' ≡ some (with_evaluation s r))
  find_run-Finishes id r (plain e) h = (r.evaluation_status, rw e h)
  find_run-Finishes id r (job env run e) h = find_run-finalize env run mid db' e id r h

pub find_run_of_runs : (id : Uuid) (a b : Db) → a.runs ≡ b.runs → find_run id a ≡ find_run id b
unfolding find_run
find_run_of_runs id a b e = rw e

module _ (db : Db) (old new : Run) (db' : Db) (w : Writes db old new db') where
  pub All-Writes {κ} :
      (P : Run → Type κ) (blind : Blind P) → (P old → P new) → All P db.runs → All P db'.runs
  All-Writes P blind step h =
      let written : All P w.mid.runs =
        rw w.written (All-put_run P new db h (step (All-find_run P old.id db old h w.found))) in
      All-Finishes w.mid db' P blind w.finish written

  pub count-Writes :
      (test : Run → Bool) (blind : BlindTest test)
      → count test db'.runs + one_if (test old) ≡ count test db.runs + one_if (test new)
  count-Writes test blind =
      let ended = count-Finishes w.mid db' test blind w.finish in
      let moved = count-put_run test new old old.id db w.found w.same_id in
      omega (arith, ended, ap (count test) w.written, moved)

  -- Every other run is as it was, but for its evaluation summary.
  pub find_run-Writes_ne :
      (id : Uuid) (r : Run)
      → id ≢ old.id
      → find_run id db ≡ some r
      → (s : EvaluationStatus) × (find_run id db' ≡ some (with_evaluation s r))
  find_run-Writes_ne id r apart h = find_run-Finishes w.mid db' id r w.finish (
      find_run_of_runs id w.mid (put_run new db) w.written
      ∙ find_run-put_run_ne new id db (λ e. apart (e ∙ w.same_id))
      ∙ h)

  pub find_run-Writes_self :
      (s : EvaluationStatus) × (find_run old.id db' ≡ some (with_evaluation s new))
  find_run-Writes_self = find_run-Finishes w.mid db' old.id new w.finish (
      find_run_of_runs old.id w.mid (put_run new db) w.written
      ∙ find_run-put_run new old old.id db w.found w.same_id)
