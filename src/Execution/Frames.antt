-- ===== src/Execution/Frames.antt =====
-- What the shared writes of the execution service leave alone: lookups, counts and properties of the
-- table of runs under `put_run`.
use agent_reliability_runtim.Prelude.{
  ◌+◌, ◌≡◌, ◌≢◌, sym, ◌∙◌, subst, Bool, some, one_if, count, All, find-key, find-put_self,
  find-put_ne, count-put, All-put, All-find,
}
use agent_reliability_runtim.Domain.States.{EvaluationStatus}
use agent_reliability_runtim.Store.{Uuid, Run, Db}
use agent_reliability_runtim.Execution.Common.{find_run, put_run}

pub find_run-id : (id : Uuid) (db : Db) (r : Run) → find_run id db ≡ some r → r.id ≡ id
unfolding find_run
find_run-id id db r h = find-key (λ (r : Run). r.id) id db.runs r h

pub find_run-put_run_self :
    (r : Run) (db : Db) (old : Run)
    → find_run r.id db ≡ some old
    → find_run r.id (put_run r db) ≡ some r
unfolding find_run put_run
find_run-put_run_self r db old h = find-put_self (λ (r : Run). r.id) r db.runs old h

pub find_run-put_run_ne :
    (r : Run) (id : Uuid) (db : Db) → id ≢ r.id → find_run id (put_run r db) ≡ find_run id db
unfolding find_run put_run
find_run-put_run_ne r id db h = find-put_ne (λ (r : Run). r.id) r id db.runs h

-- The same, at the identifier under which the old row is found.
pub find_run-put_run :
    (r old : Run) (id : Uuid) (db : Db)
    → find_run id db ≡ some old
    → r.id ≡ old.id
    → find_run id (put_run r db) ≡ some r
find_run-put_run r old id db h e =
    let named : r.id ≡ id = e ∙ find_run-id id db old h in
    subst (λ k. find_run k (put_run r db) ≡ some r) named
      (find_run-put_run_self r db old (subst (λ k. find_run k db ≡ some old) (sym named) h))

-- A run whose summary of its evaluations has changed, and nothing else.
abbrev pub with_evaluation : EvaluationStatus → Run → Run
with_evaluation s r = record r { evaluation_status = s }

-- A property that does not depend on the evaluation status.
abbrev pub Blind {κ} : (Run → Type κ) → Type κ
Blind P = (r : Run) (s : EvaluationStatus) → P r → P (with_evaluation s r)

abbrev pub BlindTest : (Run → Bool) → Type 0
BlindTest test = (r : Run) (s : EvaluationStatus) → test (with_evaluation s r) ≡ test r

pub All-put_run {κ} :
    (P : Run → Type κ) (r : Run) (db : Db) → All P db.runs → P r → All P (put_run r db).runs
unfolding put_run
All-put_run P r db h p = All-put (λ (r : Run). r.id) P r db.runs h p

pub All-find_run {κ} :
    (P : Run → Type κ) (id : Uuid) (db : Db) (r : Run)
    → All P db.runs
    → find_run id db ≡ some r
    → P r
unfolding find_run
All-find_run P id db r h e = All-find (λ (r : Run). r.id) P id db.runs r h e

pub count-put_run :
    (test : Run → Bool) (r old : Run) (id : Uuid) (db : Db)
    → find_run id db ≡ some old
    → r.id ≡ old.id
    → count test (put_run r db).runs + one_if (test old) ≡ count test db.runs + one_if (test r)
unfolding find_run put_run
count-put_run test r old id db h e =
    let named : r.id ≡ id = e ∙ find_run-id id db old h in
    count-put (λ (r : Run). r.id) test r db.runs old
      (subst (λ k. find_run k db ≡ some old) (sym named) h)
