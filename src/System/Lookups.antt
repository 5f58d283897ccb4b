-- ===== src/System/Lookups.antt =====
-- A row found after a change, traced back to the tables before it.
use native.Mathlib.Decide.{ℕ_discrete}
use agent_reliability_runtim.Prelude
use agent_reliability_runtim.Prelude.{
  ℕ, ◌+◌, ◌≡◌, ◌≢◌, refl, sym, ap, ◌∙◌, subst, ◌⊎◌, inl, inr, Option, none, some, List, [], ◌∷◌,
  ◌++◌, arith, ◌==◌, count, Option-cases, find-append, find-append_none, count_of_find-none,
  find-none_of_count,
}
use agent_reliability_runtim.Domain.States.{EvaluationStatus}
use agent_reliability_runtim.Store.{Uuid, Run, Db}
use agent_reliability_runtim.Execution.Common.{ExecutionConfig, find_run}
use agent_reliability_runtim.Execution.Frames.{with_evaluation}
use agent_reliability_runtim.Lifecycle.Writes.{
  Writes, count-Writes, find_run-Writes_ne, find_run-Writes_self,
}
use agent_reliability_runtim.System.Change.{Change}
use agent_reliability_runtim.System.Marks.{Marks}
use agent_reliability_runtim.System.Keys.{find_run-Change}

-- A write of one run adds no row.
find_run-Writes-none :
    (db : Db) (old new : Run) (db' : Db)
    → Writes db old new db'
    → (id : Uuid) → find_run id db ≡ none
    → find_run id db' ≡ none
unfolding find_run
find_run-Writes-none db old new db' w id h =
    let change = count-Writes db old new db' w (λ r. r.id == id) (λ r s. refl) in
    let nothing = count_of_find-none (λ (r : Run). r.id) id db.runs h in
    find-none_of_count (λ (r : Run). r.id) id db'.runs (ground (arith, change, nothing, w.same_id))

-- After a write a row is the written one, or it was there before it.
pub find_run-before :
    (db : Db) (old new : Run) (db' : Db)
    → Writes db old new db'
    → (id : Uuid) (r' : Run) → find_run id db' ≡ some r'
    → ((old.id ≡ id) × ((s : EvaluationStatus) × (r' ≡ with_evaluation s new)))
      ⊎ ((old.id ≢ id)
          × ((r : Run) × (find_run id db ≡ some r)
              × ((s : EvaluationStatus) × (r' ≡ with_evaluation s r))))
find_run-before db old new db' w id r' h = elim (ℕ_discrete id old.id) [
  | yes mine ↦
      let (s, found) = find_run-Writes_self db old new db' w in
      let at : find_run old.id db' ≡ some r' = subst (λ k. find_run k db' ≡ some r') mine h in
      inl (sym mine, (s, cc (at, found)))
  | no other ↦ elim (Option-cases (find_run id db)) [
    | inl missing ↦
        absurd (let gone = find_run-Writes-none db old new db' w id missing in cc (h, gone))
    | inr (r, found) ↦
        let (s, later) = find_run-Writes_ne db old new db' w id r other found in
        inr (λ e. other (sym e), (r, found, (s, cc (h, later))))
  ]
]

-- After an addition a row is the new one, which had no row under its identifier, or it was there before.
pub find_run-before_added :
    (db db' : Db) (run : Run)
    → find_run run.id db ≡ none
    → db'.runs ≡ db.runs ++ run ∷ []
    → (id : Uuid) (r' : Run) → find_run id db' ≡ some r'
    → ((run.id ≡ id) × (r' ≡ run)) ⊎ ((run.id ≢ id) × (find_run id db ≡ some r'))
unfolding find_run Prelude.find
find_run-before_added db db' run fresh e id r' h = elim (Option-cases (find_run id db)) [
  | inl missing ↦
      let last : Prelude.find (λ (r : Run). r.id) id (run ∷ []) ≡ some r' =
        sym (find-append_none (λ (r : Run). r.id) id db.runs (run ∷ []) missing)
        ∙ ap (Prelude.find (λ (r : Run). r.id) id) (sym e)
        ∙ h in
      inl (ground (arith, last), ground (arith, last))
  | inr (r, found) ↦
      let kept : find_run id db' ≡ some r =
        ap (Prelude.find (λ (r : Run). r.id) id) e
        ∙ find-append (λ (r : Run). r.id) id db.runs (run ∷ []) r found in
      inr (λ same. cc (subst (λ k. find_run k db ≡ none) same fresh, found), cc (found, kept, h))
]

-- A row that is missing after a change was missing before it.
pub find_run-none_before :
    (cfg : ExecutionConfig) (db db' : Db)
    → Change cfg db db'
    → (id : Uuid) → find_run id db' ≡ none
    → find_run id db ≡ none
find_run-none_before cfg db db' change id h = elim (Option-cases (find_run id db)) [
  | inl missing ↦ missing
  | inr (r, found) ↦
      absurd (let (r', later, _) = find_run-Change cfg db db' id r change found in cc (h, later))
]

-- A row found after a mark was there before it, but for its evaluation summary.
pub find_run-unmarked :
    (db mid : Db)
    → Marks db mid
    → (id : Uuid) (r' : Run) → find_run id mid ≡ some r'
    → (r : Run) × (find_run id db ≡ some r) × ((s : EvaluationStatus) × (r' ≡ with_evaluation s r))
find_run-unmarked db mid k id r' h =
    elim (find_run-before db k.source (with_evaluation k.status k.source) mid k.writes id r' h) [
      | inl (here, (s, e)) ↦
          (k.source, subst (λ j. find_run j db ≡ some k.source) here k.writes.found, (s, e))
      | inr (_, traced) ↦ traced
    ]

pub find_run-Marks-none :
    (db mid : Db) → Marks db mid → (id : Uuid) → find_run id db ≡ none → find_run id mid ≡ none
find_run-Marks-none db mid k id h =
    find_run-Writes-none db k.source (with_evaluation k.status k.source) mid k.writes id h
