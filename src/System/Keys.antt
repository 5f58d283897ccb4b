-- ===== src/System/Keys.antt =====
-- The row of one run across a change of the tables: looked up by its identifier, or as the first row
-- that fits a test which no change affects, such as the key of a request.
use agent_reliability_runtim.Prelude
use agent_reliability_runtim.Prelude.{
  ℕ, String, ◌≡◌, ◌≢◌, refl, sym, ap, ◌∙◌, subst, Bool, true, false, ◌⊎◌, inl, inr, Option, none,
  some, List, [], ◌∷◌, ◌++◌, arith, first_row, first_row-put, first_row-extend, find-append,
}
use native.Mathlib.Decide.{ℕ_discrete}
use agent_reliability_runtim.Domain.States.{EvaluationStatus}
use agent_reliability_runtim.Store.{Uuid, Run, Evaluation, Db, add_event}
use agent_reliability_runtim.Execution.Common.{
  ExecutionConfig, find_run, put_run, put_evaluation, settle, show_on_source,
}
use agent_reliability_runtim.Execution.Frames.{with_evaluation, BlindTest, find_run-id}
use agent_reliability_runtim.Execution.Summaries.{show_cases, finalize_cases}
use agent_reliability_runtim.Lifecycle.{Moves}
use agent_reliability_runtim.Lifecycle.Writes.{
  Finishes, plain, job, find_run-Writes_ne, find_run-Writes_self,
}
use agent_reliability_runtim.System.Change.{Change, same_runs, moved, judged, added}
use agent_reliability_runtim.System.Marks.{Marks, find_run-Marks}
use agent_reliability_runtim.System.Turns.{Turn, rests, turns}

-- A run stays in the table when another is added.
find_run-grown :
    (db db' : Db) (run : Run) (id : Uuid) (r : Run)
    → db'.runs ≡ db.runs ++ run ∷ []
    → find_run id db ≡ some r
    → find_run id db' ≡ some r
unfolding find_run
find_run-grown db db' run id r e h =
    rw e (find-append (λ (x : Run). x.id) id db.runs (run ∷ []) r h)

-- A run that is in the table before a change is there after it, one turn further.
pub find_run-Change :
    (cfg : ExecutionConfig) (db db' : Db) (id : Uuid) (r : Run)
    → Change cfg db db'
    → find_run id db ≡ some r
    → (r' : Run) × (find_run id db' ≡ some r') × Turn r r'
find_run-Change cfg db db' id r (same_runs e _ _ _) h =
    (r, unfold find_run in rw e h, rests r.evaluation_status refl)
find_run-Change cfg db db' id r (added run a e _ _ _) h =
    (r, find_run-grown db db' run id r e h, rests r.evaluation_status refl)
find_run-Change cfg db db' id r (judged mid run k _ e _ _ _) h =
    let (s, found) = find_run-Marks db mid k id r h in
    (with_evaluation s r, find_run-grown mid db' run id (with_evaluation s r) e found, rests s refl)
find_run-Change cfg db db' id r (moved old new m w _ _ room) h = elim (ℕ_discrete id old.id) [
  | no other ↦
      let (s, found) = find_run-Writes_ne db old new db' w id r other h in
      (with_evaluation s r, found, rests s refl)
  | yes mine ↦
      let (s, found) = find_run-Writes_self db old new db' w in
      let at : find_run old.id db ≡ some r = subst (λ k. find_run k db ≡ some r) mine h in
      let same : old ≡ r = cc (at, w.found) in
      (
        with_evaluation s new,
        subst (λ k. find_run k db' ≡ some (with_evaluation s new)) (sym mine) found,
        turns new s (subst (λ x. Moves x new) same m) refl,
      )
]

module _ (test : Run → Bool) (blind : BlindTest test) where
  first_row-put_run :
      (n old r : Run) (db : Db)
      → find_run old.id db ≡ some old
      → n.id ≡ old.id
      → test n ≡ test old
      → first_row test db.runs ≡ some r
      → (first_row test (put_run n db).runs ≡ some r)
        ⊎ ((r ≡ old) × (first_row test (put_run n db).runs ≡ some n))
  unfolding find_run put_run
  first_row-put_run n old r db found same_id same h =
      first_row-put (λ (x : Run). x.id) test n db.runs old r
        (subst (λ k. Prelude.find (λ (x : Run). x.id) k db.runs ≡ some old) (sym same_id) found)
        same h

  first_row-show_on_source :
      (e : Evaluation) (db : Db) (r : Run)
      → first_row test db.runs ≡ some r
      → (s : EvaluationStatus) × (first_row test (show_on_source e db).runs
          ≡ some (with_evaluation s r))
  first_row-show_on_source e db r h = elim (show_cases e db) [
    | inl same ↦ (r.evaluation_status, rw same h)
    | inr (source, found, changed) ↦
        let at : find_run source.id db ≡ some source =
          subst (λ k. find_run k db ≡ some source) (sym (find_run-id e.run_id db source found))
            found in
        elim (first_row-put_run (with_evaluation e.status source) source r db at refl
          (blind source e.status) h) [
            | inl kept ↦ (r.evaluation_status, rw changed kept)
            | inr (mine, put) ↦ (
              e.status,
              rw changed (put ∙ ap (λ x. some (with_evaluation e.status x)) (sym mine)),
            )
          ]
  ]

  first_row-Finishes :
      (mid db' : Db) (r : Run)
      → Finishes mid db'
      → first_row test mid.runs ≡ some r
      → (s : EvaluationStatus) × (first_row test db'.runs ≡ some (with_evaluation s r))
  unfolding add_event put_evaluation
  first_row-Finishes mid db' r (plain e) h = (r.evaluation_status, rw e h)
  first_row-Finishes mid db' r (job env run done) h = elim (finalize_cases env run mid db' done) [
    | inl (_, same) ↦ (r.evaluation_status, rw same h)
    | inr (e, _, changed) ↦
        let (s, found) =
          first_row-show_on_source (settle run e) (put_evaluation (settle run e) mid) r h in
        (s, rw changed found)
  ]

  first_row-Marks :
      (db mid : Db) (r : Run)
      → Marks db mid
      → first_row test db.runs ≡ some r
      → (s : EvaluationStatus) × (first_row test mid.runs ≡ some (with_evaluation s r))
  first_row-Marks db mid r k h =
      let w = k.writes in
      elim (first_row-put_run (with_evaluation k.status k.source) k.source r db w.found refl
        (blind k.source k.status) h) [
          | inl kept ↦ first_row-Finishes w.mid mid r w.finish (rw w.written kept)
          | inr (mine, put) ↦
              first_row-Finishes w.mid mid (with_evaluation k.status r) w.finish
                (rw w.written (put ∙ ap (λ x. some (with_evaluation k.status x)) (sym mine)))
        ]

  -- The same for the first row that fits a test which no move affects.
  pub first_row-Change :
      (cfg : ExecutionConfig) (db db' : Db) (r : Run)
      → ((old new : Run) → Moves old new → test new ≡ test old)
      → Change cfg db db'
      → first_row test db.runs ≡ some r
      → (r' : Run) × (first_row test db'.runs ≡ some r') × Turn r r'
  first_row-Change cfg db db' r steady (same_runs e _ _ _) h =
      (r, rw e h, rests r.evaluation_status refl)
  first_row-Change cfg db db' r steady (added run a e _ _ _) h =
      (r, rw e (first_row-extend test db.runs (run ∷ []) r h), rests r.evaluation_status refl)
  first_row-Change cfg db db' r steady (judged mid run k _ e _ _ _) h =
      let (s, found) = first_row-Marks db mid r k h in
      (
        with_evaluation s r,
        rw e (first_row-extend test mid.runs (run ∷ []) (with_evaluation s r) found),
        rests s refl,
      )
  first_row-Change cfg db db' r steady (moved old new m w _ _ room) h =
      elim (first_row-put_run new old r db w.found w.same_id (steady old new m) h) [
        | inl kept ↦
            let (s, found) = first_row-Finishes w.mid db' r w.finish (rw w.written kept) in
            (with_evaluation s r, found, rests s refl)
        | inr (mine, put) ↦
            let (s, found) = first_row-Finishes w.mid db' new w.finish (rw w.written put) in
            (with_evaluation s new, found, turns new s (subst (λ x. Moves x new) (sym mine) m) refl)
      ]
