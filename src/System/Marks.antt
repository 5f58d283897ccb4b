-- ===== src/System/Marks.antt =====
-- A transaction that marks the evaluation summary of one run and leaves the attempts and the outbox
-- alone: what it does to counts, to lookups and to properties of all rows.
use native.Mathlib.Decide.{ℕ_discrete}
use agent_reliability_runtim.Prelude.{
  String, ◌≡◌, refl, sym, ap, ◌∙◌, subst, Bool, none, some, List, [], ◌∷◌, arith, one_if, count,
  first_row, All,
}
use agent_reliability_runtim.Domain.States.{EvaluationStatus}
use agent_reliability_runtim.Store.{Uuid, Run, Db}
use agent_reliability_runtim.Execution.Common.{find_run}
use agent_reliability_runtim.Execution.Frames.{with_evaluation, Blind, BlindTest}
use agent_reliability_runtim.Runs.{has_key, find_by_idempotency_key}
use agent_reliability_runtim.Lifecycle.Writes.{
  Writes, All-Writes, count-Writes, find_run-Writes_ne, find_run-Writes_self,
}

pub record Marks (db mid : Db) : Type 0 where
  pub source : Run
  pub status : EvaluationStatus
  pub writes : Writes db source (with_evaluation status source) mid
  pub attempts_kept : mid.attempts ≡ db.attempts
  pub outbox_kept : mid.outbox ≡ db.outbox

first_row_of_none :
    (test : Run → Bool) (xs : List Run) → count test xs ≡ 0 → first_row test xs ≡ none
first_row_of_none test [] h = refl
first_row_of_none test (x ∷ xs) h = ground (arith, first_row_of_none test xs)

pub count-first_row :
    {A : Type 0} (test : A → Bool) (xs : List A) → first_row test xs ≡ none → count test xs ≡ 0
count-first_row test [] h = refl
count-first_row test (x ∷ xs) h = ground (arith, count-first_row test xs)

module _ (db mid : Db) (k : Marks db mid) where
  pub count-Marks : (test : Run → Bool) → BlindTest test → count test mid.runs ≡ count test db.runs
  count-Marks test blind =
      let change =
        count-Writes db k.source (with_evaluation k.status k.source) mid k.writes test blind in
      omega (arith, change, ap one_if (blind k.source k.status))

  pub All-Marks {κ} : (P : Run → Type κ) → Blind P → All P db.runs → All P mid.runs
  All-Marks P blind h =
      All-Writes db k.source (with_evaluation k.status k.source) mid k.writes P blind
        (blind k.source k.status) h

  -- A run stays, but for its evaluation summary.
  pub find_run-Marks :
      (id : Uuid) (r : Run)
      → find_run id db ≡ some r
      → (s : EvaluationStatus) × (find_run id mid ≡ some (with_evaluation s r))
  find_run-Marks id r h = elim (ℕ_discrete id k.source.id) [
    | no other ↦
        find_run-Writes_ne db k.source (with_evaluation k.status k.source) mid k.writes id r other h
    | yes mine ↦
        let (s, found) =
          find_run-Writes_self db k.source (with_evaluation k.status k.source) mid k.writes in
        let at : find_run k.source.id db ≡ some r = subst (λ j. find_run j db ≡ some r) mine h in
        let same : k.source ≡ r = cc (at, k.writes.found) in
        (
          s,
          subst (λ j. find_run j mid ≡ some (with_evaluation s r)) (sym mine)
              (found ∙ ap (λ x. some (with_evaluation s x)) same),
        )
  ]

  pub unused-Marks :
      (client_id key : String)
      → find_by_idempotency_key client_id key db ≡ none
      → find_by_idempotency_key client_id key mid ≡ none
  unfolding find_by_idempotency_key has_key
  unused-Marks client_id key h = first_row_of_none (has_key client_id key) mid.runs (
      count-Marks (has_key client_id key) (λ r s. refl)
      ∙ count-first_row (has_key client_id key) db.runs h)
