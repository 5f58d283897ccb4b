-- ===== src/System/Ledger.antt =====
-- The attempts of every run after any sequence of steps: one is open exactly while its run is running,
-- they are numbered from one on, and they stay within the budget of the stored policy.
use agent_reliability_runtim.Prelude
use agent_reliability_runtim.Prelude.{
  ℕ, ◌+◌, ◌≤◌, min, ◌≡◌, ◌≢◌, refl, sym, ap, ◌∙◌, subst, Bool, true, false, not, ◌&&◌, ◌⊎◌, inl,
  inr, Option, none, some, List, [], ◌∷◌, ◌++◌, arith, ◌==◌, one_if, count, count-append,
  count_of_find-none, Bool-cases, Option-cases, All, if◌then◌else◌,
}
use agent_reliability_runtim.Domain.Retry.{from_snapshot}
use agent_reliability_runtim.Store.{Uuid, Run, Db}
use agent_reliability_runtim.Execution.Common.{ExecutionConfig, find_run, latest_number}
use agent_reliability_runtim.System.{Deployment, Step, Reach, here, next, empty}
use agent_reliability_runtim.System.Change.{same_runs, moved, judged, added}
use agent_reliability_runtim.System.Marks.{Marks, count-Marks, find_run-Marks}
use agent_reliability_runtim.System.Steps.{Step-Change}
use agent_reliability_runtim.System.Lookups.{
  find_run-none_before, find_run-unmarked, find_run-Marks-none,
}
use agent_reliability_runtim.System.Accounts.{
  Ledger, Ledger-added, Ledger-moved, Ledger-same_runs, has_run_id,
}

module _ (cfg : ExecutionConfig) (db mid : Db) (l : Ledger cfg db) (k : Marks db mid) where
  missing-Marks : (id : Uuid) → find_run id mid ≡ none → find_run id db ≡ none
  missing-Marks id h = elim (Option-cases (find_run id db)) [
    | inl missing ↦ missing
    | inr (r, found) ↦ absurd (let (s, later) = find_run-Marks db mid k id r found in cc (h, later))
  ]

  Ledger-marked : Ledger cfg mid
  Ledger-marked =
      let kept = k.attempts_kept in
      record {
        unique_runs =
            λ id. rw (count-Marks db mid k (has_run_id id) (λ r s. refl)) (l.unique_runs id);
        unique = rw kept l.unique;
        numbered = rw kept l.numbered;
        numbers_positive = rw kept l.numbers_positive;
        open_while_running = λ id r' h.
            let (r, found, (s, e)) = find_run-unmarked db mid k id r' h in
            rw (kept, e) (l.open_while_running id r found);
        no_orphans = λ id h. rw kept (l.no_orphans id (missing-Marks id h));
        in_budget = λ id r' policy h stored.
            let (r, found, (s, e)) = find_run-unmarked db mid k id r' h in
            rw kept (
              l.in_budget id r policy found
                (ap (λ (x : Run). from_snapshot x.policy_snapshot) (sym e) ∙ stored));
        valid_while_running = λ id r' h held.
            let (r, found, (s, e)) = find_run-unmarked db mid k id r' h in
            let (policy, stored) =
              l.valid_while_running id r found
                (ap (λ (x : Run). x.execution_status) (sym e) ∙ held) in
            (policy, ap (λ (x : Run). from_snapshot x.policy_snapshot) e ∙ stored);
      }

-- Every step keeps the ledger of attempts.
pub Step-Ledger :
    (d : Deployment) (db db' : Db) → Step d db db' → Ledger d.config db → Ledger d.config db'
Step-Ledger d db db' step l =
    let change = Step-Change d db db' step in
    let missing = find_run-none_before d.config db db' change in
    elim change [
      | same_runs e k _ _ ↦ Ledger-same_runs d.config db db' l e k
      | moved old new m w t _ room ↦ Ledger-moved d.config db db' l old new m w t missing
      | judged mid job k a e t _ _ ↦
          Ledger-added d.config mid db' (Ledger-marked d.config db mid l k) job a e t
            (λ id h. find_run-Marks-none db mid k id (missing id h))
      | added run a e k _ _ ↦ Ledger-added d.config db db' l run a e k missing
    ]

missing_in_empty : (id : Uuid) (r : Run) → find_run id empty ≡ some r → ⊥
unfolding find_run Prelude.find
missing_in_empty id r h = cc h

empty-Ledger : (cfg : ExecutionConfig) → Ledger cfg empty
unfolding latest_number find_run
empty-Ledger cfg = record {
  unique_runs = λ id. omega arith;
  unique = λ id. omega arith;
  numbered = λ id. refl;
  numbers_positive = tt;
  open_while_running = λ id r h. absurd (missing_in_empty id r h);
  no_orphans = λ id h. refl;
  in_budget = λ id r policy h stored. omega arith;
  valid_while_running = λ id r h held. absurd (missing_in_empty id r h);
}

-- From a database without rows, whatever the order of committed transactions: a run has exactly
-- one open attempt while it is RUNNING and none otherwise, its attempts are numbered from one
-- without a gap, there are never more of them than both its stored policy and the service allow,
-- and a running run's stored policy is valid.
pub Reach-Ledger : (d : Deployment) (db : Db) → Reach d empty db → Ledger d.config db
Reach-Ledger d db here = empty-Ledger d.config
Reach-Ledger d db (next {mid} before step) = Step-Ledger d mid db step (Reach-Ledger d mid before)
