-- ===== src/System/Accounts.antt =====
-- The attempts that every run should have, and what a move and an addition do to them.
use agent_reliability_runtim.Prelude.{
  ◌≤◌, min, ◌≡◌, refl, sym, ap, ◌∙◌, subst, Bool, inl, inr, none, some, List, [], ◌∷◌, ◌++◌, arith,
  ◌==◌, count, count-append, count_of_find-none, Bool-cases, All,
}
use agent_reliability_runtim.Prelude.Result.{ok}
use agent_reliability_runtim.Domain.States.{running}
use agent_reliability_runtim.Domain.Retry.{RetryPolicy, from_snapshot}
use agent_reliability_runtim.Store.{Uuid, Run, RunAttempt, Db}
use agent_reliability_runtim.Execution.Common.{ExecutionConfig, find_run, latest_number}
use agent_reliability_runtim.Lifecycle.{Moves}
use agent_reliability_runtim.Lifecycle.Writes.{Writes, count-Writes, find_run_of_runs}
use agent_reliability_runtim.Lifecycle.Tries.{Tries, leased-Tries}
use agent_reliability_runtim.Lifecycle.Rows.{Moves-SameRequest}
use agent_reliability_runtim.System.Change.{Admitted}
use agent_reliability_runtim.System.Attempts.{
  has_id, is_for, is_open_for, held_by, held_by_idle, ids-Tries, open-Tries, numbered-Tries,
  other-Tries, own-Tries, positive-Tries,
}
use agent_reliability_runtim.System.Lookups.{find_run-before, find_run-before_added}

abbrev pub has_run_id : Uuid → Run → Bool
has_run_id id r = r.id == id

pub record Ledger (cfg : ExecutionConfig) (db : Db) : Type 0 where
  -- An identifier names one run, and one attempt.
  pub unique_runs : (id : Uuid) → count (has_run_id id) db.runs ≤ 1
  pub unique : (id : Uuid) → count (has_id id) db.attempts ≤ 1
  -- The greatest number of an attempt is the number of attempts.
  pub numbered : (id : Uuid) → latest_number id db.attempts ≡ count (is_for id) db.attempts
  pub numbers_positive : All (λ a. 1 ≤ a.attempt_number) db.attempts
  -- A run has one open attempt while it is running, and none otherwise.
  pub open_while_running :
      (id : Uuid) (r : Run)
      → find_run id db ≡ some r
      → count (is_open_for id) db.attempts ≡ held_by r
  pub no_orphans : (id : Uuid) → find_run id db ≡ none → count (is_for id) db.attempts ≡ 0
  pub in_budget :
      (id : Uuid) (r : Run) (policy : RetryPolicy)
      → find_run id db ≡ some r
      → from_snapshot r.policy_snapshot ≡ ok policy
      → count (is_for id) db.attempts ≤ min policy.max_attempts cfg.max_attempts
  pub valid_while_running :
      (id : Uuid) (r : Run)
      → find_run id db ≡ some r
      → r.execution_status ≡ running
      → (policy : RetryPolicy) × (from_snapshot r.policy_snapshot ≡ ok policy)

open-le-all : (id : Uuid) (xs : List RunAttempt) → count (is_open_for id) xs ≤ count (is_for id) xs
open-le-all id [] = omega arith
open-le-all id (x ∷ xs) = ground (arith, open-le-all id xs)

module _ (cfg : ExecutionConfig) (db db' : Db) (l : Ledger cfg db) where
  module _ (old new : Run) (m : Moves old new) (w : Writes db old new db')
      (t : Tries cfg db old new db') where
    open-moved :
        (id : Uuid) (r' : Run)
        → find_run id db' ≡ some r'
        → count (is_open_for id) db'.attempts ≡ held_by r'
    open-moved id r' h =
        let change = open-Tries cfg db old new db' t l.unique id in
        elim (find_run-before db old new db' w id r' h) [
          | inl (this, (s, e)) ↦
              let before = l.open_while_running old.id old w.found in
              let at : count (is_open_for id) db.attempts ≡ held_by old =
                subst (λ k. count (is_open_for k) db.attempts ≡ held_by old) this before in
              rw e (ground (arith, change, at, this))
          | inr (apart, (r, found, (s, e))) ↦
              let at = l.open_while_running id r found in rw e (ground (arith, change, at, apart))
        ]

    orphans-moved : (id : Uuid) → find_run id db ≡ none → count (is_for id) db'.attempts ≡ 0
    orphans-moved id missing =
        other-Tries cfg db old new db' t l.unique id
          (λ e. cc (subst (λ k. find_run k db ≡ some old) e w.found, missing))
        ∙ l.no_orphans id missing

    budget-moved :
        (id : Uuid) (r' : Run) (policy : RetryPolicy)
        → find_run id db' ≡ some r'
        → from_snapshot r'.policy_snapshot ≡ ok policy
        → count (is_for id) db'.attempts ≤ min policy.max_attempts cfg.max_attempts
    budget-moved id r' policy h stored = elim (find_run-before db old new db' w id r' h) [
      | inr (apart, (r, found, (s, e))) ↦
          let kept = other-Tries cfg db old new db' t l.unique id apart in
          rw kept (
            l.in_budget id r policy found
              (ap (λ (x : Run). from_snapshot x.policy_snapshot) (sym e) ∙ stored))
      | inl (this, (s, e)) ↦
          let mine : from_snapshot old.policy_snapshot ≡ ok policy =
            ap from_snapshot (sym (Moves-SameRequest old new m).policy_snapshot)
            ∙ ap (λ (x : Run). from_snapshot x.policy_snapshot) (sym e)
            ∙ stored in
          subst (λ k. count (is_for k) db'.attempts ≤ min policy.max_attempts cfg.max_attempts) this
            (elim (own-Tries cfg db old new db' t l.unique l.numbered) [
              | inl same ↦ rw same (l.in_budget old.id old policy w.found mine)
              | inr (p, its, bound) ↦
                  let eq : p ≡ policy = cc (its, mine) in
                  subst
                    (λ q. count (is_for old.id) db'.attempts ≤ min q.max_attempts cfg.max_attempts)
                    eq bound
            ])
    ]

    valid-moved :
        (id : Uuid) (r' : Run)
        → find_run id db' ≡ some r'
        → r'.execution_status ≡ running
        → (policy : RetryPolicy) × (from_snapshot r'.policy_snapshot ≡ ok policy)
    valid-moved id r' h held = elim (find_run-before db old new db' w id r' h) [
      | inr (apart, (r, found, (s, e))) ↦
          let (policy, stored) =
            l.valid_while_running id r found
              (ap (λ (x : Run). x.execution_status) (sym e) ∙ held) in
          (policy, ap (λ (x : Run). from_snapshot x.policy_snapshot) e ∙ stored)
      | inl (this, (s, e)) ↦
          let (policy, stored) =
            leased-Tries cfg db old new db' t
              (ap (λ (x : Run). x.execution_status) (sym e) ∙ held) in
          (
            policy,
            ap (λ (x : Run). from_snapshot x.policy_snapshot) e
                ∙ ap from_snapshot (Moves-SameRequest old new m).policy_snapshot
                ∙ stored,
          )
    ]

    unique_runs-moved : (id : Uuid) → count (has_run_id id) db'.runs ≤ 1
    unique_runs-moved id =
        let change = count-Writes db old new db' w (has_run_id id) (λ r s. refl) in
        ground (arith, change, w.same_id, l.unique_runs id)

    pub Ledger-moved :
        ((id : Uuid) → find_run id db' ≡ none → find_run id db ≡ none) → Ledger cfg db'
    Ledger-moved missing = record {
      unique_runs = unique_runs-moved;
      unique = ids-Tries cfg db old new db' t l.unique;
      numbered = numbered-Tries cfg db old new db' t l.unique l.numbered;
      numbers_positive = positive-Tries cfg db old new db' t l.unique l.numbers_positive;
      open_while_running = open-moved;
      no_orphans = λ id h. orphans-moved id (missing id h);
      in_budget = budget-moved;
      valid_while_running = valid-moved;
    }

  module _ (run : Run) (a : Admitted cfg db run) (e : db'.runs ≡ db.runs ++ run ∷ [])
      (k : db'.attempts ≡ db.attempts) where
    no_attempts : (id : Uuid) → run.id ≡ id → count (is_for id) db.attempts ≡ 0
    no_attempts id this =
        subst (λ j. count (is_for j) db.attempts ≡ 0) this (l.no_orphans run.id a.fresh)

    open-added :
        (id : Uuid) (r' : Run)
        → find_run id db' ≡ some r'
        → count (is_open_for id) db'.attempts ≡ held_by r'
    open-added id r' h = rw k (elim (find_run-before_added db db' run a.fresh e id r' h) [
      | inr (apart, found) ↦ l.open_while_running id r' found
      | inl (this, same) ↦
          let none_open = open-le-all id db.attempts in
          let nothing = no_attempts id this in
          rw (same, held_by_idle run (λ held. cc (a.waits, held)))
            (omega (arith, none_open, nothing))
    ])

    budget-added :
        (id : Uuid) (r' : Run) (policy : RetryPolicy)
        → find_run id db' ≡ some r'
        → from_snapshot r'.policy_snapshot ≡ ok policy
        → count (is_for id) db'.attempts ≤ min policy.max_attempts cfg.max_attempts
    budget-added id r' policy h stored =
        rw k (elim (find_run-before_added db db' run a.fresh e id r' h) [
          | inr (apart, found) ↦ l.in_budget id r' policy found stored
          | inl (this, same) ↦ rw (no_attempts id this) (omega arith)
        ])

    valid-added :
        (id : Uuid) (r' : Run)
        → find_run id db' ≡ some r'
        → r'.execution_status ≡ running
        → (policy : RetryPolicy) × (from_snapshot r'.policy_snapshot ≡ ok policy)
    valid-added id r' h held = elim (find_run-before_added db db' run a.fresh e id r' h) [
      | inr (apart, found) ↦ l.valid_while_running id r' found held
      | inl (this, same) ↦ absurd (
          let waits : run.execution_status ≡ running =
            ap (λ (x : Run). x.execution_status) (sym same) ∙ held in
          cc (waits, a.waits))
    ]

    unique_runs-added : (id : Uuid) → count (has_run_id id) db'.runs ≤ 1
    unfolding find_run
    unique_runs-added id =
        let nothing = count_of_find-none (λ (r : Run). r.id) run.id db.runs a.fresh in
        let grown = count-append (has_run_id id) db.runs (run ∷ []) in
        rw e (elim (Bool-cases (run.id == id)) [
          | inr other ↦ ground (arith, grown, l.unique_runs id)
          | inl mine ↦
              let at : run.id ≡ id = ground arith in
              let none_there : count (has_run_id id) db.runs ≡ 0 =
                subst (λ j. count (has_run_id j) db.runs ≡ 0) at nothing in
              ground (arith, grown)
        ])

    pub Ledger-added :
        ((id : Uuid) → find_run id db' ≡ none → find_run id db ≡ none) → Ledger cfg db'
    Ledger-added missing = record {
      unique_runs = unique_runs-added;
      unique = rw k l.unique;
      numbered = rw k l.numbered;
      numbers_positive = rw k l.numbers_positive;
      open_while_running = open-added;
      no_orphans = λ id h. rw k (l.no_orphans id (missing id h));
      in_budget = budget-added;
      valid_while_running = valid-added;
    }

  pub Ledger-same_runs : db'.runs ≡ db.runs → db'.attempts ≡ db.attempts → Ledger cfg db'
  Ledger-same_runs e k =
      let same : (id : Uuid) → find_run id db ≡ find_run id db' =
        λ id. find_run_of_runs id db db' (sym e) in
      record {
        unique_runs = rw e l.unique_runs;
        unique = rw k l.unique;
        numbered = rw k l.numbered;
        numbers_positive = rw k l.numbers_positive;
        open_while_running = λ id r h. rw k (l.open_while_running id r (same id ∙ h));
        no_orphans = λ id h. rw k (l.no_orphans id (same id ∙ h));
        in_budget = λ id r policy h. rw k (l.in_budget id r policy (same id ∙ h));
        valid_while_running = λ id r h. l.valid_while_running id r (same id ∙ h);
      }
