-- ===== src/System/Written.antt =====
-- What a write by a worker's report leaves on the tables, and the guards that it passes.
use mathlib.Core.List.{append-nil, append_assoc}
use agent_reliability_runtim.Prelude
use agent_reliability_runtim.Prelude.{
  ℕ, ◌+◌, ◌≤◌, ◌<◌, String, ◌≡◌, ◌≢◌, refl, sym, ap, ◌∙◌, subst, ◌⊎◌, inl, inr, Bool, true, false,
  ◌&&◌, Option, none, some, List, [], ◌∷◌, ◌++◌, arith, ltb, is_text, if◌then◌else◌, eq_iff,
  Bool-cases, Option-cases, find-put_self, find-key,
}
use agent_reliability_runtim.Domain.States.{same_status}
use agent_reliability_runtim.Store.{
  Uuid, Run, RunAttempt, RunFact, evaluation_changed, Evaluation, RunEvent, OutboxEvent, Db, Env,
  add_event,
}
use agent_reliability_runtim.Execution.Common.{
  find_run, put_run, find_attempt, put_attempt, is_some_time, is_after, owns_active_lease,
  show_on_source, put_evaluation, settle,
}
use agent_reliability_runtim.Execution.Frames.{find_run-put_run}
use agent_reliability_runtim.Execution.Summaries.{show_cases, finalize_cases, finalize_keeps}
use agent_reliability_runtim.Execution.Finish.{is_closed_to}
use agent_reliability_runtim.Lifecycle.Writes.{
  Finishes, plain, job, find_run-Finishes, find_run_of_runs,
}
use agent_reliability_runtim.Lifecycle.Tries.{attempts-Finishes}
use agent_reliability_runtim.Lifecycle.Endings.{Held, owned-running}
use agent_reliability_runtim.System.Limits.{is_text-eq}
use agent_reliability_runtim.System.Reports.{MayEnd, Written}

outbox-Finishes : (mid db' : Db) → Finishes mid db' → db'.outbox ≡ mid.outbox
outbox-Finishes mid db' (plain e) = rw e
outbox-Finishes mid db' (job env run done) = (finalize_keeps env run mid db' done).1

show_events :
    (e : Evaluation) (env : Env) (run : Run) (mid : Db)
    → (add_event env 9
        (settle run e).run_id
        none
        (evaluation_changed (settle run e).status run.id)
        (show_on_source (settle run e) (put_evaluation (settle run e) mid))).events
      ≡ mid.events
        ++ record {
          id = env.uuid 9;
          run_id = (settle run e).run_id;
          attempt_id = none;
          fact = evaluation_changed (settle run e).status run.id;
          created_at = env.server_now;
        }
          ∷ []
unfolding add_event put_evaluation put_run
show_events e env run mid = elim (show_cases (settle run e) (put_evaluation (settle run e) mid)) [
  | inl same ↦ rw same refl
  | inr (source, found, changed) ↦ rw changed refl
]

-- The end of an evaluation job may add an event.
events-Finishes :
    (mid db' : Db) → Finishes mid db' → (rest : List RunEvent) × (db'.events ≡ mid.events ++ rest)
unfolding add_event put_evaluation show_on_source put_run
events-Finishes mid db' (plain e) = ([], rw e (sym (append-nil mid.events)))
events-Finishes mid db' (job env run done) = elim (finalize_cases env run mid db' done) [
  | inl (_, same) ↦ ([], rw same (sym (append-nil mid.events)))
  | inr (e, _, changed) ↦ (_, ap (λ (x : Db). x.events) changed ∙ show_events e env run mid)
]

module _ (env : Env) (run new : Run) (before after : RunAttempt) (fact : RunFact)
    (sent : List OutboxEvent) (db mid db' : Db) (found : find_run run.id db ≡ some run)
    (same_id : new.id ≡ run.id) (stored : find_attempt after.id db ≡ some before) where
  pub Written-of :
      mid.runs ≡ (put_run new db).runs
      → mid.attempts ≡ (put_attempt after db).attempts
      → mid.events
        ≡ db.events
          ++ record {
            id = env.uuid 1;
            run_id = new.id;
            attempt_id = some after.id;
            fact = fact;
            created_at = env.server_now;
          }
            ∷ []
      → mid.outbox ≡ db.outbox ++ sent
      → Finishes mid db'
      → Written env new after fact sent db db'
  unfolding find_attempt put_attempt
  Written-of runs attempts events outbox finish =
      let (s, row) = find_run-Finishes mid db' new.id new finish (
        find_run_of_runs new.id mid (put_run new db) runs
        ∙ subst (λ k. find_run k (put_run new db) ≡ some new) (sym same_id)
            (find_run-put_run new run run.id db found same_id)) in
      let (later, noted) = events-Finishes mid db' finish in
      record {
        status = s;
        row = row;
        try =
            ap (Prelude.find (λ (a : RunAttempt). a.id) after.id)
              (attempts-Finishes mid db' finish ∙ attempts)
            ∙ find-put_self (λ (a : RunAttempt). a.id) after db.attempts before stored;
        later = later;
        noted = noted ∙ ap (λ xs. xs ++ later) events ∙ append_assoc db.events _ later;
        posted = outbox-Finishes mid db' finish ∙ outbox;
      }

-- The guards hold exactly for the worker of an active lease that names an open attempt of its run.
module _ (env : Env) (run_id attempt_id : Uuid) (worker_id : String) (db : Db) where
  pub MayEnd-of_Held :
      (h : Held env run_id attempt_id worker_id db)
      → MayEnd env run_id attempt_id worker_id db h.run h.attempt
  unfolding owns_active_lease is_after is_closed_to is_some_time
  MayEnd-of_Held h =
      let run = h.run in
      elim (Option-cases run.execution_lease_expires_at) [
        | inl nothing ↦
            absurd (let bad = rw (nothing, owns_active_lease, is_after) at h.owned in ground arith)
        | inr (t, leased) ↦
            let owned = rw leased at h.owned in
            elim (Option-cases h.attempt.finished_at) [
              | inr (f, done) ↦
                  absurd
                    (let bad = rw (done, is_closed_to, is_some_time) at h.is_open in ground arith)
              | inl unfinished ↦ record {
                run_found = h.run_found;
                attempt_found = h.attempt_found;
                held = owned-running run env worker_id h.owned;
                owner = is_text-eq run.execution_lease_owner worker_id (ground (arith, owned));
                expiry = t;
                leased = leased;
                active = ground (arith, owned);
                of_run = let shut = h.is_open in ground (arith, shut);
                was_open = unfinished;
              }
            ]
      ]

  pub MayEnd-guards :
      (run : Run) (attempt : RunAttempt)
      → MayEnd env run_id attempt_id worker_id db run attempt
      → (owns_active_lease run worker_id env.now ≡ true) × (is_closed_to run attempt ≡ false)
  unfolding owns_active_lease is_after is_closed_to is_some_time same_status
  MayEnd-guards run attempt m =
      let mine = (eq_iff worker_id worker_id).1 refl in
      (
        rw (m.held, m.owner, m.leased, owns_active_lease, is_after)
            (ground (arith, mine, m.active)),
        rw (m.was_open, is_closed_to, is_some_time) (ground (arith, m.of_run)),
      )
