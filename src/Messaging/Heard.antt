-- ===== src/Messaging/Heard.antt =====
-- That every queued run has a notice, as a property of the tables and the queue, and that changes keep it.
use agent_reliability_runtim.Prelude.{
  ◌≤◌, ◌≡◌, sym, ap, ◌∙◌, subst, inl, inr, some, [], ◌∷◌, ◌++◌, arith, count,
}
use agent_reliability_runtim.Domain.States.{queued}
use agent_reliability_runtim.Store.{Uuid, Run, Db}
use agent_reliability_runtim.Execution.Common.{ExecutionConfig, find_run}
use agent_reliability_runtim.Lifecycle.Writes.{find_run_of_runs}
use agent_reliability_runtim.Lifecycle.Posts.{pending, Posts}
use agent_reliability_runtim.System.{Deployment, Step}
use agent_reliability_runtim.System.Change.{Admitted, Change, same_runs, moved, judged, added}
use agent_reliability_runtim.System.Marks.{Marks}
use agent_reliability_runtim.System.Steps.{Step-Change}
use agent_reliability_runtim.System.Lookups.{
  find_run-before, find_run-before_added, find_run-unmarked,
}
use agent_reliability_runtim.Messaging.{Broker}
use agent_reliability_runtim.Messaging.Notices.{notices}

-- Every queued run has one.
abbrev pub Heard : Db → Broker → Type 0
Heard db broker =
    (id : Uuid) (r : Run)
    → find_run id db ≡ some r
    → r.execution_status ≡ queued
    → 1 ≤ notices id db broker

Heard-added :
    (cfg : ExecutionConfig) (db db' : Db) (broker : Broker) (run : Run)
    → Admitted cfg db run
    → db'.runs ≡ db.runs ++ run ∷ []
    → Posts db run db'
    → Heard db broker
    → Heard db' broker
Heard-added cfg db db' broker run a e posts h id r found waits =
    elim (find_run-before_added db db' run a.fresh e id r found) [
      | inl (here, same) ↦
          let at : 1 ≤ count (pending id) db'.outbox =
            subst (λ k. 1 ≤ count (pending k) db'.outbox) here (posts.sent a.waits) in
          omega (arith, at)
      | inr (_, there) ↦ let heard = h id r there waits in omega (arith, heard, posts.kept id)
    ]

Heard-marked : (db mid : Db) (broker : Broker) → Marks db mid → Heard db broker → Heard mid broker
Heard-marked db mid broker k h id r found waits =
    let (before, there, (s, e)) = find_run-unmarked db mid k id r found in
    rw k.outbox_kept (h id before there (ap (λ (x : Run). x.execution_status) (sym e) ∙ waits))

Heard-Change :
    (cfg : ExecutionConfig) (db db' : Db) (broker : Broker)
    → Change cfg db db'
    → Heard db broker
    → Heard db' broker
Heard-Change cfg db db' broker (same_runs e _ o _) h id r found waits =
    rw o (h id r (find_run_of_runs id db db' (sym e) ∙ found) waits)
Heard-Change cfg db db' broker (moved old new m w _ posts _) h id r found waits =
    elim (find_run-before db old new db' w id r found) [
      | inl (here, (s, e)) ↦
          let named : new.id ≡ id = w.same_id ∙ here in
          let sent = posts.sent (ap (λ (x : Run). x.execution_status) (sym e) ∙ waits) in
          let at : 1 ≤ count (pending id) db'.outbox =
            subst (λ k. 1 ≤ count (pending k) db'.outbox) named sent in
          omega (arith, at)
      | inr (_, (before, there, (s, e))) ↦
          let heard = h id before there (ap (λ (x : Run). x.execution_status) (sym e) ∙ waits) in
          omega (arith, heard, posts.kept id)
    ]
Heard-Change cfg db db' broker (added run a e _ posts _) h id r found waits =
    Heard-added cfg db db' broker run a e posts h id r found waits
Heard-Change cfg db db' broker (judged mid job k a e _ posts _) h id r found waits =
    Heard-added cfg mid db' broker job a e posts (Heard-marked db mid broker k h) id r found waits

pub Heard-Step :
    (d : Deployment) (db db' : Db) (broker : Broker)
    → Step d db db'
    → Heard db broker
    → Heard db' broker
Heard-Step d db db' broker step h =
    Heard-Change d.config db db' broker (Step-Change d db db' step) h
