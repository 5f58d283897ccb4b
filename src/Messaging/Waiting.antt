-- ===== src/Messaging/Waiting.antt =====
-- That no queued run is lost: while it waits, its delivery waits in the outbox or its message in the
-- queue, whatever fails in between.
use agent_reliability_runtim.Prelude
use agent_reliability_runtim.Prelude.{
  ℕ, ◌+◌, ◌≤◌, String, ◌≡◌, ◌≢◌, refl, sym, ap, ◌∙◌, subst, Bool, true, false, not, ◌&&◌, ◌⊎◌, inl,
  inr, Option, none, some, List, [], ◌∷◌, ◌++◌, arith, ◌==◌, leb, one_if, count, count-append,
  count-put, find_of_Mem, if◌then◌else◌, Memᴰ, Bool-cases, Option-cases,
}
use agent_reliability_runtim.Prelude.Result.{ok, Result-cases}
use agent_reliability_runtim.Domain.States.{queued}
use agent_reliability_runtim.Domain.Retry.{value, classify_exception}
use agent_reliability_runtim.Store.{Uuid, Run, Db, Env}
use agent_reliability_runtim.Execution.Common.{ExecutionConfig, find_run, find_attempt}
use agent_reliability_runtim.Execution.Frames.{find_run-id, with_evaluation}
use agent_reliability_runtim.Execution.Claim.{ClaimResult, claim, leased, postponed, rejected}
use agent_reliability_runtim.Lifecycle.{
  Moves, lease, postpone, reject, succeed, retry, give_up, break_off, enqueue,
}
use agent_reliability_runtim.Lifecycle.Writes.{find_run_of_runs, find_run-Writes_self}
use agent_reliability_runtim.Lifecycle.Leases.{unchanged, changed}
use agent_reliability_runtim.Lifecycle.Claims.{claim-Outcome}
use agent_reliability_runtim.System.{Deployment, Step, claims, succeeds, fails, empty}
use agent_reliability_runtim.Messaging.{Message, Broker}
use agent_reliability_runtim.Messaging.Worker.{
  Reply, ack, nack_requeue, Handling, replied, executing, receive, after_claim, is_claimed,
  Execution, returned, threw, finish, persist, finish_cases,
}
use agent_reliability_runtim.Messaging.World.{
  World, Event, transacts, dispatches, acknowledges, starts, finishes, returns, crashes, History,
  begins, goes_on,
}
use agent_reliability_runtim.Messaging.Notices.{names, notices, dispatch_one-notices}
use agent_reliability_runtim.Messaging.Heard.{Heard, Heard-Step}

Moves-leaves_queue :
    (old new : Run) → Moves old new → old.execution_status ≡ queued → new.execution_status ≢ queued
unfolding leased postponed rejected
Moves-leaves_queue old new (lease cfg env worker_id s e) q = λ h. ground arith
Moves-leaves_queue old new (postpone env s e) q = λ h. ground arith
Moves-leaves_queue old new (reject env s e) q = λ h. ground arith
Moves-leaves_queue old new (succeed env result s e) q = λ h. ground arith
Moves-leaves_queue old new (retry env error_code delay s e) q = λ h. ground arith
Moves-leaves_queue old new (give_up env error_code s e) q = λ h. ground arith
Moves-leaves_queue old new (break_off env error_code s e) q = λ h. ground arith
Moves-leaves_queue old new (enqueue s e) q = λ h. ground arith

-- A claim that commits leaves its run in another status than QUEUED.
claim-leaves_queue :
    (cfg : ExecutionConfig) (env : Env) (run_id : Uuid) (worker_id : String) (db : Db)
    (res : ClaimResult) (db' : Db)
    → find_attempt (env.uuid 0) db ≡ none
    → claim cfg env run_id worker_id db ≡ ok (res, db')
    → (r : Run) → find_run run_id db' ≡ some r
    → r.execution_status ≢ queued
claim-leaves_queue cfg env run_id worker_id db res db' fresh h r found =
    elim (claim-Outcome cfg env run_id worker_id db fresh res db' h) [
      | unchanged same _ idle ↦ idle r (ap (find_run run_id) (sym same) ∙ found)
      | changed old new at ready move w _ _ _ ↦
          let (s, later) = find_run-Writes_self db old new db' w in
          let here : find_run run_id db' ≡ some (with_evaluation s new) =
            subst (λ k. find_run k db' ≡ some (with_evaluation s new))
              (find_run-id run_id db old at) later in
          let same : r ≡ with_evaluation s new = cc (found, here) in
          λ q.
            Moves-leaves_queue old new move ready
              (ap (λ (x : Run). x.execution_status) (sym same) ∙ q)
    ]

-- A received message of a run is one notice of that run, and of no other.
names-removed :
    (id : Uuid) (before after : List Message) (m : Message) (all : List Message)
    → all ≡ before ++ m ∷ after
    → count (names id) all ≡ count (names id) (before ++ after) + one_if (m.run_id == id)
names-removed id before after m all e = rw e (
    omega (arith, count-append (names id) before (m ∷ after), count-append (names id) before after))

module _ (d : Deployment) where
  -- After a claim its message may go: its run, if it is still there, is not queued.
  Heard-of_claim :
      (env : Env) (worker_id : String) (before after : List Message) (m : Message) (db : Db)
      (broker : Broker) (res : ClaimResult) (db' : Db)
      → broker.execution ≡ before ++ m ∷ after
      → find_attempt (env.uuid 0) db ≡ none
      → claim d.config env m.run_id worker_id db ≡ ok (res, db')
      → Heard db broker
      → Heard db' (record broker { execution = before ++ after })
  Heard-of_claim env worker_id before after m db broker res db' split fresh h heard id r found
        waits =
      let step : Step d db db' = claims env m.run_id worker_id res fresh h in
      let had = Heard-Step d db db' broker step heard id r found waits in
      let gone = names-removed id before after m broker.execution split in
      elim (Bool-cases (m.run_id == id)) [
        | inr other ↦ omega (arith, had, gone, ap one_if other)
        | inl mine ↦
            let at : id ≡ m.run_id = ground arith in
            absurd (
              claim-leaves_queue d.config env m.run_id worker_id db res db' fresh h r
                (subst (λ k. find_run k db' ≡ some r) at found) waits)
      ]

  receive_cases :
      (env : Env) (worker_id : String) (run_id : Uuid) (db db' : Db) (handling : Handling)
      → receive d.config env worker_id (some run_id) db ≡ handling
      → (handling ≡ replied ack db') ⊎ ((claim : ClaimResult) × (handling ≡ executing claim db'))
      → (res : ClaimResult) × (claim d.config env run_id worker_id db ≡ ok (res, db'))
  unfolding receive after_claim
  receive_cases env worker_id run_id db db' handling h done =
      elim (Result-cases (claim d.config env run_id worker_id db)) [
        | inl (e, raised) ↦ absurd (ground arith)
        | inr ((res, last), ended) ↦ elim (Bool-cases (is_claimed res.decision)) [
          | inl on ↦ (res, ground arith)
          | inr off ↦ (res, ground arith)
        ]
      ]

  persist-Step :
      (env : Env) (run_id attempt_id : Uuid) (worker_id : String) (execution : Execution) (db : Db)
      (b : Bool) (db' : Db)
      → persist env run_id attempt_id worker_id execution db ≡ ok (b, db')
      → Step d db db'
  unfolding persist
  persist-Step env run_id attempt_id worker_id (threw exception) db b db' h =
      fails env run_id attempt_id worker_id (value (classify_exception exception)) b h
  persist-Step env run_id attempt_id worker_id (returned result) db b db' h =
      succeeds env run_id attempt_id worker_id result b h

  Heard-of_finish :
      (env : Env) (worker_id : String) (claim : ClaimResult) (execution : Execution) (db : Db)
      (broker : Broker) (reply : Reply) (db' : Db)
      → finish env worker_id claim execution db ≡ (reply, db')
      → Heard db broker
      → Heard db' broker
  Heard-of_finish env worker_id claim execution db broker reply db' h heard =
      elim (finish_cases env worker_id claim execution db reply db' h) [
        | inl same ↦ rw same heard
        | inr (attempt_id, (ended, (b, done))) ↦
            Heard-Step d db db' broker
              (persist-Step env claim.run_id attempt_id worker_id ended db b db' done) heard
      ]

  Heard-of_return :
      (db : Db) (broker : Broker) (m : Message)
      → Heard db broker
      → Heard db (record broker { execution = broker.execution ++ m ∷ [] })
  Heard-of_return db broker m heard id r found waits =
      omega (arith, heard id r found waits, count-append (names id) broker.execution (m ∷ []))

  pub Event-Heard : (w w' : World) → Event d w w' → Heard w.db w.broker → Heard w'.db w'.broker
  Event-Heard w w' (transacts step b _) h = rw b (Heard-Step d w.db w'.db w.broker step h)
  Event-Heard w w' (dispatches env publication result key done _) h =
      let (runs, more) =
        dispatch_one-notices env publication w.db w.broker result w'.db w'.broker key done in
      λ id r found waits.
        let heard = h id r (find_run_of_runs id w.db w'.db (sym runs) ∙ found) waits in
        omega (arith, heard, more id)
  Event-Heard w w' (acknowledges env worker_id before after m split fresh done b _) h =
      let (res, claimed) =
        receive_cases env worker_id m.run_id w.db w'.db (replied ack w'.db) done (inl refl) in
      rw b
        (Heard-of_claim env worker_id before after m w.db w.broker res w'.db split fresh claimed h)
  Event-Heard w w' (starts env worker_id before after m claim split fresh done b _) h =
      let (res, claimed) =
        receive_cases env worker_id m.run_id w.db w'.db (executing claim w'.db) done
          (inr (claim, refl)) in
      rw b
        (Heard-of_claim env worker_id before after m w.db w.broker res w'.db split fresh claimed h)
  Event-Heard w w' (finishes env worker_id before after m claim execution _ done b _) h =
      rw b (Heard-of_finish env worker_id claim execution w.db w.broker ack w'.db done h)
  Event-Heard w w' (returns env worker_id before after m claim execution _ done b _) h = rw b (
      Heard-of_return w'.db w.broker m
        (Heard-of_finish env worker_id claim execution w.db w.broker nack_requeue w'.db done h))
  Event-Heard w w' (crashes before after m _ same b _) h =
      rw (same, b) (Heard-of_return w.db w.broker m h)

  empty-Heard : Heard empty (record { execution = []; dead_letters = [] })
  unfolding find_run Prelude.find
  empty-Heard id r found waits = absurd (cc found)

-- Whatever transactions, dispatches (confirmed, failed, or failed with the message delivered),
-- deliveries, negative acknowledgements and worker crashes come in whatever order from an empty
-- system: while a run is QUEUED, its delivery is pending in the outbox or a message that names it
-- is in the execution queue.
pub queued_run-heard :
    (d : Deployment) (w : World) (id : Uuid) (r : Run)
    → History d w
    → find_run id w.db ≡ some r
    → r.execution_status ≡ queued
    → 1 ≤ notices id w.db w.broker
queued_run-heard d w id r history found waits = History-Heard w history id r found waits
  where
    History-Heard : (w : World) → History d w → Heard w.db w.broker
    History-Heard w begins = empty-Heard d
    History-Heard w' (goes_on {w} before event) = Event-Heard d w w' event (History-Heard w before)
