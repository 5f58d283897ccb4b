-- ===== src/System/Requeues.antt =====
-- A whole pass of `schedule_due_retries`: which runs it takes, and what becomes of every run.
use agent_reliability_runtim.Prelude.{Memᴰ}
use mathlib.Core.List.Memᴰ.{head, tail}
use agent_reliability_runtim.Prelude.{
  ℕ, ◌+◌, ◌≤◌, min, ◌≡◌, ◌≢◌, refl, sym, ap, ◌∙◌, subst, inl, inr, Bool, true, false, not, ◌&&◌,
  none, some, List, [], ◌∷◌, arith, leb, count, count-append, count-Mem, length, All, find_of_Mem,
  Option-cases, if◌then◌else◌,
}
use native.Mathlib.Decide.{ℕ_discrete}
use agent_reliability_runtim.Domain.States.{queued, retry_scheduled, same_status}
use agent_reliability_runtim.Store.{Uuid, Time, Run, Db, Env, add_event, add_outbox}
use agent_reliability_runtim.Execution.Common.{find_run, put_run}
use agent_reliability_runtim.Execution.Frames.{find_run-id, find_run-put_run, find_run-put_run_ne}
use agent_reliability_runtim.Execution.Scheduler.{
  select_batch, is_due, retry_is_due, next_round, requeue, queue_again, schedule_one, schedule_all,
  schedule_due_retries, time_le,
}
use agent_reliability_runtim.Execution.Scheduler.Batches.{
  free-select_batch, length-select_batch, count-select_batch,
}
use agent_reliability_runtim.Execution.Scheduler.Orders.{select_batch-earliest, le_of_time_le}
use agent_reliability_runtim.Lifecycle.Posts.{pending}
use agent_reliability_runtim.System.{Deployment, Reach}
use agent_reliability_runtim.System.Accounts.{Ledger, has_run_id}
use agent_reliability_runtim.System.Passes.{schedule_due_retries-Reach}

-- A run whose retry is due and that no other transaction has locked.
abbrev pub is_overdue : Env → Run → Bool
is_overdue env r =
    same_status r.execution_status retry_scheduled
    && elim r.next_attempt_at [ none ↦ false | some t ↦ leb t env.now ]
    && not (env.locked r.id)

-- The rows that a pass selects, in its order.
abbrev pub due_batch : Env → ℕ → Db → List Run
due_batch env batch_size db =
    select_batch env (retry_is_due env) (λ run. run.next_attempt_at) batch_size db

-- What a pass over a batch makes of a row: queued, without the time of a retry, if it is in the batch.
abbrev pub after_pass : List Run → Run → Run
after_pass batch r =
    if leb 1 (count (has_run_id r.id) batch)
    then record r { execution_status = queued; next_attempt_at = none }
    else r

pub record IsPass (d : Deployment) (env : Env) (batch_size : ℕ) (db : Db) (n : ℕ) (db' : Db)
    : Type 0 where
  pub size : n ≡ length (due_batch env batch_size db)
  pub counted : n ≡ min batch_size (count (is_overdue env) db.runs)
  pub overdue :
      All
        (λ r. (find_run r.id db ≡ some r) × (is_overdue env r ≡ true))
        (due_batch env batch_size db)
  pub once : (id : Uuid) → count (has_run_id id) (due_batch env batch_size db) ≤ 1
  pub earliest :
      All
        (λ r.
          All
            (λ x.
              is_overdue env x ≡ true
              → count (has_run_id x.id) (due_batch env batch_size db) ≡ 0
              → (s t : Time) → r.next_attempt_at ≡ some s
              → x.next_attempt_at ≡ some t
              → s ≤ t)
            db.runs)
        (due_batch env batch_size db)
  pub rows :
      All (λ r. find_run r.id db' ≡ some (after_pass (due_batch env batch_size db) r)) db.runs
  pub sent :
      All
        (λ r. count (pending r.id) db'.outbox ≡ count (pending r.id) db.outbox + 1)
        (due_batch env batch_size db)
  pub reached : Reach d db db'

All-of_Mem : {P : Run → Type 0} (xs : List Run) → ((r : Run) → Memᴰ r xs → P r) → All P xs
All-of_Mem [] each = tt
All-of_Mem (x ∷ xs) each = (each x (head refl), All-of_Mem xs (λ r m. each r (tail m)))

module _ (env : Env) (r stored : Run) (db : Db) (found : find_run r.id db ≡ some stored) where
  schedule_one-eq : schedule_one env r.id db ≡ queue_again env stored db
  unfolding schedule_one
  schedule_one-eq = rw (found, schedule_one) refl

  find_run-schedule_one : find_run r.id (schedule_one env r.id db) ≡ some (requeue stored)
  unfolding queue_again add_event add_outbox find_run
  find_run-schedule_one =
      ap (find_run r.id) schedule_one-eq
      ∙ find_run-put_run (requeue stored) stored r.id db found (unfold requeue in refl)

  find_run-schedule_one_ne :
      (id : Uuid) → id ≢ r.id → find_run id (schedule_one env r.id db) ≡ find_run id db
  unfolding queue_again add_event add_outbox find_run
  find_run-schedule_one_ne id apart =
      ap (find_run id) schedule_one-eq
      ∙ find_run-put_run_ne (requeue stored) id db
          (unfold requeue in λ e. apart (e ∙ find_run-id r.id db stored found))

  count-schedule_one :
      (id : Uuid)
      → count (pending id) (schedule_one env r.id db).outbox
        ≡ count (pending id) db.outbox + count (has_run_id id) (r ∷ [])
  unfolding queue_again add_event add_outbox put_run
  count-schedule_one id =
      let named = find_run-id r.id db stored found in
      ap (λ (x : Db). count (pending id) x.outbox) schedule_one-eq
      ∙ count-append (pending id) db.outbox _
      ∙ ap (λ k. count (pending id) db.outbox + k) (ground (arith, named))

-- The rows of a batch are rows of the table, none of them twice.
abbrev Stored : List Run → Db → Type 0
Stored batch db = All (λ r. find_run r.id db ≡ some r) batch

Stored-later :
    (env : Env) (r : Run) (rest : List Run) (db : Db)
    → find_run r.id db ≡ some r
    → count (has_run_id r.id) rest ≡ 0
    → Stored rest db
    → Stored rest (schedule_one env r.id db)
Stored-later env r [] db found apart h = tt
Stored-later env r (x ∷ rest) db found apart (at, later) = (
  find_run-schedule_one_ne env r r db found x.id (λ e. ground (arith, apart, e)) ∙ at,
  Stored-later env r rest db found (omega (arith, apart)) later,
)

abbrev Once : List Run → Type 0
Once batch = (id : Uuid) → count (has_run_id id) batch ≤ 1

schedule_all-row :
    (env : Env) (batch : List Run) (db : Db) (x : Run)
    → Stored batch db
    → Once batch
    → find_run x.id db ≡ some x
    → find_run x.id (schedule_all env batch db) ≡ some (after_pass batch x)
unfolding schedule_all requeue
schedule_all-row env [] db x stored once at = at
schedule_all-row env (r ∷ rest) db x (found, stored) once at =
    let alone : count (has_run_id r.id) rest ≡ 0 = let one = once r.id in ground (arith, one) in
    let later = Stored-later env r rest db found alone stored in
    let once' : Once rest = λ id. omega (arith, once id) in
    elim (ℕ_discrete x.id r.id) [
      | yes mine ↦
          let same : r ≡ x = cc (found, subst (λ k. find_run k db ≡ some x) mine at) in
          let put : find_run x.id (schedule_one env r.id db) ≡ some (requeue x) =
            subst (λ (y : Run). find_run y.id (schedule_one env r.id db) ≡ some (requeue y)) same
              (find_run-schedule_one env r r db found) in
          let none_left : count (has_run_id x.id) rest ≡ 0 =
            subst (λ k. count (has_run_id k) rest ≡ 0) (sym mine) alone in
          let kept =
            schedule_all-row (next_round env) rest (schedule_one env r.id db) (requeue x) later
              once' put in
          let here : leb 1 (count (has_run_id x.id) (r ∷ rest)) ≡ true = ground (arith, mine) in
          let gone : leb 1 (count (has_run_id x.id) rest) ≡ false = ground (arith, none_left) in
          rw here (rw gone at kept)
      | no other ↦
          let kept =
            schedule_all-row (next_round env) rest (schedule_one env r.id db) x later once'
              (find_run-schedule_one_ne env r r db found x.id other ∙ at) in
          let same : count (has_run_id x.id) (r ∷ rest) ≡ count (has_run_id x.id) rest =
            ground (arith, other) in
          rw same kept
    ]

schedule_all-sent :
    (env : Env) (batch : List Run) (db : Db) (id : Uuid)
    → Stored batch db
    → Once batch
    → count (pending id) (schedule_all env batch db).outbox
      ≡ count (pending id) db.outbox + count (has_run_id id) batch
unfolding schedule_all
schedule_all-sent env [] db id stored once = omega arith
schedule_all-sent env (r ∷ rest) db id (found, stored) once =
    let alone : count (has_run_id r.id) rest ≡ 0 = let one = once r.id in ground (arith, one) in
    let first = count-schedule_one env r r db found id in
    let others =
      schedule_all-sent (next_round env) rest (schedule_one env r.id db) id
        (Stored-later env r rest db found alone stored) (λ k. omega (arith, once k)) in
    omega (arith, first, others)

overdue-of_test :
    (env : Env) (r : Run) → (retry_is_due env r && not (env.locked r.id)) ≡ is_overdue env r
unfolding retry_is_due is_due
overdue-of_test env r = elim (Option-cases r.next_attempt_at) [
  | inl nothing ↦ rw nothing (ground arith)
  | inr (t, e) ↦ rw e (ground arith)
]

count_same : (f g : Run → Bool) (xs : List Run) → ((r : Run) → f r ≡ g r) → count f xs ≡ count g xs
count_same f g [] same = refl
count_same f g (x ∷ xs) same = ground (arith, same x, count_same f g xs same)

-- Where identifiers are unique: a pass over the due retries takes as many runs as the batch allows
-- of those whose retry is due and that no other transaction has locked, the earliest due, none
-- twice and no others, and returns their number; each run it takes is then queued without a retry
-- time and has one more pending delivery, every other run of the table is as it was, and the pass
-- does what its rounds do as single transactions.
pub schedule_due_retries-IsPass :
    (d : Deployment) (env : Env) (batch_size : ℕ) (db : Db)
    → Ledger d.config db
    → IsPass d env batch_size db
        (schedule_due_retries env batch_size db).0
        (schedule_due_retries env batch_size db).1
unfolding schedule_due_retries find_run
schedule_due_retries-IsPass d env batch_size db l =
    let column = λ (run : Run). run.next_attempt_at in
    let batch : List Run = due_batch env batch_size db in
    let free = free-select_batch env (retry_is_due env) column batch_size db in
    let once : Once batch = λ id. omega (
      arith,
      count-select_batch env (retry_is_due env) column batch_size db (has_run_id id),
      l.unique_runs id,
    ) in
    let at = λ (r : Run) (m : Memᴰ r db.runs).
      find_of_Mem (λ (x : Run). x.id) db.runs r (l.unique_runs r.id) m in
    let stored : Stored batch db = All-of_Mem batch (λ r m. at r (free r m).0) in
    record {
      size = refl;
      counted =
          length-select_batch env (retry_is_due env) column batch_size db
          ∙ ap (min batch_size) (count_same _ (is_overdue env) db.runs (overdue-of_test env));
      overdue =
          All-of_Mem batch (λ r m. (at r (free r m).0, sym (overdue-of_test env r) ∙ (free r m).1));
      once = once;
      earliest = All-of_Mem batch (λ r m. All-of_Mem db.runs (λ x k due left s t first later.
          elim (select_batch-earliest column env (retry_is_due env) batch_size db r x m k
            (overdue-of_test env x ∙ due)) [
              | inl taken ↦ absurd (
                  let mine = count-Mem (has_run_id x.id) batch x taken (ground arith) in
                  omega (arith, mine, left))
              | inr before ↦ le_of_time_le s t (
                  let at : time_le r.next_attempt_at x.next_attempt_at ≡ true = before in
                  rw (first, later) at at)
            ]));
      rows = All-of_Mem db.runs (λ x m. schedule_all-row env batch db x stored once (at x m));
      sent = All-of_Mem batch (λ r m.
          let sent = schedule_all-sent env batch db r.id stored once in
          let mine = count-Mem (has_run_id r.id) batch r m (ground arith) in
          omega (arith, sent, mine, once r.id));
      reached = schedule_due_retries-Reach d env batch_size db l;
    }
