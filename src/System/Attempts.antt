-- ===== src/System/Attempts.antt =====
-- The attempts of a run over its moves: how many there are, how many are open, and their numbers.
use agent_reliability_runtim.Prelude
use agent_reliability_runtim.Prelude.{
  ℕ, ◌+◌, ◌≤◌, max, min, ◌≡◌, ◌≢◌, refl, sym, ap, ◌∙◌, subst, Bool, true, false, not, ◌&&◌, Option,
  none, some, List, [], ◌∷◌, ◌++◌, arith, inl, inr, ◌⊎◌, ◌==◌, one_if, count, count-append,
  count-put, count_of_find-none, find_of_Mem, All, All-Mem, All-put, All-insert, if◌then◌else◌,
  Bool-cases, Memᴰ,
}
use agent_reliability_runtim.Prelude.Result.{ok}
use agent_reliability_runtim.Domain.States.{running, same_status, same_status-eq}
use agent_reliability_runtim.Domain.Retry.{RetryPolicy, from_snapshot}
use agent_reliability_runtim.Store.{Uuid, Run, RunAttempt, Db}
use agent_reliability_runtim.Execution.Common.{
  ExecutionConfig, find_attempt, put_attempt, is_some_time, latest_number, next_attempt_number,
}
use agent_reliability_runtim.Lifecycle.Tries.{Closing, Tries, opens, closes, untouched}

abbrev pub has_id : Uuid → RunAttempt → Bool
has_id k a = a.id == k

abbrev pub is_for : Uuid → RunAttempt → Bool
is_for id a = a.run_id == id

abbrev pub is_open_for : Uuid → RunAttempt → Bool
is_open_for id a = a.run_id == id && not (is_some_time a.finished_at)

-- One where the run has the lease, for counting.
abbrev pub held_by : Run → ℕ
held_by r = one_if (same_status r.execution_status running)

abbrev pub at_run : Uuid → Run → ℕ → ℕ
at_run id r n = if r.id == id then n else 0

pub held_by_running : (r : Run) → r.execution_status ≡ running → held_by r ≡ 1
unfolding same_status
held_by_running r h = ground arith

pub held_by_idle : (r : Run) → r.execution_status ≢ running → held_by r ≡ 0
held_by_idle r h = elim (Bool-cases (same_status r.execution_status running)) [
  | inl e ↦ absurd (h (same_status-eq r.execution_status running e))
  | inr e ↦ rw e
]

latest_number-append :
    (id : Uuid) (xs : List RunAttempt) (a : RunAttempt)
    → latest_number id (xs ++ a ∷ [])
      ≡ (if a.run_id == id then max (latest_number id xs) a.attempt_number else latest_number id xs)
unfolding latest_number
latest_number-append id [] a = ground arith
latest_number-append id (x ∷ xs) a = ground (arith, latest_number-append id xs a)

latest_number-put :
    (id : Uuid) (r : RunAttempt) (xs : List RunAttempt) (old : RunAttempt)
    → Prelude.find (λ (a : RunAttempt). a.id) r.id xs ≡ some old
    → r.run_id ≡ old.run_id
    → r.attempt_number ≡ old.attempt_number
    → latest_number id (Prelude.put (λ (a : RunAttempt). a.id) r xs) ≡ latest_number id xs
unfolding latest_number Prelude.find Prelude.put
latest_number-put id r [] old h e n = refl
latest_number-put id r (x ∷ xs) old h e n = elim (Bool-cases (x.id == r.id)) [
  | inl t ↦ rw t (ground arith)
  | inr f ↦ rw f (ground (arith, latest_number-put id r xs old (rw f at h) e n))
]

module _ (db : Db) (after : RunAttempt) (old : Run) (c : Closing old db after)
    (unique : (k : ℕ) → count (has_id k) db.attempts ≤ 1) where
  closing_found : Prelude.find (λ (a : RunAttempt). a.id) after.id db.attempts ≡ some c.before
  closing_found =
      subst (λ k. Prelude.find (λ (a : RunAttempt). a.id) k db.attempts ≡ some c.before)
        (sym c.same_id)
        (find_of_Mem (λ (a : RunAttempt). a.id) db.attempts c.before (unique c.before.id) c.stored)

  -- A count of attempts before and after one of them is closed.
  closing_count :
      (test : RunAttempt → Bool)
      → count test (put_attempt after db).attempts + one_if (test c.before)
        ≡ count test db.attempts + one_if (test after)
  unfolding put_attempt
  closing_count test =
      count-put (λ (a : RunAttempt). a.id) test after db.attempts c.before closing_found

  closing_number :
      (id : Uuid) → latest_number id (put_attempt after db).attempts ≡ latest_number id db.attempts
  unfolding put_attempt
  closing_number id =
      latest_number-put id after db.attempts c.before closing_found c.same_run c.same_number

module _ (cfg : ExecutionConfig) (db : Db) (old new : Run) (db' : Db) (t : Tries cfg db old new db')
    (unique : (k : ℕ) → count (has_id k) db.attempts ≤ 1) where
  pub ids-Tries : (k : ℕ) → count (has_id k) db'.attempts ≤ 1
  unfolding find_attempt
  ids-Tries k = elim t [
    | untouched _ _ e ↦ rw e (unique k)
    | closes after _ _ c e ↦
        let same = closing_count db after old c unique (has_id k) in
        let id = c.same_id in rw e (ground (arith, same, id, unique k))
    | opens _ _ o ↦
        let grown = count-append (has_id k) db.attempts (o.attempt ∷ []) in
        let nothing =
          count_of_find-none (λ (a : RunAttempt). a.id) o.attempt.id db.attempts o.is_new in
        rw o.added (elim (Bool-cases (o.attempt.id == k)) [
          | inr other ↦ ground (arith, grown, unique k)
          | inl mine ↦
              let at : o.attempt.id ≡ k = ground arith in
              let none_there : count (has_id k) db.attempts ≡ 0 =
                subst (λ j. count (has_id j) db.attempts ≡ 0) at nothing in
              ground (arith, grown)
        ])
  ]

  -- The open attempts of a run follow its lease.
  pub open-Tries :
      (id : Uuid)
      → count (is_open_for id) db'.attempts + at_run id old (held_by old)
        ≡ count (is_open_for id) db.attempts + at_run id old (held_by new)
  unfolding is_some_time
  open-Tries id = elim t [
    | untouched idle waits e ↦ rw (e, held_by_idle old idle, held_by_idle new waits) refl
    | closes after held idle c e ↦
        let change = closing_count db after old c unique (is_open_for id) in
        rw (e, held_by_running old held, held_by_idle new idle)
          (ground (arith, change, c.of_run, c.was_open, c.same_run, c.is_closed))
    | opens ready held o ↦
        let grown = count-append (is_open_for id) db.attempts (o.attempt ∷ []) in
        rw (o.added, held_by_running new held, held_by_idle old (λ e. cc (ready, e)))
          (ground (arith, grown, o.of_run, o.is_open))
  ]

  pub numbered-Tries :
      ((id : Uuid) → latest_number id db.attempts ≡ count (is_for id) db.attempts)
      → (id : Uuid) → latest_number id db'.attempts ≡ count (is_for id) db'.attempts
  unfolding next_attempt_number
  numbered-Tries h id = elim t [
    | untouched _ _ e ↦ rw e (h id)
    | closes after _ _ c e ↦
        let change = closing_count db after old c unique (is_for id) in
        let same = c.same_run in
        rw (e, closing_number db after old c unique id) (ground (arith, change, same, h id))
    | opens _ _ o ↦
        let grown = count-append (is_for id) db.attempts (o.attempt ∷ []) in
        let number = latest_number-append id db.attempts o.attempt in
        rw o.added (elim (Bool-cases (o.attempt.run_id == id)) [
          | inr other ↦ ground (arith, grown, number, h id)
          | inl here ↦
              let at : old.id ≡ id = ground (arith, o.of_run) in
              let last : o.attempt.attempt_number ≡ latest_number id db.attempts + 1 =
                subst (λ k. o.attempt.attempt_number ≡ latest_number k db.attempts + 1) at
                  o.number in
              ground (arith, grown, number, h id, last)
        ])
  ]

  -- No other run's attempts change in number.
  pub other-Tries :
      (id : Uuid) → old.id ≢ id → count (is_for id) db'.attempts ≡ count (is_for id) db.attempts
  other-Tries id apart = elim t [
    | untouched _ _ e ↦ rw e
    | closes after _ _ c e ↦
        let change = closing_count db after old c unique (is_for id) in
        let same = c.same_run in rw e (ground (arith, change, same))
    | opens _ _ o ↦
        let grown = count-append (is_for id) db.attempts (o.attempt ∷ []) in
        let mine = o.of_run in rw o.added (ground (arith, grown, mine))
  ]

  -- The moved run has as many attempts as before, or one more within its budget.
  pub own-Tries :
      ((id : Uuid) → latest_number id db.attempts ≡ count (is_for id) db.attempts)
      → (count (is_for old.id) db'.attempts ≡ count (is_for old.id) db.attempts)
        ⊎ ((policy : RetryPolicy) × (from_snapshot old.policy_snapshot ≡ ok policy)
            × (count (is_for old.id) db'.attempts ≤ min policy.max_attempts cfg.max_attempts))
  unfolding next_attempt_number
  own-Tries h = elim t [
    | untouched _ _ e ↦ inl (rw e)
    | closes after _ _ c e ↦
        let change = closing_count db after old c unique (is_for old.id) in
        let same = c.same_run in inl (rw e (ground (arith, change, same)))
    | opens _ _ o ↦
        let grown = count-append (is_for old.id) db.attempts (o.attempt ∷ []) in
        inr (
          o.policy,
          o.stored,
          rw o.added (ground (arith, grown, o.of_run, o.number, o.budget, h old.id)),
        )
  ]

  -- Numbers start at one.
  pub positive-Tries :
      All (λ a. 1 ≤ a.attempt_number) db.attempts → All (λ a. 1 ≤ a.attempt_number) db'.attempts
  unfolding next_attempt_number put_attempt
  positive-Tries h = elim t [
    | untouched _ _ e ↦ rw e h
    | closes after _ _ c e ↦
        let before =
          All-Mem (λ (a : RunAttempt). 1 ≤ a.attempt_number) db.attempts c.before h c.stored in
        rw e (
          All-put (λ (a : RunAttempt). a.id) (λ (a : RunAttempt). 1 ≤ a.attempt_number) after
            db.attempts h (rw c.same_number before))
    | opens _ _ o ↦
        let first : 1 ≤ o.attempt.attempt_number = omega (arith, o.number) in
        rw o.added
          (All-insert (λ (a : RunAttempt). 1 ≤ a.attempt_number) db.attempts o.attempt h first)
  ]
