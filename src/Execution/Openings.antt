-- ===== src/Execution/Openings.antt =====
-- The attempts that lookups find.
use mathlib.Core.List.Memᴰ.{head, tail}
use agent_reliability_runtim.Prelude.{
  [], ◌∷◌, ◌&&◌, ltb, Memᴰ, find-Mem, ◌≡◌, false, not, some, List, arith, inl, inr, ◌==◌,
  Bool-cases, Option-cases,
}
use agent_reliability_runtim.Store.{Uuid, RunAttempt, Db}
use agent_reliability_runtim.Execution.Common.{
  is_some_time, later_attempt, open_attempt, latest_open_attempt, find_attempt,
}

pub find_attempt-Mem :
    (id : Uuid) (db : Db) (a : RunAttempt) → find_attempt id db ≡ some a → Memᴰ a db.attempts
unfolding find_attempt
find_attempt-Mem id db a h = find-Mem (λ (x : RunAttempt). x.id) id db.attempts a h

open_attempt-Mem :
    (run_id : Uuid) (attempts : List RunAttempt) (a : RunAttempt)
    → open_attempt run_id attempts ≡ some a
    → Memᴰ a attempts × (a.run_id ≡ run_id) × (is_some_time a.finished_at ≡ false)
unfolding open_attempt later_attempt
open_attempt-Mem run_id [] a h = cc
open_attempt-Mem run_id (x ∷ rest) a h =
    elim (Bool-cases (x.run_id == run_id && not (is_some_time x.finished_at))) [
      | inr other ↦
          let (m, mine, idle) = open_attempt-Mem run_id rest a (rw other at h) in
          (tail m, mine, idle)
      | inl mine ↦ elim (Option-cases (open_attempt run_id rest)) [
        | inl nothing ↦ let same : a ≡ x = ground arith in (head same, ground arith, ground arith)
        | inr (b, later) ↦ elim (Bool-cases (ltb x.attempt_number b.attempt_number)) [
          | inl after ↦
              let same : a ≡ b = ground arith in
              let (m, its, idle) = open_attempt-Mem run_id rest b later in
              rw same (tail m, its, idle)
          | inr before ↦ let same : a ≡ x = ground arith in (head same, ground arith, ground arith)
        ]
      ]
    ]

-- The latest open attempt is a stored one of the run, and is not finished.
pub latest_open_attempt-Mem :
    (run_id : Uuid) (db : Db) (a : RunAttempt)
    → latest_open_attempt run_id db ≡ some a
    → Memᴰ a db.attempts × (a.run_id ≡ run_id) × (is_some_time a.finished_at ≡ false)
unfolding latest_open_attempt
latest_open_attempt-Mem run_id db a h = open_attempt-Mem run_id db.attempts a h
