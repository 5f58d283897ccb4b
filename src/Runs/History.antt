-- ===== src/Runs/History.antt =====
-- The paged reads of src/agent_runtime/infrastructure/database/run_service.py: `get_attempts`, `get_events`
-- and `get_evaluations`, which differ in the table and in the snapshot of a row. A limit is a
-- natural number, as the API demands.
pub mod Order
pub mod Pages
use agent_reliability_runtim.Prelude.{
  ℕ, max, min, String, Bool, true, false, ◌&&◌, ◌||◌, Option, none, some, List, [], ◌∷◌, map, ltb,
  ◌==◌, take, where_rows, first_row, if◌then◌else◌,
}
use agent_reliability_runtim.Prelude.Result.{Result, ok, raise, invalid_cursor, ◌>>=◌}
use agent_reliability_runtim.Json.{ℤ, Fields}
use agent_reliability_runtim.Domain.States.{EvaluationStatus}
use agent_reliability_runtim.Store.{
  Uuid, Time, RunAttempt, Outcome, RunEvent, RunFact, Evaluation, Db,
}
use agent_reliability_runtim.Runs.{get_run_for_client}

-- A table of rows that belong to runs.
pub record History (A : Type 0) : Type 0 where
  pub id_of : A → Uuid
  pub run_of : A → Uuid
  pub time_of : A → Time

module _ {A : Type 0} (h : History A) where
  -- `tuple_(time, id) > (anchor.time, anchor.id)`, for `b` after `a`
  unfoldable pub precedes : A → A → Bool
  precedes a b =
      ltb (h.time_of a) (h.time_of b) || (h.time_of a == h.time_of b && ltb (h.id_of a) (h.id_of b))

  insert_row : A → List A → List A
  unfolding precedes
  insert_row r [] = r ∷ []
  insert_row r (x ∷ xs) = if precedes r x then r ∷ x ∷ xs else x ∷ insert_row r xs

  -- `ORDER BY time, id`
  unfoldable pub order_rows : List A → List A
  unfolding insert_row
  order_rows [] = []
  order_rows (x ∷ xs) = insert_row x (order_rows xs)

  unfoldable pub is_of_run : Uuid → A → Bool
  is_of_run run_id r = h.run_of r == run_id

  unfoldable pub page_size : ℕ → ℕ
  page_size limit = max 1 (min limit 100)

  unfoldable pub page_from : Uuid → ℕ → (A → Bool) → List A → List A
  page_from run_id limit test rows =
      take (page_size limit) (order_rows (where_rows test (where_rows (is_of_run run_id) rows)))

  unfoldable pub page : Uuid → ℕ → Option Uuid → List A → Result (List A)
  page run_id limit none rows = ok (page_from run_id limit (λ _. true) rows)
  page run_id limit (some cursor) rows =
      elim (first_row (λ (r : A). h.id_of r == cursor && is_of_run run_id r) rows) [
        | none ↦ raise invalid_cursor
        | some anchor ↦ ok (page_from run_id limit (precedes anchor) rows)
      ]

abbrev pub attempt_history : History RunAttempt
attempt_history = record { id_of = λ a. a.id; run_of = λ a. a.run_id; time_of = λ a. a.started_at }

abbrev pub event_history : History RunEvent
event_history = record { id_of = λ e. e.id; run_of = λ e. e.run_id; time_of = λ e. e.created_at }

abbrev pub evaluation_history : History Evaluation
evaluation_history = record {
  id_of = λ e. e.id;
  run_of = λ e. e.run_id;
  time_of = λ e. e.created_at;
}

pub record AttemptSnapshot : Type 0 where
  pub id : Uuid
  pub attempt_number : ℕ
  pub provider : String
  pub started_at : Time
  pub finished_at : Option Time
  pub outcome : Option Outcome
  pub error_code : Option String
  pub retryable : Option Bool
  pub latency_ms : Option ℤ

unfoldable pub to_attempt_snapshot : RunAttempt → AttemptSnapshot
to_attempt_snapshot a = record {
  id = a.id;
  attempt_number = a.attempt_number;
  provider = a.provider;
  started_at = a.started_at;
  finished_at = a.finished_at;
  outcome = a.outcome;
  error_code = a.error_code;
  retryable = a.retryable;
  latency_ms = a.latency_ms;
}

pub record EventSnapshot : Type 0 where
  pub id : Uuid
  pub attempt_id : Option Uuid
  pub fact : RunFact
  pub created_at : Time

unfoldable pub to_event_snapshot : RunEvent → EventSnapshot
to_event_snapshot e = record {
  id = e.id;
  attempt_id = e.attempt_id;
  fact = e.fact;
  created_at = e.created_at;
}

-- Without the score, a column that no code sets.
pub record EvaluationSnapshot : Type 0 where
  pub id : Uuid
  pub evaluator : String
  pub status : EvaluationStatus
  pub result : Option Fields
  pub details : Option Fields
  pub created_at : Time
  pub completed_at : Option Time

unfoldable pub to_evaluation_snapshot : Evaluation → EvaluationSnapshot
to_evaluation_snapshot e = record {
  id = e.id;
  evaluator = e.evaluator;
  status = e.status;
  result = e.result;
  details = e.details;
  created_at = e.created_at;
  completed_at = e.completed_at;
}

unfoldable pub get_attempts : String → Uuid → ℕ → Option Uuid → Db → Result (List AttemptSnapshot)
get_attempts client_id run_id limit cursor db = do
  _ ← get_run_for_client client_id run_id db
  rows ← page attempt_history run_id limit cursor db.attempts
  ok (map to_attempt_snapshot rows)

unfoldable pub get_events : String → Uuid → ℕ → Option Uuid → Db → Result (List EventSnapshot)
get_events client_id run_id limit cursor db = do
  _ ← get_run_for_client client_id run_id db
  rows ← page event_history run_id limit cursor db.events
  ok (map to_event_snapshot rows)

unfoldable pub get_evaluations :
    String → Uuid → ℕ → Option Uuid → Db → Result (List EvaluationSnapshot)
get_evaluations client_id run_id limit cursor db = do
  _ ← get_run_for_client client_id run_id db
  rows ← page evaluation_history run_id limit cursor db.evaluations
  ok (map to_evaluation_snapshot rows)
