-- ===== src/Domain/States.antt =====
-- src/agent_runtime/domain/states.py: the lifecycle of a run and of an evaluation.
use agent_reliability_runtim.Prelude.{
  ◌≡◌, Bool, true, false, List, [], ◌∷◌, arith, ◌||◌, if◌then◌else◌,
}
use agent_reliability_runtim.Prelude.Result.{Result, ok, raise, value_error}

pub data ExecutionStatus : Type 0 where
  queued running retry_scheduled succeeded failed dead_lettered : ExecutionStatus

pub data EvaluationStatus : Type 0 where
  not_run pending passed failed error : EvaluationStatus

-- Equality of two enum members.
unfoldable pub same_status : ExecutionStatus → ExecutionStatus → Bool
same_status queued queued = true
same_status running running = true
same_status retry_scheduled retry_scheduled = true
same_status succeeded succeeded = true
same_status failed failed = true
same_status dead_lettered dead_lettered = true
same_status _ _ = false

pub same_status-eq : (a b : ExecutionStatus) → same_status a b ≡ true → a ≡ b
unfolding same_status
same_status-eq a b h = ground arith

pub same_status_refl : (a : ExecutionStatus) → same_status a a ≡ true
unfolding same_status
same_status_refl a = ground arith

-- `target in statuses`
unfoldable pub contains : List ExecutionStatus → ExecutionStatus → Bool
contains [] target = false
contains (s ∷ rest) target = same_status s target || contains rest target

abbrev pub terminal_execution_statuses : List ExecutionStatus
terminal_execution_statuses = succeeded ∷ failed ∷ dead_lettered ∷ []

unfoldable pub allowed_execution_transitions : ExecutionStatus → List ExecutionStatus
allowed_execution_transitions queued = running ∷ failed ∷ []
allowed_execution_transitions running = succeeded ∷ failed ∷ retry_scheduled ∷ dead_lettered ∷ []
allowed_execution_transitions retry_scheduled = queued ∷ failed ∷ dead_lettered ∷ []
allowed_execution_transitions succeeded = []
allowed_execution_transitions failed = []
allowed_execution_transitions dead_lettered = []

-- `InvalidExecutionTransition` is a `ValueError`.
unfoldable pub ensure_execution_transition : ExecutionStatus → ExecutionStatus → Result (Unit {0})
unfolding contains same_status allowed_execution_transitions
ensure_execution_transition current target =
    if contains (allowed_execution_transitions current) target then ok tt else raise value_error

unfoldable pub is_terminal_execution_status : ExecutionStatus → Bool
unfolding contains same_status
is_terminal_execution_status status = contains terminal_execution_statuses status

-- A status has no allowed successor exactly when it is terminal.
pub ensure_execution_transition-terminal :
    (s t : ExecutionStatus)
    → is_terminal_execution_status s ≡ true
    → ensure_execution_transition s t ≡ raise value_error
unfolding is_terminal_execution_status ensure_execution_transition
ensure_execution_transition-terminal s t h = ground arith
