-- ===== src/System/Traces.antt =====
-- What any sequence of steps keeps of one run, and of the answer that a client has got.
use agent_reliability_runtim.Prelude.{◌≡◌, ap, ◌∙◌, true, ◌⊎◌, some}
use agent_reliability_runtim.Prelude.Result.{ok}
use agent_reliability_runtim.Domain.States.{
  EvaluationStatus, is_terminal_execution_status, ensure_execution_transition, queued,
  retry_scheduled,
}
use agent_reliability_runtim.Store.{Uuid, Run, Db}
use agent_reliability_runtim.Execution.Common.{find_run}
use agent_reliability_runtim.Execution.Frames.{with_evaluation}
use agent_reliability_runtim.System.{Deployment, Step, Reach, here, next}
use agent_reliability_runtim.System.Steps.{Step-Change}
use agent_reliability_runtim.System.Turns.{
  Follows, Follows-refl, Follows-of_Turn, Follows-trans, Turn-allowed,
}
use agent_reliability_runtim.System.Keys.{find_run-Change}

-- A committed transaction loses no run, and changes a status only along an edge of
-- ALLOWED_EXECUTION_TRANSITIONS or, for a claim without capacity, from QUEUED to RETRY_SCHEDULED.
pub Step-allowed :
    (d : Deployment) (db db' : Db) (id : Uuid) (r : Run)
    → Step d db db'
    → find_run id db ≡ some r
    → (r' : Run) × (find_run id db' ≡ some r')
      × ((r'.execution_status ≡ r.execution_status)
          ⊎ ((ensure_execution_transition r.execution_status r'.execution_status ≡ ok tt)
              ⊎ ((r.execution_status ≡ queued) × (r'.execution_status ≡ retry_scheduled))))
Step-allowed d db db' id r step h =
    let (r', found, turn) = find_run-Change d.config db db' id r (Step-Change d db db' step) h in
    (r', found, Turn-allowed r r' turn)

pub Reach-Follows :
    (d : Deployment) (db db' : Db) (id : Uuid) (r : Run)
    → Reach d db db'
    → find_run id db ≡ some r
    → (r' : Run) × (find_run id db' ≡ some r') × Follows r r'
Reach-Follows d db db' id r here h = (r, h, Follows-refl r)
Reach-Follows d db db' id r (next {mid} before step) h =
    let (r₁, found₁, f₁) = Reach-Follows d db mid id r before h in
    let (r₂, found₂, turn) =
      find_run-Change d.config mid db' id r₁ (Step-Change d mid db' step) found₁ in
    (r₂, found₂, Follows-trans r r₁ r₂ f₁ (Follows-of_Turn r₁ r₂ turn))

-- A run that has ended stays as it is through any committed transactions: status, result, error,
-- times and request do not change; only the summary of its evaluations may.
pub ended_run-final :
    (d : Deployment) (db db' : Db) (id : Uuid) (r : Run)
    → Reach d db db'
    → find_run id db ≡ some r
    → is_terminal_execution_status r.execution_status ≡ true
    → (s : EvaluationStatus) × (find_run id db' ≡ some (with_evaluation s r))
ended_run-final d db db' id r reach h ended =
    let (r', found, f) = Reach-Follows d db db' id r reach h in
    let (s, e) = f.final ended in (s, found ∙ ap some e)
