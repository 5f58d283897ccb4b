-- ===== src/Evaluation/Regression/Reports.antt =====
-- What a regression report says (`run` of src/agent_runtime/evaluation/regression.py).
use agent_reliability_runtim.Prelude.{◌+◌, ◌-◌, ◌*◌, ◌≤◌, String, ◌≡◌, Bool, true, false, ◌⊎◌}
use agent_reliability_runtim.Prelude.Result.{Result, ok, raise, quota_exceeded}
use agent_reliability_runtim.Json.{Json, Fields}
use agent_reliability_runtim.Domain.Retry.{ProviderException}
use agent_reliability_runtim.Evaluation.Engine.Kinds.{Pointwise}
use agent_reliability_runtim.Evaluation.Dataset.{RegressionCase, RegressionDataset, RegressionGates}
use agent_reliability_runtim.Evaluation.Regression.Summaries.{Timed, CaseResult, Report}
use agent_reliability_runtim.Evaluation.Regression.Runner.{any_error}
use agent_reliability_runtim.Evaluation.Regression.Entries.{IsCounted}

-- What a report tells of a run of `dataset` against two targets.
pub record IsReport (dataset : RegressionDataset) (gates : RegressionGates) (report : Report)
    : Type 0 where
  pub baseline_cases :
      Pointwise
        (λ (case : RegressionCase) (r : CaseResult). case.case_id ≡ r.case_id)
        dataset.cases
        report.baseline.cases
  pub candidate_cases :
      Pointwise
        (λ (case : RegressionCase) (r : CaseResult). case.case_id ≡ r.case_id)
        dataset.cases
        report.candidate.cases
  pub baseline_counted : IsCounted report.baseline
  pub candidate_counted : IsCounted report.candidate
  pub no_errors :
      report.passed ≡ true
      → (any_error report.baseline.cases ≡ false) × (any_error report.candidate.cases ≡ false)
  pub quality :
      report.passed ≡ true
      → (report.baseline.summary.pass_rate - report.candidate.summary.pass_rate) * 100
        ≤ gates.max_quality_regression_points + 500
  pub improved :
      any_error report.baseline.cases ≡ false
      → any_error report.candidate.cases ≡ false
      → report.baseline.summary.pass_rate ≤ report.candidate.summary.pass_rate
      → report.candidate.summary.average_latency_ms ≤ report.baseline.summary.average_latency_ms
      → report.candidate.summary.estimated_cost_microusd
        ≤ report.baseline.summary.estimated_cost_microusd
      → report.passed ≡ true

module _ {S : Type 0} (check_schema : Json → Bool) (validates : Fields → Json → Bool)
    (exception_name : ProviderException → String)
    (executor : S → String → Fields → Fields → Timed × S) where
  -- A call that returns, or whose one error is `QuotaExceededError`.
  abbrev ReturnsOrQuota {ℓ} : {A : Type ℓ} → Result A → Type ℓ
  ReturnsOrQuota {A} m = ((a : A) × (m ≡ ok a)) ⊎ (m ≡ raise quota_exceeded)
