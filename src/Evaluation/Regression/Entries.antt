-- ===== src/Evaluation/Regression/Entries.antt =====
-- The entries of a report: one for each case, in order (src/agent_runtime/evaluation/regression.py).
use agent_reliability_runtim.Prelude.{
  ◌+◌, ◌≤◌, String, ◌≡◌, ◌≢◌, refl, Bool, some, List, [], ◌∷◌, length, count, arith, inl, inr,
}
use agent_reliability_runtim.Prelude.Result.{Result, ok, raise, >>=-eq-ok, Result-cases}
use agent_reliability_runtim.Json.{pos, Json, Fields}
use agent_reliability_runtim.Domain.Retry.{
  ProviderException, quota_exceeded_error, timeout_error, other_error,
}
use agent_reliability_runtim.Messaging.Worker.{Execution, returned, threw}
use agent_reliability_runtim.Evaluation.Engine.{EvaluationOutcome, evaluate_rules}
use agent_reliability_runtim.Evaluation.Engine.Kinds.{Pointwise}
use agent_reliability_runtim.Evaluation.Dataset.{
  RegressionCase, RegressionDataset, ProviderModelTarget,
}
use agent_reliability_runtim.Evaluation.Regression.Summaries.{
  Timed, CaseResult, TargetResult, summary_of,
}
use agent_reliability_runtim.Evaluation.Regression.Runner.{
  judge, judged_case, failed_case, case_result, target_policy, run_cases, target_result, run_target,
}

-- What the summary counts.
count-le-length : (cs : List CaseResult) → count (λ (c : CaseResult). c.passed) cs ≤ length cs
count-le-length [] = omega arith
count-le-length (c ∷ cs) = ground (arith, count-le-length cs)

pub record IsCounted (r : TargetResult) : Type 0 where
  pub counted : r.summary.passed_cases + r.summary.failed_cases ≡ length r.cases

summary_of-IsCounted :
    (target : ProviderModelTarget) (cases : List CaseResult)
    → IsCounted (record { target = target; cases = cases; summary = summary_of cases })
unfolding summary_of
summary_of-IsCounted target cases = record { counted = omega (arith, count-le-length cases) }

abbrev pub SameId : RegressionCase → CaseResult → Type 0
SameId case r = case.case_id ≡ r.case_id

target_result-made :
    (target : ProviderModelTarget) (rs : List CaseResult) (t : TargetResult)
    → target_result target rs ≡ ok t
    → record { target = target; cases = rs; summary = summary_of rs } ≡ t
unfolding target_result
target_result-made target [] t h = absurd (cc h)
target_result-made target (r ∷ rs) t h = cc h

pub target_result-ok :
    (target : ProviderModelTarget) (cases : List RegressionCase) (rs : List CaseResult)
    → cases ≢ []
    → Pointwise SameId cases rs
    → target_result target rs ≡ ok (record { target = target; cases = rs; summary = summary_of rs })
unfolding target_result
target_result-ok target [] rs some_cases same = absurd (some_cases refl)
target_result-ok target (case ∷ cases) [] some_cases same = absurd same
target_result-ok target (case ∷ cases) (r ∷ rs) some_cases same = refl

module _ {S : Type 0} (check_schema : Json → Bool) (validates : Fields → Json → Bool)
    (exception_name : ProviderException → String)
    (executor : S → String → Fields → Fields → Timed × S) where
  judge-id :
      (case : RegressionCase) (target : ProviderModelTarget) (timed : Timed)
      (outcome : Result EvaluationOutcome)
      → SameId case (judge case target timed outcome)
  unfolding judge judged_case failed_case
  judge-id case target timed (ok outcome) = refl
  judge-id case target timed (raise e) = refl

  case_result-id :
      (case : RegressionCase) (target : ProviderModelTarget) (timed : Timed) (execution : Execution)
      (r : CaseResult)
      → case_result check_schema validates exception_name case target timed execution ≡ ok r
      → SameId case r
  unfolding case_result failed_case
  case_result-id case target timed (threw quota_exceeded_error) r h = cc
  case_result-id case target timed (threw timeout_error) r h = ground arith
  case_result-id case target timed (threw (other_error status)) r h = ground arith
  case_result-id case target timed (returned result) r h =
      let same : judge case target timed (
            evaluate_rules check_schema validates case.rules result.result_payload
              (some (pos timed.latency_ms)))
          ≡ r =
        cc in
      rw (← same) (judge-id case target timed _)

  pub run_cases-ids :
      (s : S) (target : ProviderModelTarget) (cases : List RegressionCase) (rs : List CaseResult)
      → (run_cases check_schema validates exception_name executor s target cases).0 ≡ ok rs
      → Pointwise SameId cases rs
  unfolding run_cases
  run_cases-ids s target [] [] h = tt
  run_cases-ids s target [] (r ∷ rs) h = cc
  run_cases-ids s target (case ∷ cases) rs h =
      let called = executor s target.provider case.input_payload (target_policy target) in
      elim (Result-cases (
        case_result check_schema validates exception_name case target called.0
          called.0.execution)) [
            | inl (e, raised) ↦ absurd (let bad = rw (raised, run_cases) at h in cc bad)
            | inr (r, judged) ↦
                let (results, others, same) =
                  >>=-eq-ok
                    (run_cases check_schema validates exception_name executor called.1 target
                      cases).0
                    _ (rw (judged, run_cases) at h) in
                let e : (r ∷ results) ≡ rs = cc in
                rw (← e) (
                  case_result-id case target called.0 called.0.execution r judged,
                  run_cases-ids called.1 target cases results others,
                )
          ]

  pub record IsTargetResult (dataset : RegressionDataset) (t : TargetResult) : Type 0 where
    pub cases : Pointwise SameId dataset.cases t.cases
    pub counted : IsCounted t

  pub run_target-IsTargetResult :
      (s : S) (target : ProviderModelTarget) (dataset : RegressionDataset) (t : TargetResult)
      → (run_target check_schema validates exception_name executor s target dataset).0 ≡ ok t
      → IsTargetResult dataset t
  unfolding run_target
  run_target-IsTargetResult s target dataset t h =
      let (rs, ran, same) =
        >>=-eq-ok
          (run_cases check_schema validates exception_name executor s target dataset.cases).0 _ h in
      let e = target_result-made target rs t same in
      rw (← e) (record {
        cases = run_cases-ids s target dataset.cases rs ran;
        counted = summary_of-IsCounted target rs;
      })
