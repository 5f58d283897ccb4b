-- ===== src/Evaluation/Regression/Payload.antt =====
-- The dictionaries of a report, as src/agent_runtime/evaluation/regression.py builds them. A JSON float
-- counts millionths.
use agent_reliability_runtim.Prelude.{ℕ, suc, ◌*◌, ◌-◌, Option, none, some, List, [], ◌∷◌}
use agent_reliability_runtim.Json.{
  ℤ, pos, negsuc, Json, null, boolean, int, float, finite, str, arr, obj, Items, nil, cons, Fields,
  end, field,
}
use agent_reliability_runtim.Evaluation.Engine.{result_items}
use agent_reliability_runtim.Evaluation.Dataset.{ProviderModelTarget}
use agent_reliability_runtim.Evaluation.Regression.Summaries.{
  CaseResult, Summary, TargetResult, MetricComparison, QualityComparison, Comparison, Report,
}

unfoldable pub number : ℕ → Json
number n = int (pos n)

unfoldable pub decimal_number : ℕ → Json
decimal_number n = float (finite (pos n))

unfoldable pub optional_decimal : Option ℕ → Json
unfolding decimal_number
optional_decimal none = null
optional_decimal (some n) = decimal_number n

-- Thousandths as millionths.
unfoldable pub from_thousandths : ℤ → ℤ
from_thousandths (pos n) = pos (n * 1000)
from_thousandths (negsuc n) = negsuc (suc n * 1000 - 1)

unfoldable pub thousandths : ℤ → Json
unfolding from_thousandths
thousandths n = float (finite (from_thousandths n))

unfoldable pub optional_thousandths : Option ℤ → Json
unfolding thousandths
optional_thousandths none = null
optional_thousandths (some n) = thousandths n

-- `as_dict`
unfoldable pub target_fields : ProviderModelTarget → Fields
unfolding number
target_fields t = field "provider" (str t.provider) (
    field "model" (elim t.model [ none ↦ null | some m ↦ str m ])
      (field "estimated_cost_microusd" (number t.estimated_cost_microusd) end))

unfoldable pub ending_fields : CaseResult → Fields
ending_fields c = elim c.error_type [
  | some name ↦ field "error_type" (str name) end
  | none ↦ elim c.rules [ none ↦ end | some rules ↦ field "rules" (arr (result_items rules)) end ]
]

unfoldable pub case_fields : CaseResult → Fields
unfolding number ending_fields
case_fields c = field "case_id" (str c.case_id) (
    field "passed" (boolean c.passed) (
      field "latency_ms" (number c.latency_ms)
        (field "estimated_cost_microusd" (number c.estimated_cost_microusd) (ending_fields c))))

unfoldable pub case_items : List CaseResult → Items
unfolding case_fields
case_items [] = nil
case_items (c ∷ cs) = cons (obj (case_fields c)) (case_items cs)

unfoldable pub summary_fields : Summary → Fields
unfolding number decimal_number
summary_fields s = field "passed_cases" (number s.passed_cases) (
    field "failed_cases" (number s.failed_cases) (
      field "pass_rate" (decimal_number s.pass_rate) (
        field "average_latency_ms" (decimal_number (s.average_latency_ms * 1000))
          (field "estimated_cost_microusd" (number s.estimated_cost_microusd) end))))

unfoldable pub target_result_fields : TargetResult → Fields
unfolding target_fields case_items summary_fields
target_result_fields t = field "target" (obj (target_fields t.target)) (
    field "cases" (arr (case_items t.cases)) (field "summary" (obj (summary_fields t.summary)) end))

unfoldable pub quality_fields : QualityComparison → Fields
unfolding decimal_number thousandths
quality_fields q = field "baseline_pass_rate" (decimal_number q.baseline_pass_rate) (
    field "candidate_pass_rate" (decimal_number q.candidate_pass_rate) (
      field "delta_points" (thousandths q.delta_points) (
        field "max_regression_points" (decimal_number q.max_regression_points)
          (field "regressed" (boolean q.regressed) end))))

-- The first two values and their difference, by the encodings of the metric.
unfoldable pub metric_fields : (ℕ → Json) → (ℤ → Json) → MetricComparison → Fields
unfolding optional_thousandths optional_decimal
metric_fields value difference m = field "baseline" (value m.baseline) (
    field "candidate" (value m.candidate) (
      field "absolute_delta" (difference m.absolute_delta) (
        field "percent_delta" (optional_thousandths m.percent_delta) (
          field "max_regression_percent" (optional_decimal m.max_regression_percent)
            (field "regressed" (boolean m.regressed) end)))))

unfoldable pub comparison_fields : Comparison → Fields
unfolding quality_fields metric_fields decimal_number number thousandths
comparison_fields c = field "quality" (obj (quality_fields c.quality)) (
    field "latency" (obj (metric_fields (λ n. decimal_number (n * 1000)) thousandths c.latency)) (
      field "cost" (obj (metric_fields number int c.cost)) (field "passed" (boolean c.passed) end)))

unfoldable pub report_fields : Report → Fields
unfolding number target_result_fields comparison_fields
report_fields r = field "schema_version" (str "evaluation-regression-report.v1") (
    field "dataset"
      (obj (
        field "dataset_id" (str r.dataset_id)
          (field "version" (str r.version) (field "case_count" (number r.case_count) end))))
      (field "baseline" (obj (target_result_fields r.baseline)) (
        field "candidate" (obj (target_result_fields r.candidate)) (
          field "comparison" (obj (comparison_fields r.comparison))
            (field "passed" (boolean r.passed) end)))))
