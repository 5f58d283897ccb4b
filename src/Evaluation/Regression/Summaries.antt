-- ===== src/Evaluation/Regression/Summaries.antt =====
-- The results of src/agent_runtime/evaluation/regression.py, their summaries and their comparison. A rate
-- and a percentage are decimals, rounded half to even, where the code has binary fractions; a rate
-- counts millionths, a mean latency and a percentage thousandths.
use agent_reliability_runtim.Prelude.{
  ℕ, zero, suc, ◌+◌, ◌-◌, ◌*◌, ◌/◌, ◌%◌, String, Bool, true, false, not, ◌&&◌, Option, none, some,
  List, [], ◌∷◌, ltb, leb, ◌==◌, length, count, if◌then◌else◌,
}
use agent_reliability_runtim.Json.{ℤ, pos, negsuc}
use agent_reliability_runtim.Messaging.Worker.{Execution}
use agent_reliability_runtim.Evaluation.Engine.{RuleResult}
use agent_reliability_runtim.Evaluation.Dataset.{ProviderModelTarget, RegressionGates}

-- What a call came to, with the time that had passed when it returned and when an error was caught.
pub record Timed : Type 0 where
  pub execution : Execution
  pub latency_ms : ℕ
  pub latency_on_error : ℕ

-- An entry of `case_results`, with its `rules` or its `error_type`.
pub record CaseResult : Type 0 where
  pub case_id : String
  pub passed : Bool
  pub latency_ms : ℕ
  pub estimated_cost_microusd : ℕ
  pub rules : Option (List RuleResult)
  pub error_type : Option String

pub record Summary : Type 0 where
  pub passed_cases : ℕ
  pub failed_cases : ℕ
  pub pass_rate : ℕ
  pub average_latency_ms : ℕ
  pub estimated_cost_microusd : ℕ

pub record TargetResult : Type 0 where
  pub target : ProviderModelTarget
  pub cases : List CaseResult
  pub summary : Summary

pub record MetricComparison : Type 0 where
  pub baseline : ℕ
  pub candidate : ℕ
  pub absolute_delta : ℤ
  pub percent_delta : Option ℤ
  pub max_regression_percent : Option ℕ
  pub regressed : Bool

pub record QualityComparison : Type 0 where
  pub baseline_pass_rate : ℕ
  pub candidate_pass_rate : ℕ
  pub delta_points : ℤ
  pub max_regression_points : ℕ
  pub regressed : Bool

pub record Comparison : Type 0 where
  pub quality : QualityComparison
  pub latency : MetricComparison
  pub cost : MetricComparison
  pub passed : Bool

pub record Report : Type 0 where
  pub dataset_id : String
  pub version : String
  pub case_count : ℕ
  pub baseline : TargetResult
  pub candidate : TargetResult
  pub comparison : Comparison
  pub passed : Bool

-- `a / b` to the nearest whole, and halves to the even one.
unfoldable pub round_div : ℕ → ℕ → ℕ
round_div a b =
    let rest = a % b * 2 in
    if ltb rest b then a / b else if ltb b rest then a / b + 1 else a / b + a / b % 2

-- `-(n)` and `n` as integers, by a sign.
unfoldable pub signed : Bool → ℕ → ℤ
signed true n = pos n
signed false zero = pos 0
signed false (suc n) = negsuc n

-- `round((candidate - baseline) * up / down)`
unfoldable pub delta : ℕ → ℕ → ℕ → ℕ → ℤ
delta up down baseline candidate =
    if leb baseline candidate
    then signed true (round_div ((candidate - baseline) * up) down)
    else signed false (round_div ((baseline - candidate) * up) down)

unfoldable pub exceeds : ℤ → ℕ → Bool
exceeds (pos n) allowed = ltb allowed (n * 1000)
exceeds (negsuc n) allowed = false

-- `value < -allowed`
unfoldable pub falls_below : ℤ → ℕ → Bool
falls_below (pos n) allowed = false
falls_below (negsuc n) allowed = ltb allowed (suc n * 1000)

unfoldable pub percent_delta : ℕ → ℕ → Option ℤ
percent_delta baseline candidate =
    if baseline == 0
    then (if candidate == 0 then some (pos 0) else none)
    else some (delta 100_000 baseline baseline candidate)

unfoldable pub has_regressed : ℕ → ℕ → Option ℤ → Option ℕ → Bool
has_regressed baseline candidate percent none = false
has_regressed baseline candidate none (some allowed) = ltb baseline candidate
has_regressed baseline candidate (some percent) (some allowed) = exceeds percent allowed

-- `_metric_comparison`
unfoldable pub metric_comparison : ℕ → ℕ → Option ℕ → MetricComparison
metric_comparison baseline candidate allowed_percent =
    let percent = percent_delta baseline candidate in
    record {
      baseline = baseline;
      candidate = candidate;
      absolute_delta = delta 1 1 baseline candidate;
      percent_delta = percent;
      max_regression_percent = allowed_percent;
      regressed = has_regressed baseline candidate percent allowed_percent;
    }

unfoldable pub quality_comparison : ℕ → ℕ → ℕ → QualityComparison
quality_comparison baseline candidate allowed =
    let points = delta 1 10 baseline candidate in
    record {
      baseline_pass_rate = baseline;
      candidate_pass_rate = candidate;
      delta_points = points;
      max_regression_points = allowed;
      regressed = falls_below points allowed;
    }

-- `_comparison`
unfoldable pub compare_summaries : Summary → Summary → RegressionGates → Comparison
compare_summaries baseline candidate gates =
    let quality =
      quality_comparison baseline.pass_rate candidate.pass_rate
        gates.max_quality_regression_points in
    let latency =
      metric_comparison baseline.average_latency_ms candidate.average_latency_ms
        gates.max_latency_regression_percent in
    let cost =
      metric_comparison baseline.estimated_cost_microusd candidate.estimated_cost_microusd
        gates.max_cost_regression_percent in
    record {
      quality = quality;
      latency = latency;
      cost = cost;
      passed = not quality.regressed && not latency.regressed && not cost.regressed;
    }

unfoldable pub total : (CaseResult → ℕ) → List CaseResult → ℕ
total f [] = 0
total f (c ∷ cs) = f c + total f cs

unfoldable pub summary_of : List CaseResult → Summary
summary_of cases =
    let passed_count = count (λ (c : CaseResult). c.passed) cases in
    record {
      passed_cases = passed_count;
      failed_cases = length cases - passed_count;
      pass_rate = round_div (passed_count * 1_000_000) (length cases);
      average_latency_ms =
          round_div (total (λ (c : CaseResult). c.latency_ms) cases * 1000) (length cases);
      estimated_cost_microusd = total (λ (c : CaseResult). c.estimated_cost_microusd) cases;
    }
