-- ===== src/Evaluation/Engine/Outcomes.antt =====
-- What `evaluate_rules` of src/agent_runtime/evaluation/engine.py can come to, after `validate_rules`.
use agent_reliability_runtim.Prelude.{
  ◌≡◌, refl, ◌↔◌, All, ◌⊎◌, inl, inr, Bool, true, false, Option, none, some, List, [], ◌∷◌,
  Bool-cases,
}
use agent_reliability_runtim.Prelude.Result.{
  Result, ok, raise, value_error, evaluation_configuration, ◌>>=◌,
}
use agent_reliability_runtim.Json.{
  ℤ, Json, null, boolean, int, float, str, arr, obj, Fields, get, get_or,
}
use agent_reliability_runtim.Evaluation.Safety.{
  is_one_of, only, rule_fields, is_valid_path, validate_typed, validate_rule, validate_rules,
}
use agent_reliability_runtim.Evaluation.Safety.Traversal.{is_bounded, bounded_value-eq-is_bounded}
use agent_reliability_runtim.Evaluation.Safety.Rules.{
  validate_rules_cases, AllAccepted, validate_rules-AllAccepted,
}
use agent_reliability_runtim.Evaluation.Engine.{
  RuleResult, EvaluationOutcome, evaluate_typed, evaluate_rule, evaluate_each, all_passed,
  evaluate_rules,
}
use agent_reliability_runtim.Evaluation.Engine.Paths.{ReturnsOr}
use agent_reliability_runtim.Evaluation.Engine.Kinds.{
  Pointwise, evaluate_kind_cases, kinds, passes_tests, path_text,
}

-- What an outcome says of the rules: a result for each in their order, by `_evaluate_rule`, and the
-- verdict that all of them passed.
pub record IsJudgement (evaluate : Fields → Result RuleResult) (rules : List Fields)
    (outcome : EvaluationOutcome) : Type 0 where
  pub each : Pointwise (λ rule r. evaluate rule ≡ ok r) rules outcome.rule_results
  pub verdict :
      (outcome.passed ≡ true) ↔ All (λ (r : RuleResult). r.passed ≡ true) outcome.rule_results

all_passed_iff :
    (rs : List RuleResult) → (all_passed rs ≡ true) ↔ All (λ (r : RuleResult). r.passed ≡ true) rs
unfolding all_passed
all_passed_iff [] = (λ _. tt, λ _. refl)
all_passed_iff (r ∷ rs) =
    let rest = all_passed_iff rs in
    elim (Bool-cases r.passed) [
      | inl e ↦ rw e (λ h. (refl, rest.0 h), λ h. rest.1 h.1)
      | inr e ↦ rw e (λ h. cc, λ h. cc)
    ]

module _ (check_schema : Json → Bool) (validates : Fields → Json → Bool) where
  typed_cases :
      (payload : Json) (latency_ms : Option ℤ) (rule : Fields) (kind : Option Json)
      → validate_typed check_schema rule kind ≡ ok tt
      → ReturnsOr value_error (
          evaluate_typed check_schema validates payload latency_ms rule kind
            (get_or "path" (str "") rule))
  unfolding validate_typed evaluate_typed
  typed_cases payload latency_ms rule none h = cc
  typed_cases payload latency_ms rule (some null) h = cc
  typed_cases payload latency_ms rule (some (boolean b)) h = cc
  typed_cases payload latency_ms rule (some (int n)) h = cc
  typed_cases payload latency_ms rule (some (float x)) h = cc
  typed_cases payload latency_ms rule (some (arr xs)) h = cc
  typed_cases payload latency_ms rule (some (obj d)) h = cc
  typed_cases payload latency_ms rule (some (str kind)) h =
      let (known, _, valid, rest) =
        passes_tests (is_one_of kind kinds) (only (rule_fields kind) rule)
          (is_valid_path (get_or "path" (str "") rule)) _ h in
      let (path, e) = path_text check_schema validates (get_or "path" (str "") rule) valid in
      rw (e, evaluate_typed)
        (evaluate_kind_cases check_schema validates path rule payload latency_ms kind known rest)

  evaluate_rule_cases :
      (payload : Json) (latency_ms : Option ℤ) (rule : Fields)
      → validate_rule check_schema rule ≡ ok tt
      → ReturnsOr value_error (evaluate_rule check_schema validates payload latency_ms rule)
  unfolding evaluate_rule validate_rule
  evaluate_rule_cases payload latency_ms rule valid =
      typed_cases payload latency_ms rule (get "type" rule) valid

  evaluate_each_cases :
      (payload : Json) (latency_ms : Option ℤ) (rules : List Fields)
      → AllAccepted check_schema rules
      → ((rs : List RuleResult) × (evaluate_each check_schema validates payload latency_ms rules
            ≡ ok rs)
          × Pointwise
              (λ rule r. evaluate_rule check_schema validates payload latency_ms rule ≡ ok r)
              rules
              rs)
        ⊎ (evaluate_each check_schema validates payload latency_ms rules ≡ raise value_error)
  unfolding evaluate_each
  evaluate_each_cases payload latency_ms [] h = inl ([], refl, tt)
  evaluate_each_cases payload latency_ms (rule ∷ rules) (first, rest) =
      elim (evaluate_rule_cases payload latency_ms rule first) [
        | inr e ↦ inr (rw (e, ◌>>=◌) refl)
        | inl (r, e) ↦ elim (evaluate_each_cases payload latency_ms rules rest) [
          | inr e' ↦ inr (rw (e, ◌>>=◌, e') refl)
          | inl (rs, e', all) ↦ inl (r ∷ rs, rw (e, ◌>>=◌, e') refl, (e, all))
        ]
      ]

  -- evaluate_rules raises EvaluationConfigurationError exactly where its rules are invalid or the
  -- payload is out of bounds; otherwise it raises ValueError or gives an outcome with the result
  -- of each rule in order, and with the verdict True exactly when all of them passed.
  pub evaluate_rules_cases :
      (rules : List Fields) (result_payload : Fields) (latency_ms : Option ℤ)
      → ((evaluate_rules check_schema validates rules result_payload latency_ms
            ≡ raise evaluation_configuration)
          × ((validate_rules check_schema rules ≡ raise evaluation_configuration)
              ⊎ (is_bounded 10_000 16 (obj result_payload) ≡ false)))
        ⊎ ((validate_rules check_schema rules ≡ ok tt)
            × (is_bounded 10_000 16 (obj result_payload) ≡ true)
            × ((evaluate_rules check_schema validates rules result_payload latency_ms
                  ≡ raise value_error)
                ⊎ ((outcome : EvaluationOutcome) × (evaluate_rules check_schema validates rules
                        result_payload latency_ms
                      ≡ ok outcome)
                    × IsJudgement
                        (evaluate_rule check_schema validates (obj result_payload) latency_ms)
                        rules
                        outcome)))
  unfolding evaluate_rules
  evaluate_rules_cases rules result_payload latency_ms =
      let bounded = bounded_value-eq-is_bounded 10_000 16 (obj result_payload) in
      elim (validate_rules_cases check_schema rules) [
        | inr refused ↦ inl (rw (refused, ◌>>=◌) refl, inl refused)
        | inl accepted ↦ elim (Bool-cases (is_bounded 10_000 16 (obj result_payload))) [
          | inr over ↦ inl (rw (accepted, ◌>>=◌, bounded, over) refl, inr over)
          | inl fits ↦ inr (
            accepted,
            fits,
            elim (evaluate_each_cases (obj result_payload) latency_ms rules
                (validate_rules-AllAccepted check_schema rules accepted)) [
                  | inr e ↦ inl (rw (accepted, ◌>>=◌, bounded, fits, e) refl)
                  | inl (rs, e, each) ↦ inr (
                    record { passed = all_passed rs; rule_results = rs },
                    rw (accepted, ◌>>=◌, bounded, fits, e) refl,
                    record { each = each; verdict = all_passed_iff rs },
                  )
                ],
          )
        ]
      ]
