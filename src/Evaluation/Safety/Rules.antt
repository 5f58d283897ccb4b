-- ===== src/Evaluation/Safety/Rules.antt =====
-- `validate_rules` of src/agent_runtime/evaluation/safety.py accepts, or raises
-- `EvaluationConfigurationError`: nothing else comes of it.
use agent_reliability_runtim.Prelude.{
  ℕ, zero, suc, String, ◌≡◌, refl, ◌⊎◌, inl, inr, Bool, true, false, ◌&&◌, Option, none, some, List,
  [], ◌∷◌, leb, ltb, length, str_eq, if◌then◌else◌, Bool-cases,
}
use agent_reliability_runtim.Prelude.Result.{
  Result, ok, raise, evaluation_configuration, ◌>>=◌, ◌>>◌, >>=-eq-ok,
}
use agent_reliability_runtim.Json.{
  Json, null, boolean, int, float, str, arr, obj, Fields, get, get_or,
}
use agent_reliability_runtim.Evaluation.Safety.{
  Pending, visit_properties, visit_schema, validate_typed, bounded_value, traverse_schema,
  validate_schema, validate_kind, validate_rule, validate_each, validate_rules, as_items,
  is_operator, is_budget,
}
use agent_reliability_runtim.Evaluation.Safety.Traversal.{bounded_value_cases}

abbrev pub AcceptsOr : Result (Unit {0}) → Type 0
AcceptsOr m = (m ≡ ok tt) ⊎ (m ≡ raise evaluation_configuration)

abbrev Settled {ℓ} : {A : Type ℓ} → Result A → Type ℓ
Settled {A} m = ((a : A) × (m ≡ ok a)) ⊎ (m ≡ raise evaluation_configuration)

test_cases : (b : Bool) → AcceptsOr (if b then ok tt else raise evaluation_configuration)
test_cases true = inl refl
test_cases false = inr refl

refuse_cases {ℓ} :
    {A : Type ℓ} (b : Bool) (a : A) → Settled (if b then raise evaluation_configuration else ok a)
refuse_cases true a = inr refl
refuse_cases false a = inl (a, refl)

visit_properties_cases :
    (node : Fields) (depth : ℕ) (pending : Pending) (properties : Json)
    → Settled (visit_properties node depth pending properties)
unfolding visit_properties
visit_properties_cases node depth pending (obj d) = refuse_cases _ _
visit_properties_cases node depth pending null = inr refl
visit_properties_cases node depth pending (boolean b) = inr refl
visit_properties_cases node depth pending (int n) = inr refl
visit_properties_cases node depth pending (float x) = inr refl
visit_properties_cases node depth pending (str s) = inr refl
visit_properties_cases node depth pending (arr xs) = inr refl

visit_schema_cases :
    (node : Json) (depth : ℕ) (pending : Pending) → Settled (visit_schema node depth pending)
unfolding visit_schema
visit_schema_cases null depth pending = inr refl
visit_schema_cases (boolean b) depth pending = inr refl
visit_schema_cases (int n) depth pending = inr refl
visit_schema_cases (float x) depth pending = inr refl
visit_schema_cases (str s) depth pending = inr refl
visit_schema_cases (arr xs) depth pending = inr refl
visit_schema_cases (obj node) depth pending = visit_properties_cases node depth pending _

traverse_schema_cases : (left : ℕ) (pending : Pending) → AcceptsOr (traverse_schema left pending)
unfolding traverse_schema
traverse_schema_cases left [] = inl refl
traverse_schema_cases zero (next ∷ pending) = inr refl
traverse_schema_cases (suc left) ((node, depth) ∷ pending) = elim (Bool-cases (ltb 6 depth)) [
  | inl deep ↦ inr (rw deep refl)
  | inr low ↦ elim (visit_schema_cases node depth pending) [
    | inr e ↦ inr (rw (low, e, ◌>>=◌) refl)
    | inl (found, e) ↦ rw (low, e, ◌>>=◌) (traverse_schema_cases left found)
  ]
]

-- A call, and then another.
then_cases : (m k : Result (Unit {0})) → AcceptsOr m → AcceptsOr k → AcceptsOr (m >> k)
then_cases m k (inl e) rest = rw e rest
then_cases m k (inr e) rest = inr (rw e refl)

-- A test that refuses, and then a call.
unless_cases :
    (b : Bool) (k : Result (Unit {0}))
    → AcceptsOr k
    → AcceptsOr (if b then raise evaluation_configuration else k)
unless_cases true k rest = inr refl
unless_cases false k rest = rest

choose_cases :
    (b : Bool) (m k : Result (Unit {0}))
    → AcceptsOr m
    → AcceptsOr k
    → AcceptsOr (if b then m else k)
choose_cases true m k first rest = first
choose_cases false m k first rest = rest

module _ (check_schema : Json → Bool) where
  validate_schema_cases : (schema : Json) → AcceptsOr (validate_schema check_schema schema)
  unfolding validate_schema
  validate_schema_cases schema =
      then_cases _ _ (traverse_schema_cases 128 ((schema, 0) ∷ []))
        (test_cases (check_schema schema))

  validate_kind_cases :
      (kind : String) (rule : Fields) → AcceptsOr (validate_kind check_schema kind rule)
  unfolding validate_kind
  validate_kind_cases kind rule =
      choose_cases (str_eq kind "json_schema") _ _
        (validate_schema_cases (get_or "schema" null rule))
        (choose_cases (str_eq kind "rule") _ _ (test_cases (is_operator (get "operator" rule))) (
          choose_cases (str_eq kind "latency_budget") _ _
            (test_cases (is_budget (get "max_ms" rule))) (inl refl)))

  validate_typed_cases :
      (rule : Fields) (kind : Option Json) → AcceptsOr (validate_typed check_schema rule kind)
  unfolding validate_typed
  validate_typed_cases rule (some (str kind)) = unless_cases _ _ (validate_kind_cases kind rule)
  validate_typed_cases rule none = inr refl
  validate_typed_cases rule (some null) = inr refl
  validate_typed_cases rule (some (boolean b)) = inr refl
  validate_typed_cases rule (some (int n)) = inr refl
  validate_typed_cases rule (some (float x)) = inr refl
  validate_typed_cases rule (some (arr xs)) = inr refl
  validate_typed_cases rule (some (obj d)) = inr refl

  validate_each_cases : (rules : List Fields) → AcceptsOr (validate_each check_schema rules)
  unfolding validate_each validate_rule
  validate_each_cases [] = inl refl
  validate_each_cases (rule ∷ rules) =
      then_cases _ _ (validate_typed_cases rule (get "type" rule)) (validate_each_cases rules)

  pub validate_rules_cases : (rules : List Fields) → AcceptsOr (validate_rules check_schema rules)
  unfolding validate_rules
  validate_rules_cases rules =
      then_cases _ _ (bounded_value_cases 2048 16 (arr (as_items rules)))
        (choose_cases _ _ _ (validate_each_cases rules) (inr refl))

  -- What an accepted list of rules gives for each of them.
  abbrev pub AllAccepted : List Fields → Type 0
  AllAccepted [] = Unit
  AllAccepted (rule ∷ rules) = (validate_rule check_schema rule ≡ ok tt) × AllAccepted rules

  validate_each-AllAccepted :
      (rules : List Fields) → validate_each check_schema rules ≡ ok tt → AllAccepted rules
  unfolding validate_each
  validate_each-AllAccepted [] h = tt
  validate_each-AllAccepted (rule ∷ rules) h =
      let (_, first, rest) = >>=-eq-ok (validate_rule check_schema rule) _ h in
      (first, validate_each-AllAccepted rules rest)

  pub validate_rules-AllAccepted :
      (rules : List Fields) → validate_rules check_schema rules ≡ ok tt → AllAccepted rules
  unfolding validate_rules
  validate_rules-AllAccepted rules h =
      let (_, _, rest) = >>=-eq-ok (bounded_value 2048 16 (arr (as_items rules))) _ h in
      validate_each-AllAccepted rules
        (ground_branch (leb 1 (length rules) && leb (length rules) 16) _ rest)
    where
      ground_branch :
          (b : Bool) (m : Result (Unit {0}))
          → (if b then m else raise evaluation_configuration) ≡ ok tt
          → m ≡ ok tt
      ground_branch true m e = e
      ground_branch false m e = cc
