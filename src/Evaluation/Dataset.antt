-- ===== src/Evaluation/Dataset.antt =====
-- The arguments of a regression job in src/agent_runtime/evaluation/regression.py: the dataset, the
-- targets and the gates. A number of a gate counts millionths.
pub mod Laws
use agent_reliability_runtim.Prelude.{
  ℕ, String, Bool, true, false, not, ◌&&◌, ◌||◌, Option, none, some, List, [], ◌∷◌, ◌++◌, ◌*◌,
  if◌then◌else◌,
}
use agent_reliability_runtim.Prelude.Result.{
  Result, ok, raise, value_error, type_error, ◌>>=◌, ◌>>◌,
}
use agent_reliability_runtim.Json.{
  ℤ, pos, negsuc, Json, null, boolean, int, float, str, arr, obj, Items, nil, cons, Fields, end,
  field, get, get_or, finite,
}
use agent_reliability_runtim.Domain.Retry.{is_blank}
use agent_reliability_runtim.Evaluation.Safety.{is_one_of, only}

pub record RegressionCase : Type 0 where
  pub case_id : String
  pub input_payload : Fields
  pub rules : List Fields

pub record RegressionDataset : Type 0 where
  pub dataset_id : String
  pub version : String
  pub cases : List RegressionCase

pub record ProviderModelTarget : Type 0 where
  pub provider : String
  pub model : Option String
  pub estimated_cost_microusd : ℕ

pub record RegressionGates : Type 0 where
  pub max_quality_regression_points : ℕ
  pub max_latency_regression_percent : Option ℕ
  pub max_cost_regression_percent : Option ℕ

-- A text that `strip` does not empty.
unfoldable pub named : Option Json → Result String
named (some (str s)) = if is_blank s then raise value_error else ok s
named _ = raise value_error

-- A list that is not empty.
unfoldable pub filled : Option Json → Result Items
filled (some (arr (cons x xs))) = ok (cons x xs)
filled _ = raise value_error

-- An object that is not empty.
unfoldable pub filled_object : Option Json → Result Fields
filled_object (some (obj (field k v d))) = ok (field k v d)
filled_object _ = raise value_error

-- The objects of a list, all of whose entries are objects.
unfoldable pub objects : Items → Result (List Fields)
objects nil = ok []
objects (cons (obj d) xs) = objects xs >>= λ ds. ok (d ∷ ds)
objects (cons _ xs) = raise value_error

-- One round of the loop of `from_mapping`.
unfoldable pub read_case : List String → Json → Result RegressionCase
read_case case_ids (obj raw) = do
  case_id ← named (get "case_id" raw)
  (if is_one_of case_id case_ids then raise value_error else ok tt)
  input_payload ← filled_object (get "input" raw)
  raw_rules ← filled (get "rules" raw)
  rules ← objects raw_rules
  ok (record { case_id = case_id; input_payload = input_payload; rules = rules })
read_case case_ids _ = raise value_error

unfoldable pub read_cases : List String → Items → Result (List RegressionCase)
read_cases case_ids nil = ok []
read_cases case_ids (cons raw raws) = do
  first ← read_case case_ids raw
  rest ← read_cases (first.case_id ∷ case_ids) raws
  ok (first ∷ rest)

-- `RegressionDataset.from_mapping`
unfoldable pub from_mapping : Fields → Result RegressionDataset
from_mapping value = do
  dataset_id ← named (get "dataset_id" value)
  version ← named (get "version" value)
  raw_cases ← filled (get "cases" value)
  cases ← read_cases [] raw_cases
  ok (record { dataset_id = dataset_id; version = version; cases = cases })

-- The arguments come from a payload that the API has stored, in which a cost is an int and a gate a
-- finite float, or null but for the first. Others that the classes would take, such as a bool or a
-- cost with a fraction, are refused here.
unfoldable pub text_argument : Option Json → Result String
text_argument (some (str s)) = ok s
text_argument _ = raise type_error

unfoldable pub optional_text : Option Json → Result (Option String)
optional_text none = ok none
optional_text (some null) = ok none
optional_text (some (str s)) = ok (some s)
optional_text (some _) = raise type_error

unfoldable pub cost_argument : Option Json → Result ℕ
cost_argument none = ok 0
cost_argument (some (int (pos n))) = ok n
cost_argument (some (int (negsuc n))) = raise value_error
cost_argument (some _) = raise type_error

-- A gate that is not negative, in millionths.
unfoldable pub gate_argument : Json → Result ℕ
gate_argument (int (pos n)) = ok (n * 1_000_000)
gate_argument (float (finite (pos n))) = ok n
gate_argument (int (negsuc n)) = raise value_error
gate_argument (float (finite (negsuc n))) = raise value_error
gate_argument _ = raise type_error

unfoldable pub optional_gate : Option Json → Result (Option ℕ)
optional_gate none = ok none
optional_gate (some null) = ok none
optional_gate (some v) = gate_argument v >>= λ n. ok (some n)

unfoldable pub is_blank_option : Option String → Bool
is_blank_option none = false
is_blank_option (some s) = is_blank s

-- `ProviderModelTarget(**arguments)`
unfoldable pub target_of : Fields → Result ProviderModelTarget
target_of arguments = do
  (if only ("provider" ∷ "model" ∷ "estimated_cost_microusd" ∷ []) arguments
      then ok tt
      else raise type_error)
  provider ← text_argument (get "provider" arguments)
  model ← optional_text (get "model" arguments)
  cost ← cost_argument (get "estimated_cost_microusd" arguments)
  (if is_blank provider || is_blank_option model
      then raise value_error
      else ok (record { provider = provider; model = model; estimated_cost_microusd = cost }))

-- `RegressionGates(**arguments)`
unfoldable pub gates_of : Fields → Result RegressionGates
gates_of arguments = do
  (if only
        ("max_quality_regression_points" ∷ "max_latency_regression_percent"
          ∷ "max_cost_regression_percent" ∷ [])
        arguments
      then ok tt
      else raise type_error)
  quality ← gate_argument (get_or "max_quality_regression_points" (int (pos 0)) arguments)
  latency ← optional_gate (get "max_latency_regression_percent" arguments)
  cost ← optional_gate (get "max_cost_regression_percent" arguments)
  ok (record {
    max_quality_regression_points = quality;
    max_latency_regression_percent = latency;
    max_cost_regression_percent = cost;
  })
