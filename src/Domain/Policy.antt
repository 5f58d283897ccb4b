-- ===== src/Domain/Policy.antt =====
-- src/agent_runtime/domain/policy.py, whose models pydantic checks as their fields say, and
-- `build_policy_snapshot` of src/agent_runtime/domain/retry.py. A duration counts microseconds.
pub mod Limits
use agent_reliability_runtim.Prelude.{
  ℕ, ◌*◌, min, max, String, Bool, true, false, not, ◌&&◌, ◌||◌, Option, none, some, List, [], ◌∷◌,
  ltb, leb, str_eq, length, if◌then◌else◌,
}
use agent_reliability_runtim.Prelude.Result.{Result, ok, raise, value_error, ◌>>=◌, ◌>>◌}
use agent_reliability_runtim.Json.{
  Json, null, boolean, int, float, finite, str, arr, obj, pos, Items, nil, cons, Fields, end, field,
  get, get_or, put,
}
use agent_reliability_runtim.Domain.Retry.{
  RetryPolicy, second, strings, from_snapshot, snapshot_items, as_snapshot,
}
use agent_reliability_runtim.Domain.Routing.Scores.{
  RoutingStrategy, strategy_value, Ranked, is_listed, default_provider_catalog,
}
use agent_reliability_runtim.Domain.Routing.Decisions.{
  strategy_of, Decision, NumberFormat, resolve, decision_fields, order_items,
}
use agent_reliability_runtim.Evaluation.Text.{text_length}
use agent_reliability_runtim.Evaluation.Safety.{only}

pub record RoutingRequest : Type 0 where
  pub strategy : RoutingStrategy
  pub candidates : Option (List String)

pub record RunPolicyRequest : Type 0 where
  pub max_attempts : Option ℕ
  pub attempt_timeout_seconds : Option ℕ
  pub initial_backoff_seconds : Option ℕ
  pub max_backoff_seconds : Option ℕ
  pub provider_order : Option (List String)
  pub routing : Option RoutingRequest
  pub model : Option String
  pub instructions : Option String
  pub max_output_tokens : Option ℕ

unfoldable pub between : ℕ → ℕ → ℕ → Result (Option ℕ)
between low high n = if leb low n && leb n high then ok (some n) else raise value_error

-- `int | None`, strict
unfoldable pub optional_int : ℕ → ℕ → Option Json → Result (Option ℕ)
optional_int low high none = ok none
optional_int low high (some null) = ok none
optional_int low high (some (int (pos n))) = between low high n
optional_int low high (some _) = raise value_error

-- `float | None`, strict, of a number of seconds from one to `high`
unfoldable pub optional_seconds : ℕ → Option Json → Result (Option ℕ)
optional_seconds high none = ok none
optional_seconds high (some null) = ok none
optional_seconds high (some (int (pos n))) = between second (high * second) (n * second)
optional_seconds high (some (float (finite (pos n)))) = between second (high * second) n
optional_seconds high (some _) = raise value_error

unfoldable pub all_known : List String → Bool
all_known [] = true
all_known (n ∷ ns) = is_listed n ("deterministic" ∷ "openai" ∷ []) && all_known ns

-- `list[Literal["deterministic", "openai"]] | None`, of one or two entries
unfoldable pub optional_providers : Option Json → Result (Option (List String))
optional_providers none = ok none
optional_providers (some null) = ok none
optional_providers (some (arr items)) = do
  names ← strings items
  (if all_known names && leb 1 (length names) && leb (length names) 2
      then ok (some names)
      else raise value_error)
optional_providers (some _) = raise value_error

unfoldable pub optional_words : ℕ → Option Json → Result (Option String)
optional_words high none = ok none
optional_words high (some null) = ok none
optional_words high (some (str s)) =
    if leb 1 (text_length s) && leb (text_length s) high then ok (some s) else raise value_error
optional_words high (some _) = raise value_error

-- `RoutingRequest`
unfoldable pub optional_routing : Option Json → Result (Option RoutingRequest)
optional_routing none = ok none
optional_routing (some null) = ok none
optional_routing (some (obj d)) = do
  (if only ("strategy" ∷ "candidates" ∷ []) d then ok tt else raise value_error)
  strategy ← strategy_of (get_or "strategy" (str "balanced") d)
  candidates ← optional_providers (get "candidates" d)
  ok (some (record { strategy = strategy; candidates = candidates }))
optional_routing (some _) = raise value_error

abbrev pub policy_keys : List String
policy_keys =
    "max_attempts" ∷ "attempt_timeout_seconds" ∷ "initial_backoff_seconds" ∷ "max_backoff_seconds"
    ∷ "provider_order" ∷ "routing" ∷ "model" ∷ "instructions" ∷ "max_output_tokens" ∷ []

-- `RunPolicyRequest.model_validate`
unfoldable pub model_validate : Fields → Result RunPolicyRequest
model_validate d = do
  (if only policy_keys d then ok tt else raise value_error)
  max_attempts ← optional_int 1 20 (get "max_attempts" d)
  attempt_timeout ← optional_seconds 600 (get "attempt_timeout_seconds" d)
  initial_backoff ← optional_seconds 3600 (get "initial_backoff_seconds" d)
  max_backoff ← optional_seconds 86_400 (get "max_backoff_seconds" d)
  provider_order ← optional_providers (get "provider_order" d)
  routing ← optional_routing (get "routing" d)
  model ← optional_words 128 (get "model" d)
  instructions ← optional_words 4096 (get "instructions" d)
  max_output_tokens ← optional_int 1 8192 (get "max_output_tokens" d)
  ok (record {
    max_attempts = max_attempts;
    attempt_timeout_seconds = attempt_timeout;
    initial_backoff_seconds = initial_backoff;
    max_backoff_seconds = max_backoff;
    provider_order = provider_order;
    routing = routing;
    model = model;
    instructions = instructions;
    max_output_tokens = max_output_tokens;
  })

-- An entry that `exclude_none` drops where it is `None`.
unfoldable pub with_option : String → Option Json → Fields → Fields
with_option key none d = d
with_option key (some v) d = field key v d

unfoldable pub names_json : Option (List String) → Option Json
names_json none = none
names_json (some names) = some (arr (snapshot_items names))

unfoldable pub text_json : Option String → Option Json
text_json none = none
text_json (some s) = some (str s)

unfoldable pub routing_json : Option RoutingRequest → Option Json
unfolding names_json
routing_json none = none
routing_json (some r) = some (
    obj (
      field "strategy" (str (strategy_value r.strategy))
        (with_option "candidates" (names_json r.candidates) end)))

-- `model_dump(exclude_none=True)`, without the numbers, all of which are set again.
unfoldable pub dumped : RunPolicyRequest → Fields
dumped r = with_option "provider_order" (names_json r.provider_order) (
    with_option "routing" (routing_json r.routing) (
      with_option "model" (text_json r.model)
        (with_option "instructions" (text_json r.instructions) end)))

-- The service's part of the policy.
pub record PolicyDefaults : Type 0 where
  pub max_attempts : ℕ
  pub attempt_timeout_seconds : ℕ
  pub initial_backoff_seconds : ℕ
  pub max_backoff_seconds : ℕ
  pub max_output_tokens : ℕ

unfoldable pub or_else : Option ℕ → ℕ → ℕ
or_else none default = default
or_else (some n) default = n

unfoldable pub attempts_of : RunPolicyRequest → PolicyDefaults → ℕ
attempts_of r s = min (or_else r.max_attempts s.max_attempts) s.max_attempts

unfoldable pub timeout_of : RunPolicyRequest → PolicyDefaults → ℕ
timeout_of r s =
    min (or_else r.attempt_timeout_seconds s.attempt_timeout_seconds) s.attempt_timeout_seconds

unfoldable pub initial_of : RunPolicyRequest → PolicyDefaults → ℕ
initial_of r s = min s.max_backoff_seconds (
    max second
      (max s.initial_backoff_seconds (or_else r.initial_backoff_seconds s.initial_backoff_seconds)))

unfoldable pub longest_of : RunPolicyRequest → PolicyDefaults → ℕ
longest_of r s =
    max (initial_of r s)
      (min (or_else r.max_backoff_seconds s.max_backoff_seconds) s.max_backoff_seconds)

unfoldable pub tokens_of : RunPolicyRequest → PolicyDefaults → ℕ
tokens_of r s = min (or_else r.max_output_tokens s.max_output_tokens) s.max_output_tokens

unfoldable pub seconds_json : ℕ → Json
seconds_json n = float (finite (pos n))

-- The request with the numbers that the service makes of it.
unfoldable pub merged : RunPolicyRequest → PolicyDefaults → Fields
merged r s = put "max_output_tokens" (int (pos (tokens_of r s))) (
    put "max_backoff_seconds" (seconds_json (longest_of r s)) (
      put "initial_backoff_seconds" (seconds_json (initial_of r s)) (
        put "attempt_timeout_seconds" (seconds_json (timeout_of r s))
          (put "max_attempts" (int (pos (attempts_of r s))) (dumped r)))))

-- The two entries that the decision sets.
unfoldable pub routed : NumberFormat → Decision → Fields → Fields
routed format d snapshot =
    let order = arr (order_items (d.selected ∷ d.others)) in
    put "routing"
      (obj (
        field "strategy" (str (strategy_value d.strategy))
          (field "candidates" order (field "decision" (obj (decision_fields format d)) end))))
      (put "provider_order" order snapshot)

-- `a | b`
unfoldable pub merge : Fields → Fields → Fields
merge a end = a
merge a (field k v b) = merge (put k v a) b

-- `build_policy_snapshot`
unfoldable pub build_policy_snapshot :
    NumberFormat → Fields → PolicyDefaults → Option (List String) → Result Fields
build_policy_snapshot format requested s available_providers = do
  r ← model_validate requested
  (if ltb (or_else r.max_backoff_seconds s.max_backoff_seconds)
        (or_else r.initial_backoff_seconds s.initial_backoff_seconds)
      then raise value_error
      else ok tt)
  decision ← resolve (merged r s) available_providers default_provider_catalog
  let snapshot = routed format decision (merged r s)
  policy ← from_snapshot snapshot
  ok (merge snapshot (as_snapshot policy))
