-- ===== src/Scenario/Charges.antt =====
-- The theorems on routing, policies and charged jobs, at small examples.
use agent_reliability_runtim.Prelude.{
  ◌*◌, String, ◌≡◌, refl, Option, none, some, [], ◌∷◌, str_eq, where_rows, if◌then◌else◌,
}
use agent_reliability_runtim.Prelude.Result.{Result, ok, raise}
use agent_reliability_runtim.Json.{
  str, obj, arr, cons, nil, int, pos, Fields, end, field, get, get_or, put,
}
use agent_reliability_runtim.Domain.Retry.{
  RetryPolicy, second, from_snapshot, strings, any_blank, is_blank, string_list, positive_int,
  positive_float, post_init, snapshot_items,
}
use agent_reliability_runtim.Domain.Routing.Scores.{
  lowest_cost, ProviderHistoricalMetrics, default_provider_catalog, is_listed, in_catalog,
  is_available, ranked_candidate, sort_key_of, codes, score_of, sort_ranked, insert_ranked, key_le,
  strategy_value,
}
use agent_reliability_runtim.Domain.Routing.Decisions.{
  Decision, NumberFormat, resolve, routing_of, strategy_of, candidate_names, has_duplicates,
  lookup_all, available_metrics, rank_all, decide, order_items,
}
use agent_reliability_runtim.Domain.Policy.{
  PolicyDefaults, build_policy_snapshot, model_validate, optional_int, between, optional_seconds,
  optional_providers, optional_routing, optional_words, all_known, or_else, merged, dumped,
  with_option, names_json, text_json, routing_json, seconds_json, attempts_of, timeout_of,
  initial_of, longest_of, tokens_of, routed,
}
use agent_reliability_runtim.Domain.Policy.Limits.{IsWithin, build_policy_snapshot-IsWithin}
use agent_reliability_runtim.Store.{Uuid}
use agent_reliability_runtim.Messaging.Worker.{returned}
use agent_reliability_runtim.Evaluation.Safety.{only, is_one_of}
use agent_reliability_runtim.Resources.Charging.{World, ExecutorConfig}
use agent_reliability_runtim.Resources.Jobs.{
  RuntimeKeys, job_of, runtime_keys, uuid_at, worker_at, execute,
}
use agent_reliability_runtim.Resources.Payments.{IsPaid}
use agent_reliability_runtim.Resources.Keeps.{budget_of}
use agent_reliability_runtim.Resources.Charges.{execute-IsPaid}
use agent_reliability_runtim.Resources.Transactions.{execute-Reach}
use agent_reliability_runtim.System.{Reach, here}
use agent_reliability_runtim.Scenario.Start.{deployment, limits, result, claimed_once}
use agent_reliability_runtim.Scenario.Life.{held, life}
use agent_reliability_runtim.Scenario.Evaluations.{check_schema, validates, exception_name, payload}

-- Both providers, the cheaper one first.
abbrev requested : Fields
requested =
    field "routing"
      (obj (
        field "strategy" (str "lowest_cost")
          (field "candidates" (arr (cons (str "openai") (cons (str "deterministic") nil))) end)))
      end

abbrev deterministic : ProviderHistoricalMetrics
deterministic = record {
  provider = "deterministic";
  median_latency_ms = 5;
  estimated_cost_microusd = 0;
  evaluation_pass_rate = 800_000;
  availability_rate = 1_000_000;
}

abbrev openai : ProviderHistoricalMetrics
openai = record {
  provider = "openai";
  median_latency_ms = 800;
  estimated_cost_microusd = 1500;
  evaluation_pass_rate = 960_000;
  availability_rate = 995_000;
}

abbrev decision : Decision
decision = record {
  strategy = lowest_cost;
  selected = ranked_candidate lowest_cost deterministic;
  others = ranked_candidate lowest_cost openai ∷ [];
}

abbrev format : NumberFormat
format = record { integer = λ _. "n"; rate = λ _. "r"; score = λ _. "s" }

-- A request for more attempts than the service allows.
abbrev requested_policy : Fields
requested_policy = field "max_attempts" (int (pos 9)) requested

abbrev defaults : PolicyDefaults
defaults = record {
  max_attempts = 3;
  attempt_timeout_seconds = 60 * second;
  initial_backoff_seconds = second;
  max_backoff_seconds = 60 * second;
  max_output_tokens = 2048;
}

abbrev fields_of : Result Fields → Fields
fields_of (ok d) = d
fields_of (raise _) = end

abbrev built : Fields
built = fields_of (build_policy_snapshot format requested_policy defaults none)

policy_built : build_policy_snapshot format requested_policy defaults none ≡ ok built
unfolding build_policy_snapshot model_validate only is_one_of get get_or optional_int between
    optional_seconds optional_providers optional_routing optional_words all_known strings
    strategy_of or_else merged resolve routing_of candidate_names any_blank is_blank has_duplicates
    is_listed lookup_all in_catalog default_provider_catalog available_metrics is_available rank_all
    ranked_candidate sort_key_of codes score_of sort_ranked insert_ranked key_le decide where_rows
    put dumped with_option names_json text_json routing_json seconds_json attempts_of timeout_of
    initial_of longest_of tokens_of routed from_snapshot string_list positive_int positive_float
    post_init snapshot_items order_items strategy_value
policy_built = refl

build_policy_snapshot-IsWithin_example :
    (p : RetryPolicy) × (from_snapshot built ≡ ok p) × IsWithin defaults p
build_policy_snapshot-IsWithin_example =
    build_policy_snapshot-IsWithin format requested_policy built defaults none policy_built

-- The worker of the claimed run executes it, while nothing else happens.
abbrev world : World
world = record {
  others = λ _ db. db;
  now = λ n. 3 * second;
  epoch = λ n. 3;
  respond = λ _ _ _ _. returned result;
  elapsed = λ _. 4;
  elapsed_on_error = λ _. 5;
}

abbrev executor_config : ExecutorConfig
executor_config = record {
  quotas = limits;
  regression_provider_call_budget = 4;
  regression_max_cases = 2;
  provider_max_output_tokens = 2048;
}

abbrev parse : String → Option Uuid
parse s = if str_eq s "run" then some 100 else if str_eq s "attempt" then some 200 else none

abbrev executed_policy : Fields
executed_policy =
    field "_runtime_run_id" (str "run")
      (field "_runtime_worker_id" (str "w1") (field "_runtime_attempt_id" (str "attempt") end))

abbrev keys : RuntimeKeys
keys = record { run_id = 100; worker_id = "w1"; attempt_id = 200 }

keys_read : runtime_keys parse executed_policy ≡ ok keys
unfolding runtime_keys uuid_at worker_at get
keys_read = refl

execute-IsPaid_example :
    IsPaid world executor_config
      (job_of keys (budget_of executor_config held.work_kind))
      (execute parse check_schema validates exception_name world executor_config claimed_once
        "primary" payload executed_policy).1
execute-IsPaid_example =
    execute-IsPaid parse check_schema validates exception_name world executor_config claimed_once
      "primary" payload executed_policy keys held keys_read life.held_found

execute-Reach_example :
    Reach deployment claimed_once
      (execute parse check_schema validates exception_name world executor_config claimed_once
        "primary" payload executed_policy).1.db
execute-Reach_example =
    execute-Reach deployment world executor_config refl (λ turn db. here) parse check_schema
      validates exception_name claimed_once "primary" payload executed_policy
