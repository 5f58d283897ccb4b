-- ===== src/Domain/Routing/Decisions.antt =====
-- `resolve_routing_decision` of src/agent_runtime/domain/routing.py. How Python writes a number in the reason
-- is a parameter.
use Prim.Native.String.{◌++◌ as append}
use agent_reliability_runtim.Prelude.{
  ℕ, ◌+◌, String, Bool, true, false, ◌||◌, Option, none, some, List, [], ◌∷◌, str_eq, length,
  where_rows, if◌then◌else◌,
}
use agent_reliability_runtim.Prelude.Result.{Result, ok, raise, value_error, ◌>>=◌, ◌>>◌}
use agent_reliability_runtim.Json.{
  Json, boolean, int, float, finite, str, arr, obj, pos, Items, nil, cons, Fields, end, field,
  get_or,
}
use agent_reliability_runtim.Domain.Retry.{any_blank, strings}
use agent_reliability_runtim.Domain.Routing.Scores.{
  ProviderHistoricalMetrics, Ranked, RoutingStrategy, balanced, in_catalog, is_available, is_listed,
  lowest_cost, lowest_latency, quality_first, ranked_candidate, sort_ranked, strategy_value,
}

unfoldable pub strategy_of : Json → Result RoutingStrategy
strategy_of (str s) =
    if str_eq s "lowest_latency"
    then ok lowest_latency
    else if str_eq s "lowest_cost"
    then ok lowest_cost
    else if str_eq s "quality_first"
    then ok quality_first
    else if str_eq s "balanced"
    then ok balanced
    else raise value_error
strategy_of _ = raise value_error

-- A list of names that are not blank, and at least one of them.
unfoldable pub candidate_names : Json → Result (List String)
candidate_names (arr (cons x xs)) = do
  names ← strings (cons x xs)
  (if any_blank names then raise value_error else ok names)
candidate_names _ = raise value_error

unfoldable pub has_duplicates : List String → Bool
has_duplicates [] = false
has_duplicates (n ∷ ns) = is_listed n ns || has_duplicates ns

-- `catalog[candidate]` for each candidate.
unfoldable pub lookup_all :
    List ProviderHistoricalMetrics → List String → Result (List ProviderHistoricalMetrics)
lookup_all catalog [] = ok []
lookup_all catalog (n ∷ ns) = elim (in_catalog n catalog) [
  | none ↦ raise value_error
  | some m ↦ lookup_all catalog ns >>= λ ms. ok (m ∷ ms)
]

unfoldable pub available_metrics :
    Option (List String)
    → List ProviderHistoricalMetrics
    → List ProviderHistoricalMetrics
    → List ProviderHistoricalMetrics
available_metrics available catalog ms =
    where_rows (λ (m : ProviderHistoricalMetrics). is_available available catalog m.provider) ms

unfoldable pub rank_all : RoutingStrategy → List ProviderHistoricalMetrics → List Ranked
rank_all strategy [] = []
rank_all strategy (m ∷ ms) = ranked_candidate strategy m ∷ rank_all strategy ms

-- A decision, with the best candidate apart.
pub record Decision : Type 0 where
  pub strategy : RoutingStrategy
  pub selected : Ranked
  pub others : List Ranked

unfoldable pub decide : RoutingStrategy → List Ranked → Result Decision
decide strategy [] = raise value_error
decide strategy (c ∷ cs) = ok (record { strategy = strategy; selected = c; others = cs })

unfoldable pub routing_of : Fields → Result Fields
routing_of requested = elim (get_or "routing" (obj end) requested) [
  | obj routing ↦ ok routing
  | _ ↦ raise value_error
]

-- `resolve_routing_decision`, as far as the choice.
unfoldable pub resolve :
    Fields → Option (List String) → List ProviderHistoricalMetrics → Result Decision
resolve requested available catalog = do
  routing ← routing_of requested
  strategy ← strategy_of (get_or "strategy" (str "balanced") routing)
  names ← candidate_names (
      get_or "candidates" (get_or "provider_order" (arr (cons (str "deterministic") nil)) requested)
        routing)
  (if has_duplicates names then raise value_error else ok tt)
  found ← lookup_all catalog names
  decide strategy (sort_ranked (rank_all strategy (available_metrics available catalog found)))

-- `as_snapshot`, of an available provider.
unfoldable pub as_snapshot : ProviderHistoricalMetrics → Fields
as_snapshot m = field "provider" (str m.provider) (
    field "median_latency_ms" (int (pos m.median_latency_ms)) (
      field "estimated_cost_microusd" (int (pos m.estimated_cost_microusd)) (
        field "evaluation_pass_rate" (float (finite (pos m.evaluation_pass_rate))) (
          field "availability_rate" (float (finite (pos m.availability_rate)))
            (field "available" (boolean true) end)))))

unfoldable pub ranked_items : List Ranked → Items
ranked_items [] = nil
ranked_items (r ∷ rs) =
    cons
      (obj (
        field "provider" (str r.metrics.provider) (
          field "score" (float (finite (pos r.score)))
            (field "metrics" (obj (as_snapshot r.metrics)) end))))
      (ranked_items rs)

unfoldable pub order_items : List Ranked → Items
order_items [] = nil
order_items (r ∷ rs) = cons (str r.metrics.provider) (order_items rs)

-- How Python writes an integer, a rate with three decimals, and a score.
pub record NumberFormat : Type 0 where
  pub integer : ℕ → String
  pub rate : ℕ → String
  pub score : ℕ → String

infixr 65 ◌+++◌
◌+++◌ : String → String → String
a +++ b = append a b

unfoldable pub basis : NumberFormat → RoutingStrategy → Ranked → String
unfolding ◌+++◌
basis format lowest_latency r =
    "lowest historical median latency (" +++ format.integer r.metrics.median_latency_ms +++ " ms)"
basis format lowest_cost r =
    "lowest estimated cost (" +++ format.integer r.metrics.estimated_cost_microusd +++ " micro-USD)"
basis format quality_first r =
    "highest historical evaluation pass rate ("
    +++ format.rate r.metrics.evaluation_pass_rate
    +++ ")"
basis format balanced r =
    "lowest balanced cost/latency/quality/availability score (" +++ format.score r.score +++ ")"

-- `_reason`
unfoldable pub reason : NumberFormat → Decision → String
unfolding ◌+++◌
reason format d =
    "Selected "
    +++ d.selected.metrics.provider
    +++ " using "
    +++ strategy_value d.strategy
    +++ ": "
    +++ basis format d.strategy d.selected
    +++ " among "
    +++ format.integer (length d.others + 1)
    +++ " available candidate(s)."

unfoldable pub decision_fields : NumberFormat → Decision → Fields
decision_fields format d = field "strategy" (str (strategy_value d.strategy)) (
    field "metrics_source" (str "provider-catalog.v1") (
      field "selected_provider" (str d.selected.metrics.provider) (
        field "provider_order" (arr (order_items (d.selected ∷ d.others))) (
          field "reason" (str (reason format d))
            (field "ranked_candidates" (arr (ranked_items (d.selected ∷ d.others))) end)))))

-- `resolve_routing_decision`
unfoldable pub resolve_routing_decision :
    NumberFormat → Fields → Option (List String) → List ProviderHistoricalMetrics → Result Fields
resolve_routing_decision format requested available catalog =
    resolve requested available catalog >>= λ d. ok (decision_fields format d)
