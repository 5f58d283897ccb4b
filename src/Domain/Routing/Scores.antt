-- ===== src/Domain/Routing/Scores.antt =====
-- The catalogue of src/agent_runtime/domain/routing.py, and how candidates are ranked. A rate and a score
-- count millionths; a rate is at most one. The weighted score is a decimal, rounded half to even, where
-- the code has binary fractions.
use agent_reliability_runtim.Prelude.{
  ℕ, ◌+◌, ◌-◌, ◌*◌, ◌/◌, ◌%◌, String, Bool, true, false, ◌&&◌, ◌||◌, Option, none, some, List, [],
  ◌∷◌, ltb, ◌==◌, str_eq, is_some, code, if◌then◌else◌,
}

pub data RoutingStrategy : Type 0 where
  lowest_latency lowest_cost quality_first balanced : RoutingStrategy

unfoldable pub strategy_value : RoutingStrategy → String
strategy_value lowest_latency = "lowest_latency"
strategy_value lowest_cost = "lowest_cost"
strategy_value quality_first = "quality_first"
strategy_value balanced = "balanced"

pub record ProviderHistoricalMetrics : Type 0 where
  pub provider : String
  pub median_latency_ms : ℕ
  pub estimated_cost_microusd : ℕ
  pub evaluation_pass_rate : ℕ
  pub availability_rate : ℕ

abbrev pub one : ℕ
one = 1_000_000

-- `DEFAULT_PROVIDER_CATALOG`, whose keys are the names of its entries.
unfoldable pub default_provider_catalog : List ProviderHistoricalMetrics
default_provider_catalog =
    record {
      provider = "deterministic";
      median_latency_ms = 5;
      estimated_cost_microusd = 0;
      evaluation_pass_rate = 800_000;
      availability_rate = 1_000_000;
    }
    ∷ record {
      provider = "openai";
      median_latency_ms = 800;
      estimated_cost_microusd = 1500;
      evaluation_pass_rate = 960_000;
      availability_rate = 995_000;
    }
    ∷ []

unfoldable pub in_catalog :
    String → List ProviderHistoricalMetrics → Option ProviderHistoricalMetrics
in_catalog name [] = none
in_catalog name (m ∷ ms) = if str_eq m.provider name then some m else in_catalog name ms

unfoldable pub is_listed : String → List String → Bool
is_listed name [] = false
is_listed name (p ∷ ps) = str_eq p name || is_listed name ps

-- `set(catalog) if available_providers is None else set(available_providers)`
unfoldable pub is_available : Option (List String) → List ProviderHistoricalMetrics → String → Bool
is_available none catalog name = is_some (in_catalog name catalog)
is_available (some providers) catalog name = is_listed name providers

pub record Ranked : Type 0 where
  pub metrics : ProviderHistoricalMetrics
  pub score : ℕ
  pub sort_key : List ℕ

unfoldable pub codes : String → List ℕ
codes String.[] = []
codes (String.◌∷◌ c s) = code c ∷ codes s

-- `round((cost / 2000) * 0.35 + (latency / 1000) * 0.30 + (1 - pass) * 0.25 + (1 - available) * 0.10, 6)`
-- in twentieths of a millionth, and then rounded.
unfoldable pub weighted : ProviderHistoricalMetrics → ℕ
weighted m =
    m.estimated_cost_microusd * 3500
    + m.median_latency_ms * 6000
    + (one - m.evaluation_pass_rate) * 5
    + (one - m.availability_rate) * 2

unfoldable pub round_twentieths : ℕ → ℕ
round_twentieths n =
    let rest = n % 20 in
    if ltb rest 10 then n / 20 else if ltb 10 rest then n / 20 + 1 else n / 20 + n / 20 % 2

unfoldable pub score_of : RoutingStrategy → ProviderHistoricalMetrics → ℕ
score_of lowest_latency m = m.median_latency_ms * one
score_of lowest_cost m = m.estimated_cost_microusd * one
score_of quality_first m = one - m.evaluation_pass_rate
score_of balanced m = round_twentieths (weighted m)

-- The tuple, with the name's code points at its end. `1 - rate` orders as `-rate` does.
unfoldable pub sort_key_of : RoutingStrategy → ProviderHistoricalMetrics → List ℕ
sort_key_of lowest_latency m =
    m.median_latency_ms
    ∷ m.estimated_cost_microusd
    ∷ (one - m.evaluation_pass_rate)
    ∷ (one - m.availability_rate)
    ∷ codes m.provider
sort_key_of lowest_cost m =
    m.estimated_cost_microusd
    ∷ m.median_latency_ms
    ∷ (one - m.evaluation_pass_rate)
    ∷ (one - m.availability_rate)
    ∷ codes m.provider
sort_key_of quality_first m =
    (one - m.evaluation_pass_rate)
    ∷ (one - m.availability_rate)
    ∷ m.median_latency_ms
    ∷ m.estimated_cost_microusd
    ∷ codes m.provider
sort_key_of balanced m = round_twentieths (weighted m) ∷ codes m.provider

-- `_ranked_candidate`
unfoldable pub ranked_candidate : RoutingStrategy → ProviderHistoricalMetrics → Ranked
ranked_candidate strategy m = record {
  metrics = m;
  score = score_of strategy m;
  sort_key = sort_key_of strategy m;
}

-- Tuples and texts are compared entry by entry.
unfoldable pub key_le : List ℕ → List ℕ → Bool
key_le [] b = true
key_le (x ∷ a) [] = false
key_le (x ∷ a) (y ∷ b) = ltb x y || (x == y && key_le a b)

-- `ranked.sort(key=…)`, which keeps the order of equal keys.
unfoldable pub insert_ranked : Ranked → List Ranked → List Ranked
insert_ranked c [] = c ∷ []
insert_ranked c (d ∷ ds) =
    if key_le c.sort_key d.sort_key then c ∷ d ∷ ds else d ∷ insert_ranked c ds

unfoldable pub sort_ranked : List Ranked → List Ranked
sort_ranked [] = []
sort_ranked (c ∷ cs) = insert_ranked c (sort_ranked cs)
