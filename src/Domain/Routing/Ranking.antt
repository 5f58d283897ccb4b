-- ===== src/Domain/Routing/Ranking.antt =====
-- The order that `resolve_routing_decision` (src/agent_runtime/domain/routing.py) puts providers in.
use mathlib.Core.List.{Perm}
use mathlib.Core.List.Perm
use agent_reliability_runtim.Prelude.{
  ℕ, String, ◌≡◌, refl, true, false, Option, List, [], ◌∷◌, All, arith,
}
use agent_reliability_runtim.Prelude.Result.{ok}
use agent_reliability_runtim.Json.{str, arr, nil, cons, Fields, get_or}
use agent_reliability_runtim.Domain.Routing.Scores.{
  RoutingStrategy, ProviderHistoricalMetrics, Ranked, key_le,
}
use agent_reliability_runtim.Domain.Routing.Decisions.{
  Decision, strategy_of, candidate_names, has_duplicates, lookup_all, available_metrics, rank_all,
  routing_of,
}

key_le_refl : (a : List ℕ) → key_le a a ≡ true
unfolding key_le
key_le_refl [] = refl
key_le_refl (x ∷ a) = ground (arith, key_le_refl a)

-- No entry is worse than one behind it.
abbrev IsBest : Ranked → List Ranked → Type 0
IsBest c cs = All (λ (d : Ranked). key_le c.sort_key d.sort_key ≡ true) cs

abbrev pub IsOrdered : List Ranked → Type 0
IsOrdered [] = Unit
IsOrdered (c ∷ cs) = IsBest c cs × IsOrdered cs

-- A decision over the candidates that were asked for.
pub record IsChoice (available : Option (List String)) (catalog : List ProviderHistoricalMetrics)
    (requested : Fields) (d : Decision) : Type 0 where
  pub routing : Fields
  pub names : List String
  pub found : List ProviderHistoricalMetrics
  pub read : routing_of requested ≡ ok routing
  pub strategy : RoutingStrategy
  pub strategy_read : strategy_of (get_or "strategy" (str "balanced") routing) ≡ ok strategy
  pub strategy_same : d.strategy ≡ strategy
  pub asked :
      candidate_names (
        get_or "candidates"
          (get_or "provider_order" (arr (cons (str "deterministic") nil)) requested)
          routing)
      ≡ ok names
  pub distinct : has_duplicates names ≡ false
  pub known : lookup_all catalog names ≡ ok found
  pub all_available :
      Perm (d.selected ∷ d.others) (rank_all strategy (available_metrics available catalog found))
  pub ordered : IsOrdered (d.selected ∷ d.others)
