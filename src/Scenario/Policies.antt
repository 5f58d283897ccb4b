-- ===== src/Scenario/Policies.antt =====
-- The theorems on policies, error codes and provider budgets at concrete values.
use agent_reliability_runtim.Prelude.{ℕ, ◌+◌, ◌*◌, ◌≤◌, max, ◌≡◌, refl, ◌↔◌, List, [], ◌∷◌, arith}
use agent_reliability_runtim.Prelude.Result.{ok}
use agent_reliability_runtim.Json.{Fields}
use agent_reliability_runtim.Domain.Retry.{
  is_blank, any_blank, RetryPolicy, second, delay_after_attempt, from_snapshot,
}
use agent_reliability_runtim.Domain.Retry.Bounds.{IsValid, from_snapshot_iff, delay_bounds}
use agent_reliability_runtim.Store.{Db, tenant}
use agent_reliability_runtim.Quotas.{
  same_scope, find_quota, put_quota, current_window, check_provider_budget, current_row, chargeable,
  bump, charge_provider_call,
}
use agent_reliability_runtim.Quotas.Budget.{usage, check_provider_budget_iff}
use agent_reliability_runtim.Quotas.Total.{Call, granted, InWindow, granted_le_limit}
use agent_reliability_runtim.System.{empty}
use agent_reliability_runtim.Scenario.Start.{limits, tables_of}

abbrev patient : RetryPolicy
patient = record {
  max_attempts = 5;
  attempt_timeout = 60 * second;
  initial_backoff = 2 * second;
  max_backoff = 30 * second;
  provider_order = "primary" ∷ "fallback" ∷ [];
}

-- Backoffs of two, four, … seconds, up to thirty.
delays :
    (delay_after_attempt patient 1 ≡ ok 2_000_000)
    × (delay_after_attempt patient 3 ≡ ok 8_000_000)
    × (delay_after_attempt patient 9 ≡ ok 30_000_000)
unfolding delay_after_attempt
delays = (refl, refl, refl)

delay_bounds_example :
    (d : ℕ) × (delay_after_attempt patient 3 ≡ ok d)
    × (second ≤ d)
    × (d ≤ max second patient.max_backoff)
delay_bounds_example = delay_bounds patient 3 (omega arith)

patient-IsValid : IsValid patient
unfolding any_blank is_blank
patient-IsValid = record {
  attempts_min = omega arith;
  attempts_max = omega arith;
  timeout_positive = omega arith;
  backoff_positive = omega arith;
  backoff_ordered = omega arith;
  provider_given = omega arith;
  providers_named = refl;
}

from_snapshot_iff_example : IsValid patient ↔ ((d : Fields) × (from_snapshot d ≡ ok patient))
from_snapshot_iff_example = from_snapshot_iff patient

abbrev charged_once : Db
charged_once = tables_of (charge_provider_call 61 "ann" "acme" limits empty)

check_provider_budget_iff_example :
    (check_provider_budget 62 "ann" "acme" limits charged_once ≡ ok tt)
    ↔ ((db' : Db) × (charge_provider_call 62 "ann" "acme" limits charged_once ≡ ok db'))
check_provider_budget_iff_example =
    check_provider_budget_iff 62 "ann" "acme" limits charged_once (omega arith) (omega arith)

-- Five calls in one window, of which the tenant may make three.
abbrev calls : List Call
calls =
    record { at = 61; principal_id = "ann"; tenant_id = "acme" }
    ∷ record { at = 62; principal_id = "ann"; tenant_id = "acme" }
    ∷ record { at = 63; principal_id = "ann"; tenant_id = "acme" }
    ∷ record { at = 64; principal_id = "bob"; tenant_id = "acme" }
    ∷ record { at = 65; principal_id = "bob"; tenant_id = "acme" }
    ∷ []

three_granted : granted limits "acme" calls empty ≡ 3
unfolding charge_provider_call chargeable current_row find_quota put_quota current_window bump
    same_scope
three_granted = refl

calls-InWindow : InWindow limits 60 calls
unfolding current_window
calls-InWindow = (refl, (refl, (refl, (refl, (refl, tt)))))

granted_le_limit_example :
    granted limits "acme" calls empty + usage 60 (tenant "acme") empty ≤ limits.tenant_calls
unfolding find_quota
granted_le_limit_example =
    granted_le_limit limits "acme" 60 calls empty calls-InWindow (omega arith)
