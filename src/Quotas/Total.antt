-- ===== src/Quotas/Total.antt =====
-- The bound of one window: no interleaving of provider calls passes a tenant's limit.
use agent_reliability_runtim.Prelude.{
  ℕ, ◌+◌, ◌≤◌, ◌<◌, String, ◌≡◌, refl, Bool, true, false, List, [], ◌∷◌, arith, inl, inr, eq_iff,
  str_eq, one_if, ◌&&◌, Bool-cases,
}
use agent_reliability_runtim.Prelude.Result.{Result, ok, raise}
use agent_reliability_runtim.Store.{tenant, Db}
use agent_reliability_runtim.Quotas.{QuotaLimits, find_quota, current_window, charge_provider_call}
use agent_reliability_runtim.Quotas.Budget.{usage, Charged, charge_provider_call-Charged}

-- One call of the worker: when, by whom and for which tenant.
pub record Call : Type 0 where
  pub at : ℕ
  pub principal_id : String
  pub tenant_id : String

abbrev granted_db : Db → Result Db → Db
granted_db db (ok db') = db'
granted_db db (raise e) = db

abbrev is_ok : Result Db → Bool
is_ok (ok _) = true
is_ok (raise _) = false

-- The calls of a list that are charged to a tenant and granted, one after another.
abbrev pub granted : QuotaLimits → String → List Call → Db → ℕ
granted limits t [] db = 0
granted limits t (c ∷ calls) db =
    let result = charge_provider_call c.at c.principal_id c.tenant_id limits db in
    one_if (str_eq c.tenant_id t && is_ok result) + granted limits t calls (granted_db db result)

abbrev pub InWindow : QuotaLimits → ℕ → List Call → Type 0
InWindow limits w [] = Unit
InWindow limits w (c ∷ calls) =
    (current_window c.at limits.window_seconds ≡ w) × InWindow limits w calls

module _ (limits : QuotaLimits) (t : String) (w : ℕ) where
  -- Whatever a call returns, it moves the budget of `t` by what it counts, and keeps it in bounds.
  abbrev Counts : Call → Db → Result Db → Type 0
  Counts c db result =
      (one_if (str_eq c.tenant_id t && is_ok result) + usage w (tenant t) db
        ≡ usage w (tenant t) (granted_db db result))
      × (usage w (tenant t) db ≤ limits.tenant_calls
          → usage w (tenant t) (granted_db db result) ≤ limits.tenant_calls)

  Counts-of_Charged :
      (c : Call) (db db' : Db)
      → current_window c.at limits.window_seconds ≡ w
      → Charged c.at c.principal_id c.tenant_id limits db db'
      → Counts c db (ok db')
  Counts-of_Charged c db db' e h = elim (Bool-cases (str_eq c.tenant_id t)) [
    | inl same ↦
        let named : c.tenant_id ≡ t = (eq_iff c.tenant_id t).0 same in
        let spent_one : usage w (tenant t) db' ≡ usage w (tenant t) db + 1 =
          rw (← e, ← named) h.tenant_spent in
        let room : usage w (tenant t) db < limits.tenant_calls = rw (← e, ← named) h.tenant_room in
        rw same (omega arith, λ _. omega arith)
    | inr other ↦
        let kept : find_quota (tenant t) db'.quotas ≡ find_quota (tenant t) db.quotas =
          h.others_kept (tenant t) (λ q. cc q) (λ q. ground (arith, eq_iff c.tenant_id t)) in
        rw other (rw kept (omega arith, λ u. u))
  ]

  Counts-of_result :
      (c : Call) (db : Db) (result : Result Db)
      → current_window c.at limits.window_seconds ≡ w
      → charge_provider_call c.at c.principal_id c.tenant_id limits db ≡ result
      → Counts c db result
  Counts-of_result c db (ok db') e h =
      Counts-of_Charged c db db' e
        (charge_provider_call-Charged c.at c.principal_id c.tenant_id limits db db' h)
  Counts-of_result c db (raise _) e h = ground arith

  granted_bound :
      (calls : List Call) (db : Db)
      → InWindow limits w calls
      → usage w (tenant t) db ≤ limits.tenant_calls
      → granted limits t calls db + usage w (tenant t) db ≤ limits.tenant_calls
  granted_bound [] db h u = omega arith
  granted_bound (c ∷ calls) db h u =
      let result : Result Db = charge_provider_call c.at c.principal_id c.tenant_id limits db in
      let (counted, kept) = Counts-of_result c db result h.0 refl in
      omega (arith, granted_bound calls (granted_db db result) h.1 (kept u))

-- However provider calls of principals and tenants interleave in one window, the calls granted to
-- a tenant, with those it had spent before within its limit, never pass the limit.
pub granted_le_limit :
    (limits : QuotaLimits) (t : String) (w : ℕ) (calls : List Call) (db : Db)
    → InWindow limits w calls
    → usage w (tenant t) db ≤ limits.tenant_calls
    → granted limits t calls db + usage w (tenant t) db ≤ limits.tenant_calls
granted_le_limit limits t w calls db h u = granted_bound limits t w calls db h u
