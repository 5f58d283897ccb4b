-- ===== src/Quotas.antt =====
-- src/agent_runtime/infrastructure/database/quotas.py: limits on active work and on provider calls.
-- The advisory locks of `lock_identity` make a transaction atomic, which a model of one transaction
-- at a time has for nothing.
pub mod Windows
pub mod Budget
pub mod Total
use agent_reliability_runtim.Prelude.{
  ℕ, ◌+◌, ◌*◌, ◌/◌, String, Bool, true, false, ◌&&◌, ◌||◌, Option, none, some, List, [], ◌∷◌, leb,
  ◌==◌, str_eq, is_text, count, if◌then◌else◌,
}
use agent_reliability_runtim.Prelude.Result.{Result, ok, raise, quota_exceeded, ◌>>=◌, ◌>>◌}
use agent_reliability_runtim.Domain.States.{
  ExecutionStatus, queued, running, retry_scheduled, contains,
}
use agent_reliability_runtim.Store.{Run, Scope, principal, tenant, ProviderQuota, Db}

pub record QuotaLimits : Type 0 where
  pub principal_active : ℕ
  pub tenant_active : ℕ
  pub principal_calls : ℕ
  pub tenant_calls : ℕ
  pub window_seconds : ℕ
  pub principal_running : ℕ
  pub tenant_running : ℕ

unfoldable pub same_scope : Scope → Scope → Bool
same_scope (principal a) (principal b) = str_eq a b
same_scope (tenant a) (tenant b) = str_eq a b
same_scope _ _ = false

-- `session.get(ProviderQuota, scope)`
unfoldable pub find_quota : Scope → List ProviderQuota → Option ProviderQuota
find_quota s [] = none
find_quota s (q ∷ rest) = if same_scope q.scope s then some q else find_quota s rest

-- The row as it is written at the end of the transaction, inserted if it is new.
unfoldable pub put_quota : ProviderQuota → List ProviderQuota → List ProviderQuota
put_quota r [] = r ∷ []
put_quota r (q ∷ rest) = if same_scope q.scope r.scope then r ∷ rest else q ∷ put_quota r rest

unfoldable pub current_window : ℕ → ℕ → ℕ
current_window now window_seconds = now / window_seconds * window_seconds

-- One round of the loop of `check_provider_budget`.
unfoldable pub spent : ℕ → ℕ → Option ProviderQuota → Bool
spent window limit none = false
spent window limit (some row) = row.window_start == window && leb limit row.used

unfoldable pub check_provider_budget : ℕ → String → String → QuotaLimits → Db → Result (Unit {0})
check_provider_budget now p t limits db =
    let window = current_window now limits.window_seconds in
    if spent window limits.principal_calls (find_quota (principal p) db.quotas)
    then raise quota_exceeded
    else if spent window limits.tenant_calls (find_quota (tenant t) db.quotas)
    then raise quota_exceeded
    else ok tt

unfoldable pub is_active : Run → Bool
is_active run = contains (queued ∷ running ∷ retry_scheduled ∷ []) run.execution_status

unfoldable pub count_principal_active : String → Db → ℕ
count_principal_active p db = count (λ run. is_text run.principal_id p && is_active run) db.runs

unfoldable pub count_tenant_active : String → Db → ℕ
count_tenant_active t db = count (λ run. str_eq run.client_id t && is_active run) db.runs

unfoldable pub check_admission : ℕ → String → String → QuotaLimits → Db → Result (Unit {0})
check_admission now p t limits db =
    if leb limits.principal_active (count_principal_active p db)
    then raise quota_exceeded
    else if leb limits.tenant_active (count_tenant_active t db)
    then raise quota_exceeded
    else check_provider_budget now p t limits db

-- The row of a scope in the current window: a new one, or the old one with a passed window reset.
unfoldable pub current_row : ℕ → Scope → Option ProviderQuota → ProviderQuota
current_row window s none = record { scope = s; window_start = window; used = 0 }
current_row window s (some row) =
    if row.window_start == window then row else record row { window_start = window; used = 0 }

-- One round of the first loop of `charge_provider_call`.
unfoldable pub chargeable : ℕ → Scope → ℕ → Db → Result ProviderQuota
chargeable window s limit db =
    let row = current_row window s (find_quota s db.quotas) in
    if leb limit row.used then raise quota_exceeded else ok row

unfoldable pub bump : ProviderQuota → ProviderQuota
bump row = record row { used = row.used + 1 }

-- `now` is the database clock in whole seconds. A raise leaves the tables as they were.
unfoldable pub charge_provider_call : ℕ → String → String → QuotaLimits → Db → Result Db
charge_provider_call now p t limits db = do
  let window = current_window now limits.window_seconds
  p_row ← chargeable window (principal p) limits.principal_calls db
  t_row ← chargeable window (tenant t) limits.tenant_calls db
  ok (record db { quotas = put_quota (bump t_row) (put_quota (bump p_row) db.quotas) })
