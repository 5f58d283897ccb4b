-- ===== src/Quotas/Budget.antt =====
-- Proofs about `charge_provider_call` and `check_provider_budget`: what a charge does to the spent
-- budget, that the advisory check foretells it, and the bound on the calls of one window.
use agent_reliability_runtim.Prelude.{
  ℕ, ◌+◌, ◌<◌, String, ◌≡◌, ◌≢◌, refl, ◌∙◌, subst, ◌↔◌, Option, none, some, List, arith, ◌==◌, leb,
  if◌then◌else◌,
}
use agent_reliability_runtim.Prelude.Result.{ok, >>=-eq-ok}
use agent_reliability_runtim.Store.{Scope, principal, tenant, ProviderQuota, Db}
use agent_reliability_runtim.Quotas.{
  QuotaLimits, find_quota, put_quota, current_window, current_row, chargeable, bump, spent,
  check_provider_budget, charge_provider_call,
}
use agent_reliability_runtim.Quotas.Windows.{
  find_quota-scope, find_quota-put_quota_self, find_quota-put_quota_ne,
}

-- The calls that a scope has spent in a window.
abbrev pub used_of : ℕ → Option ProviderQuota → ℕ
used_of window none = 0
used_of window (some row) = if row.window_start == window then row.used else 0

abbrev pub usage : ℕ → Scope → Db → ℕ
usage window s db = used_of window (find_quota s db.quotas)

current_row_lem :
    (window : ℕ) (s : Scope) (o : Option ProviderQuota)
    → ((q : ProviderQuota) → o ≡ some q → q.scope ≡ s)
    → let row = current_row window s o in
      (row.scope ≡ s) × (row.window_start ≡ window) × (row.used ≡ used_of window o)
unfolding current_row
current_row_lem window s none h = (refl, refl, refl)
current_row_lem window s (some q) h = ground (arith, h q refl)

module _ (window : ℕ) (s : Scope) (limit : ℕ) (db : Db) where
  row_lem :
      let row = current_row window s (find_quota s db.quotas) in
      (row.scope ≡ s) × (row.window_start ≡ window) × (row.used ≡ usage window s db)
  row_lem = current_row_lem window s (find_quota s db.quotas) (find_quota-scope s db.quotas)

  -- The row that a round of the loop leaves has the calls spent, fewer than the limit.
  chargeable_lem :
      (row : ProviderQuota)
      → chargeable window s limit db ≡ ok row
      → (row.scope ≡ s)
        × (row.window_start ≡ window)
        × (row.used ≡ usage window s db)
        × (row.used < limit)
  unfolding chargeable
  chargeable_lem row h = ground (arith, row_lem)

  chargeable_of_lt :
      usage window s db < limit → (row : ProviderQuota) × (chargeable window s limit db ≡ ok row)
  unfolding chargeable
  chargeable_of_lt h = (current_row window s (find_quota s db.quotas), ground (arith, row_lem))

-- What a granted charge has done: each of the two scopes had budget left and has one call more, and
-- no other row and no other table has changed.
pub record Charged (now : ℕ) (p t : String) (limits : QuotaLimits) (db db' : Db) : Type 0 where
  pub principal_room :
      usage (current_window now limits.window_seconds) (principal p) db < limits.principal_calls
  pub tenant_room :
      usage (current_window now limits.window_seconds) (tenant t) db < limits.tenant_calls
  pub principal_spent :
      usage (current_window now limits.window_seconds) (principal p) db'
      ≡ usage (current_window now limits.window_seconds) (principal p) db + 1
  pub tenant_spent :
      usage (current_window now limits.window_seconds) (tenant t) db'
      ≡ usage (current_window now limits.window_seconds) (tenant t) db + 1
  pub others_kept :
      (s : Scope)
      → s ≢ principal p
      → s ≢ tenant t
      → find_quota s db'.quotas ≡ find_quota s db.quotas
  pub tables_kept : db' ≡ record db { quotas = db'.quotas }

spent_lem :
    (window limit : ℕ) (o : Option ProviderQuota)
    → 0 < limit
    → spent window limit o ≡ leb limit (used_of window o)
unfolding spent
spent_lem window limit none h = ground arith
spent_lem window limit (some q) h = ground arith

-- The table after both rows are written.
module _ (p t : String) (a b : ProviderQuota) (l : List ProviderQuota) (ea : a.scope ≡ principal p)
    (eb : b.scope ≡ tenant t) where
  find_principal : find_quota (principal p) (put_quota b (put_quota a l)) ≡ some a
  find_principal =
      let apart : principal p ≢ b.scope = λ e. cc (e ∙ eb) in
      rw (find_quota-put_quota_ne (principal p) b (put_quota a l) apart, ← ea)
        (find_quota-put_quota_self a l)

  find_tenant : find_quota (tenant t) (put_quota b (put_quota a l)) ≡ some b
  find_tenant = rw (← eb) (find_quota-put_quota_self b (put_quota a l))

  find_other :
      (s : Scope)
      → s ≢ principal p
      → s ≢ tenant t
      → find_quota s (put_quota b (put_quota a l)) ≡ find_quota s l
  find_other s np nt =
      find_quota-put_quota_ne s b (put_quota a l) (λ e. nt (e ∙ eb))
      ∙ find_quota-put_quota_ne s a l (λ e. np (e ∙ ea))

module _ (now : ℕ) (p t : String) (limits : QuotaLimits) (db : Db) where
  Charged-of_rows :
      (a b : ProviderQuota)
      → chargeable
          (current_window now limits.window_seconds)
          (principal p)
          limits.principal_calls
          db
        ≡ ok a
      → chargeable (current_window now limits.window_seconds) (tenant t) limits.tenant_calls db
        ≡ ok b
      → Charged now p t limits db
          (record db { quotas = put_quota (bump b) (put_quota (bump a) db.quotas) })
  unfolding bump
  Charged-of_rows a b ea eb =
      let w : ℕ = current_window now limits.window_seconds in
      let (sa, wa, ua, ra) = chargeable_lem w (principal p) limits.principal_calls db a ea in
      let (sb, wb, ub, rb) = chargeable_lem w (tenant t) limits.tenant_calls db b eb in
      record {
        principal_room = rw ua at ra;
        tenant_room = rw ub at rb;
        principal_spent = rw (find_principal p t (bump a) (bump b) db.quotas sa sb) (ground arith);
        tenant_spent = rw (find_tenant p t (bump a) (bump b) db.quotas sa sb) (ground arith);
        others_kept = find_other p t (bump a) (bump b) db.quotas sa sb;
        tables_kept = refl;
      }

  -- A granted charge had room in both scopes, counts one call in each, and changes no other row
  -- and no other table.
  pub charge_provider_call-Charged :
      (db' : Db) → charge_provider_call now p t limits db ≡ ok db' → Charged now p t limits db db'
  unfolding charge_provider_call
  charge_provider_call-Charged db' h =
      let w : ℕ = current_window now limits.window_seconds in
      let (a, ea, h₁) = >>=-eq-ok (chargeable w (principal p) limits.principal_calls db) _ h in
      let (b, eb, h₂) = >>=-eq-ok (chargeable w (tenant t) limits.tenant_calls db) _ h₁ in
      let same : record db { quotas = put_quota (bump b) (put_quota (bump a) db.quotas) } ≡ db' =
        cc h₂ in
      subst (Charged now p t limits db) same (Charged-of_rows a b ea eb)

  charge_of_rows :
      (a b : ProviderQuota)
      → chargeable
          (current_window now limits.window_seconds)
          (principal p)
          limits.principal_calls
          db
        ≡ ok a
      → chargeable (current_window now limits.window_seconds) (tenant t) limits.tenant_calls db
        ≡ ok b
      → charge_provider_call now p t limits db
        ≡ ok (record db { quotas = put_quota (bump b) (put_quota (bump a) db.quotas) })
  unfolding charge_provider_call
  charge_of_rows a b ea eb = rw ea (rw eb)

  check_room :
      0 < limits.principal_calls
      → 0 < limits.tenant_calls
      → check_provider_budget now p t limits db ≡ ok tt
      → (usage (current_window now limits.window_seconds) (principal p) db < limits.principal_calls)
        × (usage (current_window now limits.window_seconds) (tenant t) db < limits.tenant_calls)
  unfolding check_provider_budget
  check_room hp ht h =
      let w : ℕ = current_window now limits.window_seconds in
      ground (
        arith,
        spent_lem w limits.principal_calls (find_quota (principal p) db.quotas) hp,
        spent_lem w limits.tenant_calls (find_quota (tenant t) db.quotas) ht,
      )

  check_of_room :
      0 < limits.principal_calls
      → 0 < limits.tenant_calls
      → usage (current_window now limits.window_seconds) (principal p) db < limits.principal_calls
      → usage (current_window now limits.window_seconds) (tenant t) db < limits.tenant_calls
      → check_provider_budget now p t limits db ≡ ok tt
  unfolding check_provider_budget
  check_of_room hp ht rp rt =
      let w : ℕ = current_window now limits.window_seconds in
      ground (
        arith,
        spent_lem w limits.principal_calls (find_quota (principal p) db.quotas) hp,
        spent_lem w limits.tenant_calls (find_quota (tenant t) db.quotas) ht,
      )

  -- Where both limits allow a call at all, the check at admission passes exactly when a charge at
  -- the same time would be granted.
  pub check_provider_budget_iff :
      0 < limits.principal_calls
      → 0 < limits.tenant_calls
      → (check_provider_budget now p t limits db ≡ ok tt)
        ↔ ((db' : Db) × (charge_provider_call now p t limits db ≡ ok db'))
  check_provider_budget_iff hp ht = (forth, λ (db', h). back db' h)
    where
      w : ℕ
      w = current_window now limits.window_seconds

      forth :
          check_provider_budget now p t limits db ≡ ok tt
          → (db' : Db) × (charge_provider_call now p t limits db ≡ ok db')
      forth h =
          let (rp, rt) = check_room hp ht h in
          let (a, ea) = chargeable_of_lt w (principal p) limits.principal_calls db rp in
          let (b, eb) = chargeable_of_lt w (tenant t) limits.tenant_calls db rt in
          (
            record db { quotas = put_quota (bump b) (put_quota (bump a) db.quotas) },
            charge_of_rows a b ea eb,
          )

      back :
          (db' : Db)
          → charge_provider_call now p t limits db ≡ ok db'
          → check_provider_budget now p t limits db ≡ ok tt
      back db' h =
          let c = charge_provider_call-Charged db' h in
          check_of_room hp ht c.principal_room c.tenant_room
