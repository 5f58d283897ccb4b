-- ===== src/System/Limits.antt =====
-- The limits of the quotas and the rows that agree with their status, as one property of the tables.
use agent_reliability_runtim.Prelude.{
  ℕ, ◌≤◌, ◌<◌, String, ◌≡◌, ap, Bool, true, ◌&&◌, Option, none, some, List, [], ◌∷◌, ◌++◌, arith,
  inl, inr, ◌⊎◌, is_text, eq_iff, count, count-append, All, Bool-cases,
}
use agent_reliability_runtim.Domain.States.{contains, same_status}
use agent_reliability_runtim.Store.{Run, Db}
use agent_reliability_runtim.Quotas.{is_active, count_principal_active, count_tenant_active}
use agent_reliability_runtim.Execution.Common.{ExecutionConfig, or_default}
use agent_reliability_runtim.Execution.Claim.{count_principal_running, count_tenant_running}
use agent_reliability_runtim.Runs.{has_key}
use agent_reliability_runtim.Lifecycle.{
  Moves, lease, postpone, reject, succeed, retry, give_up, break_off, enqueue,
}
use agent_reliability_runtim.Execution.Frames.{BlindTest}
use agent_reliability_runtim.Lifecycle.Writes.{Writes, count-Writes}
use agent_reliability_runtim.Lifecycle.Rows.{Moves-SameRequest, IsConsistent}

-- A stored run names its principal: the caller's, or the client itself.
abbrev pub HasPrincipal : Run → Type 0
HasPrincipal r = r.principal_id ≡ some (or_default r.principal_id r.client_id)

pub record Invariant (cfg : ExecutionConfig) (db : Db) : Type 0 where
  pub rows : All IsConsistent db.runs
  pub named : All HasPrincipal db.runs
  pub tenant_running : (t : String) → count_tenant_running t db ≤ cfg.quotas.tenant_running
  pub principal_running : (p : String) → count_principal_running p db ≤ cfg.quotas.principal_running
  pub tenant_active : (t : String) → count_tenant_active t db ≤ cfg.quotas.tenant_active
  pub principal_active : (p : String) → count_principal_active p db ≤ cfg.quotas.principal_active
  pub one_per_key : (client_id key : String) → count (has_key client_id key) db.runs ≤ 1

pub Moves-active : (old new : Run) → Moves old new → is_active old ≡ true
unfolding is_active contains same_status
Moves-active old new (lease cfg env worker_id s e) = ground arith
Moves-active old new (postpone env s e) = ground arith
Moves-active old new (reject env s e) = ground arith
Moves-active old new (succeed env result s e) = ground arith
Moves-active old new (retry env error_code delay s e) = ground arith
Moves-active old new (give_up env error_code s e) = ground arith
Moves-active old new (break_off env error_code s e) = ground arith
Moves-active old new (enqueue s e) = ground arith

pub Moves-HasPrincipal : (old new : Run) → Moves old new → HasPrincipal old → HasPrincipal new
Moves-HasPrincipal old new m h =
    let same = Moves-SameRequest old new m in rw (same.principal_id, same.client_id) h

-- A count that no move raises, unless there is room for one more.
pub count-moved :
    (test : Run → Bool) (blind : BlindTest test) (cap : ℕ) (old new : Run) (db db' : Db)
    → Writes db old new db'
    → (test new ≡ true → (test old ≡ true) ⊎ (count test db.runs < cap))
    → count test db.runs ≤ cap
    → count test db'.runs ≤ cap
count-moved test blind cap old new db db' w room h =
    let change = count-Writes db old new db' w test blind in
    elim (Bool-cases (test new)) [
      | inr off ↦ ground (arith, change)
      | inl on ↦ elim (room on) [
        | inl before ↦ ground (arith, change)
        | inr free ↦ ground (arith, change)
      ]
    ]

pub count-added :
    (test : Run → Bool) (cap : ℕ) (run : Run) (xs ys : List Run)
    → ys ≡ xs ++ run ∷ []
    → (test run ≡ true → count test xs < cap)
    → count test xs ≤ cap
    → count test ys ≤ cap
count-added test cap run xs ys e room h =
    let grown = count-append test xs (run ∷ []) in
    rw e (elim (Bool-cases (test run)) [
      | inl on ↦ let free = room on in ground (arith, grown)
      | inr off ↦ ground (arith, grown)
    ])

pub is_text-eq : (o : Option String) (s : String) → is_text o s ≡ true → o ≡ some s
is_text-eq none s h = ground arith
is_text-eq (some t) s h = ap some ((eq_iff t s).0 h)

pub &&-both : (a b : Bool) → (a && b) ≡ true → (a ≡ true) × (b ≡ true)
&&-both a b h = ground arith
