-- ===== src/System/Invariant.antt =====
-- What holds of the tables after any sequence of steps: the limits on running and active runs, one
-- run for a key, and columns that agree with the status.
use agent_reliability_runtim.Prelude.{◌≡◌, refl, ◌&&◌, arith, is_text, str_eq}
use agent_reliability_runtim.Domain.States.{running, same_status}
use agent_reliability_runtim.Store.{Db}
use agent_reliability_runtim.Quotas.{is_active, count_principal_active, count_tenant_active}
use agent_reliability_runtim.Execution.Common.{ExecutionConfig}
use agent_reliability_runtim.Execution.Claim.{count_principal_running, count_tenant_running}
use agent_reliability_runtim.Runs.{has_key}
use agent_reliability_runtim.Lifecycle.Rows.{IsConsistent, IsConsistent-blind}
use agent_reliability_runtim.System.{Deployment, Step, Reach, here, next, empty}
use agent_reliability_runtim.System.Change.{Change, same_runs, moved, judged, added}
use agent_reliability_runtim.System.Marks.{Marks, count-Marks, All-Marks}
use agent_reliability_runtim.System.Steps.{Step-Change}
use agent_reliability_runtim.System.Limits.{HasPrincipal, Invariant}
use agent_reliability_runtim.System.Keeps.{Invariant-added, Invariant-moved}

Invariant-same_runs :
    (cfg : ExecutionConfig) (db db' : Db)
    → Invariant cfg db
    → db'.runs ≡ db.runs
    → Invariant cfg db'
unfolding count_tenant_running count_principal_running count_tenant_active count_principal_active
Invariant-same_runs cfg db db' i e = record {
  rows = rw e i.rows;
  named = rw e i.named;
  tenant_running = rw e i.tenant_running;
  principal_running = rw e i.principal_running;
  tenant_active = rw e i.tenant_active;
  principal_active = rw e i.principal_active;
  one_per_key = rw e i.one_per_key;
}

Invariant-marked :
    (cfg : ExecutionConfig) (db mid : Db) → Marks db mid → Invariant cfg db → Invariant cfg mid
unfolding count_tenant_running count_principal_running count_tenant_active count_principal_active
    has_key is_active
Invariant-marked cfg db mid k i = record {
  rows = All-Marks db mid k IsConsistent IsConsistent-blind i.rows;
  named = All-Marks db mid k HasPrincipal (λ r s h. h) i.named;
  tenant_running = λ t.
      rw
        (count-Marks db mid k (λ r. str_eq r.client_id t && same_status r.execution_status running)
          (λ r s. refl))
        (i.tenant_running t);
  principal_running = λ p.
      rw
        (count-Marks db mid k
          (λ r. is_text r.principal_id p && same_status r.execution_status running) (λ r s. refl))
        (i.principal_running p);
  tenant_active = λ t.
      rw (count-Marks db mid k (λ r. str_eq r.client_id t && is_active r) (λ r s. refl))
        (i.tenant_active t);
  principal_active = λ p.
      rw (count-Marks db mid k (λ r. is_text r.principal_id p && is_active r) (λ r s. refl))
        (i.principal_active p);
  one_per_key =
      λ c key. rw (count-Marks db mid k (has_key c key) (λ r s. refl)) (i.one_per_key c key);
}

pub Invariant-Change :
    (cfg : ExecutionConfig) (db db' : Db) → Change cfg db db' → Invariant cfg db → Invariant cfg db'
Invariant-Change cfg db db' (same_runs e _ _ _) i = Invariant-same_runs cfg db db' i e
Invariant-Change cfg db db' (moved old new m w _ _ room) i =
    Invariant-moved cfg db db' i old new m w room
Invariant-Change cfg db db' (judged mid job k a e _ _ _) i =
    Invariant-added cfg mid db' (Invariant-marked cfg db mid k i) job a e
Invariant-Change cfg db db' (added run a e _ _ _) i = Invariant-added cfg db db' i run a e

-- Every step keeps the invariant.
pub Step-Invariant :
    (d : Deployment) (db db' : Db) → Step d db db' → Invariant d.config db → Invariant d.config db'
Step-Invariant d db db' step i = Invariant-Change d.config db db' (Step-Change d db db' step) i

empty-Invariant : (cfg : ExecutionConfig) → Invariant cfg empty
unfolding count_tenant_running count_principal_running count_tenant_active count_principal_active
empty-Invariant cfg = record {
  rows = tt;
  named = tt;
  tenant_running = λ t. omega arith;
  principal_running = λ p. omega arith;
  tenant_active = λ t. omega arith;
  principal_active = λ p. omega arith;
  one_per_key = λ c k. omega arith;
}

-- From a database without rows, whatever the order of committed transactions: no tenant and no
-- principal has more running or more active runs than its limit, a client has at most one run
-- under a key, every run names its principal, and the lease, retry and completion columns of every
-- run agree with its status.
pub Reach-Invariant : (d : Deployment) (db : Db) → Reach d empty db → Invariant d.config db
Reach-Invariant d db here = empty-Invariant d.config
Reach-Invariant d db (next {mid} before step) =
    Step-Invariant d mid db step (Reach-Invariant d mid before)
