-- ===== src/System/Keeps.antt =====
-- The limits of the quotas and the rows that agree with their status, across one move and one
-- addition.
use agent_reliability_runtim.Prelude.{
  ◌≤◌, ◌<◌, String, ◌≡◌, refl, sym, ◌∙◌, subst, ◌&&◌, none, some, [], ◌∷◌, ◌++◌, arith, inl, inr,
  is_text, str_eq, eq_iff, count, first_row, All-insert,
}
use agent_reliability_runtim.Domain.States.{running, same_status, same_status-eq}
use agent_reliability_runtim.Store.{Run, Db}
use agent_reliability_runtim.Quotas.{is_active, count_principal_active, count_tenant_active}
use agent_reliability_runtim.Execution.Common.{ExecutionConfig, or_default}
use agent_reliability_runtim.Execution.Claim.{count_principal_running, count_tenant_running}
use agent_reliability_runtim.Runs.{has_key, find_by_idempotency_key}
use agent_reliability_runtim.Lifecycle.{Moves}
use agent_reliability_runtim.Execution.Frames.{All-find_run}
use agent_reliability_runtim.Lifecycle.Writes.{Writes, All-Writes}
use agent_reliability_runtim.Lifecycle.Leases.{HasRoom}
use agent_reliability_runtim.Lifecycle.Rows.{
  Moves-SameRequest, IsConsistent, IsConsistent-blind, Moves-IsConsistent,
}
use agent_reliability_runtim.System.Change.{Admitted}
use agent_reliability_runtim.System.Marks.{count-first_row}
use agent_reliability_runtim.System.Limits.{
  &&-both, HasPrincipal, Invariant, Moves-HasPrincipal, Moves-active, count-added, count-moved,
  is_text-eq,
}

module _ (cfg : ExecutionConfig) (db db' : Db) (i : Invariant cfg db) where
  module _ (old new : Run) (m : Moves old new) (w : Writes db old new db')
      (room : new.execution_status ≡ running → HasRoom cfg old db) where
    tenant_running-moved : (t : String) → count_tenant_running t db' ≤ cfg.quotas.tenant_running
    unfolding count_tenant_running
    tenant_running-moved t =
        count-moved (λ r. str_eq r.client_id t && same_status r.execution_status running)
          (λ r s. refl) cfg.quotas.tenant_running old new db db' w
          (λ on.
            let (mine, held) =
              &&-both (str_eq new.client_id t) (same_status new.execution_status running) on in
            let name : old.client_id ≡ t =
              sym (Moves-SameRequest old new m).client_id ∙ (eq_iff new.client_id t).0 mine in
            inr (
              subst (λ c. count_tenant_running c db < cfg.quotas.tenant_running) name
                (room (same_status-eq new.execution_status running held)).tenant_room))
          (i.tenant_running t)

    principal_running-moved :
        (p : String) → count_principal_running p db' ≤ cfg.quotas.principal_running
    unfolding count_principal_running
    principal_running-moved p =
        count-moved (λ r. is_text r.principal_id p && same_status r.execution_status running)
          (λ r s. refl) cfg.quotas.principal_running old new db db' w
          (λ on.
            let (mine, held) =
              &&-both (is_text new.principal_id p) (same_status new.execution_status running) on in
            let name : some (or_default old.principal_id old.client_id) ≡ some p =
              sym (All-find_run HasPrincipal old.id db old i.named w.found)
              ∙ sym (Moves-SameRequest old new m).principal_id
              ∙ is_text-eq new.principal_id p mine in
            inr (
              subst (λ c. count_principal_running c db < cfg.quotas.principal_running)
                (ground arith)
                (room (same_status-eq new.execution_status running held)).principal_room))
          (i.principal_running p)

    tenant_active-moved : (t : String) → count_tenant_active t db' ≤ cfg.quotas.tenant_active
    unfolding count_tenant_active is_active
    tenant_active-moved t =
        let same = Moves-SameRequest old new m in
        count-moved (λ r. str_eq r.client_id t && is_active r) (λ r s. refl)
          cfg.quotas.tenant_active old new db db' w
          (λ on. inl (rw (Moves-active old new m, ← same.client_id) (ground arith)))
          (i.tenant_active t)

    principal_active-moved :
        (p : String) → count_principal_active p db' ≤ cfg.quotas.principal_active
    unfolding count_principal_active is_active
    principal_active-moved p =
        let same = Moves-SameRequest old new m in
        count-moved (λ r. is_text r.principal_id p && is_active r) (λ r s. refl)
          cfg.quotas.principal_active old new db db' w
          (λ on. inl (rw (Moves-active old new m, ← same.principal_id) (ground arith)))
          (i.principal_active p)

    one_per_key-moved : (c k : String) → count (has_key c k) db'.runs ≤ 1
    unfolding has_key
    one_per_key-moved c k =
        let same = Moves-SameRequest old new m in
        count-moved (has_key c k) (λ r s. refl) 1 old new db db' w
          (λ on. inl (rw (same.client_id, same.idempotency_key) at on)) (i.one_per_key c k)

    pub Invariant-moved : Invariant cfg db'
    Invariant-moved = record {
      rows =
          All-Writes db old new db' w IsConsistent IsConsistent-blind (Moves-IsConsistent old new m)
            i.rows;
      named =
          All-Writes db old new db' w HasPrincipal (λ r s h. h) (Moves-HasPrincipal old new m)
            i.named;
      tenant_running = tenant_running-moved;
      principal_running = principal_running-moved;
      tenant_active = tenant_active-moved;
      principal_active = principal_active-moved;
      one_per_key = one_per_key-moved;
    }

  module _ (run : Run) (a : Admitted cfg db run) (e : db'.runs ≡ db.runs ++ run ∷ []) where
    tenant_running-added : (t : String) → count_tenant_running t db' ≤ cfg.quotas.tenant_running
    unfolding count_tenant_running same_status
    tenant_running-added t =
        count-added (λ r. str_eq r.client_id t && same_status r.execution_status running)
          cfg.quotas.tenant_running run db.runs db'.runs e (λ on. absurd (ground (arith, a.waits)))
          (i.tenant_running t)

    principal_running-added :
        (p : String) → count_principal_running p db' ≤ cfg.quotas.principal_running
    unfolding count_principal_running same_status
    principal_running-added p =
        count-added (λ r. is_text r.principal_id p && same_status r.execution_status running)
          cfg.quotas.principal_running run db.runs db'.runs e
          (λ on. absurd (ground (arith, a.waits))) (i.principal_running p)

    tenant_active-added : (t : String) → count_tenant_active t db' ≤ cfg.quotas.tenant_active
    unfolding count_tenant_active
    tenant_active-added t =
        count-added (λ r. str_eq r.client_id t && is_active r) cfg.quotas.tenant_active run db.runs
          db'.runs e
          (λ on.
            subst (λ c. count_tenant_active c db < cfg.quotas.tenant_active)
              ((eq_iff run.client_id t).0 (&&-both (str_eq run.client_id t) (is_active run) on).0)
              a.tenant_room)
          (i.tenant_active t)

    principal_active-added :
        (p : String) → count_principal_active p db' ≤ cfg.quotas.principal_active
    unfolding count_principal_active
    principal_active-added p =
        count-added (λ r. is_text r.principal_id p && is_active r) cfg.quotas.principal_active run
          db.runs db'.runs e
          (λ on.
            let name : some (or_default run.principal_id run.client_id) ≡ some p =
              sym a.named
              ∙ is_text-eq run.principal_id p
                  (&&-both (is_text run.principal_id p) (is_active run) on).0 in
            subst (λ c. count_principal_active c db < cfg.quotas.principal_active) (ground arith)
              a.principal_room)
          (i.principal_active p)

    one_per_key-added : (c k : String) → count (has_key c k) db'.runs ≤ 1
    unfolding has_key find_by_idempotency_key
    one_per_key-added c k =
        count-added (has_key c k) 1 run db.runs db'.runs e
          (λ on.
            let (ec, ek) = &&-both (str_eq run.client_id c) (str_eq run.idempotency_key k) on in
            let unused : first_row (has_key c k) db.runs ≡ none =
              rw (← (eq_iff run.client_id c).0 ec, ← (eq_iff run.idempotency_key k).0 ek)
                a.unused in
            let nothing = count-first_row (has_key c k) db.runs unused in ground (arith, nothing))
          (i.one_per_key c k)

    pub Invariant-added : Invariant cfg db'
    Invariant-added = record {
      rows = rw e (All-insert IsConsistent db.runs run i.rows a.consistent);
      named = rw e (All-insert HasPrincipal db.runs run i.named a.named);
      tenant_running = tenant_running-added;
      principal_running = principal_running-added;
      tenant_active = tenant_active-added;
      principal_active = principal_active-added;
      one_per_key = one_per_key-added;
    }
