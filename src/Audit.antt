-- ===== src/Audit.antt =====
-- security/audit_retention.py: what ages rows out of `security_audit_events`. The table is the
-- list of its rows in the order the heap holds them; a time is a number of microseconds. The loop
-- runs on fuel. One purge is modelled with nothing else writing to the table meanwhile.
pub mod Batch
pub mod Purge
pub mod Command
use Prim.Native.Nat.{ℕ, zero, suc, ◌+◌, ◌*◌, ◌-◌}
use mathlib.Core.Bool.{Bool, true, false}
use mathlib.Core.List.{List, [], ◌∷◌, ◌++◌}
use mathlib.Core.Option.{Option, none, some, map}
use agent_reliability_runtim.Prelude.Tests.{ltb, ◌==◌, if◌then◌else◌}
use agent_reliability_runtim.Prelude.Lists.{count}
use agent_reliability_runtim.Prelude.Result.{Result, raise, ok, retention_disabled, ◌>>=◌}

-- The columns that the purge reads: the row's key and its age.
pub record AuditEvent : Type 0 where
  pub id : ℕ
  pub created_at : ℕ

-- The settings that the purge reads.
pub record Settings : Type 0 where
  pub audit_retention_days : Option ℕ
  pub audit_purge_batch_size : ℕ

pub record PurgeReport : Type 0 where
  pub dry_run : Bool
  pub cutoff : ℕ
  pub retention_days : ℕ
  pub batch_size : ℕ
  pub eligible : ℕ
  pub deleted : ℕ
  pub batches : List ℕ
  pub stopped_early : Bool

abbrev pub day : ℕ
day = 86400000000

unfoldable pub resolve_cutoff : Settings → ℕ → Result ℕ
resolve_cutoff settings now = elim settings.audit_retention_days [
  | none ↦ raise retention_disabled
  | some days ↦ ok (now - days * day)
]

-- `created_at < :cutoff`
abbrev pub is_expired : ℕ → AuditEvent → Bool
is_expired cutoff e = ltb e.created_at cutoff

unfoldable pub count_expired : ℕ → List AuditEvent → ℕ
count_expired cutoff events = count (is_expired cutoff) events

-- The older of a row and one found after it, with the other rows. Equal ages keep heap order.
unfoldable pub oldest_of :
    AuditEvent → List AuditEvent → AuditEvent × List AuditEvent → AuditEvent × List AuditEvent
oldest_of e events (o, rest) = if ltb o.created_at e.created_at then (o, e ∷ rest) else (e, events)

-- `WHERE created_at < :cutoff ORDER BY created_at LIMIT 1`, with the rows that it leaves.
unfoldable pub take_oldest : ℕ → List AuditEvent → Option (AuditEvent × List AuditEvent)
take_oldest cutoff [] = none
take_oldest cutoff (e ∷ events) =
    let later = take_oldest cutoff events in
    if is_expired cutoff e
    then some (elim later [ none ↦ (e, events) | some found ↦ oldest_of e events found ])
    else map (λ (found : AuditEvent × List AuditEvent). (found.0, e ∷ found.1)) later

-- The row count of the statement, and the table after it.
unfoldable pub purge_batch : ℕ → ℕ → List AuditEvent → ℕ × List AuditEvent
purge_batch cutoff zero events = (0, events)
purge_batch cutoff (suc batch_size) events = elim (take_oldest cutoff events) [
  | none ↦ (0, events)
  | some found ↦ let removed = purge_batch cutoff batch_size found.1 in (suc removed.0, removed.1)
]

-- `max_batches is None or batches < max_batches`
abbrev pub may_continue : Option ℕ → ℕ → Bool
may_continue none batches = true
may_continue (some max_batches) batches = ltb batches max_batches

abbrev pub add_batch : PurgeReport → ℕ → PurgeReport
add_batch report removed = record report {
  deleted = report.deleted + removed;
  batches = report.batches ++ removed ∷ [];
}

-- The loop of `purge_expired_audit_events`; `none` is out of fuel.
unfoldable pub purge_loop :
    ℕ → Option ℕ → ℕ → PurgeReport → List AuditEvent → Option (PurgeReport × List AuditEvent)
purge_loop zero max_batches batches report events = none
purge_loop (suc fuel) max_batches batches report events =
    let batch = purge_batch report.cutoff report.batch_size events in
    let rest = purge_loop fuel max_batches (suc batches) (add_batch report batch.0) batch.1 in
    if may_continue max_batches batches
    then if batch.0 == 0 then some (report, batch.1) else rest
    else some (record report { stopped_early = true }, events)

unfoldable pub first_report : Settings → Bool → ℕ → List AuditEvent → PurgeReport
first_report settings dry_run cutoff events = record {
  dry_run = dry_run;
  cutoff = cutoff;
  retention_days = elim settings.audit_retention_days [ none ↦ 0 | some days ↦ days ];
  batch_size = settings.audit_purge_batch_size;
  eligible = count_expired cutoff events;
  deleted = 0;
  batches = [];
  stopped_early = false;
}

unfoldable pub purge_expired_audit_events :
    ℕ
    → Settings
    → Bool
    → Option ℕ
    → ℕ
    → List AuditEvent
    → Result (Option (PurgeReport × List AuditEvent))
purge_expired_audit_events fuel settings dry_run max_batches now events = do
  cutoff ← resolve_cutoff settings now
  let report = first_report settings dry_run cutoff events
  let purged = purge_loop fuel max_batches 0 report events
  ok (
      if dry_run
      then some (report, events)
      else (if report.eligible == 0 then some (report, events) else purged))
