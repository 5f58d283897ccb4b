-- ===== src/Scenario/Audits.antt =====
-- A purge of five audit rows in batches of two, for the theorem of security/audit_retention.py.
use Prim.Native.Nat.{ℕ, ◌+◌}
use mathlib.Core.Path.{◌≡◌, refl}
use mathlib.Core.Bool.{true, false}
use mathlib.Core.Logic.{◌⊎◌}
use mathlib.Core.List.{List, [], ◌∷◌}
use mathlib.Core.Option.{none, some}
use native.Mathlib.Omega.{arith}
use agent_reliability_runtim.Prelude.Result.{ok}
use agent_reliability_runtim.Audit.{
  AuditEvent, PurgeReport, Settings, day, resolve_cutoff, count_expired, purge_expired_audit_events,
  purge_loop, purge_batch, take_oldest, oldest_of, first_report,
}
use agent_reliability_runtim.Json.{pos}
use agent_reliability_runtim.Audit.Command.{
  Args, Ending, usage_error, printed, main, IsAsked, Unasked, main_cases,
}
use agent_reliability_runtim.Audit.Purge.{IsPurge, purge_expired_audit_events-IsPurge}

abbrev event : ℕ → ℕ → AuditEvent
event id created_at = record { id = id; created_at = created_at }

abbrev events : List AuditEvent
events = event 1 30 ∷ event 2 5000 ∷ event 3 10 ∷ event 4 20 ∷ event 5 9000 ∷ []

abbrev settings : Settings
settings = record { audit_retention_days = some 1; audit_purge_batch_size = 2 }

purge_run :
    purge_expired_audit_events 4 settings false none (day + 1000) events
    ≡ ok (
        some (
          record {
            dry_run = false;
            cutoff = 1000;
            retention_days = 1;
            batch_size = 2;
            eligible = 3;
            deleted = 3;
            batches = 2 ∷ 1 ∷ [];
            stopped_early = false;
          },
          event 2 5000 ∷ event 5 9000 ∷ [],
        ))
unfolding purge_expired_audit_events purge_loop purge_batch take_oldest oldest_of first_report
    resolve_cutoff count_expired
purge_run = refl

purge_expired_audit_events_example :
    (out : PurgeReport × List AuditEvent) × (purge_expired_audit_events 4 settings false none
        (day + 1000)
        events
      ≡ ok (some out))
    × IsPurge settings 1000 false none events out.1 out.0
unfolding resolve_cutoff count_expired
purge_expired_audit_events_example =
    purge_expired_audit_events-IsPurge 4 settings false none (day + 1000) 1000 events (omega arith)
      refl (omega arith)

abbrev args : Args
args = record { apply = true; confirm_retention_days = some (pos 1); max_batches = none }

main_cases_example :
    (out : Ending × List AuditEvent) × (main 6 args settings (day + 1000) events ≡ some out)
    × (((out.0 ≡ usage_error) × (out.1 ≡ events) × Unasked args settings)
        ⊎ ((report : PurgeReport) × (out.0 ≡ printed report)
            × IsAsked args settings (day + 1000) events out.1 report))
main_cases_example = main_cases 6 args settings (day + 1000) events (omega arith) (omega arith)

-- Another horizon than the configured one is refused.
main_refuses :
    main 6 (record args { confirm_retention_days = some (pos 2) }) settings (day + 1000) events
    ≡ some (usage_error, events)
unfolding main
main_refuses = refl
