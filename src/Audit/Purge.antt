-- ===== src/Audit/Purge.antt =====
-- The whole purge of the audit table, and what its report says: `purge_expired_audit_events` of
-- security/audit_retention.py.
use Prim.Native.Nat.{ℕ, zero, suc, ◌+◌, ◌≤◌, ◌<◌}
use mathlib.Core.Path.{◌≡◌, refl, ap, ◌∙◌}
use mathlib.Core.Logic.{inl, inr}
use mathlib.Core.Bool.{Bool, true, false}
use mathlib.Core.List.{List, [], ◌∷◌, ◌++◌}
use mathlib.Core.Option.{Option, none, some}
use native.Mathlib.Omega.{arith}
use agent_reliability_runtim.Prelude.Tests.{◌==◌, Bool-cases}
use agent_reliability_runtim.Prelude.Lists.{count, where_rows, All, All-insert}
use agent_reliability_runtim.Prelude.Result.{ok}
use agent_reliability_runtim.Audit.{
  AuditEvent, PurgeReport, Settings, is_expired, count_expired, purge_batch, may_continue,
  add_batch, purge_loop, first_report, resolve_cutoff, purge_expired_audit_events,
}
use agent_reliability_runtim.Audit.Batch.{
  is_recent, Removed, purge_batch-Removed, purge_batch-le, purge_batch-none,
}

unfoldable pub sum : List ℕ → ℕ
sum [] = 0
sum (n ∷ ns) = n + sum ns

sum-insert : (ns : List ℕ) (n : ℕ) → sum (ns ++ n ∷ []) ≡ sum ns + n
unfolding sum
sum-insert [] n = omega arith
sum-insert (m ∷ ns) n = omega (arith, sum-insert ns n)

-- What a report says of the table that the purge started from and of the one it left.
pub record IsAccount (cutoff size : ℕ) (limit : Option ℕ) (events after : List AuditEvent)
    (report : PurgeReport) : Type 0 where
  pub cutoff_same : report.cutoff ≡ cutoff
  pub size_same : report.batch_size ≡ size
  pub all_eligible : report.eligible ≡ count (is_expired cutoff) events
  pub spent : report.deleted + count (is_expired cutoff) after ≡ report.eligible
  pub kept : where_rows (is_recent cutoff) after ≡ where_rows (is_recent cutoff) events
  pub summed : sum report.batches ≡ report.deleted
  pub bounded : All (λ n. n ≤ size) report.batches
  pub unlimited : limit ≡ none → report.stopped_early ≡ false

module _ (cutoff size : ℕ) (limit : Option ℕ) (events : List AuditEvent) where
  add_batch-IsAccount :
      (report : PurgeReport) (now : List AuditEvent)
      → IsAccount cutoff size limit events now report
      → let batch = purge_batch report.cutoff report.batch_size now in
        IsAccount cutoff size limit events batch.1 (add_batch report batch.0)
  add_batch-IsAccount report now a =
      let done = purge_batch-Removed cutoff size now in
      let low = purge_batch-le cutoff size now in
      rw (a.cutoff_same, a.size_same)
        (record {
          cutoff_same = refl;
          size_same = refl;
          all_eligible = a.all_eligible;
          spent = omega (arith, a.spent, done.fewer);
          kept = done.kept ∙ a.kept;
          summed =
              sum-insert report.batches _ ∙ ap (λ n. n + (purge_batch cutoff size now).0) a.summed;
          bounded = All-insert (λ n. n ≤ size) report.batches _ a.bounded low;
          unlimited = a.unlimited;
        })

  IsAccount-kept :
      (report : PurgeReport) (now after : List AuditEvent)
      → IsAccount cutoff size limit events now report
      → count (is_expired cutoff) now ≡ count (is_expired cutoff) after
      → where_rows (is_recent cutoff) after ≡ where_rows (is_recent cutoff) now
      → IsAccount cutoff size limit events after report
  IsAccount-kept report now after a as_many same = record {
    cutoff_same = a.cutoff_same;
    size_same = a.size_same;
    all_eligible = a.all_eligible;
    spent = omega (arith, a.spent, as_many);
    kept = same ∙ a.kept;
    summed = a.summed;
    bounded = a.bounded;
    unlimited = a.unlimited;
  }

  -- With a unit of fuel for each expired row and one more, the loop ends.
  purge_loop-IsAccount :
      (fuel batches : ℕ) (report : PurgeReport) (now : List AuditEvent)
      → 1 ≤ size
      → count (is_expired cutoff) now < fuel
      → IsAccount cutoff size limit events now report
      → (out : PurgeReport × List AuditEvent) × (purge_loop fuel limit batches report now
          ≡ some out)
        × IsAccount cutoff size limit events out.1 out.0
        × (out.0.stopped_early ≡ false → count (is_expired cutoff) out.1 ≡ 0)
  unfolding purge_loop
  purge_loop-IsAccount zero batches report now low enough a = absurd (omega (arith, enough))
  purge_loop-IsAccount (suc fuel) batches report now low enough a =
      elim (Bool-cases (may_continue limit batches)) [
        | inr off ↦ (
          (record report { stopped_early = true }, now),
          rw (off, purge_loop) refl,
          record {
            cutoff_same = a.cutoff_same;
            size_same = a.size_same;
            all_eligible = a.all_eligible;
            spent = a.spent;
            kept = a.kept;
            summed = a.summed;
            bounded = a.bounded;
            unlimited = λ free. absurd (let on = rw free at off in cc on);
          },
          λ same. cc same,
        )
        | inl on ↦
            let batch : ℕ × List AuditEvent = purge_batch report.cutoff report.batch_size now in
            let next = add_batch-IsAccount report now a in
            let done : Removed cutoff batch.0 now batch.1 =
              rw (a.cutoff_same, a.size_same) (purge_batch-Removed cutoff size now) in
            let found_all : batch.0 ≡ 0 → count (is_expired cutoff) now ≡ 0 =
              rw (a.cutoff_same, a.size_same) (purge_batch-none cutoff size now low) in
            elim (Bool-cases (batch.0 == 0)) [
              | inl empty ↦
                  let nothing : batch.0 ≡ 0 = ground arith in
                  (
                    (report, batch.1),
                    rw (on, empty, purge_loop) refl,
                    IsAccount-kept report now batch.1 a (omega (arith, done.fewer, nothing))
                        done.kept,
                    λ _. omega (arith, done.fewer, found_all nothing),
                  )
              | inr some_left ↦
                  let something : 1 ≤ batch.0 = ground arith in
                  let less : count (is_expired cutoff) batch.1 < fuel =
                    omega (arith, done.fewer, enough, something) in
                  let (out, returns, account, clear) =
                    purge_loop-IsAccount fuel (suc batches) (add_batch report batch.0) batch.1 low
                      less next in
                  (out, rw (on, some_left, purge_loop) returns, account, clear)
            ]
      ]

-- What a purge comes to: its account, and how much it removed in each mode.
pub record IsPurge (settings : Settings) (cutoff : ℕ) (dry_run : Bool) (limit : Option ℕ)
    (events after : List AuditEvent) (report : PurgeReport) : Type 0 where
  pub account : IsAccount cutoff settings.audit_purge_batch_size limit events after report
  pub untouched : dry_run ≡ true → after ≡ events
  pub complete :
      dry_run ≡ false → report.stopped_early ≡ false → count (is_expired cutoff) after ≡ 0

first_report-IsAccount :
    (settings : Settings) (dry_run : Bool) (cutoff : ℕ) (limit : Option ℕ)
    (events : List AuditEvent)
    → IsAccount cutoff settings.audit_purge_batch_size limit events events
        (first_report settings dry_run cutoff events)
unfolding first_report count_expired sum
first_report-IsAccount settings dry_run cutoff limit events = record {
  cutoff_same = refl;
  size_same = refl;
  all_eligible = refl;
  spent = omega arith;
  kept = refl;
  summed = refl;
  bounded = tt;
  unlimited = λ _. refl;
}

-- With batches of one row or more, a configured horizon and fuel above the number of expired rows,
-- a purge returns: it keeps every recent row in place, its deletions and the expired rows left add
-- up to the eligible ones, its batches add up to its deletions and each is within the batch size,
-- it stops early only under a limit, a dry run leaves the table as it was, and an applied run that
-- did not stop early leaves no expired row.
pub purge_expired_audit_events-IsPurge :
    (fuel : ℕ) (settings : Settings) (dry_run : Bool) (limit : Option ℕ) (now cutoff : ℕ)
    (events : List AuditEvent)
    → 1 ≤ settings.audit_purge_batch_size
    → resolve_cutoff settings now ≡ ok cutoff
    → count_expired cutoff events < fuel
    → (out : PurgeReport × List AuditEvent) × (purge_expired_audit_events fuel settings dry_run
          limit now events
        ≡ ok (some out))
      × IsPurge settings cutoff dry_run limit events out.1 out.0
unfolding purge_expired_audit_events count_expired first_report
purge_expired_audit_events-IsPurge fuel settings true limit now cutoff events low resolved enough =
    let start = first_report-IsAccount settings true cutoff limit events in
    (
      (first_report settings true cutoff events, events),
      rw (resolved, purge_expired_audit_events) refl,
      record { account = start; untouched = λ _. refl; complete = λ wet. cc wet },
    )
purge_expired_audit_events-IsPurge fuel settings false limit now cutoff events low resolved enough =
    let start = first_report-IsAccount settings false cutoff limit events in
    elim (Bool-cases (count (is_expired cutoff) events == 0)) [
      | inl none_old ↦ (
        (first_report settings false cutoff events, events),
        rw (resolved, none_old, purge_expired_audit_events) refl,
        record { account = start; untouched = λ dry. cc; complete = λ _ _. ground arith },
      )
      | inr some_old ↦
          let (out, returns, account, clear) =
            purge_loop-IsAccount cutoff settings.audit_purge_batch_size limit events fuel 0
              (first_report settings false cutoff events) events low enough start in
          (
            out,
            rw (resolved, some_old, purge_expired_audit_events) (ap (λ purged. ok purged) returns),
            record { account = account; untouched = λ dry. cc; complete = λ _. clear },
          )
    ]
