-- ===== src/Audit/Batch.antt =====
-- What one batch of the audit purge removes and what it keeps: `purge_batch` of
-- security/audit_retention.py.
use Prim.Native.Nat.{ℕ, zero, suc, ◌+◌, ◌≤◌}
use mathlib.Core.Path.{◌≡◌, refl, ap, ◌∙◌}
use mathlib.Core.Logic.{inl, inr}
use mathlib.Core.Bool.{Bool, not}
use mathlib.Core.List.{List, [], ◌∷◌}
use mathlib.Core.Option.{none, some}
use native.Mathlib.Omega.{arith}
use agent_reliability_runtim.Prelude.Tests.{ltb, Bool-cases, Option-cases}
use agent_reliability_runtim.Prelude.Lists.{count, where_rows}
use agent_reliability_runtim.Audit.{AuditEvent, is_expired, oldest_of, take_oldest, purge_batch}

abbrev pub is_recent : ℕ → AuditEvent → Bool
is_recent cutoff e = not (is_expired cutoff e)

-- What removing `n` expired rows does to a table.
pub record Removed (cutoff n : ℕ) (events after : List AuditEvent) : Type 0 where
  pub fewer : count (is_expired cutoff) events ≡ n + count (is_expired cutoff) after
  pub kept : where_rows (is_recent cutoff) after ≡ where_rows (is_recent cutoff) events

module _ (cutoff : ℕ) where
  none_left :
      (events : List AuditEvent)
      → take_oldest cutoff events ≡ none
      → count (is_expired cutoff) events ≡ 0
  unfolding take_oldest
  none_left [] h = refl
  none_left (e ∷ events) h = elim (Bool-cases (is_expired cutoff e)) [
    | inl old ↦ absurd (let found = rw old at h in cc found)
    | inr new ↦ elim (Option-cases (take_oldest cutoff events)) [
      | inl nothing ↦ rw (new, none_left events nothing) refl
      | inr (found, e₁) ↦ absurd (let found = rw (new, e₁) at h in cc found)
    ]
  ]

  -- One expired row goes.
  Removed-one :
      (events : List AuditEvent) (found : AuditEvent × List AuditEvent)
      → take_oldest cutoff events ≡ some found
      → Removed cutoff 1 events found.1
  unfolding take_oldest oldest_of
  Removed-one [] found h = cc
  Removed-one (e ∷ events) found h = elim (Bool-cases (is_expired cutoff e)) [
    | inl old ↦ elim (Option-cases (take_oldest cutoff events)) [
      | inl nothing ↦
          let left : events ≡ found.1 = cc (rw (old, nothing) at h) in
          rw (← left) (record { fewer = rw old refl; kept = rw old refl })
      | inr (f, e₁) ↦
          let below = Removed-one events f e₁ in
          elim (Bool-cases (ltb f.0.created_at e.created_at)) [
            | inl b ↦
                let left : (e ∷ f.1) ≡ found.1 = cc (rw (old, e₁, b) at h) in
                rw (← left)
                  (record { fewer = rw old (omega (arith, below.fewer)); kept = rw old below.kept })
            | inr b ↦
                let left : events ≡ found.1 = cc (rw (old, e₁, b) at h) in
                rw (← left) (record { fewer = rw old refl; kept = rw old refl })
          ]
    ]
    | inr new ↦ elim (Option-cases (take_oldest cutoff events)) [
      | inl nothing ↦ absurd (let found = rw (new, nothing) at h in cc found)
      | inr (f, e₁) ↦
          let below = Removed-one events f e₁ in
          let left : (e ∷ f.1) ≡ found.1 = cc (rw (new, e₁) at h) in
          rw (← left) (record {
            fewer = rw new (omega (arith, below.fewer));
            kept = rw new (ap (λ rows. e ∷ rows) below.kept);
          })
    ]
  ]

  pub purge_batch-Removed :
      (batch_size : ℕ) (events : List AuditEvent)
      → let batch = purge_batch cutoff batch_size events in Removed cutoff batch.0 events batch.1
  unfolding purge_batch
  purge_batch-Removed zero events = record { fewer = omega arith; kept = refl }
  purge_batch-Removed (suc batch_size) events = elim (Option-cases (take_oldest cutoff events)) [
    | inl nothing ↦ rw (nothing, purge_batch) (record { fewer = omega arith; kept = refl })
    | inr (found, e) ↦
        let one = Removed-one events found e in
        let more = purge_batch-Removed batch_size found.1 in
        rw (e, purge_batch)
          (record { fewer = omega (arith, one.fewer, more.fewer); kept = more.kept ∙ one.kept })
  ]

  pub purge_batch-le :
      (batch_size : ℕ) (events : List AuditEvent)
      → (purge_batch cutoff batch_size events).0 ≤ batch_size
  unfolding purge_batch
  purge_batch-le zero events = omega arith
  purge_batch-le (suc batch_size) events = elim (Option-cases (take_oldest cutoff events)) [
    | inl nothing ↦ rw (nothing, purge_batch) (omega arith)
    | inr (found, e) ↦ rw (e, purge_batch) (omega (arith, purge_batch-le batch_size found.1))
  ]

  -- A batch that removes nothing found nothing to remove.
  pub purge_batch-none :
      (batch_size : ℕ) (events : List AuditEvent)
      → 1 ≤ batch_size
      → (purge_batch cutoff batch_size events).0 ≡ 0
      → count (is_expired cutoff) events ≡ 0
  unfolding purge_batch
  purge_batch-none zero events low h = absurd (omega (arith, low))
  purge_batch-none (suc batch_size) events low h = elim (Option-cases (take_oldest cutoff events)) [
    | inl nothing ↦ none_left events nothing
    | inr (found, e) ↦ absurd (let more = rw (e, purge_batch) at h in omega (arith, more))
  ]
