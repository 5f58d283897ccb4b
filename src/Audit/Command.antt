-- ===== src/Audit/Command.antt =====
-- The command of src/agent_runtime/security/audit_retention.py: `main` with its guards, and `_run`. The parser of the
-- command line, the engine and the text of the report are left out.
use agent_reliability_runtim.Prelude.{
  ℕ, ◌-◌, ◌*◌, ◌≤◌, ◌<◌, ◌≡◌, ◌≢◌, refl, ◌⊎◌, inl, inr, Bool, true, false, not, ◌&&◌, Option, none,
  some, List, [], ◌∷◌, ◌==◌, length, count, arith, Bool-cases, Option-cases, if◌then◌else◌,
}
use agent_reliability_runtim.Prelude.Result.{Result, Error, ok, raise, retention_disabled}
use agent_reliability_runtim.Json.{ℤ, pos, negsuc}
use agent_reliability_runtim.Audit.{
  AuditEvent, Settings, PurgeReport, day, is_expired, resolve_cutoff, count_expired,
  purge_expired_audit_events,
}
use agent_reliability_runtim.Audit.Purge.{IsPurge, purge_expired_audit_events-IsPurge}

pub record Args : Type 0 where
  pub apply : Bool
  pub confirm_retention_days : Option ℤ
  pub max_batches : Option ℤ

-- How the command ends: with a message of the parser and exit status 2, with an exception, or with
-- a report on its output.
pub data Ending : Type 0 where
  usage_error : Ending
  crashed : Error → Ending
  printed : PurgeReport → Ending

-- `args.confirm_retention_days == days`
unfoldable pub confirms : Option ℤ → ℕ → Bool
confirms (some (pos n)) days = n == days
confirms _ days = false

-- The two guards of `--apply`.
unfoldable pub is_refused : Args → Settings → Bool
unfolding confirms
is_refused args settings = args.apply && elim settings.audit_retention_days [
  | none ↦ true
  | some days ↦ not (confirms args.confirm_retention_days days)
]

-- No batch is below a negative limit, as none is below zero.
unfoldable pub batch_limit : Option ℤ → Option ℕ
batch_limit none = none
batch_limit (some (pos n)) = some n
batch_limit (some (negsuc n)) = some 0

unfoldable pub ending_of :
    Result (Option (PurgeReport × List AuditEvent))
    → List AuditEvent
    → Option (Ending × List AuditEvent)
ending_of (raise retention_disabled) events = some (usage_error, events)
ending_of (raise e) events = some (crashed e, events)
ending_of (ok none) events = none
ending_of (ok (some (report, after))) events = some (printed report, after)

-- `main`; `none` is out of fuel.
unfoldable pub main : ℕ → Args → Settings → ℕ → List AuditEvent → Option (Ending × List AuditEvent)
unfolding is_refused ending_of
main fuel args settings now events =
    if is_refused args settings
    then some (usage_error, events)
    else ending_of
        (purge_expired_audit_events fuel settings (not args.apply) (batch_limit args.max_batches)
          now events)
        events

count-le-length {ℓ} : {A : Type ℓ} (test : A → Bool) (xs : List A) → count test xs ≤ length xs
count-le-length test [] = omega arith
count-le-length test (x ∷ xs) = ground (arith, count-le-length test xs)

fuel_enough :
    (fuel cutoff : ℕ) (events : List AuditEvent)
    → length events < fuel
    → count_expired cutoff events < fuel
unfolding count_expired
fuel_enough fuel cutoff events h = omega (arith, h, count-le-length (is_expired cutoff) events)

resolved :
    (settings : Settings) (now days : ℕ)
    → settings.audit_retention_days ≡ some days
    → resolve_cutoff settings now ≡ ok (now - days * day)
unfolding resolve_cutoff
resolved settings now days set = rw set refl

confirmed :
    (confirm : Option ℤ) (days : ℕ) → confirms confirm days ≡ true → confirm ≡ some (pos days)
unfolding confirms
confirmed none days h = cc h
confirmed (some (pos n)) days h = ground arith
confirmed (some (negsuc n)) days h = cc h

unconfirmed :
    (confirm : Option ℤ) (days : ℕ) → confirms confirm days ≡ false → confirm ≢ some (pos days)
unfolding confirms
unconfirmed none days h e = cc e
unconfirmed (some (pos n)) days h e = ground arith
unconfirmed (some (negsuc n)) days h e = cc e

-- A purge that the operator has asked for: dry, or with the horizon restated.
pub record IsAsked (args : Args) (settings : Settings) (now : ℕ) (events after : List AuditEvent)
    (report : PurgeReport) : Type 0 where
  pub days : ℕ
  pub configured : settings.audit_retention_days ≡ some days
  pub asked : (args.apply ≡ false) ⊎ (args.confirm_retention_days ≡ some (pos days))
  pub purge :
      IsPurge settings
        (now - days * day)
        (not args.apply)
        (batch_limit args.max_batches)
        events
        after
        report

-- Why the command was refused.
abbrev pub Unasked : Args → Settings → Type 0
Unasked args settings =
    (settings.audit_retention_days ≡ none)
    ⊎ ((days : ℕ) × (settings.audit_retention_days ≡ some days)
        × (args.apply ≡ true)
        × (args.confirm_retention_days ≢ some (pos days)))

refused_unset :
    (fuel : ℕ) (args : Args) (settings : Settings) (now : ℕ) (events : List AuditEvent)
    → settings.audit_retention_days ≡ none
    → main fuel args settings now events ≡ some (usage_error, events)
unfolding main is_refused resolve_cutoff ending_of purge_expired_audit_events
refused_unset fuel args settings now events unset = elim (Bool-cases args.apply) [
  | inl on ↦ rw (unset, on) refl
  | inr off ↦ rw (unset, off) refl
]

-- A command that is not refused has been asked for.
asked_for :
    (args : Args) (settings : Settings) (days : ℕ)
    → settings.audit_retention_days ≡ some days
    → is_refused args settings ≡ false
    → (args.apply ≡ false) ⊎ (args.confirm_retention_days ≡ some (pos days))
unfolding is_refused
asked_for args settings days set kept = elim (Bool-cases args.apply) [
  | inr off ↦ inl off
  | inl on ↦ inr (confirmed args.confirm_retention_days days (ground (arith, rw (on, set) at kept)))
]

refused_set :
    (args : Args) (settings : Settings) (days : ℕ)
    → settings.audit_retention_days ≡ some days
    → is_refused args settings ≡ true
    → Unasked args settings
unfolding is_refused
refused_set args settings days set refused = elim (Bool-cases args.apply) [
  | inr off ↦ absurd (cc (rw off at refused))
  | inl on ↦ inr (
    days,
    set,
    on,
    unconfirmed args.confirm_retention_days days (ground (arith, rw (on, set) at refused)),
  )
]

-- With batches of one row or more, and more fuel than there are rows, the command ends: it refuses
-- its arguments and leaves the table as it is, where no horizon is configured or --apply does not
-- restate it, or it prints the report of a purge before the configured horizon, which is dry or
-- has been confirmed with that horizon.
pub main_cases :
    (fuel : ℕ) (args : Args) (settings : Settings) (now : ℕ) (events : List AuditEvent)
    → 1 ≤ settings.audit_purge_batch_size
    → length events < fuel
    → (out : Ending × List AuditEvent) × (main fuel args settings now events ≡ some out)
      × (((out.0 ≡ usage_error) × (out.1 ≡ events) × Unasked args settings)
          ⊎ ((report : PurgeReport) × (out.0 ≡ printed report)
              × IsAsked args settings now events out.1 report))
unfolding main ending_of
main_cases fuel args settings now events low enough =
    elim (Option-cases settings.audit_retention_days) [
      | inl unset ↦ (
        (usage_error, events),
        refused_unset fuel args settings now events unset,
        inl (refl, refl, inl unset),
      )
      | inr (days, set) ↦ elim (Bool-cases (is_refused args settings)) [
        | inl refused ↦ (
          (usage_error, events),
          rw refused refl,
          inl (refl, refl, refused_set args settings days set refused),
        )
        | inr kept ↦
            let cutoff = now - days * day in
            let (out, returns, purge) =
              purge_expired_audit_events-IsPurge fuel settings (not args.apply)
                (batch_limit args.max_batches) now cutoff events low
                (resolved settings now days set) (fuel_enough fuel cutoff events enough) in
            (
              (printed out.0, out.1),
              rw (kept, returns) refl,
              inr (
                out.0,
                refl,
                record {
                  days = days;
                  configured = set;
                  asked = asked_for args settings days set kept;
                  purge = purge;
                },
              ),
            )
      ]
    ]
