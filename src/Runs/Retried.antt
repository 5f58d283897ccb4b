-- ===== src/Runs/Retried.antt =====
-- A client's second call of `submit` under a key that it has used.
use agent_reliability_runtim.Prelude.{
  String, ◌≡◌, ◌≢◌, refl, sym, ◌∙◌, Bool, true, false, none, some, List, [], ◌∷◌, ◌++◌, arith, inl,
  inr, eq_iff, first_row, Bool-cases,
}
use agent_reliability_runtim.Prelude.Result.{ok, raise, idempotency_conflict}
use agent_reliability_runtim.Json.{Json}
use agent_reliability_runtim.Quotas.{QuotaLimits}
use agent_reliability_runtim.Store.{Run, Db}
use agent_reliability_runtim.Runs.{
  RunSnapshot, to_run_snapshot, has_key, find_by_idempotency_key, match_or_raise, answer_existing,
  ApiEnv, Request, queued_run, request_hash, submit, submit_after_race,
  get_idempotent_run_after_race,
}
use agent_reliability_runtim.Runs.Submission.{submit_cases, accept-Enqueued}

-- A row added to a table without a fitting one is the first that fits.
first_row-append {ℓ} :
    {A : Type ℓ} (test : A → Bool) (xs : List A) (x : A)
    → first_row test xs ≡ none
    → test x ≡ true
    → first_row test (xs ++ x ∷ []) ≡ some x
first_row-append test [] x h t = rw t
first_row-append test (y ∷ ys) x h t = elim (Bool-cases (test y)) [
  | inl fits ↦ absurd (ground arith)
  | inr other ↦ rw other (first_row-append test ys x (rw other at h) t)
]

queued_run-has_key :
    (api : ApiEnv) (r : Request) (hash : String)
    → has_key r.client_id r.idempotency_key (queued_run api r hash) ≡ true
unfolding has_key queued_run
queued_run-has_key api r hash =
    ground (arith, eq_iff r.client_id r.client_id, eq_iff r.idempotency_key r.idempotency_key)

module _ (digest : Json → String) (quotas : QuotaLimits) (api : ApiEnv) (r : Request)
    (db : Db) where
  -- What a call that has returned leaves under its key.
  pub stored :
      (snap : RunSnapshot) (again : Bool) (db' : Db)
      → submit digest quotas api r db ≡ ok ((snap, again), db')
      → (run : Run) × (find_by_idempotency_key r.client_id r.idempotency_key db' ≡ some run)
        × (run.request_hash ≡ request_hash digest r)
        × (snap ≡ to_run_snapshot run)
  unfolding find_by_idempotency_key
  stored snap again db' h = elim (submit_cases digest quotas api r db snap again db' h) [
    | inl old ↦ (old.existing, rw old.kept old.found, old.same_hash, old.shown)
    | inr new ↦
        let run : Run = queued_run api r (request_hash digest r) in
        let rows : db'.runs ≡ db.runs ++ run ∷ [] =
          rw new.added ((accept-Enqueued api run db).one_run) in
        (
          run,
          rw rows (
              first_row-append (has_key r.client_id r.idempotency_key) db.runs run new.unused
                (queued_run-has_key api r (request_hash digest r))),
          unfold queued_run in refl,
          new.shown,
        )
  ]

pub submit_found :
    (digest : Json → String) (quotas : QuotaLimits) (api : ApiEnv) (r : Request) (db : Db)
    (run : Run)
    → find_by_idempotency_key r.client_id r.idempotency_key db ≡ some run
    → submit digest quotas api r db
      ≡ answer_existing run (match_or_raise run (request_hash digest r)) db
unfolding submit
submit_found digest quotas api r db run h = rw (h, submit)

pub match_or_raise_same :
    (run : Run) (h : String) → run.request_hash ≡ h → match_or_raise run h ≡ ok true
unfolding match_or_raise
match_or_raise_same run h e = ground (arith, eq_iff run.request_hash h)

match_or_raise_other :
    (run : Run) (h : String)
    → run.request_hash ≢ h
    → match_or_raise run h ≡ raise idempotency_conflict
unfolding match_or_raise
match_or_raise_other run h e = ground (arith, eq_iff run.request_hash h)

-- After a call of submit has returned, the same call at once, under any limits, returns the same
-- snapshot with True and writes nothing.
pub submit_again :
    (digest : Json → String) (quotas later_quotas : QuotaLimits) (api later : ApiEnv) (r : Request)
    (db : Db) (snap : RunSnapshot) (again : Bool) (db' : Db)
    → submit digest quotas api r db ≡ ok ((snap, again), db')
    → submit digest later_quotas later r db' ≡ ok ((snap, true), db')
submit_again digest quotas later_quotas api later r db snap again db' h =
    let (run, found, hash, shown) = stored digest quotas api r db snap again db' h in
    submit_found digest later_quotas later r db' run found
    ∙ (unfold answer_existing in rw (match_or_raise_same run (request_hash digest r) hash, shown))

-- After a call of submit has returned, a call of the same client under the same key whose request
-- has another hash is refused as a conflict.
pub submit_conflict :
    (digest : Json → String) (quotas : QuotaLimits) (api later : ApiEnv) (r other : Request)
    (db : Db) (snap : RunSnapshot) (again : Bool) (db' : Db)
    → other.client_id ≡ r.client_id
    → other.idempotency_key ≡ r.idempotency_key
    → request_hash digest other ≢ request_hash digest r
    → submit digest quotas api r db ≡ ok ((snap, again), db')
    → submit digest quotas later other db' ≡ raise idempotency_conflict
submit_conflict digest quotas api later r other db snap again db' ec ek differ h =
    let (run, found, hash, _) = stored digest quotas api r db snap again db' h in
    let at : find_by_idempotency_key other.client_id other.idempotency_key db' ≡ some run =
      rw (ec, ek) found in
    submit_found digest quotas later other db' run at
    ∙ (unfold answer_existing in
        rw (match_or_raise_other run (request_hash digest other) (λ e. differ (sym e ∙ hash))))

-- Of two racing calls with one request, the loser, in its handler of IntegrityError, returns the
-- winner's snapshot with True and writes nothing.
pub submit_after_race-winner :
    (digest : Json → String) (quotas : QuotaLimits) (api : ApiEnv) (r : Request) (db : Db)
    (snap : RunSnapshot) (db' : Db)
    → submit digest quotas api r db ≡ ok ((snap, false), db')
    → submit_after_race digest r db' ≡ ok ((snap, true), db')
unfolding answer_existing submit_after_race get_idempotent_run_after_race
submit_after_race-winner digest quotas api r db snap db' h =
    let (run, found, hash, shown) = stored digest quotas api r db snap false db' h in
    rw (found, submit_after_race, get_idempotent_run_after_race)
      (rw (match_or_raise_same run (request_hash digest r) hash, shown))
