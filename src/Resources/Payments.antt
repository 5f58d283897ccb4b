-- ===== src/Resources/Payments.antt =====
-- A call of the charging executor is paid for (src/agent_runtime/execution/resource_executor.py).
use agent_reliability_runtim.Prelude.{
  ℕ, suc, ◌≤◌, String, ◌≡◌, refl, true, some, List, [], ◌∷◌, leb, length, arith, inl, inr,
  Bool-cases, Option-cases,
}
use agent_reliability_runtim.Prelude.Result.{ok, Result-cases}
use agent_reliability_runtim.Json.{Fields, get}
use agent_reliability_runtim.Store.{Run, Db}
use agent_reliability_runtim.Quotas.{charge_provider_call}
use agent_reliability_runtim.Execution.Common.{
  or_default, find_run, find_attempt, owns_active_lease,
}
use agent_reliability_runtim.Resources.Charging.{
  World, ExecutorConfig, Job, Charge, Calls, is_open_attempt, charge, output_tokens, call_provider,
  charged_execute, start,
}

-- A charge that was committed while the worker held the lease of the run and its attempt was open.
pub record IsAuthorised (world : World) (config : ExecutorConfig) (job : Job) (c : Charge)
    : Type 0 where
  pub active : Run
  pub found : find_run job.run_id c.before ≡ some active
  pub open_attempt : is_open_attempt job (find_attempt job.attempt_id c.before) ≡ true
  pub leased : owns_active_lease active job.worker_id (world.now c.turn) ≡ true
  pub charged :
      charge_provider_call
        (world.epoch c.turn)
        (or_default active.principal_id active.client_id)
        active.client_id
        config.quotas
        c.before
      ≡ ok c.after

abbrev pub AllAuthorised : World → ExecutorConfig → Job → List Charge → Type 0
AllAuthorised world config job [] = Unit
AllAuthorised world config job (c ∷ cs) =
    IsAuthorised world config job c × AllAuthorised world config job cs

-- No more provider calls than charges, and no more charges than the budget.
pub record IsPaid (world : World) (config : ExecutorConfig) (job : Job) (s : Calls) : Type 0 where
  pub made : s.made ≤ length s.charges
  pub counted : length s.charges ≡ s.calls
  pub within : s.calls ≤ job.budget
  pub authorised : AllAuthorised world config job s.charges

module _ (world : World) (config : ExecutorConfig) (job : Job) where
  pub start-IsPaid : (db : Db) → IsPaid world config job (start db)
  unfolding start
  start-IsPaid db = record {
    made = omega arith;
    counted = refl;
    within = omega arith;
    authorised = tt;
  }

  pub charge-IsAuthorised :
      (turn : ℕ) (before after : Db)
      → charge config job (world.now turn) (world.epoch turn) before ≡ ok after
      → IsAuthorised world config job (record { turn = turn; before = before; after = after })
  unfolding charge
  charge-IsAuthorised turn before after h =
      elim (Bool-cases (is_open_attempt job (find_attempt job.attempt_id before))) [
        | inr shut ↦ absurd (let bad = rw shut at h in cc bad)
        | inl is_open ↦ elim (Option-cases (find_run job.run_id before)) [
          | inl missing ↦ absurd (let bad = rw (is_open, missing) at h in cc bad)
          | inr (active, e) ↦
              elim (Bool-cases (owns_active_lease active job.worker_id (world.now turn))) [
                | inr lost ↦ absurd (let bad = rw (is_open, e, lost) at h in cc bad)
                | inl held ↦ record {
                  active = active;
                  found = e;
                  open_attempt = is_open;
                  leased = held;
                  charged = rw (is_open, e, held) at h;
                }
              ]
        ]
      ]

  call_provider-IsPaid :
      (s : Calls) (provider : String) (input_payload policy_snapshot : Fields)
      → suc s.made ≤ length s.charges
      → IsPaid world config job s
      → IsPaid world config job
          (call_provider world config job s provider input_payload policy_snapshot).1
  unfolding call_provider
  call_provider-IsPaid s provider input_payload policy_snapshot room p =
      elim (Option-cases (
        output_tokens config.provider_max_output_tokens
          (get "max_output_tokens" policy_snapshot))) [
            | inl bad ↦
                rw (bad, call_provider)
                  (record {
                    made = p.made;
                    counted = p.counted;
                    within = p.within;
                    authorised = p.authorised;
                  })
            | inr (tokens, e) ↦
                rw (e, call_provider)
                  (record {
                    made = room;
                    counted = p.counted;
                    within = p.within;
                    authorised = p.authorised;
                  })
          ]

  pub charged_execute-IsPaid :
      (s : Calls) (provider : String) (input_payload policy_snapshot : Fields)
      → IsPaid world config job s
      → IsPaid world config job
          (charged_execute world config job s provider input_payload policy_snapshot).1
  unfolding charged_execute
  charged_execute-IsPaid s provider input_payload policy_snapshot p =
      let before = world.others s.turn s.db in
      elim (Bool-cases (leb job.budget s.calls)) [
        | inl spent ↦
            rw (spent, charged_execute)
              (record {
                made = p.made;
                counted = p.counted;
                within = p.within;
                authorised = p.authorised;
              })
        | inr left ↦
            elim (Result-cases (charge config job (world.now s.turn) (world.epoch s.turn) before)) [
              | inl (e, refused) ↦
                  rw (left, charged_execute, refused)
                    (record {
                      made = p.made;
                      counted = p.counted;
                      within = p.within;
                      authorised = p.authorised;
                    })
              | inr (after, charged) ↦
                  rw (left, charged_execute, charged)
                    (call_provider-IsPaid _ provider input_payload policy_snapshot
                      (omega (arith, p.made))
                      (record {
                        made = omega (arith, p.made);
                        counted = omega (arith, p.counted);
                        within = ground arith;
                        authorised =
                            (charge-IsAuthorised s.turn before after charged, p.authorised);
                      }))
            ]
      ]
