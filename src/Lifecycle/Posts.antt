-- ===== src/Lifecycle/Posts.antt =====
-- What a move does to the outbox: it takes no delivery back, and a run that it queues has one waiting.
use agent_reliability_runtim.Prelude.{
  ◌≤◌, ◌≡◌, ◌≢◌, Bool, true, false, ◌&&◌, none, some, [], ◌∷◌, ◌++◌, arith, ◌==◌, count,
  count-append,
}
use agent_reliability_runtim.Domain.States.{queued}
use agent_reliability_runtim.Store.{Uuid, Run, Delivery, OutboxEvent, Db}

abbrev pub is_queued_delivery : Delivery → Bool
is_queued_delivery (Delivery.run_queued _) = true
is_queued_delivery (Delivery.run_dead_lettered _) = false

abbrev is_unpublished : OutboxEvent → Bool
is_unpublished e = elim e.published_at [ none ↦ true | some _ ↦ false ]

-- A delivery of a queued run that the broker has not got yet.
abbrev pub pending : Uuid → OutboxEvent → Bool
pending id e = e.aggregate_id == id && is_queued_delivery e.delivery && is_unpublished e

pub record Posts (db : Db) (new : Run) (db' : Db) : Type 0 where
  pub kept : (id : Uuid) → count (pending id) db.outbox ≤ count (pending id) db'.outbox
  pub sent : new.execution_status ≡ queued → 1 ≤ count (pending new.id) db'.outbox

module _ (db : Db) (new : Run) (db' : Db) where
  pub Posts-quiet : db'.outbox ≡ db.outbox → new.execution_status ≢ queued → Posts db new db'
  Posts-quiet e h = record { kept = λ id. rw e (omega arith); sent = λ q. absurd (h q) }

  pub Posts-more :
      (e : OutboxEvent)
      → db'.outbox ≡ db.outbox ++ e ∷ []
      → new.execution_status ≢ queued
      → Posts db new db'
  Posts-more e same h = record {
    kept = λ id. rw same (omega (arith, count-append (pending id) db.outbox (e ∷ [])));
    sent = λ q. absurd (h q);
  }

  pub Posts-sent :
      (e : OutboxEvent)
      → db'.outbox ≡ db.outbox ++ e ∷ []
      → pending new.id e ≡ true
      → Posts db new db'
  Posts-sent e same h = record {
    kept = λ id. rw same (omega (arith, count-append (pending id) db.outbox (e ∷ [])));
    sent = λ _. rw same (ground (arith, count-append (pending new.id) db.outbox (e ∷ []), h));
  }

pub Posts-of_same :
    (db : Db) (new : Run) (mid db' : Db)
    → db'.outbox ≡ mid.outbox
    → Posts db new mid
    → Posts db new db'
Posts-of_same db new mid db' e p = record {
  kept = λ id. rw e (p.kept id);
  sent = λ q. rw e (p.sent q);
}
