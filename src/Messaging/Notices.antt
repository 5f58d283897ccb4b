-- ===== src/Messaging/Notices.antt =====
-- How a worker comes to hear of a run, and that a dispatch takes no way of it.
use agent_reliability_runtim.Prelude
use agent_reliability_runtim.Prelude.{
  ℕ, ◌+◌, ◌≤◌, String, ◌≡◌, ◌≢◌, refl, sym, ap, ◌∙◌, subst, Bool, true, false, not, ◌&&◌, ◌⊎◌, inl,
  inr, Option, none, some, List, [], ◌∷◌, ◌++◌, arith, ◌==◌, leb, one_if, count, count-append,
  count-put, find_of_Mem, if◌then◌else◌, Memᴰ, Bool-cases, Option-cases,
}
use mathlib.Core.List.Memᴰ.{head, tail}
use agent_reliability_runtim.Store.{Uuid, OutboxEvent, Delivery, Db, Env, add_event}
use agent_reliability_runtim.Lifecycle.Posts.{pending, is_queued_delivery}
use agent_reliability_runtim.Messaging.{Message, Broker, destination_for, message_payload}
use agent_reliability_runtim.Messaging
use agent_reliability_runtim.Messaging.Dispatch.{
  DispatchResult, Publication, confirmed, failed, is_waiting, oldest_waiting, older, put_event,
  published, unpublished, settle_publication, dispatch_one,
}
use agent_reliability_runtim.Messaging.World.{OutboxKey}

abbrev pub names : Uuid → Message → Bool
names id m = m.run_id == id

-- The deliveries and messages by which a worker can come to hear of a run.
abbrev pub notices : Uuid → Db → Broker → ℕ
notices id db broker = count (pending id) db.outbox + count (names id) broker.execution

oldest_waiting-Mem :
    (env : Env) (events : List OutboxEvent) (e : OutboxEvent)
    → oldest_waiting env events ≡ some e
    → Memᴰ e events × (e.published_at ≡ none)
unfolding oldest_waiting older is_waiting
oldest_waiting-Mem env [] e h = cc
oldest_waiting-Mem env (x ∷ rest) e h = elim (Bool-cases (is_waiting env x)) [
  | inr other ↦ let (m, fresh) = oldest_waiting-Mem env rest e (rw other at h) in (tail m, fresh)
  | inl waits ↦ elim (Option-cases (oldest_waiting env rest)) [
    | inl nothing ↦ let same : e ≡ x = ground arith in (head same, rw same (ground arith))
    | inr (y, later) ↦ elim (Bool-cases (leb x.created_at y.created_at)) [
      | inl first ↦ let same : e ≡ x = ground arith in (head same, rw same (ground arith))
      | inr second ↦
          let same : e ≡ y = ground arith in
          let (m, fresh) = oldest_waiting-Mem env rest y later in rw same (tail m, fresh)
    ]
  ]
]

-- What the exchange does with a message, by its routing.
names-enqueue :
    (e : OutboxEvent) (broker : Broker) (kind : Delivery) (id : Uuid)
    → e.delivery ≡ kind
    → count (names id) (Messaging.enqueue e broker).execution
      ≡ count (names id) broker.execution + one_if (e.aggregate_id == id && is_queued_delivery kind)
unfolding Messaging.enqueue destination_for message_payload
names-enqueue e broker (Delivery.run_queued _) id same =
    rw (same, destination_for)
      (ground (
        arith,
        count-append (names id) broker.execution
            (record { event_id = e.id; run_id = e.aggregate_id } ∷ []),
      ))
names-enqueue e broker (Delivery.run_dead_lettered _) id same =
    rw (same, destination_for) (ground arith)

module _ (env : Env) (e : OutboxEvent) (db : Db) (broker : Broker)
    (found : Prelude.find (λ (x : OutboxEvent). x.id) e.id db.outbox ≡ some e)
    (fresh : e.published_at ≡ none) where
  confirmed_notices :
      (id : Uuid)
      → notices id db broker
        ≤ notices id (put_event (published env e) db) (Messaging.enqueue e broker)
  unfolding put_event published
  confirmed_notices id =
      let change =
        count-put (λ (x : OutboxEvent). x.id) (pending id) (published env e) db.outbox e found in
      ground (arith, change, names-enqueue e broker e.delivery id refl)

  failed_notices :
      (error : String) (arrived : Bool) (id : Uuid)
      → notices id db broker
        ≤ notices id
            (put_event (unpublished error e) db)
            (if arrived then Messaging.enqueue e broker else broker)
  unfolding put_event unpublished
  failed_notices error arrived id =
      let change =
        count-put (λ (x : OutboxEvent). x.id) (pending id) (unpublished error e) db.outbox e
          found in
      ground (arith, change, names-enqueue e broker e.delivery id refl)

  settle_notices :
      (publication : Publication) (result : DispatchResult) (db' : Db) (broker' : Broker)
      → settle_publication env e publication db broker ≡ (result, db', broker')
      → (db'.runs ≡ db.runs) × ((id : Uuid) → notices id db broker ≤ notices id db' broker')
  unfolding settle_publication add_event put_event
  settle_notices confirmed result db' broker' h =
      let same_runs_ : db'.runs ≡ db.runs = ground arith in
      let outbox : db'.outbox ≡ (put_event (published env e) db).outbox = ground arith in
      let queue : broker' ≡ Messaging.enqueue e broker = ground arith in
      (same_runs_, λ id. rw (outbox, queue) (confirmed_notices id))
  settle_notices (failed error arrived) result db' broker' h =
      let same_runs_ : db'.runs ≡ db.runs = ground arith in
      let outbox : db'.outbox ≡ (put_event (unpublished error e) db).outbox = ground arith in
      let queue : broker' ≡ (if arrived then Messaging.enqueue e broker else broker) =
        ground arith in
      (same_runs_, λ id. rw (outbox, queue) (failed_notices error arrived id))

-- A dispatch moves a delivery from the outbox to its queue, or leaves it where it is.
pub dispatch_one-notices :
    (env : Env) (publication : Publication) (db : Db) (broker : Broker) (result : DispatchResult)
    (db' : Db) (broker' : Broker)
    → OutboxKey db
    → dispatch_one env publication db broker ≡ (result, db', broker')
    → (db'.runs ≡ db.runs) × ((id : Uuid) → notices id db broker ≤ notices id db' broker')
unfolding dispatch_one
dispatch_one-notices env publication db broker result db' broker' unique h =
    elim (Option-cases (oldest_waiting env db.outbox)) [
      | inl nothing ↦
          let e : db' ≡ db = ground arith in
          let f : broker' ≡ broker = ground arith in (rw e refl, λ id. rw (e, f) (omega arith))
      | inr (e, chosen) ↦
          let (stored, fresh) = oldest_waiting-Mem env db.outbox e chosen in
          let found = find_of_Mem (λ (x : OutboxEvent). x.id) db.outbox e (unique e.id) stored in
          settle_notices env e db broker found fresh publication result db' broker' (ground arith)
    ]
