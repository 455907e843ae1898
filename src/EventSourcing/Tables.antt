-- ===== src/EventSourcing/Tables.antt =====
-- The tables of a service (event_store, outbox, projection) and the write path of the event-store
-- repositories, which are alike in apps/order-service, apps/payment-service and
-- apps/inventory-service. A random UUID is taken to be new.
use kafka_ledger_saga.Base.{
  ℕ, ◌+◌, ◌-◌, String, Bool, ◌&&◌, Option, none, some, List, [], ◌∷◌, ◌++◌, Result, ok, err, Action,
  pure, raise, transaction, catch, ◌>>◌, ◌==◌, eqb, leb, any, filter, length, if◌then◌else◌,
}
use kafka_ledger_saga.Errors.{Error, unique_violation, concurrency_error}
use kafka_ledger_saga.EventSourcing.Aggregate.{
  StoredEvent, Uncommitted, AggregateRoot, new_aggregate, mark_events_as_committed, hydrate,
}

-- libs/database/src/outbox/outbox.entity.ts
pub record OutboxRow (E : Type 0) : Type 0 where
  pub id : String
  pub aggregate_id : String
  pub topic : String
  pub event : E
  pub correlation_id : String
  pub created_at : ℕ
  pub published_at : Option ℕ
  pub publish_attempts : ℕ

pub record Store (E P : Type 0) : Type 0 where
  pub events : List (StoredEvent E)
  pub outbox : List (OutboxRow E)
  pub projection : List (String × P)

-- What one call draws from its surroundings: the clock, and the UUIDs in the order of the draws.
pub record Ambient : Type 0 where
  pub now : ℕ
  pub uuid : ℕ → String

-- The constants that tell one service's repository from another's.
pub record Service (S P : Type 0) : Type 0 where
  pub aggregate_type : String
  pub topic : String
  pub blank : S
  pub project : String → S → ℕ → P

module _ {P : Type 0} where
  -- `findOne({ where: { key } })`, on the primary key.
  unfoldable pub find_one : String → List (String × P) → Option P
  find_one k [] = none
  find_one k ((j, v) ∷ rows) = if j == k then some v else find_one k rows

  -- `manager.upsert(entity, row, [key])`
  unfoldable pub upsert : String → P → List (String × P) → List (String × P)
  upsert k v [] = (k, v) ∷ []
  upsert k v ((j, w) ∷ rows) = if j == k then (k, v) ∷ rows else (j, w) ∷ upsert k v rows

module _ {E : Type 0} where
  abbrev pub of_aggregate : String → StoredEvent E → Bool
  of_aggregate id r = r.aggregate_id == id

  -- The constraint UNIQUE ("aggregateId", sequence).
  abbrev pub is_taken : String → ℕ → List (StoredEvent E) → Bool
  is_taken id n rows = any (λ r. of_aggregate id r && eqb r.sequence n) rows

  unfoldable pub insert_by_sequence : StoredEvent E → List (StoredEvent E) → List (StoredEvent E)
  insert_by_sequence r [] = r ∷ []
  insert_by_sequence r (x ∷ rows) =
      if leb r.sequence x.sequence then r ∷ x ∷ rows else x ∷ insert_by_sequence r rows

  -- `order: { sequence: 'ASC' }`
  unfoldable pub order_by_sequence : List (StoredEvent E) → List (StoredEvent E)
  unfolding insert_by_sequence
  order_by_sequence [] = []
  order_by_sequence (r ∷ rows) = insert_by_sequence r (order_by_sequence rows)

module _ {E P : Type 0} where
  abbrev pub insert_event : StoredEvent E → Action Error (Store E P) (Unit {0})
  insert_event r db =
      if is_taken r.aggregate_id r.sequence db.events
      then (err unique_violation, db)
      else (ok tt, record db { events = db.events ++ r ∷ [] })

  abbrev pub insert_outbox : OutboxRow E → Action Error (Store E P) (Unit {0})
  insert_outbox r db = (ok tt, record db { outbox = db.outbox ++ r ∷ [] })

  unfoldable pub load_stream : String → Store E P → List (StoredEvent E)
  unfolding order_by_sequence
  load_stream id db = order_by_sequence (filter (of_aggregate id) db.events)

module _ {E S P : Type 0} (service : Service S P) (ambient : Ambient)
    (correlation_id : String) where
  -- The loop over the uncommitted events: one event row and one outbox row for each, numbered on
  -- from `sequence`; `drawn` counts the UUIDs used.
  unfoldable pub append_events :
      String → ℕ → ℕ → List (Uncommitted E) → Action Error (Store E P) (Unit {0})
  append_events id sequence drawn [] = pure tt
  append_events id sequence drawn (u ∷ rest) = do
    insert_event (record {
      aggregate_id = id;
      aggregate_type = service.aggregate_type;
      sequence = sequence + 1;
      event = u.event;
      occurred_at = u.occurred_at;
      correlation_id = correlation_id;
    })
    insert_outbox (record {
      id = ambient.uuid drawn;
      aggregate_id = id;
      topic = service.topic;
      event = u.event;
      correlation_id = correlation_id;
      created_at = ambient.now;
      published_at = none;
      publish_attempts = 0;
    })
    append_events id (sequence + 1) (drawn + 1) rest

  abbrev pub upsert_projection : AggregateRoot E S → Action Error (Store E P) (Unit {0})
  upsert_projection a db = (
    ok tt,
    record db { projection = upsert a.id (service.project a.id a.state a.version) db.projection },
  )

  -- `isUniqueViolation(err)` turns the error into a ConcurrencyError.
  abbrev translate : String → ℕ → Error → Action Error (Store E P) (Unit {0})
  translate id expected unique_violation = raise (concurrency_error id expected)
  translate id expected e = raise e

  -- The body of `saveWithinTransaction`, given the UUIDs that the caller has drawn already. The
  -- caller's transaction takes the writes back when it throws.
  unfoldable pub save_within_transaction :
      ℕ → AggregateRoot E S → Action Error (Store E P) (AggregateRoot E S)
  unfolding append_events upsert
  save_within_transaction drawn a =
      let expected = a.version - length a.uncommitted_events in
      if eqb (length a.uncommitted_events) 0 then pure a else (do
        catch (append_events a.id expected drawn a.uncommitted_events >> upsert_projection a)
            (translate a.id expected)
        pure (mark_events_as_committed a))

  -- `save`: the same in a transaction of its own.
  unfoldable pub save : ℕ → AggregateRoot E S → Action Error (Store E P) (AggregateRoot E S)
  unfolding save_within_transaction
  save drawn a = transaction (save_within_transaction drawn a)

-- `loadAggregate`: null for an empty stream, else the blank aggregate after its history.
module _ {E S P : Type 0} (when : E → S → Result Error S) (service : Service S P) where
  abbrev pub from_history :
      String → List (StoredEvent E) → Result Error (Option (AggregateRoot E S))
  from_history id [] = ok none
  from_history id (r ∷ rows) = elim (hydrate when (new_aggregate id service.blank) (r ∷ rows)) [
    | ok a ↦ ok (some a)
    | err e ↦ err e
  ]

  unfoldable pub load_aggregate : String → Action Error (Store E P) (Option (AggregateRoot E S))
  unfolding hydrate load_stream
  load_aggregate id db = (from_history id (load_stream id db), db)
