-- ===== src/EventSourcing/Aggregate.antt =====
-- libs/event-sourcing-core/src/aggregate-root.base.ts and event-store.interface.ts.
use kafka_ledger_saga.Base.{ℕ, ◌+◌, String, List, [], ◌∷◌, ◌++◌, Result, ok, err}
use kafka_ledger_saga.Errors.{Error}

-- A row of the event store: the type and payload of the source are one typed event.
pub record StoredEvent (E : Type 0) : Type 0 where
  pub aggregate_id : String
  pub aggregate_type : String
  pub sequence : ℕ
  pub event : E
  pub occurred_at : ℕ
  pub correlation_id : String

pub record Uncommitted (E : Type 0) : Type 0 where
  pub event : E
  pub occurred_at : ℕ

pub record AggregateRoot (E S : Type 0) : Type 0 where
  pub id : String
  pub state : S
  pub version : ℕ
  pub uncommitted_events : List (Uncommitted E)

-- `new XAggregate(id, { ...BLANK_STATE })`
abbrev pub new_aggregate : {E S : Type 0} → String → S → AggregateRoot E S
new_aggregate id s = record { id = id; state = s; version = 0; uncommitted_events = [] }

abbrev pub mark_events_as_committed : {E S : Type 0} → AggregateRoot E S → AggregateRoot E S
mark_events_as_committed a = record a { uncommitted_events = [] }

-- The reducer `when` of a service, a parameter of the base class.
module _ {E S : Type 0} (when : E → S → Result Error S) where
  -- What `apply` does after `when` has returned.
  abbrev record_event :
      ℕ → E → AggregateRoot E S → Result Error S → Result Error (AggregateRoot E S)
  record_event now e a (err x) = err x
  record_event now e a (ok s) = ok (record {
    id = a.id;
    state = s;
    version = a.version + 1;
    uncommitted_events = a.uncommitted_events ++ record { event = e; occurred_at = now } ∷ [];
  })

  unfoldable pub apply : ℕ → E → AggregateRoot E S → Result Error (AggregateRoot E S)
  apply now e a = record_event now e a (when e a.state)

  -- The loop of `AggregateRoot.hydrate`.
  unfoldable pub hydrate :
      AggregateRoot E S → List (StoredEvent E) → Result Error (AggregateRoot E S)
  hydrate a [] = ok a
  hydrate a (r ∷ history) = elim (when r.event a.state) [
    | err x ↦ err x
    | ok s ↦ hydrate (record a { state = s; version = r.sequence }) history
  ]

  -- The state alone, over a history.
  unfoldable pub replay : S → List (StoredEvent E) → Result Error S
  replay s [] = ok s
  replay s (r ∷ history) = elim (when r.event s) [ err x ↦ err x | ok s' ↦ replay s' history ]
