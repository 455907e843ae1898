-- ===== src/Outbox/Relay.antt =====
-- libs/database/src/outbox/outbox.abstract-repository.ts and outbox-relay.scheduler.ts, over the
-- outbox rows of any service. Rows with the same `createdAt` keep the order of the table, which
-- Postgres leaves open.
use kafka_ledger_saga.Base.{
  ℕ, ◌+◌, String, Bool, true, false, not, ◌&&◌, some, List, [], ◌∷◌, ◌++◌, map, Result, ok, err,
  ◌==◌, leb, is_some, filter, take, length, if◌then◌else◌,
}
use kafka_ledger_saga.Contracts.{Fields}
use kafka_ledger_saga.Errors.{Error, failure}
use kafka_ledger_saga.EventSourcing.{OutboxRow}
use kafka_ledger_saga.Kafka.{BrokerOf, MessageOf, Publishable, publish_as, headers_of}

-- The object that `relay` publishes for a row.
pub record RelayedEvent : Type 0 where
  pub id : String
  pub type : String
  pub correlation_id : String
  pub aggregate_id : String
  pub payload : Fields

abbrev pub relayed_publishable : Publishable RelayedEvent
relayed_publishable = record {
  id_of = λ e. e.id;
  type_of = λ e. e.type;
  correlation_of = λ e. e.correlation_id;
}

-- A relay's surroundings: the clock, which sends the cluster acknowledges, which rows another
-- replica has locked, and whether the transaction commits.
pub record RelayWorld : Type 0 where
  pub now : ℕ
  pub accepts : ℕ → Bool
  pub locked : String → Bool
  pub commits : Bool

-- The outbox of one service and the broker that its relay sends to.
pub record RelayState (E : Type 0) : Type 0 where
  pub rows : List (OutboxRow E)
  pub broker : BrokerOf RelayedEvent

module _ {E : Type 0} where
  abbrev pub is_unpublished : OutboxRow E → Bool
  is_unpublished row = not (is_some row.published_at)

  abbrev pub insert_by_created : OutboxRow E → List (OutboxRow E) → List (OutboxRow E)
  insert_by_created row [] = row ∷ []
  insert_by_created row (x ∷ rows) =
      let later = insert_by_created row rows in
      if leb row.created_at x.created_at then row ∷ x ∷ rows else x ∷ later

  -- `orderBy('o.createdAt', 'ASC')`
  abbrev pub order_by_created : List (OutboxRow E) → List (OutboxRow E)
  order_by_created [] = []
  order_by_created (row ∷ rows) = insert_by_created row (order_by_created rows)

  -- The query of `relay`: unpublished, not locked, oldest first, at most a batch.
  unfoldable pub select_batch : (String → Bool) → ℕ → List (OutboxRow E) → List (OutboxRow E)
  select_batch locked batch_size rows =
      take batch_size (order_by_created (filter (λ r. is_unpublished r && not (locked r.id)) rows))

  -- `manager.update(target, id, ...)` and `manager.increment(target, { id }, ...)`
  abbrev pub update_by_id :
      String → (OutboxRow E → OutboxRow E) → List (OutboxRow E) → List (OutboxRow E)
  update_by_id id f = map (λ r. if r.id == id then f r else r)

  abbrev pub mark_published : ℕ → OutboxRow E → OutboxRow E
  mark_published now r = record r { published_at = some now }

  abbrev pub count_attempt : OutboxRow E → OutboxRow E
  count_attempt r = record r { publish_attempts = r.publish_attempts + 1 }

-- The columns eventType and payload of a row, from its typed event.
module _ {E : Type 0} (event_type : E → String) (event_fields : E → Fields) where
  abbrev pub to_relay : OutboxRow E → RelayedEvent
  to_relay row = record {
    id = row.id;
    type = event_type row.event;
    correlation_id = row.correlation_id;
    aggregate_id = row.aggregate_id;
    payload = event_fields row.event;
  }

  -- The message that `publish` sends for a row, under the key of its aggregate.
  abbrev pub message_of : OutboxRow E → MessageOf RelayedEvent
  message_of row = record {
    topic = row.topic;
    key = row.aggregate_id;
    value = to_relay row;
    headers = headers_of relayed_publishable (to_relay row) ++ [];
  }

  -- What the try and its catch leave of the table.
  abbrev pub after_send :
      ℕ → String → Result Error (Unit {0}) → List (OutboxRow E) → List (OutboxRow E)
  after_send now id (ok _) rows = update_by_id id (mark_published now) rows
  after_send now id (err _) rows = update_by_id id count_attempt rows

  -- One round of the loop.
  unfoldable pub relay_row : RelayWorld → OutboxRow E → RelayState E → RelayState E
  unfolding publish_as
  relay_row world row s =
      let (r, broker) =
        publish_as relayed_publishable world.accepts row.topic (to_relay row) row.aggregate_id []
          s.broker in
      record { rows = after_send world.now row.id r s.rows; broker = broker }

  unfoldable pub relay_rows : RelayWorld → List (OutboxRow E) → RelayState E → RelayState E
  unfolding relay_row
  relay_rows world [] s = s
  relay_rows world (row ∷ rest) s = relay_rows world rest (relay_row world row s)

  -- The end of the transaction: what was sent stays sent.
  abbrev pub commit : Bool → RelayState E → ℕ → RelayState E → Result Error ℕ × RelayState E
  commit true before n s = (ok n, s)
  commit false before n s = (err (failure "commit"), record s { rows = before.rows })

  -- `OutboxAbstractRepository.relay`
  unfoldable pub relay : RelayWorld → ℕ → RelayState E → Result Error ℕ × RelayState E
  unfolding select_batch relay_rows
  relay world batch_size s =
      let rows = select_batch world.locked batch_size s.rows in
      commit world.commits s (length rows) (relay_rows world rows s)

  abbrev pub default_batch_size : ℕ
  default_batch_size = 100

  -- `OutboxRelayScheduler.tick`: a failure is logged, and the next tick tries again.
  unfoldable pub tick : RelayWorld → RelayState E → RelayState E
  unfolding relay
  tick world s = (relay world default_batch_size s).1

  -- The timer.
  unfoldable pub ticks : List RelayWorld → RelayState E → RelayState E
  unfolding tick
  ticks [] s = s
  ticks (world ∷ rest) s = ticks rest (tick world s)
