-- ===== src/Inventory/Service.antt =====
-- apps/inventory-service: the two command handlers and the consumer, over the event store, the
-- outbox, the projection of reservations and the stock rows of one database.
use kafka_ledger_saga.Base.{
  ℕ, String, Option, none, some, List, Result, ok, err, Action, pure, raise, lift, gets, modify,
  catch, transaction, ◌>>=◌, ◌>>◌, ◌==◌, if◌then◌else◌,
}
use kafka_ledger_saga.Contracts.{
  ReservationStatus, InventoryEvent, ReservationLine, inventory_topic, Fields, CommandEnvelope,
  ReserveStockCommandPayload, ReleaseInventoryCommandPayload, reserve_stock_command,
  release_inventory_command, read_reserve_stock, read_release_inventory,
}
use kafka_ledger_saga.Errors.{
  Error, insufficient_stock, reservation_already_finalized, not_found, malformed_payload,
}
use kafka_ledger_saga.EventSourcing.{
  Store, Service, Ambient, find_one, load_aggregate, save, save_within_transaction,
}
use kafka_ledger_saga.Kafka.{KafkaMessage, ConsumerState, each_message}
use kafka_ledger_saga.Inventory.Domain.{
  StockAggregateState, StockAggregate, blank_state, when, reserved, failed, release,
}
use kafka_ledger_saga.Inventory.Stock.{
  StockTable, reserve_lines_within_transaction, release_lines_within_transaction,
}

-- The columns of reservation_projection.
pub record ReservationProjectionEntity : Type 0 where
  pub order_id : String
  pub status : ReservationStatus
  pub reservation_id : Option String
  pub lines : List ReservationLine
  pub failed_sku : Option String
  pub fail_reason : Option String
  pub version : ℕ

abbrev pub InventoryStore : Type 0
InventoryStore = Store InventoryEvent ReservationProjectionEntity

pub record InventoryDb : Type 0 where
  pub store : InventoryStore
  pub stock : StockTable

-- The row that `upsertWithinTransaction` writes.
abbrev pub project : String → StockAggregateState → ℕ → ReservationProjectionEntity
project id s version = record {
  order_id = id;
  status = s.status;
  reservation_id = s.reservation_id;
  lines = s.lines;
  failed_sku = s.failed_sku;
  fail_reason = s.fail_reason;
  version = version;
}

abbrev pub inventory_service : Service StockAggregateState ReservationProjectionEntity
inventory_service = record {
  aggregate_type = "Reservation";
  topic = inventory_topic;
  blank = blank_state;
  project = project;
}

abbrev pub on_store : {A : Type 0} → Action Error InventoryStore A → Action Error InventoryDb A
on_store m db = let (r, store) = m db.store in (r, record db { store = store })

-- `reserveLinesWithinTransaction`: a throw leaves the rows as they were read.
abbrev pub stored_or_thrown :
    InventoryDb → Result Error StockTable → Result Error (Unit {0}) × InventoryDb
stored_or_thrown db (ok stock) = (ok tt, record db { stock = stock })
stored_or_thrown db (err e) = (err e, db)

abbrev pub reserve_lines : List ReservationLine → Action Error InventoryDb (Unit {0})
reserve_lines lines db = stored_or_thrown db (reserve_lines_within_transaction lines db.stock)

abbrev pub release_lines : List ReservationLine → Action Error InventoryDb (Unit {0})
release_lines lines =
    modify (λ db. record db { stock = release_lines_within_transaction lines db.stock })

module _ (ambient : Ambient) (correlation_id : String) where
  -- `InventoryEventStoreRepository.saveWithinTransaction`
  unfoldable pub save_reservation_within_transaction :
      ℕ → StockAggregate → Action Error InventoryDb (Unit {0})
  save_reservation_within_transaction drawn a = do
    on_store (save_within_transaction inventory_service ambient correlation_id drawn a)
    pure tt

  -- `InventoryEventStoreRepository.save`
  unfoldable pub save_reservation : ℕ → StockAggregate → Action Error InventoryDb (Unit {0})
  save_reservation drawn a = do
    on_store (save inventory_service ambient correlation_id drawn a)
    pure tt

  -- The transaction that reserves the lines and records it. The first UUID drawn is the id of the
  -- reservation.
  abbrev pub try_reserve : ReserveStockCommandPayload → Action Error InventoryDb (Unit {0})
  try_reserve c = do
    reserve_lines c.lines
    a ← lift (reserved ambient.now c.order_id (ambient.uuid 0) c.lines)
    save_reservation_within_transaction 1 a

  -- Its catch: a shortage is recorded as a failed reservation, in a transaction of its own.
  abbrev pub record_failure :
      ReserveStockCommandPayload → Error → Action Error InventoryDb (Unit {0})
  record_failure c (insufficient_stock sku reason) = do
    a ← lift (failed ambient.now c.order_id sku reason)
    save_reservation 1 a
  record_failure c e = raise e

  abbrev pub reserve_unless :
      Option ReservationProjectionEntity
      → ReserveStockCommandPayload
      → Action Error InventoryDb (Unit {0})
  reserve_unless (some existing) c = pure tt
  reserve_unless none c = catch (transaction (try_reserve c)) (record_failure c)

  -- `ReserveStockHandler.execute`
  unfoldable pub execute_reserve : ReserveStockCommandPayload → Action Error InventoryDb (Unit {0})
  unfolding find_one reserve_lines_within_transaction reserved failed
  execute_reserve c = do
    existing ← gets (λ db. find_one c.order_id db.store.projection)
    reserve_unless existing c

  -- The catch of the release: a reservation that is not RESERVED is a duplicate.
  abbrev pub ignore_finalized : Error → Action Error InventoryDb (Unit {0})
  ignore_finalized (reservation_already_finalized _ _) = pure tt
  ignore_finalized e = raise e

  -- The transaction that releases the lines and records it.
  abbrev pub try_release : StockAggregate → Action Error InventoryDb (Unit {0})
  try_release a = do
    release_lines a.state.lines
    a' ← lift (release ambient.now a)
    save_reservation_within_transaction 0 a'

  abbrev pub release_loaded : String → Option StockAggregate → Action Error InventoryDb (Unit {0})
  release_loaded id none = raise (not_found id)
  release_loaded id (some a) = catch (transaction (try_release a)) ignore_finalized

  -- `ReleaseInventoryHandler.execute`
  unfoldable pub execute_release :
      ReleaseInventoryCommandPayload → Action Error InventoryDb (Unit {0})
  unfolding release release_lines_within_transaction
  execute_release c = do
    loaded ← on_store (load_aggregate when inventory_service c.order_id)
    release_loaded c.order_id loaded

abbrev pub with_payload :
    {P : Type 0}
    → String
    → Option P
    → (P → Action Error InventoryDb (Unit {0}))
    → Action Error InventoryDb (Unit {0})
with_payload t none f = raise (malformed_payload t)
with_payload t (some p) f = f p

-- `InventoryKafkaConsumer.dispatch`
unfoldable pub dispatch : Ambient → CommandEnvelope Fields → Action Error InventoryDb (Unit {0})
dispatch ambient e =
    if e.type == reserve_stock_command
    then with_payload e.type (read_reserve_stock e.payload)
        (execute_reserve ambient e.correlation_id)
    else if e.type == release_inventory_command
    then with_payload e.type (read_release_inventory e.payload)
        (execute_release ambient e.correlation_id)
    else pure tt

-- `eachMessage` of InventoryKafkaConsumer
unfoldable pub consume :
    Ambient
    → KafkaMessage (CommandEnvelope Fields)
    → Action Error (ConsumerState InventoryDb) (Unit {0})
unfolding each_message dispatch
consume ambient = each_message (dispatch ambient)
