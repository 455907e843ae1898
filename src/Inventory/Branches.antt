-- ===== src/Inventory/Branches.antt =====
-- What each command handler of the inventory service does on each of its branches, where the tables
-- are consistent.
use kafka_ledger_saga.Base.{
  ℕ, ◌+◌, String, ◌≡◌, ◌≢◌, refl, ◌∙◌, sym, true, false, none, some, List, [], ◌∷◌, ok, err, length,
  ◌>>=◌, ◌>>◌, catch, transaction,
}
use kafka_ledger_saga.Contracts.{
  InventoryEvent, ReserveStockCommandPayload, ReleaseInventoryCommandPayload,
}
use kafka_ledger_saga.Errors.{Error, not_found, insufficient_stock}
use kafka_ledger_saga.EventSourcing.{Ambient, Uncommitted, StoredEvent, find_one}
use kafka_ledger_saga.EventSourcing.Consistency.{
  stream, loaded-some, IsConsistent, projected, saved, with_event, load_aggregate-ConsistentAt,
  save-fresh, is_taken-next,
}
use kafka_ledger_saga.EventSourcing.Outcomes.{save-next}
use kafka_ledger_saga.Inventory.Domain.{StockAggregateState, when, release, is_reserved}
use kafka_ledger_saga.Inventory.Stock.{
  StockTable, check_lines, increment_lines, reserve_lines_within_transaction,
  release_lines_within_transaction,
}
use kafka_ledger_saga.Inventory.Service.{
  InventoryDb, InventoryStore, ReservationProjectionEntity, inventory_service,
  save_reservation_within_transaction, save_reservation, execute_reserve, execute_release,
  release_loaded,
}
use kafka_ledger_saga.Inventory.Facts.{
  reserved_state, reserved_event, failed_state, failed_event, released_state, released_event,
  check_lines-err,
}

abbrev pub IsValid : InventoryDb → Type 0
IsValid db = IsConsistent when inventory_service db.store

no_projection :
    (id : String) (s : StockAggregateState) (rows : List (StoredEvent InventoryEvent))
    → projected when inventory_service id s rows ≡ none
    → rows ≡ []
no_projection id s [] e = refl
no_projection id s (r ∷ rows) e = cc

module _ (ambient : Ambient) (correlation_id : String) (db : InventoryDb) (v : IsValid db) where
  abbrev next_store : String → StockAggregateState → ℕ → Uncommitted InventoryEvent → InventoryStore
  next_store id s drawn u =
      saved inventory_service ambient correlation_id id s (length (stream id db.store) + 1) drawn u
        db.store

  saves_next :
      (id : String) (s : StockAggregateState) (drawn : ℕ) (u : Uncommitted InventoryEvent)
      (stock : StockTable)
      → save_reservation_within_transaction ambient correlation_id drawn
          (with_event id s (length (stream id db.store) + 1) u)
          (record { store = db.store; stock = stock })
        ≡ (ok tt, record { store = next_store id s drawn u; stock = stock })
  unfolding save_reservation_within_transaction
  saves_next id s drawn u stock = rw (
    save-fresh inventory_service ambient correlation_id id s (length (stream id db.store)) drawn u
        db.store (is_taken-next id db.store (v id).1),
    ◌>>=◌,
    ◌>>◌,
  )

  saves_alone :
      (id : String) (s : StockAggregateState) (drawn : ℕ) (u : Uncommitted InventoryEvent)
      → save_reservation ambient correlation_id drawn
          (with_event id s (length (stream id db.store) + 1) u)
          db
        ≡ (ok tt, record db { store = next_store id s drawn u })
  unfolding save_reservation
  saves_alone id s drawn u = rw (
    save-next inventory_service ambient correlation_id id s drawn u db.store (v id).1,
    ◌>>=◌,
    ◌>>◌,
  )

  pub execute_reserve-existing :
      (c : ReserveStockCommandPayload) (row : ReservationProjectionEntity)
      → find_one c.order_id db.store.projection ≡ some row
      → execute_reserve ambient correlation_id c db ≡ (ok tt, db)
  unfolding execute_reserve
  execute_reserve-existing c row e = rw e refl

  pub stream-none : (id : String) → find_one id db.store.projection ≡ none → stream id db.store ≡ []
  stream-none id e = no_projection id (v id).0 (stream id db.store) (sym (v id).3 ∙ e)

  pub execute_reserve-enough :
      (c : ReserveStockCommandPayload)
      → find_one c.order_id db.store.projection ≡ none
      → check_lines c.lines db.stock ≡ ok tt
      → execute_reserve ambient correlation_id c db ≡ (
        ok tt,
        record {
          store =
              saved inventory_service ambient correlation_id c.order_id
                (reserved_state c (ambient.uuid 0))
                1
                1
                (reserved_event ambient.now c (ambient.uuid 0))
                db.store;
          stock = increment_lines c.lines db.stock;
        },
      )
  unfolding execute_reserve reserve_lines_within_transaction
  execute_reserve-enough c e checked =
      let saves =
        saves_next c.order_id (reserved_state c (ambient.uuid 0)) 1
          (reserved_event ambient.now c (ambient.uuid 0)) (increment_lines c.lines db.stock) in
      rw (e, checked, reserve_lines_within_transaction)
        (rw (rw (stream-none c.order_id e) at saves, catch, transaction))

  -- In consistent tables, where the order has no reservation yet and the check of its lines fails,
  -- ReserveStock returns, records the failed reservation with the SKU and the reason of that
  -- shortage, and leaves the stock rows as they were.
  pub execute_reserve-short :
      (c : ReserveStockCommandPayload) (x : Error)
      → find_one c.order_id db.store.projection ≡ none
      → check_lines c.lines db.stock ≡ err x
      → (sku : String) × (reason : String) × (x ≡ insufficient_stock sku reason)
        × (execute_reserve ambient correlation_id c db ≡ (
          ok tt,
          record db {
            store =
                saved inventory_service ambient correlation_id c.order_id
                  (failed_state c.order_id sku reason)
                  1
                  1
                  (failed_event ambient.now c.order_id sku reason)
                  db.store;
          },
        ))
  unfolding execute_reserve reserve_lines_within_transaction
  execute_reserve-short c x e short =
      let (sku, reason, is_short) = check_lines-err c.lines db.stock x short in
      let saves =
        saves_alone c.order_id (failed_state c.order_id sku reason) 1
          (failed_event ambient.now c.order_id sku reason) in
      (
        sku,
        reason,
        is_short,
        rw (e, short, is_short, reserve_lines_within_transaction)
            (rw (rw (stream-none c.order_id e) at saves, catch, transaction)),
      )

  pub execute_release-unknown :
      (c : ReleaseInventoryCommandPayload)
      → stream c.order_id db.store ≡ []
      → execute_release ambient correlation_id c db ≡ (err (not_found c.order_id), db)
  unfolding execute_release
  execute_release-unknown c e =
      rw
        (
          load_aggregate-ConsistentAt when inventory_service c.order_id db.store (v c.order_id),
          ◌>>=◌,
        )
        (rw e)

  execute_release-known :
      (c : ReleaseInventoryCommandPayload)
      → stream c.order_id db.store ≢ []
      → execute_release ambient correlation_id c db
        ≡ release_loaded ambient correlation_id c.order_id
            (some (record {
              id = c.order_id;
              state = (v c.order_id).0;
              version = length (stream c.order_id db.store);
              uncommitted_events = [];
            }))
            db
  unfolding execute_release
  execute_release-known c ne =
      rw
        (
          load_aggregate-ConsistentAt when inventory_service c.order_id db.store (v c.order_id),
          ◌>>=◌,
        )
        (rw (
          loaded-some when inventory_service c.order_id (v c.order_id).0
              (stream c.order_id db.store) ne,
          release_loaded,
        ))

  pub execute_release-reserved :
      (c : ReleaseInventoryCommandPayload)
      → stream c.order_id db.store ≢ []
      → is_reserved (v c.order_id).0.status ≡ true
      → execute_release ambient correlation_id c db ≡ (
        ok tt,
        record {
          store =
              saved inventory_service ambient correlation_id c.order_id
                (released_state (v c.order_id).0)
                (length (stream c.order_id db.store) + 1)
                0
                (released_event ambient.now c.order_id (v c.order_id).0)
                db.store;
          stock = release_lines_within_transaction (v c.order_id).0.lines db.stock;
        },
      )
  unfolding release
  execute_release-reserved c ne held =
      let saves =
        saves_next c.order_id (released_state (v c.order_id).0) 0
          (released_event ambient.now c.order_id (v c.order_id).0)
          (release_lines_within_transaction (v c.order_id).0.lines db.stock) in
      rw (execute_release-known c ne) (rw (held, release) (rw (saves, catch, transaction)))

  pub execute_release-ignored :
      (c : ReleaseInventoryCommandPayload)
      → stream c.order_id db.store ≢ []
      → is_reserved (v c.order_id).0.status ≡ false
      → execute_release ambient correlation_id c db ≡ (ok tt, db)
  unfolding release
  execute_release-ignored c ne closed = rw (execute_release-known c ne) (rw (closed, release))
