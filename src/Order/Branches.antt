-- ===== src/Order/Branches.antt =====
-- What each command handler of the order service does on each of its branches, where the tables
-- are consistent.
use kafka_ledger_saga.Base.{
  ℕ, ◌+◌, String, ◌≡◌, ◌≢◌, true, false, none, some, [], ok, err, length, ◌>>=◌, ◌>>◌, catch,
}
use kafka_ledger_saga.Contracts.{
  OrderStatus, OrderEvent, CreateOrderCommandPayload, ConfirmOrderCommandPayload,
  CancelOrderCommandPayload,
}
use kafka_ledger_saga.Errors.{not_found, concurrency_error}
use kafka_ledger_saga.EventSourcing.Replay.{Numbered}
use kafka_ledger_saga.EventSourcing.{Ambient, Uncommitted}
use kafka_ledger_saga.EventSourcing.Consistency.{
  stream, loaded-some, IsConsistent, loaded, saved, with_event, load_aggregate-ConsistentAt,
}
use kafka_ledger_saga.EventSourcing.Outcomes.{save-next, save-first_taken}
use kafka_ledger_saga.Order.Domain.{
  OrderState, OrderAggregate, when, add_lines, confirm, cancel, is_created, is_final,
}
use kafka_ledger_saga.Order.Service.{
  OrderDb, order_service, save_order, load_order, execute_create, execute_confirm, execute_cancel,
  confirm_loaded, cancel_loaded, save_or_ignore,
}

abbrev pub IsValid : OrderDb → Type 0
IsValid = IsConsistent when order_service

-- The state of the new order and its event.
abbrev pub new_state : CreateOrderCommandPayload → OrderState
new_state c = record {
  status = OrderStatus.created;
  customer_id = c.customer_id;
  items = c.items;
  total_cents = add_lines 0 c.items;
  payment_id = none;
  cancel_reason = none;
}

abbrev pub new_event : ℕ → CreateOrderCommandPayload → Uncommitted OrderEvent
new_event now c = record {
  event = OrderEvent.created (record {
    order_id = c.order_id;
    customer_id = c.customer_id;
    items = c.items;
    total_cents = add_lines 0 c.items;
  });
  occurred_at = now;
}

-- What `confirm` and `cancel` turn a loaded order into.
abbrev pub confirmed_state : String → OrderState → OrderState
confirmed_state payment_id s = record s {
  status = OrderStatus.confirmed;
  payment_id = some payment_id;
}

abbrev pub confirmed_event : ℕ → String → String → Uncommitted OrderEvent
confirmed_event now id payment_id = record {
  event =
      OrderEvent.confirmed (record { order_id = id; customer_id = none; payment_id = payment_id });
  occurred_at = now;
}

abbrev pub cancelled_state : String → OrderState → OrderState
cancelled_state reason s = record s { status = OrderStatus.cancelled; cancel_reason = some reason }

abbrev pub cancelled_event : ℕ → String → String → Uncommitted OrderEvent
cancelled_event now id reason = record {
  event = OrderEvent.cancelled (record { order_id = id; customer_id = none; reason = reason });
  occurred_at = now;
}

module _ (ambient : Ambient) (correlation_id : String) (db : OrderDb) (v : IsValid db) where
  numbered : (id : String) → Numbered 0 (stream id db)
  numbered id = (v id).1

  save_order-next :
      (id : String) (s : OrderState) (u : Uncommitted OrderEvent)
      → save_order ambient correlation_id (with_event id s (length (stream id db) + 1) u) db ≡ (
        ok tt,
        saved order_service ambient correlation_id id s (length (stream id db) + 1) 0 u db,
      )
  unfolding save_order
  save_order-next id s u =
      rw (save-next order_service ambient correlation_id id s 0 u db (numbered id), ◌>>=◌, ◌>>◌)

  save_order-first_taken :
      (id : String) (s : OrderState) (u : Uncommitted OrderEvent)
      → stream id db ≢ []
      → save_order ambient correlation_id (with_event id s 1 u) db
        ≡ (err (concurrency_error id 0), db)
  unfolding save_order
  save_order-first_taken id s u ne = rw (
    save-first_taken order_service ambient correlation_id id s 0 u db (numbered id) ne,
    ◌>>=◌,
    ◌>>◌,
  )

  load_order-loaded :
      (id : String)
      → load_order id db ≡ (ok (loaded when order_service id (v id).0 (stream id db)), db)
  unfolding load_order
  load_order-loaded id = load_aggregate-ConsistentAt when order_service id db (v id)

  pub execute_create-new :
      (c : CreateOrderCommandPayload)
      → stream c.order_id db ≡ []
      → execute_create ambient correlation_id c db ≡ (
        ok tt,
        saved order_service ambient correlation_id c.order_id
            (new_state c)
            1
            0
            (new_event ambient.now c)
            db,
      )
  unfolding execute_create
  execute_create-new c e =
      let saves = save_order-next c.order_id (new_state c) (new_event ambient.now c) in
      rw (rw e at saves, catch)

  pub execute_create-duplicate :
      (c : CreateOrderCommandPayload)
      → stream c.order_id db ≢ []
      → execute_create ambient correlation_id c db ≡ (ok tt, db)
  unfolding execute_create
  execute_create-duplicate c ne =
      rw (save_order-first_taken c.order_id (new_state c) (new_event ambient.now c) ne, catch)

  pub execute_confirm-unknown :
      (c : ConfirmOrderCommandPayload)
      → stream c.order_id db ≡ []
      → execute_confirm ambient correlation_id c db ≡ (err (not_found c.order_id), db)
  unfolding execute_confirm
  execute_confirm-unknown c e = rw (load_order-loaded c.order_id, ◌>>=◌) (rw e)

  pub execute_cancel-unknown :
      (c : CancelOrderCommandPayload)
      → stream c.order_id db ≡ []
      → execute_cancel ambient correlation_id c db ≡ (err (not_found c.order_id), db)
  unfolding execute_cancel
  execute_cancel-unknown c e = rw (load_order-loaded c.order_id, ◌>>=◌) (rw e)

  -- The order as it is loaded.
  abbrev loaded_order : String → OrderAggregate
  loaded_order id = record {
    id = id;
    state = (v id).0;
    version = length (stream id db);
    uncommitted_events = [];
  }

  execute_confirm-known :
      (c : ConfirmOrderCommandPayload)
      → stream c.order_id db ≢ []
      → execute_confirm ambient correlation_id c db
        ≡ save_or_ignore ambient correlation_id
            (confirm ambient.now c.payment_id (loaded_order c.order_id))
            db
  unfolding execute_confirm
  execute_confirm-known c ne =
      rw (load_order-loaded c.order_id, ◌>>=◌)
        (rw (
          loaded-some when order_service c.order_id (v c.order_id).0 (stream c.order_id db) ne,
          confirm_loaded,
        ))

  execute_cancel-known :
      (c : CancelOrderCommandPayload)
      → stream c.order_id db ≢ []
      → execute_cancel ambient correlation_id c db
        ≡ save_or_ignore ambient correlation_id
            (cancel ambient.now c.reason (loaded_order c.order_id))
            db
  unfolding execute_cancel
  execute_cancel-known c ne =
      rw (load_order-loaded c.order_id, ◌>>=◌)
        (rw (
          loaded-some when order_service c.order_id (v c.order_id).0 (stream c.order_id db) ne,
          cancel_loaded,
        ))

  pub execute_confirm-created :
      (c : ConfirmOrderCommandPayload)
      → stream c.order_id db ≢ []
      → is_created (v c.order_id).0.status ≡ true
      → execute_confirm ambient correlation_id c db ≡ (
        ok tt,
        saved order_service ambient correlation_id c.order_id
            (confirmed_state c.payment_id (v c.order_id).0)
            (length (stream c.order_id db) + 1)
            0
            (confirmed_event ambient.now c.order_id c.payment_id)
            db,
      )
  unfolding confirm
  execute_confirm-created c ne open_order = rw (execute_confirm-known c ne) (
      rw (open_order, confirm)
        (save_order-next c.order_id (confirmed_state c.payment_id (v c.order_id).0)
          (confirmed_event ambient.now c.order_id c.payment_id)))

  pub execute_confirm-ignored :
      (c : ConfirmOrderCommandPayload)
      → stream c.order_id db ≢ []
      → is_created (v c.order_id).0.status ≡ false
      → execute_confirm ambient correlation_id c db ≡ (ok tt, db)
  unfolding confirm
  execute_confirm-ignored c ne closed = rw (execute_confirm-known c ne) (rw (closed, confirm))

  pub execute_cancel-open :
      (c : CancelOrderCommandPayload)
      → stream c.order_id db ≢ []
      → is_final (v c.order_id).0.status ≡ false
      → execute_cancel ambient correlation_id c db ≡ (
        ok tt,
        saved order_service ambient correlation_id c.order_id
            (cancelled_state c.reason (v c.order_id).0)
            (length (stream c.order_id db) + 1)
            0
            (cancelled_event ambient.now c.order_id c.reason)
            db,
      )
  unfolding cancel
  execute_cancel-open c ne open_order = rw (execute_cancel-known c ne) (
      rw (open_order, cancel)
        (save_order-next c.order_id (cancelled_state c.reason (v c.order_id).0)
          (cancelled_event ambient.now c.order_id c.reason)))

  pub execute_cancel-ignored :
      (c : CancelOrderCommandPayload)
      → stream c.order_id db ≢ []
      → is_final (v c.order_id).0.status ≡ true
      → execute_cancel ambient correlation_id c db ≡ (ok tt, db)
  unfolding cancel
  execute_cancel-ignored c ne closed = rw (execute_cancel-known c ne) (rw (closed, cancel))
