-- ===== src/System/Examples.antt =====
-- One order through the whole system, with the mock gateway.
mod Walk
use kafka_ledger_saga.Base.{
  arith, ℕ, String, ◌≡◌, refl, sym, subst, inl, inr, true, none, some, List, [], ◌∷◌, ◌++◌, map,
  any, Elem,
}
use kafka_ledger_saga.Base.Decimal.{decimal}
use kafka_ledger_saga.Base.Int.{pos, ◌+ℤ◌, ◌-ℤ◌}
use kafka_ledger_saga.Contracts.{
  OrderStatus, Fields, text, items, CommandEnvelope, EventEnvelope, create_order_command, field,
  read_create_order, read_confirm_order, read_cancel_order, read_order_created, read_reserve_stock,
  read_authorize_payment, spread, put, make_command, order_event_type, order_event_fields,
  inventory_event_type, inventory_event_fields, payment_event_type, payment_event_fields,
}
use kafka_ledger_saga.EventSourcing.{
  Ambient, find_one, upsert, save, save_within_transaction, append_events, load_aggregate,
  load_stream, order_by_sequence, insert_by_sequence, hydrate, apply,
}
use kafka_ledger_saga.Kafka.{BrokerOf, MessageOf, publish, publish_as}
use kafka_ledger_saga.Order
use kafka_ledger_saga.Order.Service.{OrderProjection}
use kafka_ledger_saga.Inventory.Service as Inventory
use kafka_ledger_saga.Payment.Service as Payment
use kafka_ledger_saga.Payment.Gateway.{PaymentGateway, mock_stripe_adapter}
use kafka_ledger_saga.Inventory.Stock as Rows
use kafka_ledger_saga.Inventory.Stock.{StockTable, StockLevelEntity}
use kafka_ledger_saga.Inventory.Domain as Stock
use kafka_ledger_saga.Payment.Domain as Paying
use kafka_ledger_saga.Outbox.Relay.{
  RelayWorld, RelayedEvent, relay, relay_row, relay_rows, select_batch,
}
use kafka_ledger_saga.Outbox.Passes.{open_world}
use kafka_ledger_saga.Saga
use kafka_ledger_saga.System.Model.{
  System, Steps, relayed, commands, Reads, requested, order_handles, inventory_handles,
  payment_handles, order_relays, inventory_relays, payment_relays, saga_handles, done, next,
}
use kafka_ledger_saga.System.Facts.{HasPaid, HasReserved, HasFailed}
use kafka_ledger_saga.System.Safety.{fresh}
use kafka_ledger_saga.System.Checkout.{confirmed_is_paid, cancelled_has_failed}
use kafka_ledger_saga.System.Examples.Walk.{mock, stock, ended, to_ended}

abbrev confirmed_row : OrderProjection
confirmed_row = record {
  order_id = "order-1";
  customer_id = "customer-1";
  status = OrderStatus.confirmed;
  items = record { sku = "sku-1"; qty = 2; unit_price_cents = 50 } ∷ [];
  total_cents = 100;
  payment_id = some "uuid";
  cancel_reason = none;
  version = 2;
}

abbrev cancelled_row : OrderProjection
cancelled_row = record {
  order_id = "order-1";
  customer_id = "cust_DECLINE";
  status = OrderStatus.cancelled;
  items = record { sku = "sku-1"; qty = 2; unit_price_cents = 50 } ∷ [];
  total_cents = 100;
  payment_id = none;
  cancel_reason = some "Saga failed at step \"AUTHORIZE_PAYMENT\"";
  version = 2;
}

-- The steps of an order that is paid, and its row at the end.
to_confirmed :
    Steps mock (fresh 0 stock) (ended "customer-1")
    × (find_one "order-1" (ended "customer-1").order.projection ≡ some confirmed_row)
unfolding Order.dispatch Order.execute_create Order.execute_confirm Order.execute_cancel
    Order.save_order Order.load_order Order.when Order.create_new Order.confirm Order.cancel
    Order.add_lines Inventory.dispatch Inventory.execute_reserve
    Inventory.save_reservation_within_transaction Inventory.save_reservation Stock.when
    Stock.reserved Stock.failed Rows.update_row Rows.check_lines Rows.increment_lines
    Rows.reserve_lines_within_transaction Payment.dispatch Payment.execute_authorize
    Payment.save_payment Payment.find_by_order_id Paying.when Paying.authorize Paying.decline
    Saga.dispatch Saga.on_event Saga.start Saga.start_saga Saga.on_step_event Saga.advance
    Saga.begin_compensation Saga.publish_compensations Saga.steps_to_compensate Saga.find_by_id
    Saga.save_instance Saga.on_saga_completed Saga.on_saga_compensated Saga.publish_command publish
    publish_as make_command field put spread read_create_order read_confirm_order read_cancel_order
    read_order_created read_reserve_stock read_authorize_payment find_one upsert save
    save_within_transaction append_events load_aggregate load_stream order_by_sequence
    insert_by_sequence hydrate apply relay relay_rows relay_row select_batch ◌+ℤ◌ ◌-ℤ◌ decimal
to_confirmed = (to_ended "customer-1" refl refl refl, refl)

confirmed_is_paid_example :
    HasPaid "order-1" (ended "customer-1") × HasReserved "order-1" (ended "customer-1")
confirmed_is_paid_example =
    confirmed_is_paid mock 0 stock to_confirmed.0 "order-1" confirmed_row to_confirmed.1 refl

cancelled_has_failed_example : HasFailed "order-1" (ended "cust_DECLINE")
unfolding Order.dispatch Order.execute_create Order.execute_confirm Order.execute_cancel
    Order.save_order Order.load_order Order.when Order.create_new Order.confirm Order.cancel
    Order.add_lines Inventory.dispatch Inventory.execute_reserve
    Inventory.save_reservation_within_transaction Inventory.save_reservation Stock.when
    Stock.reserved Stock.failed Rows.update_row Rows.check_lines Rows.increment_lines
    Rows.reserve_lines_within_transaction Payment.dispatch Payment.execute_authorize
    Payment.save_payment Payment.find_by_order_id Paying.when Paying.authorize Paying.decline
    Saga.dispatch Saga.on_event Saga.start Saga.start_saga Saga.on_step_event Saga.advance
    Saga.begin_compensation Saga.publish_compensations Saga.steps_to_compensate Saga.find_by_id
    Saga.save_instance Saga.on_saga_completed Saga.on_saga_compensated Saga.publish_command publish
    publish_as make_command field put spread read_create_order read_confirm_order read_cancel_order
    read_order_created read_reserve_stock read_authorize_payment find_one upsert save
    save_within_transaction append_events load_aggregate load_stream order_by_sequence
    insert_by_sequence hydrate apply relay relay_rows relay_row select_batch ◌+ℤ◌ ◌-ℤ◌ decimal
cancelled_has_failed_example =
    cancelled_has_failed mock 0 stock (to_ended "cust_DECLINE" refl refl refl) "order-1"
      cancelled_row refl refl
