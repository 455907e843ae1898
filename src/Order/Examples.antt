-- ===== src/Order/Examples.antt =====
-- The order service on a few commands, duplicates included.
use kafka_ledger_saga.Base.{ok, String, ◌≡◌, refl, none, some, List, [], ◌∷◌, ◌++◌}
use kafka_ledger_saga.Contracts.{
  OrderStatus, OrderEvent, CommandEnvelope, Fields, text, items, create_order_command,
  confirm_order_command, cancel_order_command, field, read_create_order, read_confirm_order,
}
use kafka_ledger_saga.EventSourcing.{
  Ambient, StoredEvent, new_aggregate, Uncommitted, replay, find_one, upsert, save,
  save_within_transaction, append_events, load_aggregate, load_stream, order_by_sequence,
  insert_by_sequence, hydrate, apply,
}
use kafka_ledger_saga.EventSourcing.Consistency.{with_event}
use kafka_ledger_saga.EventSourcing.Snapshot.{Snapshot, tail_to_replay, tail_to_replay-hydrate}
use kafka_ledger_saga.EventSourcing.RoundTrip.{load_aggregate-save}
use kafka_ledger_saga.EventSourcing.Outcomes.{IsMirrored}
use kafka_ledger_saga.Order.Domain.{OrderState, when, blank_state, create_new, confirm, add_lines}
use kafka_ledger_saga.Order.Service.{
  OrderDb, OrderProjection, order_service, dispatch, execute_create, execute_confirm, save_order,
  load_order,
}
use kafka_ledger_saga.Order.Branches.{IsValid}
use kafka_ledger_saga.Order.Outcomes.{run, run-IsValid, run-IsMirrored}
use kafka_ledger_saga.Order.Finality.{run-keeps_final}

abbrev ambient : Ambient
ambient = record { now = 7; uuid = λ _. "uuid" }

abbrev command : String → Fields → CommandEnvelope Fields
command t payload = record {
  id = "command";
  type = t;
  version = 1;
  correlation_id = "correlation";
  causation_id = none;
  issued_at = 7;
  payload = payload;
}

abbrev create : CommandEnvelope Fields
create = command create_order_command (
    ("orderId", text "order-1")
    ∷ ("customerId", text "customer-1")
    ∷ ("items", items (record { sku = "sku-1"; qty = 2; unit_price_cents = 50 } ∷ []))
    ∷ [])

abbrev confirm_it : CommandEnvelope Fields
confirm_it =
    command confirm_order_command
      (("orderId", text "order-1") ∷ ("paymentId", text "payment-1") ∷ [])

-- Each command twice.
abbrev commands : List (Ambient × CommandEnvelope Fields)
commands =
    (ambient, create) ∷ (ambient, create) ∷ (ambient, confirm_it) ∷ (ambient, confirm_it) ∷ []

abbrev no_orders : OrderDb
no_orders = record { events = []; outbox = []; projection = [] }

no_orders-IsValid : IsValid no_orders
unfolding replay find_one
no_orders-IsValid id = (blank_state, tt, refl, refl)

run-IsValid_example : IsValid (run commands no_orders)
run-IsValid_example = run-IsValid commands no_orders no_orders-IsValid

run-IsMirrored_example : IsMirrored when order_service (run commands no_orders)
run-IsMirrored_example = run-IsMirrored commands no_orders no_orders-IsValid refl

-- The order after `commands`.
abbrev confirmed_row : OrderProjection
confirmed_row = record {
  order_id = "order-1";
  customer_id = "customer-1";
  status = OrderStatus.confirmed;
  items = record { sku = "sku-1"; qty = 2; unit_price_cents = 50 } ∷ [];
  total_cents = 100;
  payment_id = some "payment-1";
  cancel_reason = none;
  version = 2;
}

confirmed_order : find_one "order-1" (run commands no_orders).projection ≡ some confirmed_row
unfolding run dispatch execute_create execute_confirm save_order load_order save load_aggregate
    find_one upsert save_within_transaction append_events load_stream order_by_sequence
    insert_by_sequence hydrate apply when create_new confirm add_lines read_create_order
    read_confirm_order field
confirmed_order = refl

abbrev cancel_it : CommandEnvelope Fields
cancel_it =
    command cancel_order_command (("orderId", text "order-1") ∷ ("reason", text "late") ∷ [])

run-keeps_final_example :
    find_one "order-1" (run ((ambient, cancel_it) ∷ commands) (run commands no_orders)).projection
    ≡ some confirmed_row
run-keeps_final_example =
    run-keeps_final "order-1" confirmed_row refl ((ambient, cancel_it) ∷ commands)
      (run commands no_orders) (run-IsValid commands no_orders no_orders-IsValid) confirmed_order

-- Order 1 created and loaded again.
abbrev created_state : OrderState
created_state = record blank_state { status = OrderStatus.created; customer_id = "customer-1" }

abbrev created_event : Uncommitted OrderEvent
created_event = record {
  event =
      OrderEvent.created
        (record { order_id = "order-1"; customer_id = "customer-1"; items = []; total_cents = 0 });
  occurred_at = 7;
}

load_aggregate-save_example :
    load_aggregate when order_service "order-1"
      (save order_service ambient "correlation" 0
        (with_event "order-1" created_state 1 created_event)
        no_orders).1
    ≡ (
      ok (
          some (record {
            id = "order-1";
            state = created_state;
            version = 1;
            uncommitted_events = [];
          })),
      (save order_service ambient "correlation" 0
          (with_event "order-1" created_state 1 created_event)
          no_orders).1,
    )
unfolding replay when
load_aggregate-save_example =
    load_aggregate-save when order_service ambient "correlation" "order-1" blank_state created_state
      0 created_event no_orders no_orders-IsValid refl refl

-- Order 1 with two events, and a snapshot of it after the first.
abbrev created_rows : List (StoredEvent OrderEvent)
created_rows =
    record {
      aggregate_id = "order-1";
      aggregate_type = "Order";
      sequence = 1;
      event = created_event.event;
      occurred_at = 7;
      correlation_id = "correlation";
    }
    ∷ []

abbrev two_rows : List (StoredEvent OrderEvent)
two_rows =
    created_rows
    ++ record {
      aggregate_id = "order-1";
      aggregate_type = "Order";
      sequence = 2;
      event =
          OrderEvent.cancelled
            (record { order_id = "order-1"; customer_id = none; reason = "late" });
      occurred_at = 8;
      correlation_id = "correlation";
    }
      ∷ []

abbrev snapshot : Snapshot OrderState
snapshot = record { aggregate_id = "order-1"; version = 1; state = created_state; taken_at = 7 }

tail_to_replay-hydrate_example :
    hydrate when
      (record (new_aggregate "order-1" created_state) { version = 1 })
      (tail_to_replay two_rows (some snapshot))
    ≡ hydrate when (new_aggregate "order-1" blank_state) two_rows
unfolding hydrate when
tail_to_replay-hydrate_example =
    tail_to_replay-hydrate when "order-1" blank_state two_rows snapshot (refl, (refl, tt)) refl
