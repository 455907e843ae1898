-- ===== src/Contracts/Commands.antt =====
-- The command types, and each payload class read from the JSON object of an envelope. The code
-- casts (`envelope.payload as CreateOrderCommandPayload`); an object without one of the declared
-- fields has no reading here.
use kafka_ledger_saga.Base.{String, Option}
use kafka_ledger_saga.Contracts.Payloads.{
  CreateOrderCommandPayload, ConfirmOrderCommandPayload, CancelOrderCommandPayload,
  ReserveStockCommandPayload, ReleaseInventoryCommandPayload, AuthorizePaymentCommandPayload,
  RefundPaymentCommandPayload, OrderCreatedPayload,
}
use kafka_ledger_saga.Contracts.Json.{
  Fields, field, as_text, as_number, as_items, as_lines, map₂, map₃, map₄,
}

abbrev pub saga_commands_topic : String
saga_commands_topic = "saga.commands"

abbrev pub create_order_command : String
create_order_command = "order.create.v1"

abbrev pub confirm_order_command : String
confirm_order_command = "order.confirm.v1"

abbrev pub cancel_order_command : String
cancel_order_command = "order.cancel.v1"

abbrev pub reserve_stock_command : String
reserve_stock_command = "inventory.reserve_stock.v1"

abbrev pub release_inventory_command : String
release_inventory_command = "inventory.release.v1"

abbrev pub authorize_payment_command : String
authorize_payment_command = "payment.authorize.v1"

abbrev pub refund_payment_command : String
refund_payment_command = "payment.refund.v1"

-- The one event that a consumer reads as a class of its own.
unfoldable pub read_order_created : Fields → Option OrderCreatedPayload
unfolding field
read_order_created o =
    map₄ (λ i c xs n. record { order_id = i; customer_id = c; items = xs; total_cents = n })
      (as_text (field "orderId" o)) (as_text (field "customerId" o)) (as_items (field "items" o))
      (as_number (field "totalCents" o))

unfoldable pub read_create_order : Fields → Option CreateOrderCommandPayload
unfolding field
read_create_order o =
    map₃ (λ i c xs. record { order_id = i; customer_id = c; items = xs })
      (as_text (field "orderId" o)) (as_text (field "customerId" o)) (as_items (field "items" o))

unfoldable pub read_confirm_order : Fields → Option ConfirmOrderCommandPayload
unfolding field
read_confirm_order o =
    map₂ (λ i p. record { order_id = i; payment_id = p }) (as_text (field "orderId" o))
      (as_text (field "paymentId" o))

unfoldable pub read_cancel_order : Fields → Option CancelOrderCommandPayload
unfolding field
read_cancel_order o =
    map₂ (λ i r. record { order_id = i; reason = r }) (as_text (field "orderId" o))
      (as_text (field "reason" o))

unfoldable pub read_reserve_stock : Fields → Option ReserveStockCommandPayload
unfolding field
read_reserve_stock o =
    map₂ (λ i xs. record { order_id = i; lines = xs }) (as_text (field "orderId" o))
      (as_lines (field "lines" o))

unfoldable pub read_release_inventory : Fields → Option ReleaseInventoryCommandPayload
unfolding field
read_release_inventory o =
    map₂ (λ i r. record { order_id = i; reservation_id = r }) (as_text (field "orderId" o))
      (as_text (field "reservationId" o))

unfoldable pub read_authorize_payment : Fields → Option AuthorizePaymentCommandPayload
unfolding field
read_authorize_payment o =
    map₃ (λ i c n. record { order_id = i; customer_id = c; amount_cents = n })
      (as_text (field "orderId" o)) (as_text (field "customerId" o))
      (as_number (field "amountCents" o))

unfoldable pub read_refund_payment : Fields → Option RefundPaymentCommandPayload
unfolding field
read_refund_payment o =
    map₃ (λ i p n. record { order_id = i; payment_id = p; amount_cents = n })
      (as_text (field "orderId" o)) (as_text (field "paymentId" o))
      (as_number (field "amountCents" o))
