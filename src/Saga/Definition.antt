-- ===== src/Saga/Definition.antt =====
-- apps/saga-orchestrator/src/orchestrator/order-fulfillment.saga-definition.ts and the compensators.
use kafka_ledger_saga.Base.{ℕ, String, none, some, List, [], ◌∷◌, Result, ok, err, if◌then◌else◌}
use kafka_ledger_saga.Contracts.{
  Fields, text, number, lines, field, is_falsy, ReservationLine, reserve_stock_command,
  release_inventory_command, authorize_payment_command,
}
use kafka_ledger_saga.Errors.{Error, failure}
use kafka_ledger_saga.Saga.Toolkit.{SagaStep, SagaDefinition}

-- The context that `SagaStateMachine.start` builds.
abbrev pub initial_context : String → String → List ReservationLine → ℕ → Fields
initial_context order_id customer_id ls amount_cents =
    ("orderId", text order_id)
    ∷ ("customerId", text customer_id)
    ∷ ("lines", lines ls)
    ∷ ("amountCents", number amount_cents)
    ∷ []

unfoldable pub build_release_inventory_compensation : Fields → Result Error Fields
unfolding field
build_release_inventory_compensation ctx =
    if is_falsy (field "reservationId" ctx)
    then err (failure "no reservationId in saga context")
    else ok (("orderId", field "orderId" ctx) ∷ ("reservationId", field "reservationId" ctx) ∷ [])

-- Not used by the two steps below.
unfoldable pub build_refund_payment_compensation : Fields → Result Error Fields
unfolding field
build_refund_payment_compensation ctx =
    if is_falsy (field "paymentId" ctx)
    then err (failure "no paymentId in saga context")
    else ok (
        ("orderId", field "orderId" ctx)
        ∷ ("paymentId", field "paymentId" ctx)
        ∷ ("amountCents", field "amountCents" ctx)
        ∷ [])

abbrev pub reserve_inventory_step : SagaStep
reserve_inventory_step = record {
  name = "RESERVE_INVENTORY";
  command = reserve_stock_command;
  build_command_payload =
      λ ctx. ("orderId", field "orderId" ctx) ∷ ("lines", field "lines" ctx) ∷ [];
  success_event = "inventory.reserved.v1";
  failure_event = "inventory.reservation_failed.v1";
  compensation_command = none;
  build_compensation_payload = none;
}

abbrev pub authorize_payment_step : SagaStep
authorize_payment_step = record {
  name = "AUTHORIZE_PAYMENT";
  command = authorize_payment_command;
  build_command_payload = λ ctx.
      ("orderId", field "orderId" ctx)
      ∷ ("customerId", field "customerId" ctx)
      ∷ ("amountCents", field "amountCents" ctx)
      ∷ [];
  success_event = "payment.authorized.v1";
  failure_event = "payment.declined.v1";
  compensation_command = some release_inventory_command;
  build_compensation_payload = some build_release_inventory_compensation;
}

abbrev pub order_fulfillment_saga : SagaDefinition
order_fulfillment_saga = record {
  name = "order-fulfillment";
  steps = reserve_inventory_step ∷ authorize_payment_step ∷ [];
}
