-- ===== src/Order/Domain.antt =====
-- apps/order-service/src/domain/order.aggregate.ts
use kafka_ledger_saga.Base.{
  ℕ, ◌+◌, ◌*◌, String, Bool, true, false, Option, none, some, List, [], ◌∷◌, Result, ok, err,
  if◌then◌else◌, not,
}
use kafka_ledger_saga.Contracts.{OrderStatus, OrderEvent, OrderLineItem}
use kafka_ledger_saga.Errors.{Error, order_already_finalized, unknown_event_type}
use kafka_ledger_saga.EventSourcing.{AggregateRoot, new_aggregate, apply}

pub record OrderState : Type 0 where
  pub status : OrderStatus
  pub customer_id : String
  pub items : List OrderLineItem
  pub total_cents : ℕ
  pub payment_id : Option String
  pub cancel_reason : Option String

abbrev pub OrderAggregate : Type 0
OrderAggregate = AggregateRoot OrderEvent OrderState

abbrev pub blank_state : OrderState
blank_state = record {
  status = OrderStatus.uninitialized;
  customer_id = "";
  items = [];
  total_cents = 0;
  payment_id = none;
  cancel_reason = none;
}

abbrev pub is_created : OrderStatus → Bool
is_created OrderStatus.created = true
is_created _ = false

abbrev pub is_final : OrderStatus → Bool
is_final OrderStatus.confirmed = true
is_final OrderStatus.cancelled = true
is_final _ = false

unfoldable pub when : OrderEvent → OrderState → Result Error OrderState
when (OrderEvent.created p) s = ok (record {
  status = OrderStatus.created;
  customer_id = p.customer_id;
  items = p.items;
  total_cents = p.total_cents;
  payment_id = none;
  cancel_reason = none;
})
when (OrderEvent.confirmed p) s =
    ok (record s { status = OrderStatus.confirmed; payment_id = some p.payment_id })
when (OrderEvent.cancelled p) s =
    ok (record s { status = OrderStatus.cancelled; cancel_reason = some p.reason })
when (OrderEvent.other t) s = err (unknown_event_type t)

-- `items.reduce((sum, i) => sum + i.qty * i.unitPriceCents, 0)`
unfoldable pub add_lines : ℕ → List OrderLineItem → ℕ
add_lines sum [] = sum
add_lines sum (i ∷ rest) = add_lines (sum + i.qty * i.unit_price_cents) rest

unfoldable pub create_new : ℕ → String → String → List OrderLineItem → Result Error OrderAggregate
unfolding when apply add_lines
create_new now order_id customer_id items =
    apply when now
      (OrderEvent.created (record {
        order_id = order_id;
        customer_id = customer_id;
        items = items;
        total_cents = add_lines 0 items;
      }))
      (new_aggregate order_id blank_state)

unfoldable pub confirm : ℕ → String → OrderAggregate → Result Error OrderAggregate
unfolding when apply
confirm now payment_id a =
    if not (is_created a.state.status)
    then err (order_already_finalized a.id a.state.status)
    else apply when now
        (OrderEvent.confirmed
          (record { order_id = a.id; customer_id = none; payment_id = payment_id }))
        a

unfoldable pub cancel : ℕ → String → OrderAggregate → Result Error OrderAggregate
unfolding when apply
cancel now reason a =
    if is_final a.state.status
    then err (order_already_finalized a.id a.state.status)
    else apply when now
        (OrderEvent.cancelled (record { order_id = a.id; customer_id = none; reason = reason })) a
