-- ===== src/Inventory/Domain.antt =====
-- apps/inventory-service/src/domain/stock.aggregate.ts
use kafka_ledger_saga.Base.{
  ℕ, String, Bool, true, false, Option, none, some, List, [], Result, ok, err, if◌then◌else◌, not,
}
use kafka_ledger_saga.Contracts.{ReservationStatus, InventoryEvent, ReservationLine}
use kafka_ledger_saga.Errors.{Error, reservation_already_finalized, unknown_event_type}
use kafka_ledger_saga.EventSourcing.{AggregateRoot, new_aggregate, apply}

pub record StockAggregateState : Type 0 where
  pub status : ReservationStatus
  pub order_id : String
  pub reservation_id : Option String
  pub lines : List ReservationLine
  pub failed_sku : Option String
  pub fail_reason : Option String

abbrev pub StockAggregate : Type 0
StockAggregate = AggregateRoot InventoryEvent StockAggregateState

abbrev pub blank_state : StockAggregateState
blank_state = record {
  status = ReservationStatus.uninitialized;
  order_id = "";
  reservation_id = none;
  lines = [];
  failed_sku = none;
  fail_reason = none;
}

abbrev pub is_reserved : ReservationStatus → Bool
is_reserved ReservationStatus.reserved = true
is_reserved _ = false

unfoldable pub when : InventoryEvent → StockAggregateState → Result Error StockAggregateState
when (InventoryEvent.reserved p) s = ok (record {
  status = ReservationStatus.reserved;
  order_id = p.order_id;
  reservation_id = some p.reservation_id;
  lines = p.lines;
  failed_sku = none;
  fail_reason = none;
})
when (InventoryEvent.reservation_failed p) s = ok (record s {
  status = ReservationStatus.failed;
  order_id = p.order_id;
  failed_sku = some p.sku;
  fail_reason = some p.reason;
})
when (InventoryEvent.released p) s = ok (record s { status = ReservationStatus.released })
when (InventoryEvent.other t) s = err (unknown_event_type t)

-- `StockAggregate.reserved`
unfoldable pub reserved : ℕ → String → String → List ReservationLine → Result Error StockAggregate
unfolding when apply
reserved now order_id reservation_id lines =
    apply when now
      (InventoryEvent.reserved
        (record { reservation_id = reservation_id; order_id = order_id; lines = lines }))
      (new_aggregate order_id blank_state)

-- `StockAggregate.failed`
unfoldable pub failed : ℕ → String → String → String → Result Error StockAggregate
unfolding when apply
failed now order_id sku reason =
    apply when now
      (InventoryEvent.reservation_failed
        (record { order_id = order_id; sku = sku; reason = reason }))
      (new_aggregate order_id blank_state)

-- `reservationId as string`, of a state that may lack one.
abbrev pub id_text : Option String → String
id_text none = "undefined"
id_text (some s) = s

unfoldable pub release : ℕ → StockAggregate → Result Error StockAggregate
unfolding when apply
release now a =
    if not (is_reserved a.state.status)
    then err (reservation_already_finalized a.id a.state.status)
    else apply when now
        (InventoryEvent.released
          (record { reservation_id = id_text a.state.reservation_id; order_id = a.id }))
        a
