-- ===== src/Inventory/Facts.antt =====
-- The states and events that the commands of the inventory service lead to, and why a check fails.
use kafka_ledger_saga.Base.{
  Result-cases, ℕ, String, ◌≡◌, ◌∙◌, sym, Bool-cases, inl, inr, Option, none, some, List, [], ◌∷◌,
  Result, err,
}
use kafka_ledger_saga.Base.Int.{pos, ◌-ℤ◌, ltb_ℤ}
use kafka_ledger_saga.Contracts.{
  ReservationStatus, InventoryEvent, ReservationLine, ReserveStockCommandPayload,
}
use kafka_ledger_saga.Errors.{Error, insufficient_stock}
use kafka_ledger_saga.EventSourcing.{Uncommitted, find_one}
use kafka_ledger_saga.Inventory.Domain.{StockAggregateState, blank_state, id_text}
use kafka_ledger_saga.Inventory.Rounding.{ceiling}
use kafka_ledger_saga.Inventory.Stock.{
  StockTable, unknown_sku, too_few, check_row, check_lines, StockLevelEntity,
}

abbrev pub reserved_state : ReserveStockCommandPayload → String → StockAggregateState
reserved_state c reservation_id = record {
  status = ReservationStatus.reserved;
  order_id = c.order_id;
  reservation_id = some reservation_id;
  lines = c.lines;
  failed_sku = none;
  fail_reason = none;
}

abbrev pub reserved_event : ℕ → ReserveStockCommandPayload → String → Uncommitted InventoryEvent
reserved_event now c reservation_id = record {
  event =
      InventoryEvent.reserved
        (record { reservation_id = reservation_id; order_id = c.order_id; lines = c.lines });
  occurred_at = now;
}

abbrev pub failed_state : String → String → String → StockAggregateState
failed_state id sku reason = record blank_state {
  status = ReservationStatus.failed;
  order_id = id;
  failed_sku = some sku;
  fail_reason = some reason;
}

abbrev pub failed_event : ℕ → String → String → String → Uncommitted InventoryEvent
failed_event now id sku reason = record {
  event = InventoryEvent.reservation_failed (record { order_id = id; sku = sku; reason = reason });
  occurred_at = now;
}

abbrev pub released_state : StockAggregateState → StockAggregateState
released_state s = record s { status = ReservationStatus.released }

abbrev pub released_event : ℕ → String → StockAggregateState → Uncommitted InventoryEvent
released_event now id s = record {
  event =
      InventoryEvent.released (record { reservation_id = id_text s.reservation_id; order_id = id });
  occurred_at = now;
}

err-injective : (a b : Error) → ◌≡◌ {A = Result Error (Unit {0})} (err a) (err b) → a ≡ b
err-injective a b e = cc

-- The check of a line fails for want of stock, and for nothing else.
check_row-err :
    (line : ReservationLine) (o : Option StockLevelEntity) (x : Error)
    → check_row line o ≡ err x
    → (sku : String) × (reason : String) × (x ≡ insufficient_stock sku reason)
check_row-err line none x h = (line.sku, unknown_sku line.sku, sym (err-injective _ _ h))
check_row-err line (some row) x h =
    elim (Bool-cases (ltb_ℤ (row.qty_available -ℤ row.qty_reserved) (pos (ceiling line.qty)))) [
      | inl e ↦ (
        line.sku,
        too_few line (row.qty_available -ℤ row.qty_reserved),
        sym (err-injective _ _ (rw e at h)),
      )
      | inr e ↦ let h' = rw e at h in cc
    ]

pub check_lines-err :
    (lines : List ReservationLine) (stock : StockTable) (x : Error)
    → check_lines lines stock ≡ err x
    → (sku : String) × (reason : String) × (x ≡ insufficient_stock sku reason)
unfolding check_lines
check_lines-err [] stock x h = cc
check_lines-err (line ∷ rest) stock x h =
    elim (Result-cases (check_row line (find_one line.sku stock))) [
      | inl (u, e) ↦ check_lines-err rest stock x (rw (e, check_lines) at h)
      | inr (y, e) ↦
          let same = err-injective y x (rw (e, check_lines) at h) in
          let (sku, reason, e') = check_row-err line (find_one line.sku stock) y e in
          (sku, reason, sym same ∙ e')
    ]
