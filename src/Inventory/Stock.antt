-- ===== src/Inventory/Stock.antt =====
-- apps/inventory-service/src/infrastructure/postgres/stock.repository.ts and stock-level.entity.ts.
-- The methods run inside the caller's transaction, under a lock on each row that they read.
use kafka_ledger_saga.Base.{
  String, Option, none, some, List, [], ◌∷◌, Result, ok, err, ◌==◌, if◌then◌else◌,
}
use kafka_ledger_saga.Base.Int.{ℤ, pos, ◌-ℤ◌, ltb_ℤ}
use kafka_ledger_saga.Base.Decimal.{decimal, fraction_text}
use kafka_ledger_saga.Inventory.Rounding.{ceiling, add_rounded, sub_rounded}
use Prim.Native.String.{◌++◌ as join}
use kafka_ledger_saga.Contracts.{ReservationLine}
use kafka_ledger_saga.Errors.{Error, insufficient_stock}
use kafka_ledger_saga.EventSourcing.{find_one}

-- A row of stock_level, without its description and its time of update.
pub record StockLevelEntity : Type 0 where
  pub qty_available : ℤ
  pub qty_reserved : ℤ

abbrev pub StockTable : Type 0
StockTable = List (String × StockLevelEntity)

-- An UPDATE of the row of one SKU; it changes nothing where there is none.
unfoldable pub update_row : String → (StockLevelEntity → StockLevelEntity) → StockTable → StockTable
update_row sku f [] = []
update_row sku f ((k, row) ∷ rows) =
    if k == sku then (k, f row) ∷ rows else (k, row) ∷ update_row sku f rows

-- `manager.increment(StockLevelEntity, { sku }, 'qtyReserved', qty)`
abbrev pub increment : ReservationLine → StockTable → StockTable
increment line =
    update_row line.sku (λ row. record row { qty_reserved = add_rounded row.qty_reserved line.qty })

-- `manager.decrement(StockLevelEntity, { sku }, 'qtyReserved', qty)`
abbrev pub decrement : ReservationLine → StockTable → StockTable
decrement line =
    update_row line.sku (λ row. record row { qty_reserved = sub_rounded row.qty_reserved line.qty })

abbrev pub unknown_sku : String → String
unknown_sku sku = join "Unknown SKU \"" (join sku "\"")

abbrev pub too_few : ReservationLine → ℤ → String
too_few line available = join "Requested " (
    join (join (decimal (pos line.qty.whole)) (fraction_text line.qty.fraction))
      (join " of \"" (join line.sku (join "\", only " (join (decimal available) " available")))))

-- The check of one line against its row; a whole number is below a quantity if it is below its
-- ceiling.
abbrev pub check_row : ReservationLine → Option StockLevelEntity → Result Error (Unit {0})
check_row line none = err (insufficient_stock line.sku (unknown_sku line.sku))
check_row line (some row) =
    let available_to_sell = row.qty_available -ℤ row.qty_reserved in
    if ltb_ℤ available_to_sell (pos (ceiling line.qty))
    then err (insufficient_stock line.sku (too_few line available_to_sell))
    else ok tt

-- The first loop of `reserveLinesWithinTransaction`.
unfoldable pub check_lines : List ReservationLine → StockTable → Result Error (Unit {0})
unfolding find_one
check_lines [] stock = ok tt
check_lines (line ∷ rest) stock =
    let others = check_lines rest stock in
    elim (check_row line (find_one line.sku stock)) [ err e ↦ err e | ok _ ↦ others ]

-- The second loop.
unfoldable pub increment_lines : List ReservationLine → StockTable → StockTable
unfolding update_row
increment_lines [] stock = stock
increment_lines (line ∷ rest) stock = increment_lines rest (increment line stock)

unfoldable pub reserve_lines_within_transaction :
    List ReservationLine → StockTable → Result Error StockTable
unfolding check_lines increment_lines
reserve_lines_within_transaction lines stock = elim (check_lines lines stock) [
  | err e ↦ err e
  | ok _ ↦ ok (increment_lines lines stock)
]

unfoldable pub release_lines_within_transaction : List ReservationLine → StockTable → StockTable
unfolding update_row
release_lines_within_transaction [] stock = stock
release_lines_within_transaction (line ∷ rest) stock =
    release_lines_within_transaction rest (decrement line stock)
