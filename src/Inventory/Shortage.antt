-- ===== src/Inventory/Shortage.antt =====
-- Which lines of a reservation cannot be served, and what ReserveStock then records.
use kafka_ledger_saga.Base.{
  String, ◌≡◌, refl, ◌∙◌, true, Bool-cases, ◌⊎◌, inl, inr, Option-cases, none, some, List, [], ◌∷◌,
  err, ok, Any, Result-cases,
}
use kafka_ledger_saga.Base.Int.{pos, ◌-ℤ◌, ltb_ℤ}
use kafka_ledger_saga.Contracts.{ReservationLine, ReserveStockCommandPayload}
use kafka_ledger_saga.Errors.{Error, insufficient_stock}
use kafka_ledger_saga.EventSourcing.{Ambient, find_one}
use kafka_ledger_saga.EventSourcing.Consistency.{saved}
use kafka_ledger_saga.Inventory.Rounding.{ceiling}
use kafka_ledger_saga.Inventory.Stock.{
  StockTable, StockLevelEntity, check_row, check_lines, unknown_sku, too_few,
}
use kafka_ledger_saga.Inventory.Service.{InventoryDb, inventory_service, execute_reserve}
use kafka_ledger_saga.Inventory.Facts.{failed_state, failed_event}
use kafka_ledger_saga.Inventory.Branches.{IsValid, execute_reserve-short}

-- The line's SKU has no stock row, or fewer units are free than the line asks for.
abbrev pub IsShort : StockTable → ReservationLine → Type 0
IsShort stock line =
    (find_one line.sku stock ≡ none)
    ⊎ (row : StockLevelEntity) × (find_one line.sku stock ≡ some row)
      × (ltb_ℤ (row.qty_available -ℤ row.qty_reserved) (pos (ceiling line.qty)) ≡ true)

check_row-IsShort :
    (stock : StockTable) (line : ReservationLine)
    → IsShort stock line
    → (x : Error) × (check_row line (find_one line.sku stock) ≡ err x)
check_row-IsShort stock line (inl e) =
    (insufficient_stock line.sku (unknown_sku line.sku), rw e refl)
check_row-IsShort stock line (inr (row, e, few)) = (
  insufficient_stock line.sku (too_few line (row.qty_available -ℤ row.qty_reserved)),
  rw (e, few) refl,
)

check_lines-first :
    (stock : StockTable) (line : ReservationLine) (rest : List ReservationLine) (x : Error)
    → check_row line (find_one line.sku stock) ≡ err x
    → check_lines (line ∷ rest) stock ≡ err x
unfolding check_lines
check_lines-first stock line rest x e = rw (e, check_lines) refl

check_lines-later :
    (stock : StockTable) (line : ReservationLine) (rest : List ReservationLine) (x : Error)
    → check_row line (find_one line.sku stock) ≡ ok tt
    → check_lines rest stock ≡ err x
    → check_lines (line ∷ rest) stock ≡ err x
unfolding check_lines
check_lines-later stock line rest x e h = rw (e, h, check_lines) refl

check_lines-IsShort :
    (stock : StockTable) (lines : List ReservationLine)
    → Any (IsShort stock) lines
    → (x : Error) × (check_lines lines stock ≡ err x)
check_lines-IsShort stock [] h = absurd h
check_lines-IsShort stock (line ∷ rest) (inl h) =
    let (x, e) = check_row-IsShort stock line h in (x, check_lines-first stock line rest x e)
check_lines-IsShort stock (line ∷ rest) (inr h) =
    elim (Result-cases (check_row line (find_one line.sku stock))) [
      | inr (x, e) ↦ (x, check_lines-first stock line rest x e)
      | inl (u, e) ↦
          let (x, later) = check_lines-IsShort stock rest h in
          (x, check_lines-later stock line rest x e later)
    ]

-- The failure that a check reports is about a line that is short.
reported :
    (stock : StockTable) (line : ReservationLine) (sku reason : String)
    → check_row line (find_one line.sku stock) ≡ err (insufficient_stock sku reason)
    → (line.sku ≡ sku) × IsShort stock line
reported stock line sku reason e = elim (Option-cases (find_one line.sku stock)) [
  | inl absent ↦ let e' = rw absent at e in (cc, inl absent)
  | inr (row, found) ↦
      let e' = rw found at e in
      elim (Bool-cases (ltb_ℤ (row.qty_available -ℤ row.qty_reserved) (pos (ceiling line.qty)))) [
        | inl few ↦ let e'' = rw few at e' in (cc, inr (row, found, few))
        | inr enough ↦ let e'' = rw enough at e' in absurd cc
      ]
]

check_lines-reported :
    (stock : StockTable) (lines : List ReservationLine) (sku reason : String)
    → check_lines lines stock ≡ err (insufficient_stock sku reason)
    → Any (λ line. (line.sku ≡ sku) × IsShort stock line) lines
unfolding check_lines
check_lines-reported stock [] sku reason e = absurd cc
check_lines-reported stock (line ∷ rest) sku reason e =
    elim (Result-cases (check_row line (find_one line.sku stock))) [
      | inr (x, f) ↦ inl (reported stock line sku reason (f ∙ (rw (f, check_lines) at e)))
      | inl (u, f) ↦ inr (check_lines-reported stock rest sku reason (rw (f, check_lines) at e))
    ]

module _ (ambient : Ambient) (correlation_id : String) (db : InventoryDb) (v : IsValid db) where
  -- In consistent tables, where the order has no reservation yet and some line is for a SKU without a
  -- stock row or for more units than are free, ReserveStock returns, records the failed reservation
  -- with the SKU of such a line and a reason, and leaves the stock rows as they were.
  pub execute_reserve-unserved :
      (c : ReserveStockCommandPayload)
      → find_one c.order_id db.store.projection ≡ none
      → Any (IsShort db.stock) c.lines
      → (sku : String) × (reason : String) × Any
          (λ line. (line.sku ≡ sku) × IsShort db.stock line)
          c.lines
        × (execute_reserve ambient correlation_id c db ≡ (
          ok tt,
          record db {
            store =
                saved inventory_service ambient correlation_id c.order_id
                  (failed_state c.order_id sku reason)
                  1
                  1
                  (failed_event ambient.now c.order_id sku reason)
                  db.store;
          },
        ))
  execute_reserve-unserved c e short =
      let (x, failed) = check_lines-IsShort db.stock c.lines short in
      let (sku, reason, is, runs) =
        execute_reserve-short ambient correlation_id db v c x e failed in
      (sku, reason, check_lines-reported db.stock c.lines sku reason (rw is at failed), runs)
