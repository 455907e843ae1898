-- ===== src/Inventory/Held.antt =====
-- What every command to the inventory service may do, and the balance between the stock rows and
-- the reservations that hold them.
use kafka_ledger_saga.Base.{
  ap, ℕ, ◌+◌, String, ◌≡◌, true, false, Bool-cases, inl, inr, Option, none, some, List, [], ◌∷◌, ok,
  arith, length, ◌==◌, if◌then◌else◌,
}
use kafka_ledger_saga.Base.Int.{ℤ, pos, ◌+ℤ◌, ◌-ℤ◌, int_laws}
use kafka_ledger_saga.Contracts.{InventoryEvent, ReservationLine}
use kafka_ledger_saga.EventSourcing.{Ambient, Uncommitted, find_one, upsert, replay}
use kafka_ledger_saga.EventSourcing.Consistency.{stream, saved}
use kafka_ledger_saga.EventSourcing.Outcomes.{Outcome, kept, appended}
use kafka_ledger_saga.Inventory.Domain.{StockAggregateState, when, is_reserved}
use kafka_ledger_saga.Inventory.Stock.{
  StockTable, StockLevelEntity, increment_lines, release_lines_within_transaction,
}
use kafka_ledger_saga.Inventory.Service.{
  InventoryDb, ReservationProjectionEntity, inventory_service,
}
use kafka_ledger_saga.Inventory.Updates.{requested, AreWhole}

-- What one reservation holds of a SKU.
abbrev pub held_by : String → ReservationProjectionEntity → ℕ
held_by sku row = if is_reserved row.status then requested sku row.lines else 0

-- What all reservations hold of a SKU.
abbrev pub held : String → List (String × ReservationProjectionEntity) → ℕ
held sku [] = 0
held sku ((id, row) ∷ rows) = held_by sku row + held sku rows

abbrev held_before : String → Option ReservationProjectionEntity → ℕ
held_before sku none = 0
held_before sku (some row) = held_by sku row

pub held-upsert :
    (sku id : String) (row : ReservationProjectionEntity)
    (rows : List (String × ReservationProjectionEntity))
    → held sku (upsert id row rows) + held_before sku (find_one id rows)
      ≡ held sku rows + held_by sku row
unfolding upsert find_one
held-upsert sku id row [] = omega arith
held-upsert sku id row ((j, r) ∷ rows) =
    let ih = held-upsert sku id row rows in
    elim (Bool-cases (j == id)) [ inl e ↦ rw e (omega arith) | inr e ↦ rw e (omega arith) ]

-- The reserved quantity of every stock row is the total that the RESERVED reservations hold of it.
abbrev pub IsBalanced : InventoryDb → Type 0
IsBalanced db =
    (sku : String) (row : StockLevelEntity)
    → find_one sku db.stock ≡ some row
    → row.qty_reserved ≡ pos (held sku db.store.projection)

-- The RESERVED reservations hold whole quantities.
abbrev pub HoldsWhole : List (String × ReservationProjectionEntity) → Type 0
HoldsWhole rows =
    (id : String) (row : ReservationProjectionEntity)
    → find_one id rows ≡ some row
    → is_reserved row.status ≡ true
    → AreWhole row.lines

-- The stock table after a change of one reservation, whose row was `old` before; `W` holds of the
-- lines that are taken.
pub data StockMove (W : List ReservationLine → Type 0) (old : Option ReservationProjectionEntity)
    (s : StockAggregateState) (stock stock' : StockTable) : Type 0 where
  unmoved :
      old ≡ none → is_reserved s.status ≡ false → stock' ≡ stock → StockMove W old s stock stock'
  taken :
      old ≡ none
      → is_reserved s.status ≡ true
      → W s.lines
      → stock' ≡ increment_lines s.lines stock
      → StockMove W old s stock stock'
  given_back :
      (row : ReservationProjectionEntity)
      → old ≡ some row
      → is_reserved row.status ≡ true
      → is_reserved s.status ≡ false
      → stock' ≡ release_lines_within_transaction row.lines stock
      → StockMove W old s stock stock'

-- A command is without effect, or it appends the next event of one order's reservation and moves
-- the stock that goes with it.
pub data Effect (W : List ReservationLine → Type 0) (db db' : InventoryDb) : Type 0 where
  idle : db' ≡ db → Effect W db db'
  moved :
      (ambient : Ambient) (correlation_id id : String) (s s' : StockAggregateState) (drawn : ℕ)
      (u : Uncommitted InventoryEvent)
      → replay when inventory_service.blank (stream id db.store) ≡ ok s
      → when u.event s ≡ ok s'
      → StockMove W (find_one id db.store.projection) s' db.stock db'.stock
      → db'.store
        ≡ saved inventory_service ambient correlation_id id s'
            (length (stream id db.store) + 1)
            drawn
            u
            db.store
      → Effect W db db'

pub Effect-Outcome :
    {W : List ReservationLine → Type 0} {db db' : InventoryDb}
    → Effect W db db'
    → Outcome when inventory_service db.store db'.store
Effect-Outcome (idle e) = kept (ap (λ d. d.store) e)
Effect-Outcome (moved ambient cid id s s' drawn u h w m e) =
    appended ambient cid id s s' drawn u h w e

pub plus_held : (q : ℤ) (n m k : ℕ) → q ≡ pos n → m + 0 ≡ n + k → q +ℤ pos k ≡ pos m
plus_held q n m k e h = grind int_laws

pub minus_held : (q : ℤ) (n m k : ℕ) → q ≡ pos n → m + k ≡ n + 0 → q -ℤ pos k ≡ pos m
minus_held q n m k e h = grind int_laws
