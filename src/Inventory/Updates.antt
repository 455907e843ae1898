-- ===== src/Inventory/Updates.antt =====
-- What the loops of stock.repository.ts do to the row of one SKU.
use mathlib.Core.Option.{map as map_option, some-injective}
use kafka_ledger_saga.Base.{
  All, ℕ, ◌+◌, String, ◌≡◌, refl, sym, Bool-cases, inl, inr, Option, none, some, List, [], ◌∷◌,
  arith, ◌==◌, eq_iff, if◌then◌else◌,
}
use kafka_ledger_saga.Base.Int.{pos, ◌+ℤ◌, ◌-ℤ◌, +ℤ_zero, -ℤ_zero, +ℤ_pos, -ℤ_pos}
use kafka_ledger_saga.Contracts.{ReservationLine}
use kafka_ledger_saga.EventSourcing.{find_one}
use kafka_ledger_saga.Inventory.Stock.{
  StockLevelEntity, StockTable, update_row, increment, decrement, increment_lines,
  release_lines_within_transaction,
}

pub find_one-update_row :
    (sku k : String) (f : StockLevelEntity → StockLevelEntity) (stock : StockTable)
    → find_one k (update_row sku f stock)
      ≡ (if sku == k then map_option f (find_one k stock) else find_one k stock)
unfolding find_one update_row
find_one-update_row sku k f [] = ground arith
find_one-update_row sku k f ((j, row) ∷ stock) =
    ground (arith, eq_iff sku k, eq_iff j sku, eq_iff j k, find_one-update_row sku k f stock)

-- The quantities are whole numbers.
abbrev pub AreWhole : List ReservationLine → Type 0
AreWhole = All (λ line. line.qty.fraction ≡ [])

-- The total that the lines ask for of one SKU, fractions left out.
abbrev pub requested : String → List ReservationLine → ℕ
requested sku [] = 0
requested sku (line ∷ rest) =
    let others = requested sku rest in if line.sku == sku then line.qty.whole + others else others

abbrev pub reserve_qty : ℕ → StockLevelEntity → StockLevelEntity
reserve_qty n row = record row { qty_reserved = row.qty_reserved +ℤ pos n }

abbrev pub release_qty : ℕ → StockLevelEntity → StockLevelEntity
release_qty n row = record row { qty_reserved = row.qty_reserved -ℤ pos n }

reserve_qty_zero : (o : Option StockLevelEntity) → map_option (reserve_qty 0) o ≡ o
reserve_qty_zero none = refl
reserve_qty_zero (some row) = rw (+ℤ_zero row.qty_reserved)

release_qty_zero : (o : Option StockLevelEntity) → map_option (release_qty 0) o ≡ o
release_qty_zero none = refl
release_qty_zero (some row) = rw (-ℤ_zero row.qty_reserved)

reserve_qty_twice :
    (m n : ℕ) (o : Option StockLevelEntity)
    → map_option (reserve_qty n) (map_option (reserve_qty m) o) ≡ map_option (reserve_qty (m + n)) o
reserve_qty_twice m n none = refl
reserve_qty_twice m n (some row) = rw (+ℤ_pos row.qty_reserved m n)

release_qty_twice :
    (m n : ℕ) (o : Option StockLevelEntity)
    → map_option (release_qty n) (map_option (release_qty m) o) ≡ map_option (release_qty (m + n)) o
release_qty_twice m n none = refl
release_qty_twice m n (some row) = rw (-ℤ_pos row.qty_reserved m n)

increment-whole :
    (line : ReservationLine) (stock : StockTable)
    → line.qty.fraction ≡ []
    → increment line stock ≡ update_row line.sku (reserve_qty line.qty.whole) stock
increment-whole line stock e = rw e refl

decrement-whole :
    (line : ReservationLine) (stock : StockTable)
    → line.qty.fraction ≡ []
    → decrement line stock ≡ update_row line.sku (release_qty line.qty.whole) stock
decrement-whole line stock e = rw e refl

-- Reserving whole quantities adds to every SKU the total that the lines ask for of it, and changes
-- nothing else.
pub find_one-increment_lines :
    (sku : String) (lines : List ReservationLine) (stock : StockTable)
    → AreWhole lines
    → find_one sku (increment_lines lines stock)
      ≡ map_option (reserve_qty (requested sku lines)) (find_one sku stock)
unfolding increment_lines
find_one-increment_lines sku [] stock h = sym (reserve_qty_zero (find_one sku stock))
find_one-increment_lines sku (line ∷ rest) stock (e, h) =
    rw
      (
        find_one-increment_lines sku rest (increment line stock) h,
        increment-whole line stock e,
        find_one-update_row line.sku sku (reserve_qty line.qty.whole) stock,
      )
      (elim (Bool-cases (line.sku == sku)) [
        | inl e ↦ rw e (reserve_qty_twice line.qty.whole (requested sku rest) (find_one sku stock))
        | inr e ↦ rw e refl
      ])

-- Releasing takes the same total away again.
pub find_one-release_lines :
    (sku : String) (lines : List ReservationLine) (stock : StockTable)
    → AreWhole lines
    → find_one sku (release_lines_within_transaction lines stock)
      ≡ map_option (release_qty (requested sku lines)) (find_one sku stock)
unfolding release_lines_within_transaction
find_one-release_lines sku [] stock h = sym (release_qty_zero (find_one sku stock))
find_one-release_lines sku (line ∷ rest) stock (e, h) =
    rw
      (
        find_one-release_lines sku rest (decrement line stock) h,
        decrement-whole line stock e,
        find_one-update_row line.sku sku (release_qty line.qty.whole) stock,
      )
      (elim (Bool-cases (line.sku == sku)) [
        | inl e ↦ rw e (release_qty_twice line.qty.whole (requested sku rest) (find_one sku stock))
        | inr e ↦ rw e refl
      ])

pub some_row :
    (f : StockLevelEntity → StockLevelEntity) (o : Option StockLevelEntity) (row : StockLevelEntity)
    → map_option f o ≡ some row
    → (r : StockLevelEntity) × (o ≡ some r) × (f r ≡ row)
some_row f none row e = cc
some_row f (some r) row e = (r, refl, some-injective (f r) row e)
