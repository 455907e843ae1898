-- ===== src/Inventory/Quantities.antt =====
-- What a reservation and its release make of the stock rows.
use mathlib.Core.Option.{map as map_option}
use kafka_ledger_saga.Base.{
  ℕ, suc, ◌+◌, String, ◌≡◌, refl, inl, inr, Option, none, some, List, [], ◌∷◌, Result, ok, ==_refl,
  subst, Result-cases,
}
use kafka_ledger_saga.Base.Int.{pos, ◌+ℤ◌, ◌-ℤ◌, int_laws, eq_of_parts, +ℤ-ℤ_cancel}
use kafka_ledger_saga.Contracts.{ReservationLine}
use kafka_ledger_saga.Inventory.Rounding.{half, sub_part, add_part, part_of}
use kafka_ledger_saga.Errors.{Error}
use kafka_ledger_saga.EventSourcing.{find_one}
use kafka_ledger_saga.Inventory.Stock.{
  StockLevelEntity, StockTable, increment, check_lines, increment_lines,
  reserve_lines_within_transaction, release_lines_within_transaction,
}
use kafka_ledger_saga.Inventory.Updates.{
  AreWhole, requested, reserve_qty, release_qty, find_one-update_row, find_one-increment_lines,
  find_one-release_lines,
}
use kafka_ledger_saga.Inventory.Cover.{IsCovered, HasDistinctSkus, increment_lines-IsCovered}

reserve-release :
    (n : ℕ) (o : Option StockLevelEntity)
    → map_option (release_qty n) (map_option (reserve_qty n) o) ≡ o
reserve-release n none = refl
reserve-release n (some row) = rw (+ℤ-ℤ_cancel row.qty_reserved n)

-- Releasing the lines that were just reserved gives every SKU its row back, where the quantities are
-- whole numbers.
pub release_lines-increment_lines :
    (sku : String) (lines : List ReservationLine) (stock : StockTable)
    → AreWhole lines
    → find_one sku (release_lines_within_transaction lines (increment_lines lines stock))
      ≡ find_one sku stock
release_lines-increment_lines sku lines stock h =
    rw
      (
        find_one-release_lines sku lines (increment_lines lines stock) h,
        find_one-increment_lines sku lines stock h,
      )
      (reserve-release (requested sku lines) (find_one sku stock))

one_kept : (n w : ℕ) → sub_part half (add_part half (pos n +ℤ pos w) -ℤ pos w) ≡ pos (suc n)
one_kept n w =
    let sum : pos n +ℤ pos w ≡ pos (n + w) = eq_of_parts _ _ (grind int_laws) in
    let rest : pos (n + w + 1) -ℤ pos w ≡ pos (suc n) = eq_of_parts _ _ (grind int_laws) in
    rw (sum, rest) refl

-- A line whose quantity ends in a half, reserved and released again, leaves its stock row with one
-- unit more reserved than before.
pub release_lines-leaves_one :
    (line : ReservationLine) (stock : StockTable) (row : StockLevelEntity) (n : ℕ)
    → find_one line.sku stock ≡ some row
    → row.qty_reserved ≡ pos n
    → part_of line.qty.fraction ≡ half
    → find_one line.sku
        (release_lines_within_transaction (line ∷ []) (increment_lines (line ∷ []) stock))
      ≡ some (record row { qty_reserved = pos (suc n) })
unfolding release_lines_within_transaction increment_lines
release_lines-leaves_one line stock row n found units is_half =
    rw
      (
        find_one-update_row line.sku line.sku _ (increment line stock),
        find_one-update_row line.sku line.sku _ stock,
        ==_refl line.sku,
        found,
      )
      (rw (units, is_half, one_kept n line.qty.whole) refl)

ok-injective : {A : Type 0} (a b : A) → ◌≡◌ {A = Result Error A} (ok a) (ok b) → a ≡ b
ok-injective a b e = cc

-- `reserveLinesWithinTransaction` never oversells when no SKU occurs in two lines: where it
-- succeeds, every SKU's reserved quantity is still at most what the warehouse owns, if so before.
pub reserve_lines-IsCovered :
    (lines : List ReservationLine) (stock stock' : StockTable)
    → HasDistinctSkus lines
    → IsCovered stock
    → reserve_lines_within_transaction lines stock ≡ ok stock'
    → IsCovered stock'
unfolding reserve_lines_within_transaction
reserve_lines-IsCovered lines stock stock' d covered h sku row found =
    elim (Result-cases (check_lines lines stock)) [
      | inr (x, e) ↦ let h' = rw (e, reserve_lines_within_transaction) at h in cc
      | inl (u, e) ↦
          let same =
            ok-injective (increment_lines lines stock) stock'
              (rw (e, reserve_lines_within_transaction) at h) in
          subst IsCovered same (increment_lines-IsCovered lines stock d e covered) sku row found
    ]
