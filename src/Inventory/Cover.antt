-- ===== src/Inventory/Cover.antt =====
-- Lines for distinct SKUs that pass the check of stock.repository.ts keep every SKU covered.
use kafka_ledger_saga.Base.{
  any, ◌∙◌, String, ◌≡◌, refl, false, Bool-cases, inl, inr, Option, some, List, [], ◌∷◌, Result, ok,
  err, ap, arith, ◌==◌, eq_of_==, subst, Result-cases,
}
use kafka_ledger_saga.Base.Int.{pos, ◌-ℤ◌, ◌≤ℤ◌, ltb_ℤ}
use kafka_ledger_saga.Contracts.{ReservationLine}
use kafka_ledger_saga.Inventory.Rounding.{ceiling, add_rounded, add_rounded_within}
use kafka_ledger_saga.Errors.{Error}
use kafka_ledger_saga.EventSourcing.{find_one}
use kafka_ledger_saga.Inventory.Stock.{
  StockLevelEntity, StockTable, update_row, increment, check_row, check_lines, increment_lines,
}
use kafka_ledger_saga.Inventory.Updates.{some_row, find_one-update_row}

-- Every SKU's reserved quantity is at most what the warehouse owns.
abbrev pub IsCovered : StockTable → Type 0
IsCovered stock =
    (sku : String) (row : StockLevelEntity)
    → find_one sku stock ≡ some row
    → row.qty_reserved ≤ℤ row.qty_available

-- No two lines are for the same SKU.
abbrev pub HasDistinctSkus : List ReservationLine → Type 0
HasDistinctSkus [] = Unit
HasDistinctSkus (line ∷ rest) = (any (λ l. line.sku == l.sku) rest ≡ false) × HasDistinctSkus rest

check_row-some :
    (line : ReservationLine) (row : StockLevelEntity)
    → check_row line (some row) ≡ ok tt
    → add_rounded row.qty_reserved line.qty ≤ℤ row.qty_available
check_row-some line row h =
    elim (Bool-cases (ltb_ℤ (row.qty_available -ℤ row.qty_reserved) (pos (ceiling line.qty)))) [
      | inl e ↦ let h' = rw e at h in cc
      | inr e ↦ add_rounded_within row.qty_available row.qty_reserved line.qty e
    ]

check_lines-cons :
    (line : ReservationLine) (rest : List ReservationLine) (stock : StockTable)
    → check_lines (line ∷ rest) stock ≡ ok tt
    → (check_row line (find_one line.sku stock) ≡ ok tt) × (check_lines rest stock ≡ ok tt)
unfolding check_lines
check_lines-cons line rest stock h =
    elim (Result-cases (check_row line (find_one line.sku stock))) [
      | inl (u, e) ↦ (e, rw (e, check_lines) at h)
      | inr (x, e) ↦ let h' = rw (e, check_lines) at h in cc
    ]

check_lines-cong :
    (line : ReservationLine) (rest : List ReservationLine) (s t : StockTable)
    → find_one line.sku s ≡ find_one line.sku t
    → check_lines rest s ≡ check_lines rest t
    → check_lines (line ∷ rest) s ≡ check_lines (line ∷ rest) t
unfolding check_lines
check_lines-cong line rest s t e h =
    let first : Option StockLevelEntity → Result Error (Unit {0}) → Result Error (Unit {0}) =
      λ o r. elim (check_row line o) [ err x ↦ err x | ok _ ↦ r ] in
    ap (λ o. first o (check_lines rest s)) e ∙ ap (first (find_one line.sku t)) h

-- The check of lines for other SKUs does not see the row of this one.
check_lines-other :
    (sku : String) (f : StockLevelEntity → StockLevelEntity) (lines : List ReservationLine)
    (stock : StockTable)
    → any (λ l. sku == l.sku) lines ≡ false
    → check_lines lines (update_row sku f stock) ≡ check_lines lines stock
unfolding check_lines
check_lines-other sku f [] stock h = refl
check_lines-other sku f (line ∷ rest) stock h =
    let here : (sku == line.sku) ≡ false = ground arith in
    let later : any (λ l. sku == l.sku) rest ≡ false = ground arith in
    let same = rw here at (find_one-update_row sku line.sku f stock) in
    let others = check_lines-other sku f rest stock later in
    check_lines-cong line rest (update_row sku f stock) stock same others

increment-IsCovered :
    (line : ReservationLine) (stock : StockTable)
    → check_row line (find_one line.sku stock) ≡ ok tt
    → IsCovered stock
    → IsCovered (increment line stock)
increment-IsCovered line stock fits covered sku row found = elim (Bool-cases (line.sku == sku)) [
  | inl same ↦
      let (r, was, is) =
        some_row (λ r. record r { qty_reserved = add_rounded r.qty_reserved line.qty })
          (find_one sku stock) row (rw (find_one-update_row line.sku sku _ stock, same) at found) in
      let fits' =
        subst (λ k. check_row line (find_one k stock) ≡ ok tt) (eq_of_== line.sku sku same) fits in
      subst (λ (x : StockLevelEntity). x.qty_reserved ≤ℤ x.qty_available) is
        (check_row-some line r (rw was at fits'))
  | inr other ↦ covered sku row (rw (find_one-update_row line.sku sku _ stock, other) at found)
]

pub increment_lines-IsCovered :
    (lines : List ReservationLine) (stock : StockTable)
    → HasDistinctSkus lines
    → check_lines lines stock ≡ ok tt
    → IsCovered stock
    → IsCovered (increment_lines lines stock)
unfolding increment_lines
increment_lines-IsCovered [] stock d h covered = covered
increment_lines-IsCovered (line ∷ rest) stock (alone, d) h covered =
    let (this, others) = check_lines-cons line rest stock h in
    increment_lines-IsCovered rest (increment line stock) d
      (check_lines-other line.sku _ rest stock alone ∙ others)
      (increment-IsCovered line stock this covered)
