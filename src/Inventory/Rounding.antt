-- ===== src/Inventory/Rounding.antt =====
-- What Postgres makes of `"qtyReserved" + 1.5` on an INTEGER column: the exact sum is rounded to the
-- nearest whole number, and a half away from zero.
use kafka_ledger_saga.Base.{
  ℕ, zero, suc, ◌+◌, ◌≡◌, Bool, true, false, ◌&&◌, List, [], ◌∷◌, eqb, ltb, if◌then◌else◌,
}
use kafka_ledger_saga.Base.Int.{ℤ, pos, negsuc, ◌+ℤ◌, ◌-ℤ◌, ◌≤ℤ◌, ltb_ℤ, int_laws}
use kafka_ledger_saga.Contracts.{Quantity}

-- Where a fraction lies.
pub data Part : Type 0 where
  exact : Part
  below_half : Part
  half : Part
  above_half : Part

abbrev are_zero : List ℕ → Bool
are_zero [] = true
are_zero (d ∷ ds) = eqb d 0 && are_zero ds

abbrev pub part_of : List ℕ → Part
part_of [] = exact
part_of (d ∷ ds) =
    if ltb d 5
    then if are_zero (d ∷ ds) then exact else below_half
    else if eqb d 5 && are_zero ds
    then half
    else above_half

-- The least whole number that is not below whole + fraction.
abbrev pub ceil_part : Part → ℕ → ℕ
ceil_part exact n = n
ceil_part _ n = n + 1

abbrev pub ceiling : Quantity → ℕ
ceiling q = ceil_part (part_of q.fraction) q.whole

-- m plus the fraction, rounded.
abbrev pub add_part : Part → ℤ → ℤ
add_part exact m = m
add_part below_half m = m
add_part half (pos n) = pos (n + 1)
add_part half (negsuc n) = negsuc n
add_part above_half m = m +ℤ pos 1

-- m less the fraction, rounded.
abbrev pub sub_part : Part → ℤ → ℤ
sub_part exact m = m
sub_part below_half m = m
sub_part half (pos zero) = negsuc 0
sub_part half (pos (suc n)) = pos (suc n)
sub_part half (negsuc n) = negsuc (suc n)
sub_part above_half m = m -ℤ pos 1

abbrev pub add_rounded : ℤ → Quantity → ℤ
add_rounded n q = add_part (part_of q.fraction) (n +ℤ pos q.whole)

abbrev pub sub_rounded : ℤ → Quantity → ℤ
sub_rounded n q = sub_part (part_of q.fraction) (n -ℤ pos q.whole)

half-≤ : (m a : ℤ) → m +ℤ pos 1 ≤ℤ a → add_part half m ≤ℤ a
half-≤ (pos n) a h = grind int_laws
half-≤ (negsuc n) a h = grind int_laws

part_within :
    (p : Part) (a r : ℤ) (n : ℕ)
    → ltb_ℤ (a -ℤ r) (pos (ceil_part p n)) ≡ false
    → add_part p (r +ℤ pos n) ≤ℤ a
part_within exact a r n h = grind int_laws
part_within below_half a r n h = grind int_laws
part_within half a r n h = half-≤ (r +ℤ pos n) a (grind int_laws)
part_within above_half a r n h = grind int_laws

-- What fits into the free units still fits once it is rounded.
pub add_rounded_within :
    (a r : ℤ) (q : Quantity) → ltb_ℤ (a -ℤ r) (pos (ceiling q)) ≡ false → add_rounded r q ≤ℤ a
add_rounded_within a r q h = part_within (part_of q.fraction) a r q.whole h
