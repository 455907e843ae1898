-- ===== src/Base/Decimal.antt =====
-- A number in a template text: the decimal digits of JavaScript's `String(n)`.
use Prim.Native.Nat.{ℕ, zero, suc, ◌+◌}
use Prim.Native.String.{String, ◌++◌}
use mathlib.Core.List.{List, [], ◌∷◌}
use mathlib.Core.Option.{Option, none, some}
use kafka_ledger_saga.Base.Tests.{eqb, if◌then◌else◌}
use kafka_ledger_saga.Base.Lists.{get_elem?}
use kafka_ledger_saga.Base.Int.{ℤ, pos, negsuc}

-- One more, on digits with the last digit first.
abbrev increment : List ℕ → List ℕ
increment [] = 1 ∷ []
increment (d ∷ ds) = if eqb d 9 then 0 ∷ increment ds else (d + 1) ∷ ds

abbrev digits : ℕ → List ℕ
digits zero = 0 ∷ []
digits (suc n) = increment (digits n)

abbrev digit_text : Option String → String
digit_text none = ""
digit_text (some s) = s

abbrev digit_texts : List String
digit_texts = "0" ∷ "1" ∷ "2" ∷ "3" ∷ "4" ∷ "5" ∷ "6" ∷ "7" ∷ "8" ∷ "9" ∷ []

abbrev join_digits : List ℕ → String
join_digits [] = ""
join_digits (d ∷ ds) = join_digits ds ++ digit_text (get_elem? digit_texts d)

-- The digits after the point, with the point.
abbrev fraction_digits : List ℕ → String
fraction_digits [] = ""
fraction_digits (d ∷ ds) = digit_text (get_elem? digit_texts d) ++ fraction_digits ds

abbrev pub fraction_text : List ℕ → String
fraction_text [] = ""
fraction_text (d ∷ ds) = "." ++ fraction_digits (d ∷ ds)

unfoldable pub decimal : ℤ → String
decimal (pos n) = join_digits (digits n)
decimal (negsuc n) = "-" ++ join_digits (digits (suc n))
