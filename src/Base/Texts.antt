-- ===== src/Base/Texts.antt =====
-- Equality of texts, and what `ground` needs to know of it.
use Prim.Native.String.{String}
use mathlib.Core.Path.{◌≡◌}
use mathlib.Core.Logic.{◌≢◌}
use mathlib.Core.Bool.{Bool, true, false}
use native.Mathlib.Omega.{arith}
use text.Mathlib.Text
use text.Mathlib.TextEquality.{eq_iff}

infix 50 ◌==◌
abbrev pub ◌==◌ : String → String → Bool
a == b = Text.◌==◌ a b

pub eq_of_== : (a b : String) → (a == b) ≡ true → a ≡ b
eq_of_== a b h = (eq_iff a b).0 h

pub ==_refl : (a : String) → (a == a) ≡ true
==_refl a = (eq_iff a a).1 (λ _. a)

pub ==_ne : (a b : String) → a ≢ b → (a == b) ≡ false
==_ne a b h = ground (arith, eq_iff a b)

pub ==_comm : (a b : String) → (a == b) ≡ (b == a)
==_comm a b = ground (arith, eq_iff a b, eq_iff b a)

pub ne_of_== : (a b : String) → (a == b) ≡ false → a ≡ b → ⊥
ne_of_== a b ne e = ground (arith, eq_iff a b)
