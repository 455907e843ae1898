-- ===== src/Base/Effects.antt =====
-- Code that changes a state and may throw. What was written before a throw stays written, unless
-- the writes stand in a database transaction, which takes them back.

use mathlib.Core.Path.{◌≡◌, refl, ap}
use mathlib.Core.Logic.{◌⊎◌, inl, inr}

pub data Result {ℓ κ} (E : Type ℓ) (A : Type κ) : Type (ℓ ⊔ κ) where
  ok : A → Result E A
  err : E → Result E A

pub Result-cases {ℓ κ} :
    {E : Type ℓ} {A : Type κ} (r : Result E A) → ((a : A) × (r ≡ ok a)) ⊎ ((e : E) × (r ≡ err e))
Result-cases (ok a) = inl (a, refl)
Result-cases (err e) = inr (e, refl)

-- An `async` method: it takes the state, and returns or throws in a new one.
abbrev pub Action : Type 0 → Type 0 → Type 0 → Type 0
Action E S A = S → Result E A × S

module _ {E S A : Type 0} where
  abbrev pub pure : A → Action E S A
  pure a s = (ok a, s)

  abbrev pub raise : E → Action E S A
  raise e s = (err e, s)

  abbrev pub gets : (S → A) → Action E S A
  gets f s = (ok (f s), s)

  abbrev pub lift : Result E A → Action E S A
  lift r s = (r, s)

  -- `dataSource.transaction(...)`: all of the writes, or none.
  abbrev pub commit_or_rollback : S → Result E A × S → Result E A × S
  commit_or_rollback s (ok a, s') = (ok a, s')
  commit_or_rollback s (err e, s') = (err e, s)

  abbrev pub transaction : Action E S A → Action E S A
  transaction m s = commit_or_rollback s (m s)

  -- `try { m } catch (e) { h(e) }`
  abbrev pub handle : (E → Action E S A) → Result E A × S → Result E A × S
  handle h (ok a, s') = (ok a, s')
  handle h (err e, s') = h e s'

  abbrev pub catch : Action E S A → (E → Action E S A) → Action E S A
  catch m h s = handle h (m s)

abbrev pub modify : {E S : Type 0} → (S → S) → Action E S (Unit {0})
modify f s = (ok tt, f s)

abbrev pub continue : {E S A B : Type 0} → (A → Action E S B) → Result E A × S → Result E B × S
continue f (ok a, s') = f a s'
continue f (err e, s') = (err e, s')

infixl 5 ◌>>=◌ ◌>>◌
abbrev pub ◌>>=◌ : {E S A B : Type 0} → Action E S A → (A → Action E S B) → Action E S B
◌>>=◌ m f s = continue f (m s)

abbrev pub ◌>>◌ : {E S A B : Type 0} → Action E S A → Action E S B → Action E S B
m >> k = m >>= λ _. k

abbrev pub map_err : {E F A : Type 0} → (E → F) → Result E A → Result F A
map_err f (ok a) = ok a
map_err f (err e) = err (f e)

-- What a block does, from what its first part does.
module _ {E S A B : Type 0} (m : Action E S A) (f : A → Action E S B) (s : S) {s' : S} where
  pub bind-ok : {a : A} → m s ≡ (ok a, s') → (m >>= f) s ≡ f a s'
  bind-ok h = ap (continue f) h

  pub bind-err : {e : E} → m s ≡ (err e, s') → (m >>= f) s ≡ (err e, s')
  bind-err h = ap (continue f) h

module _ {E S A : Type 0} (m : Action E S A) (s : S) {s' : S} where
  pub catch-ok : (h : E → Action E S A) {a : A} → m s ≡ (ok a, s') → catch m h s ≡ (ok a, s')
  catch-ok h e = ap (handle h) e

  pub catch-err : (h : E → Action E S A) {x : E} → m s ≡ (err x, s') → catch m h s ≡ h x s'
  catch-err h e = ap (handle h) e

  pub transaction-ok : {a : A} → m s ≡ (ok a, s') → transaction m s ≡ (ok a, s')
  transaction-ok e = ap (commit_or_rollback s) e

  pub transaction-err : {x : E} → m s ≡ (err x, s') → transaction m s ≡ (err x, s)
  transaction-err e = ap (commit_or_rollback s) e
