-- ===== src/Contracts/Json.antt =====
-- A JavaScript object with string keys, as far as payloads and the saga context need it:
-- `Record<string, unknown>` with `o[k]`, `{...a, ...b}` and the casts of a field to its type.
use kafka_ledger_saga.Base.{
  ℕ, String, Option, none, some, List, [], ◌∷◌, ◌≡◌, refl, arith, ◌==◌, eq_iff, Bool, true, false,
  ◌||◌, eqb, if◌then◌else◌,
}
use kafka_ledger_saga.Contracts.Payloads.{OrderLineItem, ReservationLine}

pub data Value : Type 0 where
  undefined : Value
  text : String → Value
  number : ℕ → Value
  items : List OrderLineItem → Value
  lines : List ReservationLine → Value

abbrev pub Fields : Type 0
Fields = List (String × Value)

-- `o[k]`
unfoldable pub field : String → Fields → Value
field k [] = undefined
field k ((j, v) ∷ o) = if j == k then v else field k o

-- `o[k] = v`
unfoldable pub put : String → Value → Fields → Fields
put k v [] = (k, v) ∷ []
put k v ((j, w) ∷ o) = if j == k then (k, v) ∷ o else (j, w) ∷ put k v o

-- `{...a, ...b}`. An object has each key once, and the order of the keys is not modelled.
unfoldable pub spread : Fields → Fields → Fields
unfolding put
spread a [] = a
spread a ((k, v) ∷ b) = put k v (spread a b)

-- `k in o`
abbrev pub has : String → Fields → Bool
has k [] = false
has k ((j, v) ∷ o) = j == k || has k o

-- `!v`
abbrev pub is_falsy : Value → Bool
is_falsy undefined = true
is_falsy (text s) = s == ""
is_falsy (number n) = eqb n 0
is_falsy _ = false

pub field-put :
    (k j : String) (v : Value) (o : Fields)
    → field j (put k v o) ≡ (if k == j then v else field j o)
unfolding field put
field-put k j v [] = refl
field-put k j v ((i, w) ∷ o) = ground (arith, eq_iff k j, eq_iff i k, eq_iff i j, field-put k j v o)

-- A key of `b` takes its value from `b`, any other from `a`.
pub field-spread :
    (j : String) (a b : Fields) → field j (spread a b) ≡ (if has j b then field j b else field j a)
unfolding field spread
field-spread j a [] = refl
field-spread j a ((k, v) ∷ b) = rw (field-put k j v (spread a b), field-spread j a b) (ground arith)

-- An optional property: left out where there is none.
abbrev pub optional : String → Option String → Fields → Fields
optional k none o = o
optional k (some s) o = (k, text s) ∷ o

abbrev pub as_text : Value → Option String
as_text (text s) = some s
as_text _ = none

abbrev pub as_number : Value → Option ℕ
as_number (number n) = some n
as_number _ = none

abbrev pub as_items : Value → Option (List OrderLineItem)
as_items (items xs) = some xs
as_items _ = none

abbrev pub as_lines : Value → Option (List ReservationLine)
as_lines (lines xs) = some xs
as_lines _ = none

pub as_text-some : (v : Value) (s : String) → as_text v ≡ some s → v ≡ text s
as_text-some (text t) s e = ground arith
as_text-some undefined s e = cc
as_text-some (number n) s e = cc
as_text-some (items xs) s e = cc
as_text-some (lines xs) s e = cc

-- An object of a payload class is read where each of its fields is.
abbrev pub map₂ : {A B C : Type 0} → (A → B → C) → Option A → Option B → Option C
map₂ f (some a) (some b) = some (f a b)
map₂ f _ _ = none

abbrev pub map₃ : {A B C D : Type 0} → (A → B → C → D) → Option A → Option B → Option C → Option D
map₃ f (some a) (some b) (some c) = some (f a b c)
map₃ f _ _ _ = none

abbrev pub map₄ :
    {A B C D E : Type 0}
    → (A → B → C → D → E)
    → Option A
    → Option B
    → Option C
    → Option D
    → Option E
map₄ f (some a) (some b) (some c) (some d) = some (f a b c d)
map₄ f _ _ _ _ = none
