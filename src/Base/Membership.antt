-- ===== src/Base/Membership.antt =====
-- Membership, and what holds of every element.
use Prim.Native.Nat.{ℕ, zero, suc}
use mathlib.Core.Path.{◌≡◌, refl, sym, subst}
use mathlib.Core.Logic.{◌⊎◌, inl, inr}
use mathlib.Core.Bool.{Bool}
use mathlib.Core.List.{List, [], ◌∷◌, ◌++◌, map}
use kafka_ledger_saga.Base.Tests.{Bool-cases}
use kafka_ledger_saga.Base.Lists.{All, filter, take}

-- An element of a list.
abbrev pub Elem : {A : Type 0} → A → List A → Type 0
Elem x [] = ⊥
Elem x (y ∷ ys) = (x ≡ y) ⊎ Elem x ys

pub Elem-append_left : {A : Type 0} (x : A) (xs ys : List A) → Elem x xs → Elem x (xs ++ ys)
Elem-append_left x [] ys h = absurd h
Elem-append_left x (y ∷ xs) ys (inl e) = inl e
Elem-append_left x (y ∷ xs) ys (inr h) = inr (Elem-append_left x xs ys h)

pub Elem-append_last : {A : Type 0} (x : A) (xs : List A) → Elem x (xs ++ x ∷ [])
Elem-append_last x [] = inl refl
Elem-append_last x (y ∷ xs) = inr (Elem-append_last x xs)

pub All-map :
    {A : Type 0} {P Q : A → Type 0} → ((a : A) → P a → Q a) → (xs : List A) → All P xs → All Q xs
All-map f [] h = tt
All-map f (x ∷ xs) (p, h) = (f x p, All-map f xs h)

module _ {A : Type 0} (P : A → Type 0) where
  pub All-filter : (p : A → Bool) (xs : List A) → All P xs → All P (filter p xs)
  All-filter p [] h = tt
  All-filter p (x ∷ xs) (hx, h) = elim (Bool-cases (p x)) [
    | inl e ↦ rw e (hx, All-filter p xs h)
    | inr e ↦ rw e (All-filter p xs h)
  ]

  pub All-take : (n : ℕ) (xs : List A) → All P xs → All P (take n xs)
  All-take zero xs h = tt
  All-take (suc n) [] h = tt
  All-take (suc n) (x ∷ xs) (hx, h) = (hx, All-take n xs h)

  pub All-append_one : (xs : List A) (x : A) → All P xs → P x → All P (xs ++ x ∷ [])
  All-append_one [] x h p = (p, tt)
  All-append_one (y ∷ xs) x (q, h) p = (q, All-append_one xs x h p)

-- Some element has the property.
abbrev pub Any : {A : Type 0} → (A → Type 0) → List A → Type 0
Any P [] = ⊥
Any P (x ∷ xs) = P x ⊎ Any P xs

module _ {A : Type 0} (P : A → Type 0) where
  pub Any-append_left : (xs ys : List A) → Any P xs → Any P (xs ++ ys)
  Any-append_left [] ys h = absurd h
  Any-append_left (x ∷ xs) ys (inl p) = inl p
  Any-append_left (x ∷ xs) ys (inr h) = inr (Any-append_left xs ys h)

  pub Any-append_last : (xs : List A) (x : A) → P x → Any P (xs ++ x ∷ [])
  Any-append_last [] x p = inl p
  Any-append_last (y ∷ xs) x p = inr (Any-append_last xs x p)

-- An element that has one property, in a list where all that have it have another.
pub Any-All :
    {A : Type 0} {P Q R : A → Type 0}
    → ((a : A) → P a → Q a → R a)
    → (xs : List A) → All P xs
    → Any Q xs
    → Any R xs
Any-All f [] h k = absurd k
Any-All f (x ∷ xs) (p, h) (inl q) = inl (f x p q)
Any-All f (x ∷ xs) (p, h) (inr k) = inr (Any-All f xs h k)

module _ {A : Type 0} (P : A → Type 0) where
  pub All-Elem : (x : A) (xs : List A) → All P xs → Elem x xs → P x
  All-Elem x [] h k = absurd k
  All-Elem x (y ∷ xs) (p, h) (inl e) = subst P (sym e) p
  All-Elem x (y ∷ xs) (p, h) (inr k) = All-Elem x xs h k

  pub All-append : (xs ys : List A) → All P xs → All P ys → All P (xs ++ ys)
  All-append [] ys h k = k
  All-append (x ∷ xs) ys (p, h) k = (p, All-append xs ys h k)

pub Any-none : {A : Type 0} (xs : List A) → Any (λ _. ⊥) xs → ⊥
Any-none [] h = h
Any-none (x ∷ xs) (inl h) = h
Any-none (x ∷ xs) (inr h) = Any-none xs h

pub All-mapped :
    {A B : Type 0} (P : B → Type 0) (f : A → B) (xs : List A)
    → All (λ x. P (f x)) xs
    → All P (map f xs)
All-mapped P f [] h = tt
All-mapped P f (x ∷ xs) (p, h) = (p, All-mapped P f xs h)
