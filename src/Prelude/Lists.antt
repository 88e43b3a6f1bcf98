-- ===== src/Prelude/Lists.antt =====
-- Lists measured by native numbers, under the library's names, and predicates on all elements.
use Prim.Native.Nat.{ℕ, zero, suc, ◌+◌, ◌≤◌, min}
use mathlib.Core.Path.{◌≡◌, refl, ap}
use mathlib.Core.Logic.{◌⊎◌, inl, inr}
use mathlib.Core.Bool.{Bool, true, false, ◌&&◌, ◌||◌}
use mathlib.Core.Option.{Option, none, some}
use mathlib.Core.List.{List, [], ◌∷◌, ◌++◌, map}
use native.Mathlib.Omega.{arith}
use nextbos_ai.Prelude.Tests.{if◌then◌else◌}

module _ {ℓ} {A : Type ℓ} where
  abbrev pub length : List A → ℕ
  length [] = 0
  length (x ∷ xs) = suc (length xs)

  abbrev pub take : ℕ → List A → List A
  take zero xs = []
  take (suc n) [] = []
  take (suc n) (x ∷ xs) = x ∷ take n xs

  abbrev pub all : (A → Bool) → List A → Bool
  all p [] = true
  all p (x ∷ xs) = p x && all p xs

  abbrev pub any : (A → Bool) → List A → Bool
  any p [] = false
  any p (x ∷ xs) = p x || any p xs

  -- `[x for x in xs if p(x)]`
  abbrev pub keep : (A → Bool) → List A → List A
  keep p [] = []
  keep p (x ∷ xs) = let rest = keep p xs in if p x then x ∷ rest else rest

  abbrev pub is_empty : List A → Bool
  is_empty [] = true
  is_empty (x ∷ xs) = false

  -- The last element, `xs[-1]`.
  abbrev pub last? : List A → Option A
  last? [] = none
  last? (x ∷ []) = some x
  last? (x ∷ y ∷ ys) = last? (y ∷ ys)

  pub last?-cons : (x : A) (ys : List A) {y : A} → last? ys ≡ some y → last? (x ∷ ys) ≡ some y
  last?-cons x [] h = cc
  last?-cons x (z ∷ zs) h = h

  pub last?-append : (xs ys : List A) {y : A} → last? ys ≡ some y → last? (xs ++ ys) ≡ some y
  last?-append [] ys h = h
  last?-append (x ∷ xs) ys h = last?-cons x (xs ++ ys) (last?-append xs ys h)

  pub length-append : (xs ys : List A) → length (xs ++ ys) ≡ length xs + length ys
  length-append [] ys = omega arith
  length-append (x ∷ xs) ys = omega (arith, length-append xs ys)

  pub length-take : (n : ℕ) (xs : List A) → length (take n xs) ≡ min n (length xs)
  length-take zero xs = omega arith
  length-take (suc n) [] = omega arith
  length-take (suc n) (x ∷ xs) = omega (arith, length-take n xs)

  pub length-keep : (p : A → Bool) (xs : List A) → length (keep p xs) ≤ length xs
  length-keep p [] = omega arith
  length-keep p (x ∷ xs) = ground (arith, length-keep p xs)

module _ {ℓ κ} {A : Type ℓ} {B : Type κ} where
  pub length-map : (f : A → B) (xs : List A) → length (map f xs) ≡ length xs
  length-map f [] = refl
  length-map f (x ∷ xs) = ap suc (length-map f xs)

  -- `[y for x in xs if (y := f(x)) is not None]`
  abbrev pub filter_map : (A → Option B) → List A → List B
  filter_map f [] = []
  filter_map f (x ∷ xs) =
      let rest = filter_map f xs in elim (f x) [ none ↦ rest | some y ↦ y ∷ rest ]

module _ {ℓ κ} {A : Type ℓ} (P : A → Type κ) where
  abbrev pub All : List A → Type κ
  All [] = Unit
  All (x ∷ xs) = P x × All xs

-- Membership, by recursion: it computes to a disjunction of equations.
abbrev pub IsIn : {A : Type 0} → A → List A → Type 0
IsIn a [] = ⊥
IsIn a (x ∷ xs) = (a ≡ x) ⊎ IsIn a xs

pub all-IsIn :
    {A : Type 0} (p : A → Bool) (xs : List A) (a : A) → all p xs ≡ true → IsIn a xs → p a ≡ true
all-IsIn p [] a h m = absurd m
all-IsIn p (x ∷ xs) a h (inl e) = ground arith
all-IsIn p (x ∷ xs) a h (inr m) = all-IsIn p xs a (ground arith) m

pub IsIn-append : {A : Type 0} (xs ys : List A) (a : A) → IsIn a (xs ++ ys) → IsIn a xs ⊎ IsIn a ys
IsIn-append [] ys a m = inr m
IsIn-append (x ∷ xs) ys a (inl e) = inl (inl e)
IsIn-append (x ∷ xs) ys a (inr m) = elim (IsIn-append xs ys a m) [
  | inl here ↦ inl (inr here)
  | inr there ↦ inr there
]

pub IsIn-map :
    {A B : Type 0} (f : A → B) (xs : List A) (y : B)
    → IsIn y (map f xs)
    → (x : A) × IsIn x xs × (y ≡ f x)
IsIn-map f [] y m = absurd m
IsIn-map f (x ∷ xs) y (inl e) = (x, inl refl, e)
IsIn-map f (x ∷ xs) y (inr m) = let (z, i, e) = IsIn-map f xs y m in (z, inr i, e)

pub All-of_IsIn :
    {A : Type 0} {P : A → Type 0} (xs : List A) → ((x : A) → IsIn x xs → P x) → All P xs
All-of_IsIn [] f = tt
All-of_IsIn (x ∷ xs) f = (f x (inl refl), All-of_IsIn xs (λ y m. f y (inr m)))
