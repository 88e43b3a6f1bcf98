-- ===== src/Prelude/Reversal.antt =====
-- Lists from the last element to the first, and beginnings of lists.
use Prim.Native.Nat.{ℕ, zero, suc, ◌+◌}
use mathlib.Core.Path.{◌≡◌, refl, ap, ◌∙◌}
use mathlib.Core.Logic.{◌⊎◌, inl, inr}
use mathlib.Core.Bool.{Bool, true, false}
use mathlib.Core.List.{List, [], ◌∷◌, reverse, reverse_aux}
use native.Mathlib.Omega.{arith}
use nextbos_ai.Prelude.Tests.{if◌then◌else◌}
use nextbos_ai.Prelude.Lists.{length, take, keep, IsIn}

module _ {A : Type 0} where
  length-reverse_aux : (xs ys : List A) → length (reverse_aux xs ys) ≡ length xs + length ys
  length-reverse_aux [] ys = omega arith
  length-reverse_aux (x ∷ xs) ys = omega (arith, length-reverse_aux xs (x ∷ ys))

  pub length-reverse : (xs : List A) → length (reverse xs) ≡ length xs
  length-reverse xs = omega (arith, length-reverse_aux xs [])

  IsIn-reverse_aux : (xs ys : List A) (a : A) → IsIn a (reverse_aux xs ys) → IsIn a xs ⊎ IsIn a ys
  IsIn-reverse_aux [] ys a m = inr m
  IsIn-reverse_aux (x ∷ xs) ys a m = elim (IsIn-reverse_aux xs (x ∷ ys) a m) [
    | inl i ↦ inl (inr i)
    | inr (inl e) ↦ inl (inl e)
    | inr (inr i) ↦ inr i
  ]

  pub IsIn-reverse : (xs : List A) (a : A) → IsIn a (reverse xs) → IsIn a xs
  IsIn-reverse xs a m = elim (IsIn-reverse_aux xs [] a m) [ inl i ↦ i | inr i ↦ absurd i ]

  pub IsIn-take : (n : ℕ) (xs : List A) (a : A) → IsIn a (take n xs) → IsIn a xs
  IsIn-take zero xs a m = absurd m
  IsIn-take (suc n) [] a m = absurd m
  IsIn-take (suc n) (x ∷ xs) a (inl e) = inl e
  IsIn-take (suc n) (x ∷ xs) a (inr m) = inr (IsIn-take n xs a m)

  kept_cons :
      (p : A → Bool) (x : A) (xs : List A) (a : A) (b : Bool)
      → p x ≡ b
      → ((IsIn a (keep p xs)) → IsIn a xs × (p a ≡ true))
      → IsIn a (if b then x ∷ keep p xs else keep p xs)
      → IsIn a (x ∷ xs) × (p a ≡ true)
  kept_cons p x xs a true e h (inl q) = (inl q, ap p q ∙ e)
  kept_cons p x xs a true e h (inr m) = (inr (h m).0, (h m).1)
  kept_cons p x xs a false e h m = (inr (h m).0, (h m).1)

  pub IsIn-keep :
      (p : A → Bool) (xs : List A) (a : A) → IsIn a (keep p xs) → IsIn a xs × (p a ≡ true)
  IsIn-keep p [] a m = absurd m
  IsIn-keep p (x ∷ xs) a m = kept_cons p x xs a (p x) refl (IsIn-keep p xs a) m
