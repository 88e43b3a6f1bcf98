-- ===== src/Testing/Sorting.antt =====
-- An `ORDER BY` that sorts by insertion.
use nextbos_ai.Prelude.{
  ℕ, suc, Bool, true, false, List, [], ◌∷◌, ◌≡◌, refl, ap, arith, length, IsIn, inl, inr,
  if◌then◌else◌, ◌∙◌,
}
use nextbos_ai.Conversation.Repository.{Order, IsDescending, lex_leb}

lex_total : (ms ns : List ℕ) → lex_leb ms ns ≡ false → lex_leb ns ms ≡ true
lex_total [] ns h = cc
lex_total (m ∷ ms) [] h = refl
lex_total (m ∷ ms) (n ∷ ns) h = ground (arith, lex_total ms ns)

module _ {A : Type 0} (keys : A → List ℕ) where
  abbrev place : A → List A → List A
  place x [] = x ∷ []
  place x (y ∷ ys) =
      let later = place x ys in if lex_leb (keys y) (keys x) then x ∷ y ∷ ys else y ∷ later

  abbrev sorted : List A → List A
  sorted [] = []
  sorted (x ∷ xs) = place x (sorted xs)

  length-place : (x : A) (ys : List A) → length (place x ys) ≡ suc (length ys)
  length-place x [] = refl
  length-place x (y ∷ ys) = ground (arith, length-place x ys)

  pub length-sorted : (xs : List A) → length (sorted xs) ≡ length xs
  length-sorted [] = refl
  length-sorted (x ∷ xs) = length-place x (sorted xs) ∙ ap suc (length-sorted xs)

  IsIn-place_if :
      (b : Bool) (x y : A) (ys : List A) (a : A)
      → (IsIn a (place x ys) → IsIn a (x ∷ ys))
      → IsIn a (if b then x ∷ y ∷ ys else y ∷ place x ys)
      → IsIn a (x ∷ y ∷ ys)
  IsIn-place_if true x y ys a h m = m
  IsIn-place_if false x y ys a h (inl e) = inr (inl e)
  IsIn-place_if false x y ys a h (inr m) = elim (h m) [ inl e ↦ inl e | inr i ↦ inr (inr i) ]

  IsIn-place : (x : A) (ys : List A) (a : A) → IsIn a (place x ys) → IsIn a (x ∷ ys)
  IsIn-place x [] a m = m
  IsIn-place x (y ∷ ys) a m =
      IsIn-place_if (lex_leb (keys y) (keys x)) x y ys a (IsIn-place x ys a) m

  pub IsIn-sorted : (xs : List A) (a : A) → IsIn a (sorted xs) → IsIn a xs
  IsIn-sorted [] a m = m
  IsIn-sorted (x ∷ xs) a m = elim (IsIn-place x (sorted xs) a m) [
    | inl e ↦ inl e
    | inr i ↦ inr (IsIn-sorted xs a i)
  ]

  IsIn-placed_if :
      (b : Bool) (x y : A) (ys : List A) (a : A)
      → (IsIn a (x ∷ ys) → IsIn a (place x ys))
      → IsIn a (x ∷ y ∷ ys)
      → IsIn a (if b then x ∷ y ∷ ys else y ∷ place x ys)
  IsIn-placed_if true x y ys a h m = m
  IsIn-placed_if false x y ys a h (inl e) = inr (h (inl e))
  IsIn-placed_if false x y ys a h (inr (inl e)) = inl e
  IsIn-placed_if false x y ys a h (inr (inr m)) = inr (h (inr m))

  IsIn-placed : (x : A) (ys : List A) (a : A) → IsIn a (x ∷ ys) → IsIn a (place x ys)
  IsIn-placed x [] a m = m
  IsIn-placed x (y ∷ ys) a m =
      IsIn-placed_if (lex_leb (keys y) (keys x)) x y ys a (IsIn-placed x ys a) m

  pub sorted-IsIn : (xs : List A) (a : A) → IsIn a xs → IsIn a (sorted xs)
  sorted-IsIn [] a m = m
  sorted-IsIn (x ∷ xs) a (inl e) = IsIn-placed x (sorted xs) a (inl e)
  sorted-IsIn (x ∷ xs) a (inr m) = IsIn-placed x (sorted xs) a (inr (sorted-IsIn xs a m))

  place_behind :
      (x y : A) (ys : List A)
      → lex_leb (keys x) (keys y) ≡ true
      → IsDescending keys (y ∷ ys)
      → IsDescending keys (place x ys)
      → IsDescending keys (y ∷ place x ys)
  place_behind x y [] h d p = (h, tt)
  place_behind x y (z ∷ zs) h d p = behind_if (lex_leb (keys z) (keys x)) x y z zs h d.0 p
    where
      behind_if :
          (b : Bool) (x y z : A) (zs : List A)
          → lex_leb (keys x) (keys y) ≡ true
          → lex_leb (keys z) (keys y) ≡ true
          → IsDescending keys (if b then x ∷ z ∷ zs else z ∷ place x zs)
          → IsDescending keys (y ∷ (if b then x ∷ z ∷ zs else z ∷ place x zs))
      behind_if true x y z zs h d p = (h, p)
      behind_if false x y z zs h d p = (d, p)

  tail-IsDescending : (y : A) (ys : List A) → IsDescending keys (y ∷ ys) → IsDescending keys ys
  tail-IsDescending y [] d = tt
  tail-IsDescending y (z ∷ zs) d = d.1

  place_if :
      (b : Bool) (x y : A) (ys : List A)
      → lex_leb (keys y) (keys x) ≡ b
      → IsDescending keys (y ∷ ys)
      → IsDescending keys (place x ys)
      → IsDescending keys (if b then x ∷ y ∷ ys else y ∷ place x ys)
  place_if true x y ys e d p = (e, d)
  place_if false x y ys e d p = place_behind x y ys (lex_total (keys y) (keys x) e) d p

  place-IsDescending : (x : A) (ys : List A) → IsDescending keys ys → IsDescending keys (place x ys)
  place-IsDescending x [] d = tt
  place-IsDescending x (y ∷ ys) d =
      place_if (lex_leb (keys y) (keys x)) x y ys refl d
        (place-IsDescending x ys (tail-IsDescending y ys d))

  pub sorted-IsDescending : (xs : List A) → IsDescending keys (sorted xs)
  sorted-IsDescending [] = tt
  sorted-IsDescending (x ∷ xs) = place-IsDescending x (sorted xs) (sorted-IsDescending xs)

abbrev pub insertion : {A : Type 0} → Order A
insertion = record {
  order_by_desc = sorted;
  no_new_rows = IsIn-sorted;
  no_lost_rows = sorted-IsIn;
  same_count = length-sorted;
  descending = sorted-IsDescending;
}
