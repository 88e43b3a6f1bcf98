-- ===== src/Agent/Nodes/ChartSpec/Offered.antt =====
-- The sets of field names of a chart: what a plan needs, and what a result offers.
use mathlib.Core.Path.{subst}
use text.Mathlib.TextEquality.{path_by_compare}
use Prim.Native.Nat.{Ordering}
use Prim.Native.String.{compare}
use nextbos_ai.Prelude.{
  String, true, Option, none, some, List, [], ◌∷◌, ◌≡◌, refl, sym, ◌∙◌, arith, eq_iff, ◌==◌, ◌⊎◌,
  inl, inr, IsIn, IsIn-append, Bool-cases,
}
use nextbos_ai.Value.{Fields, get, truthy, keys}
use nextbos_ai.Schemas.Chart.{ChartEncoding, ChartPlan}
use nextbos_ai.Agent.World.{World, text_of}
use nextbos_ai.Agent.Nodes.ChartSpec.{
  column_names, row_keys, available_fields, required_fields, series_fields,
}
use nextbos_ai.Agent.Nodes.ChartSpec.FieldSets.{insert_sorted, sorted_set, contains, missing_from}

-- A field that the plan names: of an axis, or of the series where it has one.
abbrev pub IsNamed : ChartPlan → ChartEncoding → ChartEncoding → String → Type 0
IsNamed p x y s = (s ≡ x.on) ⊎ (s ≡ y.on) ⊎ ((e : ChartEncoding) × (p.series ≡ some e) × (s ≡ e.on))

-- A dictionary among `columns` whose true name has the text `s`.
abbrev pub IsColumnName : World → List Fields → String → Type 0
IsColumnName w columns s =
    (c : Fields) × IsIn c columns × (truthy (get "name" c) ≡ true) × (text_of w (get "name" c) ≡ s)

-- A field that the result offers: the text of a column's true name, or a key of a row.
abbrev pub IsOffered : World → List Fields → List Fields → String → Type 0
IsOffered w columns rows s =
    IsColumnName w columns s ⊎ ((row : Fields) × IsIn row rows × IsIn s (keys row))

IsColumnName-later :
    (w : World) (c : Fields) (cs : List Fields) (s : String)
    → IsColumnName w cs s
    → IsColumnName w (c ∷ cs) s
IsColumnName-later w c cs s (d, i, t, e) = (d, inr i, t, e)

column_names_inversion :
    (w : World) (columns : List Fields) (s : String)
    → IsIn s (column_names w columns)
    → IsColumnName w columns s
column_names_inversion w [] s m = absurd m
column_names_inversion w (c ∷ cs) s m =
    let later : IsIn s (column_names w cs) → IsColumnName w (c ∷ cs) s =
      λ i. IsColumnName-later w c cs s (column_names_inversion w cs s i) in
    elim (Bool-cases (truthy (get "name" c))) [
      | inl t ↦ elim (rw t at m) [ inl e ↦ (c, inl refl, t, sym e) | inr i ↦ later i ]
      | inr t ↦ later (rw t at m)
    ]

row_keys_inversion :
    (rows : List Fields) (s : String)
    → IsIn s (row_keys rows)
    → (r : Fields) × IsIn r rows × IsIn s (keys r)
row_keys_inversion [] s m = absurd m
row_keys_inversion (r ∷ rs) s m = elim (IsIn-append (keys r) (row_keys rs) s m) [
  | inl here ↦ (r, inl refl, here)
  | inr later ↦ let (q, i, j) = row_keys_inversion rs s later in (q, inr i, j)
]

available_fields-IsOffered :
    (w : World) (columns rows : List Fields) (s : String)
    → IsIn s (available_fields w columns rows)
    → IsOffered w columns rows s
unfolding available_fields
available_fields-IsOffered w columns rows s m =
    elim (IsIn-append (column_names w columns) (row_keys rows) s m) [
      | inl i ↦ inl (column_names_inversion w columns s i)
      | inr i ↦ inr (row_keys_inversion rows s i)
    ]

contains-IsIn : (ts : List String) (s : String) → contains ts s ≡ true → IsIn s ts
contains-IsIn [] s h = cc
contains-IsIn (t ∷ ts) s h = elim (Bool-cases (t == s)) [
  | inl e ↦ inl (ground (arith, eq_iff t s))
  | inr e ↦ inr (contains-IsIn ts s (rw e at h))
]

kept_not_empty : {s : String} {ss : List String} → s ∷ ss ≡ [] → ⊥
kept_not_empty p = cc

missing_from_none :
    (available required : List String) (s : String)
    → missing_from available required ≡ []
    → IsIn s required
    → IsIn s available
unfolding missing_from
missing_from_none available [] s h m = absurd m
missing_from_none available (r ∷ rs) s h m = elim (Bool-cases (contains available r)) [
  | inr e ↦ absurd (kept_not_empty (rw e at h))
  | inl e ↦ elim m [
    | inl q ↦ subst (λ t. IsIn t available) (sym q) (contains-IsIn available r e)
    | inr i ↦ missing_from_none available rs s (rw e at h) i
  ]
]

abbrev pub Iff : Type 0 → Type 0 → Type 0
Iff A B = (A → B) × (B → A)

iff_of :
    (s : String) (xs ys : List String) {B : Type 0}
    → xs ≡ ys
    → Iff (IsIn s ys) B
    → Iff (IsIn s xs) B
iff_of s xs ys {B} e h = subst (λ l. Iff (IsIn s l) B) (sym e) h

inserted_at :
    (s t u : String) (us : List String) (o : Ordering)
    → compare t u ≡ o
    → Iff (IsIn s (insert_sorted t us)) ((s ≡ t) ⊎ IsIn s us)
    → Iff (IsIn s (insert_sorted t (u ∷ us))) ((s ≡ t) ⊎ IsIn s (u ∷ us))
inserted_at s t u us Ordering.lt h k =
    iff_of s (insert_sorted t (u ∷ us)) (t ∷ u ∷ us) (rw (h, insert_sorted)) (λ m. m, λ m. m)
inserted_at s t u us Ordering.eq h k =
    iff_of s (insert_sorted t (u ∷ us)) (u ∷ us) (rw (h, insert_sorted))
      (λ m. inr m, λ m. elim m [ inl e ↦ inl (e ∙ path_by_compare t u h) | inr i ↦ i ])
inserted_at s t u us Ordering.gt h (back, forth) =
    iff_of s (insert_sorted t (u ∷ us)) (u ∷ insert_sorted t us) (rw (h, insert_sorted)) (
      λ m. elim m [
        | inl e ↦ inr (inl e)
        | inr i ↦ elim (back i) [ inl e ↦ inl e | inr j ↦ inr (inr j) ]
      ],
      λ m. elim m [
        | inl e ↦ inr (forth (inl e))
        | inr (inl e) ↦ inl e
        | inr (inr j) ↦ inr (forth (inr j))
      ],
    )

insert_sorted-IsIn :
    (s t : String) (ts : List String) → Iff (IsIn s (insert_sorted t ts)) ((s ≡ t) ⊎ IsIn s ts)
insert_sorted-IsIn s t [] = (λ m. m, λ m. m)
insert_sorted-IsIn s t (u ∷ us) =
    inserted_at s t u us (compare t u) refl (insert_sorted-IsIn s t us)

sorted_set-IsIn : (s : String) (ts : List String) → Iff (IsIn s (sorted_set ts)) (IsIn s ts)
unfolding sorted_set
sorted_set-IsIn s [] = (λ m. m, λ m. m)
sorted_set-IsIn s (t ∷ ts) =
    let (back, forth) = sorted_set-IsIn s ts in
    let (out, into) = insert_sorted-IsIn s t (sorted_set ts) in
    (
      λ m. elim (out m) [ inl e ↦ inl e | inr i ↦ inr (back i) ],
      λ m. elim m [ inl e ↦ into (inl e) | inr i ↦ into (inr (forth i)) ],
    )

-- The fields that a chart needs are those that the plan names.
pub required_fields-IsNamed :
    (p : ChartPlan) (x y : ChartEncoding) (s : String)
    → Iff (IsIn s (required_fields p x y)) (IsNamed p x y s)
unfolding required_fields series_fields
required_fields-IsNamed p x y s = at_series p.series refl
  where
    at_series :
        (o : Option ChartEncoding)
        → p.series ≡ o
        → Iff (IsIn s (required_fields p x y)) (IsNamed p x y s)
    at_series none h =
        let (back, forth) = sorted_set-IsIn s (x.on ∷ y.on ∷ series_fields p.series) in
        (
          λ m. elim (subst (λ o. IsIn s (x.on ∷ y.on ∷ series_fields o)) h (back m)) [
            | inl e ↦ inl e
            | inr (inl e) ↦ inr (inl e)
            | inr (inr i) ↦ absurd i
          ],
          λ n.
              forth
                (elim n [ inl e ↦ inl e | inr (inl e) ↦ inr (inl e) | inr (inr (e, q, r)) ↦ cc ]),
        )
    at_series (some z) h =
        let (back, forth) = sorted_set-IsIn s (x.on ∷ y.on ∷ series_fields p.series) in
        (
          λ m. elim (subst (λ o. IsIn s (x.on ∷ y.on ∷ series_fields o)) h (back m)) [
            | inl e ↦ inl e
            | inr (inl e) ↦ inr (inl e)
            | inr (inr (inl e)) ↦ inr (inr (z, h, e))
            | inr (inr (inr i)) ↦ absurd i
          ],
          λ n. forth (elim n [
            | inl e ↦ inl e
            | inr (inl e) ↦ inr (inl e)
            | inr (inr (e, q, r)) ↦
                inr (inr (subst (λ o. IsIn s (series_fields o)) (sym q) (inl r)))
          ]),
        )

-- Where no field is missing, the result offers each one that the plan names.
pub missing_from-IsOffered :
    (w : World) (columns rows : List Fields) (p : ChartPlan) (x y : ChartEncoding) (s : String)
    → missing_from (available_fields w columns rows) (required_fields p x y) ≡ []
    → IsNamed p x y s
    → IsOffered w columns rows s
missing_from-IsOffered w columns rows p x y s h n =
    let (back, forth) = required_fields-IsNamed p x y s in
    available_fields-IsOffered w columns rows s (missing_from_none _ _ s h (forth n))
