-- ===== src/Agent/Nodes/ChartSpec/FieldSets.antt =====
-- Sets of field names, as the sorted lists without repetition that the program makes of them.
use Prim.Native.Nat.{Ordering}
use Prim.Native.String.{compare}
use nextbos_ai.Prelude.{String, Bool, not, List, [], ◌∷◌, ◌==◌, ◌<>◌, any, keep}

-- Insertion of a text in the order of code points, with no second copy.
abbrev pub insert_sorted : String → List String → List String
insert_sorted s [] = s ∷ []
insert_sorted s (t ∷ ts) =
    let later = insert_sorted s ts in
    elim (compare s t) [ Ordering.lt ↦ s ∷ t ∷ ts | Ordering.eq ↦ t ∷ ts | Ordering.gt ↦ t ∷ later ]

unfoldable pub sorted_set : List String → List String
sorted_set [] = []
sorted_set (s ∷ ss) = insert_sorted s (sorted_set ss)

abbrev pub contains : List String → String → Bool
contains ts s = any (λ t. t == s) ts

-- `required - available`, in the order of `required`.
unfoldable pub missing_from : List String → List String → List String
missing_from available required = keep (λ s. not (contains available s)) required

-- `separator.join(parts)`.
abbrev pub join : String → List String → String
join separator [] = ""
join separator (s ∷ []) = s
join separator (s ∷ t ∷ ts) = s <> separator <> join separator (t ∷ ts)
