-- ===== src/Value/Dicts.antt =====
-- Lookups in updated dictionaries.
use nextbos_ai.Prelude.{
  String, ◌≡◌, refl, ◌∙◌, ap, arith, inl, inr, Bool-cases, ◌==◌, eq_iff, if◌then◌else◌,
}
use nextbos_ai.Value.{Value, Fields, end, field, get, put, update}

pub get-put :
    (k j : String) (v : Value) (fs : Fields) → get k (put j v fs) ≡ (if j == k then v else get k fs)
get-put k j v end = refl
get-put k j v (field i u fs) = elim (Bool-cases (i == j)) [
  | inl e ↦ ground (arith, eq_iff i j, eq_iff i k, eq_iff j k)
  | inr e ↦ ground (arith, get-put k j v fs, eq_iff i j, eq_iff i k, eq_iff j k)
]

-- The last value of a key in a dictionary that is written entry by entry.
abbrev pub get_last : String → Value → Fields → Value
get_last k v end = v
get_last k v (field j u fs) = get_last k (if j == k then u else v) fs

pub get-update : (k : String) (d e : Fields) → get k (update d e) ≡ get_last k (get k d) e
get-update k d end = refl
get-update k d (field j v fs) =
    get-update k (put j v d) fs ∙ ap (λ a. get_last k a fs) (get-put k j v d)
