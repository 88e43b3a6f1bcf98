-- ===== src/Agent/Nodes/ChartSpec/Read.antt =====
-- The rows and the columns of a result, as the chart's builder reads them.
use Prim.Native.String as Text
use mathlib.Core.Path.{subst}
use nextbos_ai.Prelude.{
  String, true, none, List, [], ◌∷◌, ◌≡◌, refl, sym, ap, ◌∙◌, map, traverse, ok, >>=-eq-ok,
  ok_injective, Bool-cases, inl, inr,
}
use nextbos_ai.Value.{
  Value, arr, obj, str, nil, Fields, end, field, keys, as_dict, truthy, or_else, list_value,
}
use nextbos_ai.Value.Laws.{of_list-items}
use nextbos_ai.Agent.World.{dict_of, iterate, characters}

dict_of_inversion : (v : Value) (fs : Fields) → dict_of v ≡ ok fs → v ≡ obj fs
dict_of_inversion (obj gs) fs h = ap obj (ok_injective h)
dict_of_inversion _ fs h = cc

cons_path :
    (v : Value) (f : Fields) (vs : List Value) (gs : List Fields)
    → v ≡ obj f
    → vs ≡ map obj gs
    → v ∷ vs ≡ map obj (f ∷ gs)
cons_path v f vs gs p q = cc

traverse_inversion :
    (vs : List Value) (fs : List Fields) → traverse dict_of vs ≡ ok fs → vs ≡ map obj fs
traverse_inversion [] fs h = ap (map obj) (ok_injective h)
traverse_inversion (v ∷ vs) fs h =
    let (f, one, rest) = >>=-eq-ok (dict_of v) _ h in
    let (gs, more, same) = >>=-eq-ok (traverse dict_of vs) _ rest in
    cons_path v f vs gs (dict_of_inversion v f one) (traverse_inversion vs gs more)
    ∙ ap (map obj) (ok_injective same)

no_dictionaries :
    (v : Value) (vs : List Value) (fs : List Fields)
    → as_dict v ≡ none
    → traverse dict_of (v ∷ vs) ≡ ok fs
    → ⊥
no_dictionaries (obj gs) vs fs e h = cc
no_dictionaries _ vs fs e h = cc

characters_inversion :
    (s : String) (fs : List Fields)
    → truthy (str s) ≡ true
    → traverse dict_of (characters s) ≡ ok fs
    → ⊥
characters_inversion Text.[] fs t k = cc
characters_inversion (Text.◌∷◌ c s) fs t k =
    no_dictionaries (str (Text.◌∷◌ c Text.[])) (characters s) fs refl k

-- The elements of a value that is not false are dictionaries only where it is a list of them: those of
-- a dictionary or of a text are texts.
pub dictionaries_inversion :
    (v : Value) (vs : List Value) (fs : List Fields)
    → truthy v ≡ true
    → iterate v ≡ ok vs
    → traverse dict_of vs ≡ ok fs
    → v ≡ list_value (map obj fs)
dictionaries_inversion (arr is) vs fs t h k =
    ap arr (sym (of_list-items is)) ∙ ap list_value (ok_injective h ∙ traverse_inversion vs fs k)
dictionaries_inversion (obj end) vs fs t h k = cc
dictionaries_inversion (obj (field j u gs)) vs fs t h k = absurd (
    no_dictionaries (str j) (map str (keys gs)) fs refl
      (subst (λ us. traverse dict_of us ≡ ok fs) (sym (ok_injective h)) k))
dictionaries_inversion (str s) vs fs t h k = absurd (
    characters_inversion s fs t
      (subst (λ us. traverse dict_of us ≡ ok fs) (sym (ok_injective h)) k))
dictionaries_inversion _ vs fs t h k = cc

-- The list that `result.get("columns") or []` is.
pub columns_inversion :
    (v : Value) (vs : List Value) (fs : List Fields)
    → iterate (or_else v (arr nil)) ≡ ok vs
    → traverse dict_of vs ≡ ok fs
    → or_else v (arr nil) ≡ list_value (map obj fs)
columns_inversion v vs fs h k = elim (Bool-cases (truthy v)) [
  | inl t ↦ rw t (dictionaries_inversion v vs fs t (rw t at h) k)
  | inr t ↦ rw t (no_columns (rw t at h))
]
  where
    no_columns : iterate (arr nil) ≡ ok vs → arr nil ≡ list_value (map obj fs)
    no_columns e = ap list_value (ok_injective e ∙ traverse_inversion vs fs k)
