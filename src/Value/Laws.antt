-- ===== src/Value/Laws.antt =====
-- Laws of the list values and of the truth of values.
use nextbos_ai.Prelude.{String, true, eq_iff, some, List, [], ◌∷◌, ◌≡◌, refl, ap, arith}
use nextbos_ai.Value.{
  Value, null, str, is_null, is_str, obj, Items, nil, cons, Fields, items, of_list, as_dict,
}

pub items-of_list : (vs : List Value) → items (of_list vs) ≡ vs
items-of_list [] = refl
items-of_list (v ∷ vs) = ap (λ ws. v ∷ ws) (items-of_list vs)

pub of_list-items : (vs : Items) → of_list (items vs) ≡ vs
of_list-items nil = refl
of_list-items (cons v vs) = ap (cons v) (of_list-items vs)

-- A value that is taken for a dictionary is one.
pub as_dict-eq-some : (v : Value) (fs : Fields) → as_dict v ≡ some fs → v ≡ obj fs
as_dict-eq-some (obj gs) fs h = ground arith
as_dict-eq-some _ fs h = cc

pub is_null-eq : (v : Value) → is_null v ≡ true → v ≡ null
is_null-eq null h = refl
is_null-eq _ h = cc

pub is_str-eq : (t : String) (v : Value) → is_str t v ≡ true → v ≡ str t
is_str-eq t (str s) h = ap str (ground (arith, eq_iff s t))
is_str-eq t _ h = cc
