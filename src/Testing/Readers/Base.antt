-- ===== src/Testing/Readers/Base.antt =====
-- Readers for the parts of a model.
use nextbos_ai.Prelude.{
  ℕ, String, Bool, true, Option, none, some, List, [], ◌∷◌, map, ◌≡◌, refl, if◌then◌else◌,
  Bool-cases, inl, inr,
}
use nextbos_ai.Value.{
  Value, null, bool, int, float, str, arr, obj, Fields, items, list_value, str_list, opt_str,
}
use nextbos_ai.Value.Laws.{items-of_list}
use nextbos_ai.Schemas.Model.{Schema}

infixl 5 ◌>>=◌
abbrev pub ◌>>=◌ : {A B : Type 0} → Option A → (A → Option B) → Option B
none >>= f = none
some a >>= f = f a

abbrev pub read_str : Value → Option String
read_str (str s) = some s
read_str _ = none

abbrev pub read_opt_str : Value → Option (Option String)
read_opt_str null = some none
read_opt_str (str s) = some (some s)
read_opt_str _ = none

abbrev pub read_int : Value → Option ℕ
read_int (int n) = some n
read_int _ = none

abbrev pub read_float : Value → Option ℕ
read_float (float n) = some n
read_float _ = none

abbrev pub read_bool : Value → Option Bool
read_bool (bool b) = some b
read_bool _ = none

abbrev pub read_dict : Value → Option Fields
read_dict (obj fs) = some fs
read_dict _ = none

abbrev pub read_all : {A : Type 0} → (Value → Option A) → List Value → Option (List A)
read_all f [] = some []
read_all f (v ∷ vs) = f v >>= λ a. (read_all f vs >>= λ rest. some (a ∷ rest))

abbrev pub read_list : {A : Type 0} → (Value → Option A) → Value → Option (List A)
read_list f (arr vs) = read_all f (items vs)
read_list f _ = none

read_all-map :
    {A : Type 0} (f : Value → Option A) (g : A → Value) (xs : List A)
    → ((x : A) → f (g x) ≡ some x)
    → read_all f (map g xs) ≡ some xs
read_all-map f g [] h = refl
read_all-map f g (x ∷ xs) h = rw (h x) (rw (read_all-map f g xs h))

pub read_list-dump :
    {A : Type 0} (f : Value → Option A) (g : A → Value) (xs : List A)
    → ((x : A) → f (g x) ≡ some x)
    → read_list f (list_value (map g xs)) ≡ some xs
read_list-dump f g xs h = rw items-of_list (read_all-map f g xs h)

pub read_list-str_list : (ss : List String) → read_list read_str (str_list ss) ≡ some ss
read_list-str_list ss = read_list-dump read_str str ss (λ s. refl)

pub read_opt_str-opt_str : (o : Option String) → read_opt_str (opt_str o) ≡ some o
read_opt_str-opt_str none = refl
read_opt_str-opt_str (some s) = refl

module _ {A : Type 0} (dump : A → Value) (is_valid : A → Bool) (read : Value → Option A) where
  abbrev pub accept : A → Option A
  accept a = if is_valid a then some a else none

  pub accept_sound : (o : Option A) (a : A) → (o >>= accept) ≡ some a → is_valid a ≡ true
  accept_sound none a h = cc
  accept_sound (some b) a h = elim (Bool-cases (is_valid b)) [
    | inl e ↦ cc (rw e at h, e)
    | inr e ↦ cc (rw e at h)
  ]

  pub accept_complete :
      (o : Option A) (a : A) → o ≡ some a → is_valid a ≡ true → (o >>= accept) ≡ some a
  accept_complete o a e h = rw e (rw h)

  -- The model of a reader that reads every dump back.
  abbrev pub schema_of : ((a : A) → read (dump a) ≡ some a) → Schema A dump is_valid
  schema_of back = record {
    model_validate = λ v. read v >>= accept;
    sound = λ v a h. accept_sound (read v) a h;
    complete = λ a h. accept_complete (read (dump a)) a (back a) h;
  }
