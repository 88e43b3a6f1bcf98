-- ===== src/Value.antt =====
-- The Python values that the program passes around without a schema (`dict[str, Any]`, payloads of
-- tools, snapshots in the agent state), with the operations of the language that it uses on them.
-- Keys of dictionaries are texts. Integers are those from 0 on; a float is one from 0 on, in
-- millionths. A value of any other class is `object`: its class, as far as
-- `isinstance` tests look at it, its `str()` and its truth value.
pub mod Laws
pub mod Dicts
use nextbos_ai.Prelude.{
  ℕ, zero, suc, String, Bool, true, false, not, Option, none, some, List, [], ◌∷◌, ◌==◌, map,
  if◌then◌else◌,
}

pub data ObjectClass : Type 0 where
  decimal date message other : ObjectClass

pub record Object : Type 0 where
  pub class : ObjectClass
  pub text : String
  pub truth : Bool

mutual
  pub data Value : Type 0 where
    null : Value
    bool : Bool → Value
    int : ℕ → Value
    float : ℕ → Value
    str : String → Value
    arr : Items → Value
    obj : Fields → Value
    object : Object → Value

  pub data Items : Type 0 where
    nil : Items
    cons : Value → Items → Items

  pub data Fields : Type 0 where
    end : Fields
    field : String → Value → Fields → Fields

-- The elements of a list value, and a list value of elements.
abbrev pub items : Items → List Value
items nil = []
items (cons v vs) = v ∷ items vs

abbrev pub of_list : List Value → Items
of_list [] = nil
of_list (v ∷ vs) = cons v (of_list vs)

abbrev pub list_value : List Value → Value
list_value vs = arr (of_list vs)

-- The keys of a dictionary in order.
abbrev pub keys : Fields → List String
keys end = []
keys (field k v fs) = k ∷ keys fs

-- `d.get(k)` of a dictionary: `None` where the key is missing.
abbrev pub get : String → Fields → Value
get k end = null
get k (field j v fs) = if j == k then v else get k fs

-- `d.get(k, fallback)`.
abbrev pub get_or : String → Value → Fields → Value
get_or k d end = d
get_or k d (field j v fs) = if j == k then v else get_or k d fs

-- `bool(v)`.
abbrev pub truthy : Value → Bool
truthy null = false
truthy (bool b) = b
truthy (int zero) = false
truthy (int (suc n)) = true
truthy (float zero) = false
truthy (float (suc n)) = true
truthy (str s) = not (s == "")
truthy (arr nil) = false
truthy (arr (cons v vs)) = true
truthy (obj end) = false
truthy (obj (field k v fs)) = true
truthy (object o) = o.truth

-- `v or w`.
abbrev pub or_else : Value → Value → Value
or_else v w = if truthy v then v else w

-- `isinstance(v, dict)`, `isinstance(v, list)`, `isinstance(v, str)`, `v is None`, `v is False`.
abbrev pub as_dict : Value → Option Fields
as_dict (obj fs) = some fs
as_dict _ = none

abbrev pub as_list : Value → Option (List Value)
as_list (arr vs) = some (items vs)
as_list _ = none

abbrev pub as_str : Value → Option String
as_str (str s) = some s
as_str _ = none

abbrev pub is_null : Value → Bool
is_null null = true
is_null _ = false

abbrev pub is_false : Value → Bool
is_false (bool false) = true
is_false _ = false

-- `v if isinstance(v, dict) else {}`.
abbrev pub dict_or_empty : Value → Fields
dict_or_empty (obj fs) = fs
dict_or_empty _ = end

-- `v == "text"`.
abbrev pub is_str : String → Value → Bool
is_str t (str s) = s == t
is_str t _ = false

-- `None` or a text, as a value.
abbrev pub opt_str : Option String → Value
opt_str none = null
opt_str (some s) = str s

abbrev pub str_list : List String → Value
str_list ss = list_value (map str ss)

-- The elements of a list value; another value has none.
abbrev pub list_of : Value → List Value
list_of (arr vs) = items vs
list_of _ = []

-- `v if v is not None else None` of a text attribute, and a text that is looked up under a key.
abbrev pub has_key : String → Fields → Bool
has_key k end = false
has_key k (field j v fs) = if j == k then true else has_key k fs

-- `{**d, k: v}`: the key keeps its place where it has one.
abbrev pub put : String → Value → Fields → Fields
put k v end = field k v end
put k v (field j u fs) = let rest = put k v fs in if j == k then field j v fs else field j u rest

-- `{**d, **e}`.
abbrev pub update : Fields → Fields → Fields
update d end = d
update d (field k v fs) = update (put k v d) fs
