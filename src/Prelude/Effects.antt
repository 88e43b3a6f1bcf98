-- ===== src/Prelude/Effects.antt =====
-- What a Python call gives: a value, or an exception that it raises. An exception is known by the
-- class that the program's `except` clauses and `isinstance` tests look at, and by its `str()`.
use Prim.Native.String.{String}
use mathlib.Core.Path.{◌≡◌, refl}
use mathlib.Core.List.{List, [], ◌∷◌}

pub data ExceptionClass : Type 0 where
  validation_error wren_context_error llm_configuration_error llm_error : ExceptionClass
  tool_timeout_error tool_error timeout_error infrastructure_unavailable : ExceptionClass
  type_error other_error : ExceptionClass

pub record Exception : Type 0 where
  pub class : ExceptionClass
  pub text : String

pub data Outcome {ℓ} (A : Type ℓ) : Type ℓ where
  ok : A → Outcome A
  raise : Exception → Outcome A

module _ {ℓ κ} {A : Type ℓ} {B : Type κ} where
  infixl 5 ◌>>=◌
  -- The rest of a function after a call; an exception of the call leaves the function.
  abbrev pub ◌>>=◌ : Outcome A → (A → Outcome B) → Outcome B
  ok a >>= rest = rest a
  raise e >>= rest = raise e

  pub >>=-eq-ok :
      (m : Outcome A) (rest : A → Outcome B) {b : B}
      → (m >>= rest) ≡ ok b
      → (a : A) × (m ≡ ok a) × (rest a ≡ ok b)
  >>=-eq-ok (ok a) rest h = (a, refl, h)
  >>=-eq-ok (raise e) rest h = cc

-- `try: … except E as exc: …`, where the handler looks at the exception.
abbrev pub catch {ℓ} : {A : Type ℓ} → Outcome A → (Exception → Outcome A) → Outcome A
catch (ok a) h = ok a
catch (raise e) h = h e

module _ {ℓ κ} {A : Type ℓ} {B : Type κ} where
  -- A comprehension whose element expression may raise: left to right, the first raise wins.
  abbrev pub traverse : (A → Outcome B) → List A → Outcome (List B)
  traverse f [] = ok []
  traverse f (x ∷ xs) = let rest = traverse f xs in f x >>= λ y. (rest >>= λ ys. ok (y ∷ ys))

pub ok_injective {ℓ} : {A : Type ℓ} {a b : A} → ok a ≡ ok b → a ≡ b
ok_injective p = cc
