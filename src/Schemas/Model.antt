-- ===== src/Schemas/Model.antt =====
-- What the program relies on of pydantic, which is not part of the repository.
use nextbos_ai.Prelude.{
  String, Bool, true, Option, none, some, ◌≡◌, Outcome, ok, raise, Exception, validation_error,
  false, refl,
}
use nextbos_ai.Value.{Value}

-- `A.model_validate`: a value that it accepts meets the field constraints and the validator of the
-- model, and what `model_dump` wrote of a valid instance is read back as that instance.
pub record Schema (A : Type 0) (dump : A → Value) (is_valid : A → Bool) : Type 0 where
  pub model_validate : Value → Option A
  pub sound : (v : Value) (a : A) → model_validate v ≡ some a → is_valid a ≡ true
  pub complete : (a : A) → is_valid a ≡ true → model_validate (dump a) ≡ some a

-- `raise ValueError(reason)` in a validator: pydantic turns it into a `ValidationError`.
abbrev pub invalid : String → Exception
invalid reason = record { class = validation_error; text = reason }

-- A model's constructor: the field constraints, then the validator, whose refusal is a reason.
abbrev pub construct {ℓ} : {A : Type ℓ} → Bool → Option String → A → Outcome A
construct false refusal a = raise (invalid "field constraint")
construct true (some reason) a = raise (invalid reason)
construct true none a = ok a

-- `A.model_validate(v)`, which raises a `ValidationError` on a value that it does not accept.
abbrev pub validated : {A : Type 0} → Option A → Outcome A
validated none = raise (invalid "model_validate")
validated (some a) = ok a

-- `try: a = A.model_validate(answer()) except ValidationError: a = fallback`.
abbrev pub validated_or : {A : Type 0} → Option A → A → A
validated_or none fallback = fallback
validated_or (some a) fallback = a

pub construct-eq-ok {ℓ} :
    {A : Type ℓ} (b : Bool) (o : Option String) (a c : A)
    → construct b o a ≡ ok c
    → (b ≡ true) × (o ≡ none) × (a ≡ c)
construct-eq-ok false o a c h = cc
construct-eq-ok true (some s) a c h = cc
construct-eq-ok true none a c h = (refl, refl, cc)
