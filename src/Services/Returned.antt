-- ===== src/Services/Returned.antt =====
-- Which steps are extracted without an exception.
use nextbos_ai.Prelude.{
  String, List, [], ◌∷◌, ◌≡◌, refl, ◌⊎◌, inl, inr, sym, length, Outcome, ok, raise, Exception,
  ◌>>=◌, IsIn,
}
use mathlib.Core.Path.{subst}
use nextbos_ai.Value.{Value, null, arr, nil, list_value, or_else, Fields, get, int, items, of_list}
use nextbos_ai.Agent.World.{World}
use nextbos_ai.Services.Steps.{
  elements, len, count_of, dict_value, wren_context_step, sql_plan_step, sql_validate_step,
  sql_execute_step, one_step,
}

-- What returns.
pub record Returns {A : Type 0} (o : Outcome A) : Type 0 where
  pub value : A
  pub returns : o ≡ ok value

pub Returns-ok : {A : Type 0} (a : A) → Returns (ok a)
Returns-ok a = record { value = a; returns = refl }

pub raise-ok : {A : Type 0} {e : Exception} {a : A} → raise e ≡ ok a → ⊥
raise-ok h = cc

pub Returns-bind :
    {A B : Type 0} (m : Outcome A) (rest : A → Outcome B)
    → Returns m
    → ((a : A) → Returns (rest a))
    → Returns (m >>= rest)
Returns-bind (ok a) rest r k = k a
Returns-bind (raise e) rest r k = absurd (raise-ok r.returns)

-- The elements of a list of a dump.
pub Returns-elements : (vs : List Value) → Returns (elements (or_else (list_value vs) (arr nil)))
unfolding elements
Returns-elements [] = Returns-ok []
Returns-elements (v ∷ vs) = Returns-ok (v ∷ items (of_list vs))

-- A list, or nothing under the key.
abbrev pub IsListed : Value → Type 0
IsListed v = (v ≡ null) ⊎ ((vs : List Value) × (v ≡ list_value vs))

Returns-elements_or_nil : (v : Value) → IsListed v → Returns (elements (or_else v (arr nil)))
Returns-elements_or_nil v (inl e) =
    subst (λ u. Returns (elements (or_else u (arr nil)))) (sym e) (Returns-elements [])
Returns-elements_or_nil v (inr (vs, e)) =
    subst (λ u. Returns (elements (or_else u (arr nil)))) (sym e) (Returns-elements vs)

Returns-count : (key : String) (fs : Fields) → IsListed (get key fs) → Returns (count_of key fs)
unfolding count_of len
Returns-count key fs h =
    Returns-bind (len (or_else (get key fs) (arr nil))) _
      (Returns-bind (elements (or_else (get key fs) (arr nil))) _
        (Returns-elements_or_nil (get key fs) h) (λ es. Returns-ok (length es)))
      (λ n. Returns-ok (int n))

-- The keys of a context whose elements are counted.
abbrev pub context_lists : List String
context_lists = "models" ∷ "metrics" ∷ "joins" ∷ "business_rules" ∷ "sql_examples" ∷ []

module _ (w : World) (update : Fields) where
  pub sql_execute_step-Returns :
      IsListed (get "columns" (dict_value update "sql_execution_result"))
      → Returns (sql_execute_step w update)
  unfolding sql_execute_step
  sql_execute_step-Returns h =
      Returns-bind (count_of "columns" (dict_value update "sql_execution_result")) _
        (Returns-count "columns" (dict_value update "sql_execution_result") h) (λ n. Returns-ok _)

  pub sql_plan_step-Returns :
      IsListed (get "candidates" (dict_value update "sql_generation_plan"))
      → Returns (sql_plan_step w update)
  unfolding sql_plan_step
  sql_plan_step-Returns h =
      Returns-bind (count_of "candidates" (dict_value update "sql_generation_plan")) _
        (Returns-count "candidates" (dict_value update "sql_generation_plan") h) (λ n. Returns-ok _)

  pub sql_validate_step-Returns :
      IsListed (get "issues" (dict_value update "sql_validation_result"))
      → Returns (sql_validate_step w update)
  unfolding sql_validate_step
  sql_validate_step-Returns h =
      let issues = get "issues" (dict_value update "sql_validation_result") in
      Returns-bind (elements (or_else issues (arr nil))) _ (Returns-elements_or_nil issues h)
        (λ es. Returns-ok _)

  pub wren_context_step-Returns :
      ((key : String)
        → IsIn key context_lists
        → IsListed (get key (dict_value update "wren_context")))
      → Returns (wren_context_step w update)
  unfolding wren_context_step
  wren_context_step-Returns h =
      let counted : (key : String)
          → IsIn key context_lists
          → Returns (count_of key (dict_value update "wren_context")) =
        λ key i. Returns-count key (dict_value update "wren_context") (h key i) in
      Returns-bind (count_of "models" (dict_value update "wren_context")) _
        (counted "models" (inl refl))
        (λ a.
          Returns-bind (count_of "metrics" (dict_value update "wren_context")) _
            (counted "metrics" (inr (inl refl)))
            (λ b.
              Returns-bind (count_of "joins" (dict_value update "wren_context")) _
                (counted "joins" (inr (inr (inl refl))))
                (λ c.
                  Returns-bind (count_of "business_rules" (dict_value update "wren_context")) _
                    (counted "business_rules" (inr (inr (inr (inl refl)))))
                    (λ d.
                      Returns-bind (count_of "sql_examples" (dict_value update "wren_context")) _
                        (counted "sql_examples" (inr (inr (inr (inr (inl refl))))))
                        (λ e. Returns-ok _)))))

  pub one_step-Returns : (o : Outcome Fields) → Returns o → Returns (one_step o)
  unfolding one_step
  one_step-Returns o r = Returns-bind o _ r (λ fs. Returns-ok (fs ∷ []))
