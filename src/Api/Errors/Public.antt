-- ===== src/Api/Errors/Public.antt =====
-- What the HTTP errors show.
use nextbos_ai.Prelude.{
  Bool, true, false, List, [], ◌∷◌, ◌≡◌, refl, inl, inr, ap, ◌∙◌, IsIn, Exception, ExceptionClass,
  validation_error, wren_context_error, llm_configuration_error, llm_error, tool_timeout_error,
  tool_error, timeout_error, infrastructure_unavailable, type_error, other_error,
}
use nextbos_ai.Api.Errors.{
  HttpError, is_timeout_error, map_exception_to_http_error, configuration_problem, tool_timeout,
  llm_timeout, tool_problem, llm_problem, infrastructure_problem, internal_problem, at_class,
  unless_timeout, after_timeout,
}

abbrev pub public_errors : List HttpError
public_errors =
    configuration_problem ∷ tool_timeout ∷ llm_timeout ∷ tool_problem ∷ llm_problem
    ∷ infrastructure_problem ∷ internal_problem ∷ []

after_timeout-IsIn : (c : ExceptionClass) → IsIn (after_timeout c) public_errors
unfolding after_timeout
after_timeout-IsIn validation_error = inr (inr (inr (inr (inr (inr (inl refl))))))
after_timeout-IsIn wren_context_error = inr (inr (inr (inr (inr (inr (inl refl))))))
after_timeout-IsIn llm_configuration_error = inr (inr (inr (inr (inr (inr (inl refl))))))
after_timeout-IsIn llm_error = inr (inr (inr (inr (inl refl))))
after_timeout-IsIn tool_timeout_error = inr (inr (inr (inr (inr (inr (inl refl))))))
after_timeout-IsIn tool_error = inr (inr (inr (inl refl)))
after_timeout-IsIn timeout_error = inr (inr (inr (inr (inr (inr (inl refl))))))
after_timeout-IsIn infrastructure_unavailable = inr (inr (inr (inr (inr (inl refl)))))
after_timeout-IsIn type_error = inr (inr (inr (inr (inr (inr (inl refl))))))
after_timeout-IsIn other_error = inr (inr (inr (inr (inr (inr (inl refl))))))

unless_timeout-IsIn : (c : ExceptionClass) (b : Bool) → IsIn (unless_timeout b c) public_errors
unfolding unless_timeout
unless_timeout-IsIn c true = inr (inr (inl refl))
unless_timeout-IsIn c false = after_timeout-IsIn c

at_class-IsIn : (c : ExceptionClass) (b : Bool) → IsIn (at_class c b) public_errors
unfolding at_class
at_class-IsIn validation_error b = unless_timeout-IsIn validation_error b
at_class-IsIn wren_context_error b = unless_timeout-IsIn wren_context_error b
at_class-IsIn llm_configuration_error b = inl refl
at_class-IsIn llm_error b = unless_timeout-IsIn llm_error b
at_class-IsIn tool_timeout_error b = inr (inl refl)
at_class-IsIn tool_error b = unless_timeout-IsIn tool_error b
at_class-IsIn timeout_error b = unless_timeout-IsIn timeout_error b
at_class-IsIn infrastructure_unavailable b = unless_timeout-IsIn infrastructure_unavailable b
at_class-IsIn type_error b = unless_timeout-IsIn type_error b
at_class-IsIn other_error b = unless_timeout-IsIn other_error b

-- A client is told one of seven fixed errors, which one is decided by the class of the exception and
-- by whether it is taken for a timeout: nothing else of the exception's text is shown.
pub map_exception_to_http_error-IsPublic :
    (e : Exception)
    → IsIn (map_exception_to_http_error e) public_errors
      × ((f : Exception)
          → e.class ≡ f.class
          → is_timeout_error e ≡ is_timeout_error f
          → map_exception_to_http_error e ≡ map_exception_to_http_error f)
unfolding map_exception_to_http_error
map_exception_to_http_error-IsPublic e = (
  at_class-IsIn e.class (is_timeout_error e),
  λ f c t. ap (λ k. at_class k (is_timeout_error e)) c ∙ ap (at_class f.class) t,
)
