-- ===== src/Agent/Nodes/SqlValidate/Handover.antt =====
-- `sql_validate` followed by `sql_execute`: a dry run that passes is executed, another one is not.
use nextbos_ai.Prelude.{ℕ, String, true, some, List, ◌≡◌, refl, sym, ap, ◌∙◌, ok, ◌>>=◌}
use nextbos_ai.Schemas.Model.{Schema}
use nextbos_ai.Schemas.SqlValidation.{SqlValidationResult, dump_validation, is_valid_validation}
use nextbos_ai.Schemas.SqlPlan.{
  ready_for_dry_run, SqlCandidate, SqlGenerationPlan, is_valid_plan, dump_plan,
}
use nextbos_ai.Agent.State.{AgentState, Message, Write, apply_writes}
use nextbos_ai.Agent.Nodes.SqlValidate.{
  Validator, preferred_candidate, validate_plan, sql_generation_plan_from_state, sql_validate,
  validation_writes,
}
use nextbos_ai.Agent.Nodes.SqlValidate.Choice.{
  IsChoice, preferred_candidate-exists, validate_plan_ready,
}
use nextbos_ai.Agent.Nodes.SqlValidate.Pipeline.{ReturnsValid, snapshot_read_back}
use nextbos_ai.Agent.Nodes.SqlExecute.{Executor, execute_validated, sql_execute}
use nextbos_ai.Agent.Nodes.SqlExecute.Safety.{IsHandled, execute_validated-IsHandled}
use mathlib.Core.Path.{subst}

-- A dry run leads to an update of the state, and `sql_execute` on that state handles its result.
pub record IsHandedOver (plans : Schema SqlGenerationPlan dump_plan is_valid_plan)
    (validations : Schema SqlValidationResult dump_validation is_valid_validation)
    (add_messages : List Message → List Message → List Message) (validate_sql : Validator)
    (execute_sql : Executor) (n : ℕ) (q : String) (s : AgentState) (r : SqlValidationResult)
    : Type 0 where
  pub writes : List Write
  pub validated : sql_validate plans (some validate_sql) s ≡ ok writes
  pub handled :
      IsHandled execute_sql n q r
        (sql_execute validations (some execute_sql) n q (apply_writes add_messages s writes))

module _ (plans : Schema SqlGenerationPlan dump_plan is_valid_plan)
    (validations : Schema SqlValidationResult dump_validation is_valid_validation)
    (add_messages : List Message → List Message → List Message) where
  read-is_valid :
      (s : AgentState) (p : SqlGenerationPlan)
      → sql_generation_plan_from_state plans s ≡ some p
      → is_valid_plan p ≡ true
  unfolding sql_generation_plan_from_state
  read-is_valid s p e = plans.sound _ p e

  sql_validate_writes :
      (validate_sql : Validator) (s : AgentState) (p : SqlGenerationPlan) (c : SqlCandidate)
      (r : SqlValidationResult)
      → sql_generation_plan_from_state plans s ≡ some p
      → p.status ≡ ready_for_dry_run
      → preferred_candidate p ≡ some c
      → validate_sql c.name c.sql ≡ ok r
      → sql_validate plans (some validate_sql) s ≡ ok (validation_writes r)
  unfolding sql_validate
  sql_validate_writes validate_sql s p c r read ready chosen returned =
      ap (λ m. m >>= λ x. ok (validation_writes x))
        (ap (validate_plan (some validate_sql)) read
          ∙ validate_plan_ready validate_sql p c ready chosen
          ∙ returned)

  snapshot-IsHandled :
      (execute_sql : Executor) (n : ℕ) (q : String) (s : AgentState) (r : SqlValidationResult)
      → is_valid_validation r ≡ true
      → IsHandled execute_sql n q r (
          sql_execute validations
            (some execute_sql)
            n
            q
            (apply_writes add_messages s (validation_writes r)))
  unfolding sql_execute
  snapshot-IsHandled execute_sql n q s r h =
      subst (λ o. IsHandled execute_sql n q r (execute_validated (some execute_sql) o (some q) n))
        (sym (snapshot_read_back plans validations add_messages s r h))
        (execute_validated-IsHandled execute_sql n q r h)

  -- On a state with a ready plan that pydantic accepts, and with a Wren client that returns instances
  -- of the result's model, the preferred candidate exists, and whatever the dry run returns for it,
  -- `sql_validate` returns an update. On the state with that update, `sql_execute` hands the
  -- validated SQL, which is not empty, to the execution client exactly once and gives its result
  -- where the dry run passed, and hands nothing over where it did not.
  pub sql_validate-hands_over :
      (validate_sql : Validator)
      → ReturnsValid (some validate_sql)
      → (execute_sql : Executor) (n : ℕ) (q : String) (s : AgentState) (p : SqlGenerationPlan)
      → sql_generation_plan_from_state plans s ≡ some p
      → p.status ≡ ready_for_dry_run
      → (c : SqlCandidate) × IsChoice p c
        × ((r : SqlValidationResult)
            → validate_sql c.name c.sql ≡ ok r
            → IsHandedOver plans validations add_messages validate_sql execute_sql n q s r)
  sql_validate-hands_over validate_sql valid execute_sql n q s p read ready =
      let (c, chosen, choice) = preferred_candidate-exists p (read-is_valid s p read) ready in
      (
        c,
        choice,
        λ r returned. record {
          writes = validation_writes r;
          validated = sql_validate_writes validate_sql s p c r read ready chosen returned;
          handled =
              snapshot-IsHandled execute_sql n q s r
                (valid validate_sql c.name c.sql r refl returned);
        },
      )
