-- ===== src/Agent/Nodes/SqlValidate/Pipeline.antt =====
-- `sql_validate` followed by `sql_execute`: what reaches the database is what the dry run of the
-- plan's candidate returned.
use mathlib.Core.Path.{subst}
use nextbos_ai.Prelude.{
  ℕ, String, true, Option, none, some, List, ◌≡◌, refl, arith, ok, >>=-eq-ok, IsIn, ap, sym, ◌∙◌,
}
use nextbos_ai.Value.{obj, end, or_else}
use nextbos_ai.Schemas.Model.{Schema}
use nextbos_ai.Schemas.SqlValidation.{
  SqlValidationResult, passed, dump_validation, is_valid_validation, new_validation_result,
}
use nextbos_ai.Schemas.SqlPlan.{
  SqlPlanStatus, ready_for_dry_run, needs_clarification, cannot_plan, SqlCandidate,
  SqlGenerationPlan, is_valid_plan, dump_plan,
}
use nextbos_ai.Agent.State.{AgentState, Message, Write, apply_writes}
use nextbos_ai.Agent.Nodes.SqlValidate.{
  Validator, preferred_candidate, failed_validation_result, check_candidate, check_plan, unready,
  validate_plan, sql_generation_plan_from_state, sql_validate, validation_writes,
}
use nextbos_ai.Agent.Nodes.SqlExecute.{Executor, sql_execute}
use nextbos_ai.Agent.Nodes.SqlExecute.Safety.{Allows, sql_execute-Allows}

-- The dry run that a passed result comes from.
pub record IsDryRun (client : Option Validator) (o : Option SqlGenerationPlan)
    (r : SqlValidationResult) : Type 0 where
  pub plan : SqlGenerationPlan
  pub candidate : SqlCandidate
  pub validate_sql : Validator
  pub planned : o ≡ some plan
  pub ready : plan.status ≡ ready_for_dry_run
  pub preferred : preferred_candidate plan ≡ some candidate
  pub configured : client ≡ some validate_sql
  pub returned : validate_sql candidate.name candidate.sql ≡ ok r

failed_not_passed :
    (text : String) (o : Option SqlCandidate) (r : SqlValidationResult)
    → failed_validation_result text o ≡ ok r
    → r.status ≡ passed
    → ⊥
unfolding failed_validation_result new_validation_result
failed_not_passed text o r h p = ground arith

construct_valid :
    (text : String) (o : Option SqlCandidate) (r : SqlValidationResult)
    → failed_validation_result text o ≡ ok r
    → is_valid_validation r ≡ true
unfolding failed_validation_result new_validation_result is_valid_validation
construct_valid text o r h = ground arith

-- A Wren client returns instances of the model.
abbrev pub ReturnsValid : Option Validator → Type 0
ReturnsValid client =
    (f : Validator) (name sql : String) (r : SqlValidationResult)
    → client ≡ some f
    → f name sql ≡ ok r
    → is_valid_validation r ≡ true

module _ (client : Option Validator) where
  check_candidate-IsDryRun :
      (p : SqlGenerationPlan) (o : Option SqlCandidate) (r : SqlValidationResult)
      → p.status ≡ ready_for_dry_run
      → preferred_candidate p ≡ o
      → check_candidate client o ≡ ok r
      → r.status ≡ passed
      → IsDryRun client (some p) r
  unfolding check_candidate
  check_candidate-IsDryRun p none r t e h q = absurd (failed_not_passed _ none r h q)
  check_candidate-IsDryRun p (some c) r t e h q = client_cases client h
    where
      client_cases :
          (o : Option Validator) → check_candidate o (some c) ≡ ok r → IsDryRun o (some p) r
      client_cases none h' = absurd (failed_not_passed _ (some c) r h' q)
      client_cases (some f) h' = record {
        plan = p;
        candidate = c;
        validate_sql = f;
        planned = refl;
        ready = t;
        preferred = e;
        configured = refl;
        returned = h';
      }

  check_plan-IsDryRun :
      (t : SqlPlanStatus) (p : SqlGenerationPlan) (r : SqlValidationResult)
      → p.status ≡ t
      → check_plan client t p ≡ ok r
      → r.status ≡ passed
      → IsDryRun client (some p) r
  unfolding check_plan unready
  check_plan-IsDryRun ready_for_dry_run p r t h q =
      check_candidate-IsDryRun p (preferred_candidate p) r t refl h q
  check_plan-IsDryRun needs_clarification p r t h q = absurd (failed_not_passed _ none r h q)
  check_plan-IsDryRun cannot_plan p r t h q = absurd (failed_not_passed _ none r h q)

  validate_plan-IsDryRun :
      (o : Option SqlGenerationPlan) (r : SqlValidationResult)
      → validate_plan client o ≡ ok r
      → r.status ≡ passed
      → IsDryRun client o r
  unfolding validate_plan
  validate_plan-IsDryRun none r h q = absurd (failed_not_passed _ none r h q)
  validate_plan-IsDryRun (some p) r h q = check_plan-IsDryRun p.status p r refl h q

  module _ (valid : ReturnsValid client) where
    check_candidate_valid :
        (o : Option SqlCandidate) (r : SqlValidationResult)
        → check_candidate client o ≡ ok r
        → is_valid_validation r ≡ true
    unfolding check_candidate
    check_candidate_valid none r h = construct_valid _ none r h
    check_candidate_valid (some c) r h = client_cases client refl h
      where
        client_cases :
            (o : Option Validator)
            → client ≡ o
            → check_candidate o (some c) ≡ ok r
            → is_valid_validation r ≡ true
        client_cases none e h' = construct_valid _ (some c) r h'
        client_cases (some f) e h' = valid f c.name c.sql r e h'

    check_plan_valid :
        (t : SqlPlanStatus) (p : SqlGenerationPlan) (r : SqlValidationResult)
        → check_plan client t p ≡ ok r
        → is_valid_validation r ≡ true
    unfolding check_plan unready
    check_plan_valid ready_for_dry_run p r h = check_candidate_valid (preferred_candidate p) r h
    check_plan_valid needs_clarification p r h = construct_valid _ none r h
    check_plan_valid cannot_plan p r h = construct_valid _ none r h

    pub validate_plan_valid :
        (o : Option SqlGenerationPlan) (r : SqlValidationResult)
        → validate_plan client o ≡ ok r
        → is_valid_validation r ≡ true
    unfolding validate_plan
    validate_plan_valid none r h = construct_valid _ none r h
    validate_plan_valid (some p) r h = check_plan_valid p.status p r h

module _ (plans : Schema SqlGenerationPlan dump_plan is_valid_plan)
    (validations : Schema SqlValidationResult dump_validation is_valid_validation)
    (add_messages : List Message → List Message → List Message) where
  -- The snapshot that the writes of `sql_validate` leave in the state is read back as the result.
  pub snapshot_read_back :
      (s : AgentState) (r : SqlValidationResult)
      → is_valid_validation r ≡ true
      → validations.model_validate (
          or_else
            (apply_writes add_messages s (validation_writes r)).sql_validation_result
            (obj end))
        ≡ some r
  unfolding apply_writes validation_writes
  snapshot_read_back s r h = validations.complete r h

  read_back_same :
      (s : AgentState) (r r' : SqlValidationResult) (ws : List Write)
      → is_valid_validation r ≡ true
      → validation_writes r ≡ ws
      → validations.model_validate
          (or_else (apply_writes add_messages s ws).sql_validation_result (obj end))
        ≡ some r'
      → r ≡ r'
  read_back_same s r r' ws h e read = cc (snapshot_read_back s r h)

  -- When `sql_validate` has run on a state and `sql_execute` runs on the state with its update,
  -- every statement that reaches the execution client is the validated SQL of a passed result
  -- without errors, which the Wren client returned for the SQL of the preferred candidate of the
  -- ready plan in that state. The client is assumed to return instances of the result's model.
  pub sql_validate-sql_execute :
      (client : Option Validator)
      → ReturnsValid client
      → (executor : Option Executor) (n : ℕ) (q : String) (s : AgentState) (ws : List Write)
        (sql : String)
      → sql_validate plans client s ≡ ok ws
      → IsIn sql (sql_execute validations executor n q (apply_writes add_messages s ws)).executed
      → (r : SqlValidationResult) × IsDryRun client (sql_generation_plan_from_state plans s) r
        × Allows r sql
  unfolding sql_validate
  sql_validate-sql_execute client valid executor n q s ws sql h m =
      let plan = sql_generation_plan_from_state plans s in
      let (r, returned, written) = >>=-eq-ok (validate_plan client plan) _ h in
      let state : AgentState = apply_writes add_messages s ws in
      let (r', read, allowed) = sql_execute-Allows validations executor n q state sql m in
      let same : r ≡ r' =
        read_back_same s r r' ws (validate_plan_valid client valid plan r returned) (cc written)
          read in
      (
        r,
        validate_plan-IsDryRun client plan r returned
            (ap (λ t. t.status) same ∙ allowed.was_passed),
        subst (λ t. Allows t sql) (sym same) allowed,
      )
