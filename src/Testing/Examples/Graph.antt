-- ===== src/Testing/Examples/Graph.antt =====
-- Examples for the graph and for the nodes that guard the database.
use nextbos_ai.Prelude.{
  String, Option, none, some, [], ◌∷◌, ◌≡◌, ◌≢◌, refl, ap, sym, ◌∙◌, true, inl, arith, eq_iff,
  Outcome, ok, IsIn, some_injective, ok_injective,
}
use mathlib.Core.Path.{subst}
use nextbos_ai.Value.{obj, end, or_else}
use nextbos_ai.Schemas.SqlValidation.{
  failed, SqlValidationResult, is_valid_validation, dump_validation,
}
use nextbos_ai.Schemas.SqlPlan.{SqlCandidate, SqlGenerationPlan, is_valid_plan, dump_plan}
use nextbos_ai.Agent.State.{AgentState, apply_writes}
use nextbos_ai.Agent.Nodes.SqlValidate.{
  Validator, preferred_candidate, sql_validate, sql_generation_plan_from_state, validation_writes,
}
use nextbos_ai.Agent.Nodes.SqlValidate.Choice.{
  IsChoice, preferred_candidate-exists, sql_validate_fails_closed,
}
use nextbos_ai.Agent.Nodes.SqlValidate.Handover.{IsHandedOver, sql_validate-hands_over}
use nextbos_ai.Agent.Nodes.SqlValidate.Pipeline.{IsDryRun, ReturnsValid, sql_validate-sql_execute}
use nextbos_ai.Agent.Nodes.SqlExecute.{sql_execute}
use nextbos_ai.Agent.Nodes.SqlExecute.Safety.{Allows, sql_execute-Allows}
use nextbos_ai.Agent.Graph.{
  NodeName, invoke, run_node, validator_of, GraphRun, summarize, intent, wren_context, sql_plan,
  sql_validate as validate_name, sql_execute as execute_name, chart_plan, chart_spec, final_respond,
}
use nextbos_ai.Agent.Graph.Safety.{IsSafe, invoke-IsSafe}
use nextbos_ai.Agent.Graph.Termination.{invoke_total, IsDescending, invoke-IsDescending}
use nextbos_ai.Testing.Readers.Plans.{plans}
use nextbos_ai.Testing.Readers.Validations.{validations}
use nextbos_ai.Testing.Fixtures.{dependencies, start, plan, candidate, passed_result, two_rows}

abbrev statement : String
statement = "SELECT region, sales FROM t LIMIT 100"

abbrev answer_of : Option Validator → String → String → Outcome SqlValidationResult
answer_of none name sql = ok (passed_result name sql)
answer_of (some f) name sql = f name sql

passed_result-is_valid : (name sql : String) → is_valid_validation (passed_result name sql) ≡ true
unfolding is_valid_validation
passed_result-is_valid name sql = refl

returned_same :
    {a b : SqlValidationResult} {m : Outcome SqlValidationResult} → ok a ≡ m → m ≡ ok b → a ≡ b
returned_same p q = cc

wren-ReturnsValid : ReturnsValid (validator_of dependencies.wren_context_client)
wren-ReturnsValid f name sql r e h =
    let same : passed_result name sql ≡ r = returned_same (ap (λ o. answer_of o name sql) e) h in
    subst (λ a. is_valid_validation a ≡ true) same (passed_result-is_valid name sql)

invoke_total_example : (o : Outcome AgentState) × ((invoke dependencies start).result ≡ some o)
invoke_total_example = invoke_total dependencies start

invoke-IsDescending_example : IsDescending (invoke dependencies start).visited
invoke-IsDescending_example = invoke-IsDescending dependencies start

-- The run visits nine nodes and executes one statement.
whole_run : (invoke dependencies start).executed ≡ statement ∷ []
unfolding invoke run_node nextbos_ai.Agent.Nodes.Summarize.summarize
    nextbos_ai.Agent.Graph.next_node nextbos_ai.Agent.Nodes.Intent.intent
    nextbos_ai.Agent.Nodes.Route.route_after_intent apply_writes
    nextbos_ai.Agent.Nodes.Intent.intent_writes nextbos_ai.Agent.Nodes.Route.route_intent_decision
    nextbos_ai.Agent.Nodes.WrenContext.wren_context nextbos_ai.Agent.Nodes.SqlPlan.sql_plan
    is_valid_plan nextbos_ai.Agent.Nodes.Route.route_after_sql_plan sql_validate sql_execute
    validation_writes is_valid_validation nextbos_ai.Agent.Nodes.Route.route_after_sql_execute
    nextbos_ai.Agent.Nodes.SqlExecute.execution_writes nextbos_ai.Agent.Nodes.ChartPlan.chart_plan
    nextbos_ai.Agent.Nodes.ChartSpec.chart_spec nextbos_ai.Schemas.Chart.is_valid_chart_plan
    nextbos_ai.Agent.Nodes.ChartSpec.FieldSets.missing_from
    nextbos_ai.Agent.Nodes.ChartSpec.FieldSets.sorted_set nextbos_ai.Schemas.Chart.new_chart_spec
    nextbos_ai.Schemas.Chart.new_chart_spec_result nextbos_ai.Agent.Nodes.Respond.respond
whole_run = refl

whole_run_executes : IsIn statement (invoke dependencies start).executed
whole_run_executes = subst (IsIn statement) (sym whole_run) (inl refl)

invoke-IsSafe_example : IsSafe dependencies statement
invoke-IsSafe_example =
    invoke-IsSafe dependencies start statement wren-ReturnsValid whole_run_executes

abbrev checked : SqlValidationResult
checked = passed_result "primary" "SELECT region, sales FROM t"

abbrev after_checking : AgentState
after_checking = record start { sql_validation_result = dump_validation checked }

checked_executes :
    IsIn statement
      (sql_execute validations dependencies.sql_execution_client 100 "q1" after_checking).executed
unfolding sql_execute is_valid_validation
checked_executes = inl refl

sql_execute-Allows_example :
    (r : SqlValidationResult) × (validations.model_validate
        (or_else after_checking.sql_validation_result (obj end))
      ≡ some r)
    × Allows r statement
sql_execute-Allows_example =
    sql_execute-Allows validations dependencies.sql_execution_client 100 "q1" after_checking
      statement checked_executes

plan-is_valid : is_valid_plan plan ≡ true
unfolding is_valid_plan
plan-is_valid = refl

plan-preferred : preferred_candidate plan ≡ some candidate
unfolding preferred_candidate
plan-preferred = refl

preferred_candidate-exists_example :
    (c : SqlCandidate) × (preferred_candidate plan ≡ some c) × IsChoice plan c
preferred_candidate-exists_example = preferred_candidate-exists plan plan-is_valid refl

-- A ready plan whose candidate has a name.
abbrev planned : AgentState
planned = record start { sql_generation_plan = dump_plan plan }

planned_read : sql_generation_plan_from_state plans planned ≡ some plan
unfolding sql_generation_plan_from_state
planned_read = plans.complete plan plan-is_valid

planned_named :
    (p : SqlGenerationPlan) (c : SqlCandidate)
    → sql_generation_plan_from_state plans planned ≡ some p
    → preferred_candidate p ≡ some c
    → c.name ≢ ""
planned_named p c h e =
    let same : preferred_candidate plan ≡ preferred_candidate p =
      ap preferred_candidate (some_injective planned_read h) in
    let named : c.name ≡ "primary" =
      ap (λ d. d.name) (some_injective e (sym same ∙ plan-preferred)) in
    ground (arith, eq_iff "primary" "")

sql_validate_fails_closed_example :
    (r : SqlValidationResult) × (sql_validate plans none planned ≡ ok (validation_writes r))
    × (r.status ≡ failed)
    × (r.validated_sql ≡ none)
sql_validate_fails_closed_example = sql_validate_fails_closed plans planned planned_named

planned_validates :
    sql_validate plans (validator_of dependencies.wren_context_client) planned
    ≡ ok (validation_writes checked)
unfolding sql_validate is_valid_plan
planned_validates = refl

planned_executes :
    IsIn statement
      (sql_execute validations dependencies.sql_execution_client 100 "q1"
        (apply_writes dependencies.add_messages planned (validation_writes checked))).executed
unfolding sql_execute is_valid_validation apply_writes validation_writes
planned_executes = inl refl

sql_validate-sql_execute_example :
    (r : SqlValidationResult) × IsDryRun
      (validator_of dependencies.wren_context_client)
      (sql_generation_plan_from_state plans planned)
      r
    × Allows r statement
sql_validate-sql_execute_example =
    sql_validate-sql_execute plans validations dependencies.add_messages
      (validator_of dependencies.wren_context_client) wren-ReturnsValid
      dependencies.sql_execution_client 100 "q1" planned (validation_writes checked) statement
      planned_validates planned_executes

abbrev dry_run : Validator
dry_run name sql = ok checked

dry_run-ReturnsValid : ReturnsValid (some dry_run)
dry_run-ReturnsValid f name sql r e h =
    let same : ok checked ≡ ok r = ap (λ g. g name sql) (some_injective refl e) ∙ h in
    subst (λ x. is_valid_validation x ≡ true) (ok_injective same)
      (passed_result-is_valid "primary" "SELECT region, sales FROM t")

sql_validate-hands_over_example :
    (c : SqlCandidate) × IsChoice plan c
    × ((r : SqlValidationResult)
        → dry_run c.name c.sql ≡ ok r
        → IsHandedOver plans validations dependencies.add_messages dry_run
            (λ sql q n. ok two_rows)
            100
            "q1"
            planned
            r)
sql_validate-hands_over_example =
    sql_validate-hands_over plans validations dependencies.add_messages dry_run dry_run-ReturnsValid
      (λ sql q n. ok two_rows) 100 "q1" planned plan planned_read refl
