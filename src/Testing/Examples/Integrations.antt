-- ===== src/Testing/Examples/Integrations.antt =====
-- Examples for the clients of Wren.
use mathlib.Core.Path.{subst}
use nextbos_ai.Prelude.{
  String, none, some, [], ◌∷◌, ◌≡◌, ◌≢◌, refl, sym, true, false, inl, Outcome, ok, raise, Exception,
  other_error, validation_error, IsIn,
}
use nextbos_ai.Value.{Value, str, int, bool, obj, Fields, end, field, list_value}
use nextbos_ai.Schemas.SqlExecution.{succeeded, SqlExecutionResult}
use nextbos_ai.Schemas.SqlValidation.{passed, SqlValidationResult}
use nextbos_ai.Integrations.SqlExecutor.{QueryTool, execute_sql_sync}
use nextbos_ai.Integrations.SqlExecutor.Report.{
  IsReport, IsFailure, execute_sql_sync-IsReport, execute_sql_sync_of_raise,
}
use nextbos_ai.Integrations.WrenTypes.{WrenProjectConfig}
use nextbos_ai.Integrations.Wren.{Tool, Toolkit, WrenLangChainContextClient, get_tools}
use nextbos_ai.Integrations.Wren.Validation.{Check, dry_plan_answer, validate_sql_sync}
use nextbos_ai.Integrations.Wren.Validation.Checks.{IsVerdict, validate_sql_sync-IsVerdict}
use nextbos_ai.Integrations.WrenTypes.{WrenContextRequest}
use nextbos_ai.Integrations.Wren.Context.{payloads, query_context_sync}
use nextbos_ai.Agent.Nodes.WrenContext.{Report, empty_context, query_report}
use nextbos_ai.Agent.Nodes.WrenContext.Failures.{sdk_failure, query_report-query_context_sync}
use nextbos_ai.Testing.Readers.Contexts.{context_schemas}
use nextbos_ai.Agent.Graph.{Dependencies, invoke}
use nextbos_ai.Agent.Graph.Planned.{
  langchain_validator, first_check, IsDryPlanned, invoke-IsDryPlanned,
}
use nextbos_ai.Testing.Fixtures.{world, dependencies, start, wren}

abbrev row : Fields
row = field "region" (str "east") (field "sales" (int 3) end)

abbrev answer : Value
answer =
    obj (
      field "ok" (bool true)
        (field "data" (obj (field "rows" (list_value (obj row ∷ [])) end)) end))

abbrev tool : QueryTool
tool sql n = ok answer

abbrev report : SqlExecutionResult
report = record {
  status = succeeded;
  query_id = some "q";
  sql = some "SELECT 1";
  columns =
      record { name = "region"; data_type = none }
      ∷ record { name = "sales"; data_type = none }
      ∷ [];
  rows = row ∷ [];
  row_count = 1;
  truncated = false;
  error = none;
}

reported : execute_sql_sync world tool "SELECT 1" (some "q") 100 ≡ ok report
unfolding execute_sql_sync nextbos_ai.Schemas.SqlExecution.new_column
    nextbos_ai.Schemas.SqlExecution.new_execution_result
reported = refl

execute_sql_sync-IsReport_example :
    IsReport world (tool "SELECT 1" 100) "SELECT 1" (some "q") report
execute_sql_sync-IsReport_example =
    execute_sql_sync-IsReport world tool "SELECT 1" (some "q") 100 report reported

abbrev broken : Exception
broken = record { class = other_error; text = "connection lost" }

execute_sql_sync_of_raise_example :
    (broken.text ≢ ""
      → (r : SqlExecutionResult) × (execute_sql_sync world
            (λ sql n. raise broken)
            "SELECT 1"
            none
            100
          ≡ ok r)
        × IsFailure r)
    × (broken.text ≡ ""
        → (x : Exception) × (execute_sql_sync world (λ sql n. raise broken) "SELECT 1" none 100
            ≡ raise x)
          × (x.class ≡ validation_error))
execute_sql_sync_of_raise_example =
    execute_sql_sync_of_raise world (λ sql n. raise broken) "SELECT 1" none 100 broken refl

-- A toolkit with the tool `wren_dry_plan`.
abbrev planned_sql : String
planned_sql = "SELECT region, sales FROM t LIMIT 100"

abbrev dry_plan : Fields
dry_plan =
    field "ok" (bool true) (field "data" (obj (field "dialect_sql" (str planned_sql) end)) end)

abbrev dry_plan_tool : Tool
dry_plan_tool = record { name = some "wren_dry_plan"; invoke = λ arguments. ok (obj dry_plan) }

abbrev load : WrenProjectConfig → Outcome Toolkit
load config =
    ok (record { get_tools = λ write strict. ok (dry_plan_tool ∷ []); system_prompt = λ ts. ok "" })

abbrev client : WrenLangChainContextClient
client = record {
  config = record {
    project_path = "wren";
    profile = none;
    context_limit = 5;
    recall_limit = 3;
    include_memory_write = false;
    raise_on_error = true;
  };
  cached_toolkit = none;
  cached_tools = none;
}

abbrev verdict : SqlValidationResult
verdict = record {
  candidate_name = "primary";
  sql = "SELECT region, sales FROM t";
  status = passed;
  validated_sql = some planned_sql;
  issues = [];
  dry_plan = dry_plan;
  dry_run = end;
  repair_attempt = 0;
  max_repair_attempts = 2;
}

abbrev check : Check
check = first_check "primary" "SELECT region, sales FROM t"

verdict_so : (validate_sql_sync world load client check).result ≡ ok verdict
unfolding validate_sql_sync nextbos_ai.Schemas.SqlValidation.new_validation_result
verdict_so = refl

validate_sql_sync-IsVerdict_example :
    IsVerdict world check
      (dry_plan_answer (get_tools load client).result "SELECT region, sales FROM t")
      verdict
validate_sql_sync-IsVerdict_example =
    validate_sql_sync-IsVerdict world load client check verdict verdict_so

abbrev planned_dependencies : Dependencies
planned_dependencies = record dependencies {
  wren_context_client = some (record wren { validate_sql = langchain_validator world load client });
}

planned_run : (invoke planned_dependencies start).executed ≡ planned_sql ∷ []
unfolding invoke nextbos_ai.Agent.Graph.run_node nextbos_ai.Agent.Nodes.Summarize.summarize
    nextbos_ai.Agent.Graph.next_node nextbos_ai.Agent.Nodes.Intent.intent
    nextbos_ai.Agent.Nodes.Route.route_after_intent nextbos_ai.Agent.State.apply_writes
    nextbos_ai.Agent.Nodes.Intent.intent_writes nextbos_ai.Agent.Nodes.Route.route_intent_decision
    nextbos_ai.Agent.Nodes.WrenContext.wren_context nextbos_ai.Agent.Nodes.SqlPlan.sql_plan
    nextbos_ai.Schemas.SqlPlan.is_valid_plan nextbos_ai.Agent.Nodes.Route.route_after_sql_plan
    nextbos_ai.Agent.Nodes.SqlValidate.sql_validate validate_sql_sync
    nextbos_ai.Schemas.SqlValidation.new_validation_result
    nextbos_ai.Agent.Nodes.SqlExecute.sql_execute
    nextbos_ai.Agent.Nodes.SqlValidate.validation_writes
    nextbos_ai.Schemas.SqlValidation.is_valid_validation
    nextbos_ai.Agent.Nodes.Route.route_after_sql_execute
    nextbos_ai.Agent.Nodes.SqlExecute.execution_writes nextbos_ai.Agent.Nodes.ChartPlan.chart_plan
    nextbos_ai.Agent.Nodes.ChartSpec.chart_spec nextbos_ai.Schemas.Chart.is_valid_chart_plan
    nextbos_ai.Agent.Nodes.ChartSpec.FieldSets.missing_from
    nextbos_ai.Agent.Nodes.ChartSpec.FieldSets.sorted_set nextbos_ai.Schemas.Chart.new_chart_spec
    nextbos_ai.Schemas.Chart.new_chart_spec_result nextbos_ai.Agent.Nodes.Respond.respond
planned_run = refl

invoke-IsDryPlanned_example : IsDryPlanned planned_dependencies load client planned_sql
invoke-IsDryPlanned_example =
    invoke-IsDryPlanned planned_dependencies load client refl start planned_sql
      (subst (IsIn planned_sql) (sym planned_run) (inl refl))

abbrev broken_load : WrenProjectConfig → Outcome Toolkit
broken_load config = raise broken

abbrev question : WrenContextRequest
question = record {
  question = "sales by region";
  tenant_id = none;
  user_id = none;
  metrics = [];
  dimensions = [];
  filters = [];
  time_range = none;
}

broken-payloads :
    payloads world client.config (get_tools broken_load client).result question ≡ raise broken
unfolding payloads get_tools
broken-payloads = refl

query_report-query_context_sync_example :
    (r : Report) × (query_report
        (some (λ q. (query_context_sync world context_schemas broken_load client q).result))
        question
      ≡ ok r)
    × (r.context ≡ record empty_context { raw = field "error" (str sdk_failure) end })
query_report-query_context_sync_example =
    query_report-query_context_sync world context_schemas broken_load client question broken
      broken-payloads
