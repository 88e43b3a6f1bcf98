-- ===== src/Testing/Fixtures.antt =====
-- The components that the examples run: a small world, a model that answers with fixed structures,
-- a Wren client and an execution client.
use nextbos_ai.Prelude.{ℕ, String, true, false, none, some, [], ◌∷◌, ◌++◌, ◌==◌, ok, if◌then◌else◌}
use nextbos_ai.Value.{Value, str, int, Fields, end, field}
use nextbos_ai.Schemas.Intent.{business_query, chart, IntentDecision, dump_decision}
use nextbos_ai.Schemas.SqlPlan.{
  ready_for_dry_run, aggregation, SqlCandidate, SqlGenerationPlan, dump_plan,
}
use nextbos_ai.Schemas.SqlValidation.{passed, SqlValidationResult}
use nextbos_ai.Schemas.SqlExecution.{succeeded, SqlExecutionResult}
use nextbos_ai.Schemas.Chart.{bar, ChartEncoding, ChartPlan, dump_chart_plan}
use nextbos_ai.Llm.Models.{EffectiveModelConfig}
use nextbos_ai.Agent.State.{AgentState, empty_state, human, ai, message}
use nextbos_ai.Agent.World.{World, ChatModel, ModelRuntime}
use nextbos_ai.Agent.Nodes.WrenContext.{empty_context}
use nextbos_ai.Agent.Graph.{Dependencies, WrenClient}
use nextbos_ai.Testing.Readers.Plans.{plans, chart_plans}
use nextbos_ai.Testing.Readers.Validations.{validations}
use nextbos_ai.Testing.Readers.Decisions.{decisions, requests}

abbrev pub world : World
world = record {
  json_dumps = λ v. "{}";
  json_dumps_indented = λ v. "{}";
  repr = λ v. "repr";
  to_float = λ o. str o.text;
  isoformat = λ o. o.text;
  system_prompt = "system";
  intent_prompt = "intent";
  sql_plan_prompt = "plan";
  chart_plan_prompt = "chart";
}

abbrev pub decision : IntentDecision
decision = record {
  intent_type = business_query;
  needs_business_data = true;
  output_type = chart;
  question_rewrite = "sales by region";
  metrics = "sales" ∷ [];
  dimensions = "region" ∷ [];
  filters = record { on = "channel"; value = "web" } ∷ [];
  time_range = none;
  confidence = 900000;
  missing_slots = [];
  clarification_question = none;
}

abbrev pub candidate : SqlCandidate
candidate = record {
  name = "primary";
  sql = "SELECT region, sales FROM t";
  rationale = "totals";
  expected_columns = "region" ∷ "sales" ∷ [];
  risk_notes = [];
}

abbrev pub plan : SqlGenerationPlan
plan = record {
  status = ready_for_dry_run;
  query_intent = aggregation;
  question = "sales by region";
  planning_summary = "group";
  models = [];
  metrics = [];
  dimensions = [];
  filters = [];
  time_range = none;
  assumptions = [];
  steps = [];
  candidates = candidate ∷ [];
  preferred_candidate_name = some "primary";
  clarification_question = none;
  confidence = 800000;
}

abbrev pub x_axis : ChartEncoding
x_axis = record { on = "region"; label = none }

abbrev pub y_axis : ChartEncoding
y_axis = record { on = "sales"; label = some "Sales" }

abbrev pub bar_plan : ChartPlan
bar_plan = record {
  chart_type = bar;
  title = "Sales";
  x = some x_axis;
  y = some y_axis;
  series = none;
  description = "sales by region";
}

abbrev pub config : EffectiveModelConfig
config = record {
  source = "env_fallback";
  provider = "p";
  base_url = "u";
  model_name = "m";
  params = end;
  credential = none;
  digest = "d";
  snapshot_id = some "snapshot";
  model_profile_id = none;
  model_profile_version = none;
}

abbrev structured_answer : String → Value
structured_answer name =
    if name == "IntentDecision"
    then dump_decision decision
    else if name == "SqlGenerationPlan"
    then dump_plan plan
    else dump_chart_plan bar_plan

abbrev pub chat_model : ChatModel
chat_model = record {
  structured = λ name ms. ok (structured_answer name);
  invoke = λ tools ms. ok (message ai "answer");
}

abbrev pub runtime : ModelRuntime
runtime = record { resolve_config = λ o. ok config; create_chat_model = λ c. ok chat_model }

-- The result that the example's Wren client returns.
abbrev pub passed_result : String → String → SqlValidationResult
passed_result name sql = record {
  candidate_name = "primary";
  sql = "SELECT region, sales FROM t";
  status = passed;
  validated_sql = some "SELECT region, sales FROM t LIMIT 100";
  issues = [];
  dry_plan = end;
  dry_run = end;
  repair_attempt = 0;
  max_repair_attempts = 2;
}

abbrev pub wren : WrenClient
wren = record {
  query_context = λ r. ok empty_context;
  validate_sql = λ name sql. ok (passed_result name sql);
}

abbrev pub row : String → ℕ → Fields
row region sales = field "region" (str region) (field "sales" (int sales) end)

abbrev pub two_rows : SqlExecutionResult
two_rows = record {
  status = succeeded;
  query_id = some "q1";
  sql = some "SELECT region, sales FROM t LIMIT 100";
  columns =
      record { name = "region"; data_type = none }
      ∷ record { name = "sales"; data_type = none }
      ∷ [];
  rows = row "east" 3 ∷ row "west" 5 ∷ [];
  row_count = 2;
  truncated = false;
  error = none;
}

abbrev pub dependencies : Dependencies
dependencies = record {
  world = world;
  decisions = decisions;
  requests = requests;
  plans = plans;
  validations = validations;
  chart_plans = chart_plans;
  model_runtime = some runtime;
  summarization = none;
  summary_options = none;
  wren_context_client = some wren;
  sql_execution_client = some (λ sql q n. ok two_rows);
  query_id = "q1";
  tool_node = λ s. ok [];
  tools_condition = λ s. false;
  add_messages = λ xs ys. xs ++ ys;
}

abbrev pub start : AgentState
start = record empty_state { messages = message human "sales by region?" ∷ [] }
