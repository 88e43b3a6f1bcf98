-- ===== src/Agent/Graph.antt =====
-- agent/graph.py: the nodes that `build_graph` adds, its edges, and a run of the graph as LangGraph
-- makes it: a node returns an update, the update is merged, and an edge gives the next node.
pub mod Termination
pub mod Safety
pub mod Planned
pub mod Carried
use nextbos_ai.Prelude.{
  ℕ, zero, suc, String, Bool, true, false, Option, none, some, List, [], ◌∷◌, ◌++◌, ◌<>◌, last?,
  Outcome, ok, raise, other_error, if◌then◌else◌,
}
use nextbos_ai.Schemas.Model.{Schema}
use nextbos_ai.Schemas.Intent.{
  IntentDecision, dump_decision, is_valid_decision, RouteTarget, to_direct_answer, to_wren_context,
}
use nextbos_ai.Schemas.SqlPlan.{SqlGenerationPlan, dump_plan, is_valid_plan}
use nextbos_ai.Schemas.SqlValidation.{SqlValidationResult, dump_validation, is_valid_validation}
use nextbos_ai.Schemas.SqlExecution.{SqlExecutionResult}
use nextbos_ai.Schemas.Chart.{ChartPlan, dump_chart_plan, is_valid_chart_plan}
use nextbos_ai.Integrations.WrenTypes.{WrenContextRequest, dump_request}
use nextbos_ai.Agent.State.{AgentState, Message, Write, messages, message, ai, apply_writes}
use nextbos_ai.Agent.World.{World, ModelRuntime, text_of}
use nextbos_ai.Agent.Nodes.Route.{
  route_after_intent, route_after_sql_plan, route_after_sql_execute, SqlPlanRouteTarget,
  to_sql_validate, SqlExecuteRouteTarget, to_final_respond, to_chart_plan,
}
use nextbos_ai.Agent.Nodes.Summarize as SummarizeNode
use nextbos_ai.Agent.Nodes.Intent as IntentNode
use nextbos_ai.Agent.Nodes.WrenContext as WrenContextNode
use nextbos_ai.Agent.Nodes.SqlPlan as SqlPlanNode
use nextbos_ai.Agent.Nodes.SqlValidate as SqlValidateNode
use nextbos_ai.Agent.Nodes.SqlExecute as SqlExecuteNode
use nextbos_ai.Agent.Nodes.ChartPlan as ChartPlanNode
use nextbos_ai.Agent.Nodes.ChartSpec as ChartSpecNode
use nextbos_ai.Agent.Nodes.Clarify as ClarifyNode
use nextbos_ai.Agent.Nodes.Respond as RespondNode
use nextbos_ai.Agent.Nodes.Tools as ToolsNode

pub data NodeName : Type 0 where
  summarize intent wren_context sql_plan sql_validate sql_execute : NodeName
  chart_plan chart_spec clarify respond tools final_respond : NodeName

-- The next node, or `END`.
pub data Target : Type 0 where
  node : NodeName → Target
  stop : Target

pub record WrenClient : Type 0 where
  pub query_context : WrenContextNode.ContextQuery
  pub validate_sql : SqlValidateNode.Validator

-- The arguments of `build_graph`, and what the graph takes from LangGraph, LangMem and pydantic.
pub record Dependencies : Type 0 where
  pub world : World
  pub decisions : Schema IntentDecision dump_decision is_valid_decision
  pub requests : Schema WrenContextRequest dump_request WrenContextNode.always
  pub plans : Schema SqlGenerationPlan dump_plan is_valid_plan
  pub validations : Schema SqlValidationResult dump_validation is_valid_validation
  pub chart_plans : Schema ChartPlan dump_chart_plan is_valid_chart_plan
  pub model_runtime : Option ModelRuntime
  pub summarization : Option SummarizeNode.SummarizationNode
  pub summary_options : Option SummarizeNode.SummaryOptions
  pub wren_context_client : Option WrenClient
  pub sql_execution_client : Option SqlExecuteNode.Executor
  pub query_id : String
  pub tool_node : AgentState → Outcome (List Write)
  pub tools_condition : AgentState → Bool
  pub add_messages : List Message → List Message → List Message

-- What a node returns, and the SQL that it hands to the execution client.
pub record NodeRun : Type 0 where
  pub executed : List String
  pub result : Outcome (List Write)

abbrev pub quiet : Outcome (List Write) → NodeRun
quiet r = record { executed = []; result = r }

-- A node that `build_graph` does not add when there is no model runtime.
abbrev pub absent : NodeRun
absent = quiet (raise (record { class = other_error; text = "no such node" }))

incoming : World → Option Message → String
incoming w none = ""
incoming w (some m) = text_of w m.content

unfoldable pub fallback_respond : World → AgentState → Outcome (List Write)
unfolding incoming
fallback_respond w s =
    ok (messages (message ai ("已收到：" <> incoming w (last? s.messages)) ∷ []) ∷ [])

abbrev pub query_of : Option WrenClient → Option WrenContextNode.ContextQuery
query_of none = none
query_of (some c) = some c.query_context

abbrev pub validator_of : Option WrenClient → Option SqlValidateNode.Validator
validator_of none = none
validator_of (some c) = some c.validate_sql

unfoldable pub execution_writes : Outcome SqlExecutionResult → Outcome (List Write)
execution_writes (ok r) = ok (SqlExecuteNode.execution_writes r)
execution_writes (raise e) = raise e

-- `create_sql_execute_node(...)`, with its default limit of 100 rows.
unfoldable pub sql_execute_run : Dependencies → AgentState → NodeRun
unfolding execution_writes
sql_execute_run d s =
    let r = SqlExecuteNode.sql_execute d.validations d.sql_execution_client 100 d.query_id s in
    record { executed = r.executed; result = execution_writes r.result }

module _ (d : Dependencies) where
  unfoldable pub runtime_node : Option ModelRuntime → NodeName → AgentState → NodeRun
  unfolding sql_execute_run fallback_respond
  runtime_node runtime summarize s =
      quiet (SummarizeNode.summarize d.summarization d.summary_options s)
  runtime_node runtime tools s = quiet (ToolsNode.tools d.world d.tool_node s).result
  runtime_node none respond s = quiet (fallback_respond d.world s)
  runtime_node none final_respond s = quiet (fallback_respond d.world s)
  runtime_node (some r) respond s =
      quiet (RespondNode.respond d.world RespondNode.first_respond r s)
  runtime_node (some r) final_respond s =
      quiet (RespondNode.respond d.world RespondNode.last_respond r s)
  runtime_node (some r) intent s = quiet (IntentNode.intent d.world d.decisions r s)
  runtime_node (some r) wren_context s =
      quiet (WrenContextNode.wren_context d.world d.requests (query_of d.wren_context_client) s)
  runtime_node (some r) sql_plan s = quiet (SqlPlanNode.sql_plan d.world d.plans r s)
  runtime_node (some r) sql_validate s =
      quiet (SqlValidateNode.sql_validate d.plans (validator_of d.wren_context_client) s)
  runtime_node (some r) sql_execute s = sql_execute_run d s
  runtime_node (some r) chart_plan s =
      quiet (ChartPlanNode.chart_plan d.world d.chart_plans (some r) s)
  runtime_node (some r) chart_spec s = quiet (ChartSpecNode.chart_spec d.world d.chart_plans s)
  runtime_node (some r) clarify s = quiet (ClarifyNode.clarify s)
  runtime_node none _ s = absent

  -- The node of a name.
  unfoldable pub run_node : NodeName → AgentState → NodeRun
  unfolding runtime_node
  run_node n s = runtime_node d.model_runtime n s

  after_intent : RouteTarget → NodeName
  after_intent to_direct_answer = respond
  after_intent to_wren_context = wren_context
  after_intent RouteTarget.to_clarify = clarify

  after_sql_plan : SqlPlanRouteTarget → NodeName
  after_sql_plan to_sql_validate = sql_validate
  after_sql_plan SqlPlanRouteTarget.to_clarify = clarify

  after_sql_execute : SqlExecuteRouteTarget → NodeName
  after_sql_execute to_final_respond = final_respond
  after_sql_execute to_chart_plan = chart_plan

  after_summarize : Option ModelRuntime → NodeName
  after_summarize none = respond
  after_summarize (some r) = intent

  -- The edges.
  unfoldable pub next_node : NodeName → AgentState → Target
  unfolding after_intent after_sql_plan after_sql_execute after_summarize
  next_node summarize s = node (after_summarize d.model_runtime)
  next_node intent s = node (after_intent (route_after_intent s))
  next_node wren_context s = node sql_plan
  next_node sql_plan s = node (after_sql_plan (route_after_sql_plan s))
  next_node sql_validate s = node sql_execute
  next_node sql_execute s = node (after_sql_execute (route_after_sql_execute s))
  next_node chart_plan s = node chart_spec
  next_node chart_spec s = node final_respond
  next_node clarify s = stop
  next_node respond s = if d.tools_condition s then node tools else stop
  next_node tools s = node final_respond
  next_node final_respond s = stop

-- A run: the nodes in the order of their visits, the SQL handed to the execution client, and the
-- final state or the exception that ended the run; `none` where the fuel ran out.
pub record GraphRun : Type 0 where
  pub visited : List NodeName
  pub executed : List String
  pub result : Option (Outcome AgentState)

continue : (NodeName → AgentState → GraphRun) → Target → AgentState → GraphRun
continue rest stop s = record { visited = []; executed = []; result = some (ok s) }
continue rest (node n) s = rest n s

module _ (d : Dependencies) where
  merge :
      (NodeName → AgentState → GraphRun) → NodeName → AgentState → Outcome (List Write) → GraphRun
  unfolding continue
  merge rest n s (raise e) = record { visited = []; executed = []; result = some (raise e) }
  merge rest n s (ok ws) =
      let s' = apply_writes d.add_messages s ws in continue rest (next_node d n s') s'

  unfoldable pub run : ℕ → NodeName → AgentState → GraphRun
  unfolding merge
  run zero n s = record { visited = []; executed = []; result = none }
  run (suc fuel) n s =
      let r = run_node d n s in
      let later = merge (run fuel) n s r.result in
      record {
        visited = n ∷ later.visited;
        executed = r.executed ++ later.executed;
        result = later.result;
      }

  -- `runnable.ainvoke(state)`: the run from `START`. Ten rounds of fuel are enough.
  unfoldable pub invoke : AgentState → GraphRun
  unfolding run
  invoke s = run 10 summarize s
