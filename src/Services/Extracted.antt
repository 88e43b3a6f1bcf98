-- ===== src/Services/Extracted.antt =====
-- The steps of the graph's own nodes are extracted without an exception.
use nextbos_ai.Prelude.{
  String, Option, none, some, List, [], ◌∷◌, ◌≡◌, refl, inl, inr, sym, Outcome, ok, raise,
  Exception, ◌>>=◌, ok_injective, IsIn,
}
use mathlib.Core.Path.{subst}
use nextbos_ai.Value.{Value, end, get, dict_or_empty}
use nextbos_ai.Schemas.SqlExecution.{SqlExecutionResult}
use nextbos_ai.Schemas.SqlPlan.{SqlGenerationPlan, dump_plan}
use nextbos_ai.Schemas.SqlValidation.{SqlValidationResult}
use nextbos_ai.Integrations.WrenTypes.{WrenContextResult, dump_context}
use nextbos_ai.Agent.State.{AgentState, Message, Write}
use nextbos_ai.Agent.World.{World, ModelRuntime}
use nextbos_ai.Agent.Nodes.WrenContext as WrenContextNode
use nextbos_ai.Agent.Nodes.SqlPlan as SqlPlanNode
use nextbos_ai.Agent.Nodes.SqlValidate as SqlValidateNode
use nextbos_ai.Agent.Nodes.SqlExecute as SqlExecuteNode
use nextbos_ai.Agent.Graph.{
  Dependencies, NodeName, summarize, intent, wren_context, sql_plan, sql_validate, sql_execute,
  chart_plan, chart_spec, clarify, respond, tools, final_respond, execution_writes, sql_execute_run,
  runtime_node, run_node, query_of, validator_of,
}
use nextbos_ai.Services.Steps.{dict_value, agent_step_from_update}
use nextbos_ai.Services.StreamEvents.{update_event, updates_of, body_of_writes}
use nextbos_ai.Services.StepEvents.{extract_agent_step_events, step_events_of, step_of_update}
use nextbos_ai.Services.AgentService.Stored.{IsRunEvent}
use nextbos_ai.Services.Returned.{
  Returns, Returns-ok, Returns-bind, raise-ok, IsListed, context_lists, sql_execute_step-Returns,
  sql_plan_step-Returns, sql_validate_step-Returns, wren_context_step-Returns, one_step-Returns,
}

-- The name of a node in the events of LangGraph.
abbrev pub name_text : NodeName → String
name_text summarize = "summarize"
name_text intent = "intent"
name_text wren_context = "wren_context"
name_text sql_plan = "sql_plan"
name_text sql_validate = "sql_validate"
name_text sql_execute = "sql_execute"
name_text chart_plan = "chart_plan"
name_text chart_spec = "chart_spec"
name_text clarify = "clarify"
name_text respond = "respond"
name_text tools = "tools"
name_text final_respond = "final_respond"

module _ (w : World) where
  abbrev HasStep : String → List Write → Type 0
  HasStep name ws = Returns (agent_step_from_update w name (body_of_writes ws))

  -- A step is extracted of every update that the node of that name may return.
  record Shows (name : String) (o : Outcome (List Write)) : Type 0 where
    pub shown : (ws : List Write) → o ≡ ok ws → HasStep name ws

  Shows-ok : (name : String) (ws : List Write) → HasStep name ws → Shows name (ok ws)
  Shows-ok name ws h = record { shown = λ vs e. subst (HasStep name) (ok_injective e) h }

  Shows-raise : (name : String) (e : Exception) → Shows name (raise e)
  Shows-raise name e = record { shown = λ ws h. absurd (raise-ok h) }

  Shows-bind :
      {A : Type 0} (name : String) (m : Outcome A) (rest : A → Outcome (List Write))
      → ((a : A) → Shows name (rest a))
      → Shows name (m >>= rest)
  Shows-bind name (ok a) rest k = k a
  Shows-bind name (raise e) rest k = Shows-raise name e

  execution-Shows : (o : Outcome SqlExecutionResult) → Shows "sql_execute" (execution_writes o)
  unfolding execution_writes agent_step_from_update dict_value SqlExecuteNode.execution_writes
  execution-Shows (raise e) = Shows-raise "sql_execute" e
  execution-Shows (ok r) =
      let ws = SqlExecuteNode.execution_writes r in
      Shows-ok "sql_execute" ws
        (one_step-Returns w end _ (sql_execute_step-Returns w (body_of_writes ws) (inr (_, refl))))

  plan-Shows :
      (p : SqlGenerationPlan) (i : Option String)
      → Shows "sql_plan"
          (ok (Write.sql_generation_plan (dump_plan p) ∷ Write.llm_snapshot_id i ∷ []))
  unfolding agent_step_from_update dict_value
  plan-Shows p i =
      let ws = Write.sql_generation_plan (dump_plan p) ∷ Write.llm_snapshot_id i ∷ [] in
      Shows-ok "sql_plan" ws
        (one_step-Returns w end _ (sql_plan_step-Returns w (body_of_writes ws) (inr (_, refl))))

  validation-Shows :
      (r : SqlValidationResult) → Shows "sql_validate" (ok (SqlValidateNode.validation_writes r))
  unfolding agent_step_from_update dict_value SqlValidateNode.validation_writes
  validation-Shows r =
      let ws = SqlValidateNode.validation_writes r in
      Shows-ok "sql_validate" ws
        (one_step-Returns w end _ (sql_validate_step-Returns w (body_of_writes ws) (inr (_, refl))))

  context_lists-IsListed :
      (c : WrenContextResult) (key : String)
      → IsIn key context_lists
      → IsListed (get key (dict_or_empty (dump_context c)))
  context_lists-IsListed c key (inl e) =
      subst (λ k. IsListed (get k (dict_or_empty (dump_context c)))) (sym e) (inr (_, refl))
  context_lists-IsListed c key (inr (inl e)) =
      subst (λ k. IsListed (get k (dict_or_empty (dump_context c)))) (sym e) (inr (_, refl))
  context_lists-IsListed c key (inr (inr (inl e))) =
      subst (λ k. IsListed (get k (dict_or_empty (dump_context c)))) (sym e) (inr (_, refl))
  context_lists-IsListed c key (inr (inr (inr (inl e)))) =
      subst (λ k. IsListed (get k (dict_or_empty (dump_context c)))) (sym e) (inr (_, refl))
  context_lists-IsListed c key (inr (inr (inr (inr (inl e))))) =
      subst (λ k. IsListed (get k (dict_or_empty (dump_context c)))) (sym e) (inl refl)
  context_lists-IsListed c key (inr (inr (inr (inr (inr i))))) = absurd i

  context-Shows :
      (v : Value) (c : WrenContextResult) (ms : List Message)
      → Shows "wren_context" (
          ok (
            Write.wren_context_request v
            ∷ Write.wren_context (dump_context c)
            ∷ Write.messages ms
            ∷ []))
  unfolding agent_step_from_update dict_value
  context-Shows v c ms =
      let ws =
        Write.wren_context_request v
        ∷ Write.wren_context (dump_context c)
        ∷ Write.messages ms
        ∷ [] in
      Shows-ok "wren_context" ws (
        one_step-Returns w end _
          (wren_context_step-Returns w (body_of_writes ws) (context_lists-IsListed c)))

  module _ (d : Dependencies) where
    sql_plan-Shows :
        (r : ModelRuntime) (s : AgentState)
        → Shows "sql_plan" (SqlPlanNode.sql_plan d.world d.plans r s)
    unfolding SqlPlanNode.sql_plan
    sql_plan-Shows r s = search (Shows-bind, plan-Shows)

    sql_validate-Shows :
        (v : Option SqlValidateNode.Validator) (s : AgentState)
        → Shows "sql_validate" (SqlValidateNode.sql_validate d.plans v s)
    unfolding SqlValidateNode.sql_validate
    sql_validate-Shows v s = search (Shows-bind, validation-Shows)

    wren_context-Shows :
        (q : Option WrenContextNode.ContextQuery) (s : AgentState)
        → Shows "wren_context" (WrenContextNode.wren_context d.world d.requests q s)
    unfolding WrenContextNode.wren_context
    wren_context-Shows q s = search (Shows-bind, context-Shows)

    -- No step is shown for the node, or one without a count.
    plain :
        (name : String) (o : Outcome (List Write))
        → ((ws : List Write) → HasStep name ws)
        → Shows name o
    plain name o h = record { shown = λ ws e. h ws }

    runtime_node-Shows :
        (rt : Option ModelRuntime) (n : NodeName) (s : AgentState)
        → Shows (name_text n) (runtime_node d rt n s).result
    unfolding runtime_node sql_execute_run agent_step_from_update
    runtime_node-Shows rt summarize s = plain "summarize" _ (λ ws. Returns-ok [])
    runtime_node-Shows rt tools s = plain "tools" _ (λ ws. Returns-ok [])
    runtime_node-Shows rt respond s = plain "respond" _ (λ ws. Returns-ok [])
    runtime_node-Shows rt final_respond s = plain "final_respond" _ (λ ws. Returns-ok [])
    runtime_node-Shows rt intent s = plain "intent" _ (λ ws. Returns-ok [])
    runtime_node-Shows rt clarify s = plain "clarify" _ (λ ws. Returns-ok [])
    runtime_node-Shows rt chart_plan s = plain "chart_plan" _ (λ ws. Returns-ok (_ ∷ []))
    runtime_node-Shows rt chart_spec s = plain "chart_spec" _ (λ ws. Returns-ok (_ ∷ []))
    runtime_node-Shows (some r) wren_context s =
        wren_context-Shows (query_of d.wren_context_client) s
    runtime_node-Shows (some r) sql_plan s = sql_plan-Shows r s
    runtime_node-Shows (some r) sql_validate s =
        sql_validate-Shows (validator_of d.wren_context_client) s
    runtime_node-Shows (some r) sql_execute s = execution-Shows _
    runtime_node-Shows none wren_context s = Shows-raise "wren_context" _
    runtime_node-Shows none sql_plan s = Shows-raise "sql_plan" _
    runtime_node-Shows none sql_validate s = Shows-raise "sql_validate" _
    runtime_node-Shows none sql_execute s = Shows-raise "sql_execute" _

    step_events-Returns :
        (name : String) (ws : List Write)
        → HasStep name ws
        → Returns (extract_agent_step_events w (update_event name ws).body)
    unfolding extract_agent_step_events step_events_of updates_of step_of_update
    step_events-Returns name ws h =
        Returns-bind (agent_step_from_update w name (body_of_writes ws)) _ h (λ steps. Returns-ok _)

    -- The event that LangGraph streams for the update of any node of the graph is one that a
    -- streamed chat takes without an exception, whatever the node wrote.
    pub run_node-IsRunEvent :
        (n : NodeName) (s : AgentState) (ws : List Write)
        → (run_node d n s).result ≡ ok ws
        → IsRunEvent w (update_event (name_text n) ws)
    unfolding run_node
    run_node-IsRunEvent n s ws h =
        let r =
          step_events-Returns (name_text n) ws
            ((runtime_node-Shows d.model_runtime n s).shown ws h) in
        inr (refl, r.value, r.returns)
