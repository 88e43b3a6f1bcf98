-- ===== src/Agent/Nodes/Route.antt =====
-- agent/nodes/route.py, and `route_intent_decision` of agent/nodes/intent.py
pub mod Decisions
use nextbos_ai.Prelude.{Bool, ◌&&◌, ◌||◌, not, is_empty, if◌then◌else◌, false, true}
use nextbos_ai.Value.{obj, end, get, is_str, truthy, dict_or_empty, or_else}
use nextbos_ai.Schemas.Intent.{
  IntentType, clarification, IntentDecision, RouteTarget, to_direct_answer, to_wren_context,
}
use nextbos_ai.Agent.State.{AgentState}

pub data SqlPlanRouteTarget : Type 0 where
  to_sql_validate to_clarify : SqlPlanRouteTarget

pub data SqlExecuteRouteTarget : Type 0 where
  to_final_respond to_chart_plan : SqlExecuteRouteTarget

unfoldable pub route_after_intent : AgentState → RouteTarget
route_after_intent s =
    if is_str "direct_answer" s.route_target
    then to_direct_answer
    else if is_str "wren_context" s.route_target
    then to_wren_context
    else if is_str "clarify" s.route_target
    then RouteTarget.to_clarify
    else to_direct_answer

-- `plan.get` is called on a dictionary: the snapshot is one, or is missing.
unfoldable pub route_after_sql_plan : AgentState → SqlPlanRouteTarget
route_after_sql_plan s =
    let plan = dict_or_empty (or_else s.sql_generation_plan (obj end)) in
    if is_str "ready_for_dry_run" (get "status" plan) && truthy (get "candidates" plan)
    then to_sql_validate
    else SqlPlanRouteTarget.to_clarify

unfoldable pub route_after_sql_execute : AgentState → SqlExecuteRouteTarget
route_after_sql_execute s =
    let decision = dict_or_empty (or_else s.intent_decision (obj end)) in
    if is_str "chart" (get "output_type" decision) then to_chart_plan else to_final_respond

abbrev pub is_clarification : IntentType → Bool
is_clarification clarification = true
is_clarification _ = false

unfoldable pub route_intent_decision : IntentDecision → RouteTarget
route_intent_decision d =
    if is_clarification d.intent_type || not (is_empty d.missing_slots)
    then RouteTarget.to_clarify
    else if d.needs_business_data
    then to_wren_context
    else to_direct_answer
