-- ===== src/Agent/Nodes/Route/Decisions.antt =====
-- What the routers read is what the nodes have written.
use nextbos_ai.Prelude.{String, true, Option, List, ◌≡◌, refl, if◌then◌else◌}
use nextbos_ai.Value.{is_str, str}
use nextbos_ai.Schemas.Intent.{
  IntentDecision, dump_decision, RouteTarget, to_direct_answer, to_wren_context, route_target_text,
  OutputType, chart, output_type_text,
}
use nextbos_ai.Schemas.SqlPlan.{
  SqlPlanStatus, ready_for_dry_run, needs_clarification, cannot_plan, SqlGenerationPlan,
  is_valid_plan, dump_plan,
}
use nextbos_ai.Agent.State.{AgentState, Message, apply_writes}
use nextbos_ai.Agent.Nodes.Intent.{intent_writes}
use nextbos_ai.Agent.Nodes.SqlValidate.Choice.{is_valid_plan-ready}
use nextbos_ai.Agent.Nodes.Route.{
  route_after_intent, route_intent_decision, route_after_sql_plan, route_after_sql_execute,
  SqlPlanRouteTarget, to_sql_validate, SqlExecuteRouteTarget, to_chart_plan, to_final_respond,
}

route_of_text :
    (s : AgentState) (t : RouteTarget)
    → route_after_intent (record s { route_target = str (route_target_text t) }) ≡ t
unfolding route_after_intent
route_of_text s to_direct_answer = refl
route_of_text s to_wren_context = refl
route_of_text s RouteTarget.to_clarify = refl

abbrev pub chart_route : OutputType → SqlExecuteRouteTarget
chart_route chart = to_chart_plan
chart_route _ = to_final_respond

chart_of_text :
    (o : OutputType)
    → (if is_str "chart" (str (output_type_text o)) then to_chart_plan else to_final_respond)
      ≡ chart_route o
chart_of_text chart = refl
chart_of_text _ = refl

-- The update that `intent` writes for a decision sends the graph where `route_intent_decision` says,
-- and, after the execution, to the chart nodes exactly for a decision with the output type `chart`.
pub route-intent_writes :
    (add_messages : List Message → List Message → List Message) (s : AgentState)
    (d : IntentDecision) (snapshot_id : Option String)
    → (route_after_intent (apply_writes add_messages s (intent_writes d snapshot_id))
        ≡ route_intent_decision d)
      × (route_after_sql_execute (apply_writes add_messages s (intent_writes d snapshot_id))
          ≡ chart_route d.output_type)
unfolding apply_writes intent_writes route_after_sql_execute
route-intent_writes add_messages s d snapshot_id = (
  route_of_text (record s { intent_decision = dump_decision d; llm_snapshot_id = snapshot_id })
      (route_intent_decision d),
  chart_of_text d.output_type,
)

abbrev pub plan_route : SqlPlanStatus → SqlPlanRouteTarget
plan_route ready_for_dry_run = to_sql_validate
plan_route needs_clarification = SqlPlanRouteTarget.to_clarify
plan_route cannot_plan = SqlPlanRouteTarget.to_clarify

plan_route_at :
    (t : SqlPlanStatus) (p : SqlGenerationPlan) (s : AgentState)
    → p.status ≡ t
    → is_valid_plan p ≡ true
    → route_after_sql_plan (record s { sql_generation_plan = dump_plan p }) ≡ plan_route t
unfolding route_after_sql_plan is_valid_plan
plan_route_at ready_for_dry_run p s e h = let (d, cs, q) = is_valid_plan-ready p h e in rw (e, q)
plan_route_at needs_clarification p s e h = rw e
plan_route_at cannot_plan p s e h = rw e

-- A valid plan that is written to the state is checked exactly when it is ready; any other one goes
-- to the clarification.
pub route_after_sql_plan-dump_plan :
    (p : SqlGenerationPlan) (s : AgentState)
    → is_valid_plan p ≡ true
    → route_after_sql_plan (record s { sql_generation_plan = dump_plan p }) ≡ plan_route p.status
route_after_sql_plan-dump_plan p s h = plan_route_at p.status p s refl h
