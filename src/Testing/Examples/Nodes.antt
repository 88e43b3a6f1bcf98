-- ===== src/Testing/Examples/Nodes.antt =====
-- Examples for the routers, the prompts and the charts.
use nextbos_ai.Prelude.{none, some, ◌++◌, ◌≡◌, refl, true, ok}
use nextbos_ai.Value.{arr, nil, Fields, get, is_str, truthy, or_else, dict_or_empty}
use nextbos_ai.Schemas.SqlPlan.{is_valid_plan, dump_plan}
use nextbos_ai.Schemas.SqlExecution.{dump_execution}
use nextbos_ai.Schemas.Chart.{
  ChartSpecResult, succeeded, dump_chart_plan, is_valid_chart_plan, new_chart_spec,
  new_chart_spec_result,
}
use nextbos_ai.Agent.State.{apply_writes}
use nextbos_ai.Agent.Nodes.Intent.{intent_writes}
use nextbos_ai.Agent.Nodes.Route.{
  route_after_intent, route_intent_decision, route_after_sql_execute, route_after_sql_plan,
}
use nextbos_ai.Agent.Nodes.Route.Decisions.{
  chart_route, plan_route, route-intent_writes, route_after_sql_plan-dump_plan,
}
use nextbos_ai.Agent.Nodes.Respond as Answer
use nextbos_ai.Agent.Nodes.ChartPlan as Chart
use nextbos_ai.Agent.Nodes.Respond.Compaction.{IsCompact, compact_sql_execution_result-IsCompact}
use nextbos_ai.Agent.Nodes.ChartSpec.{build_chart_spec_result, chart}
use nextbos_ai.Agent.Nodes.ChartSpec.Drawn.{IsDrawn, build_chart_spec_result-IsDrawn}
use nextbos_ai.Testing.Readers.Plans.{chart_plans}
use nextbos_ai.Testing.Fixtures.{world, decision, start, plan, bar_plan, two_rows, x_axis, y_axis}

route-intent_writes_example :
    (route_after_intent (apply_writes (λ xs ys. xs ++ ys) start (intent_writes decision (some "s")))
      ≡ route_intent_decision decision)
    × (route_after_sql_execute
          (apply_writes (λ xs ys. xs ++ ys) start (intent_writes decision (some "s")))
        ≡ chart_route decision.output_type)
route-intent_writes_example = route-intent_writes (λ xs ys. xs ++ ys) start decision (some "s")

plan_valid : is_valid_plan plan ≡ true
unfolding is_valid_plan
plan_valid = refl

route_after_sql_plan-dump_plan_example :
    route_after_sql_plan (record start { sql_generation_plan = dump_plan plan })
    ≡ plan_route plan.status
route_after_sql_plan-dump_plan_example = route_after_sql_plan-dump_plan plan start plan_valid

abbrev executed : Fields
executed = dict_or_empty (dump_execution two_rows)

compact_sql_execution_result-IsCompact_example :
    IsCompact 20 executed (dict_or_empty (Answer.compact_sql_execution_result executed))
    × IsCompact 20 executed (dict_or_empty (Chart.compact_sql_execution_result executed))
compact_sql_execution_result-IsCompact_example = compact_sql_execution_result-IsCompact executed

abbrev drawn_chart : ChartSpecResult
drawn_chart = record {
  status = succeeded;
  chart = some (chart world bar_plan x_axis y_axis two_rows.rows);
  message = none;
}

drawn_so :
    build_chart_spec_result world chart_plans (dump_chart_plan bar_plan) executed ≡ ok drawn_chart
unfolding build_chart_spec_result is_valid_chart_plan chart new_chart_spec new_chart_spec_result
    nextbos_ai.Agent.Nodes.ChartSpec.FieldSets.missing_from
    nextbos_ai.Agent.Nodes.ChartSpec.FieldSets.sorted_set
drawn_so = refl

build_chart_spec_result-IsDrawn_example :
    (is_str "succeeded" (get "status" executed) ≡ true)
    × (truthy (get "rows" executed) ≡ true)
    × IsDrawn world
        (chart_plans.model_validate (dump_chart_plan bar_plan))
        (get "rows" executed)
        (or_else (get "columns" executed) (arr nil))
        drawn_chart
build_chart_spec_result-IsDrawn_example =
    build_chart_spec_result-IsDrawn world chart_plans (dump_chart_plan bar_plan) executed
      drawn_chart drawn_so refl
