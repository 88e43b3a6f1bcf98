-- ===== src/Agent/Nodes/ChartPlan.antt =====
-- agent/nodes/chart_plan.py
use nextbos_ai.Prelude.{
  ℕ, String, Bool, Option, none, some, List, [], ◌∷◌, ◌++◌, ◌<>◌, ltb, length, take, Outcome, ok,
  raise, Exception, ExceptionClass, validation_error, ◌>>=◌,
}
use nextbos_ai.Value.{
  Value, bool, int, str, arr, obj, Fields, end, field, nil, get, get_or, or_else, list_of,
  list_value,
}
use nextbos_ai.Schemas.Model.{Schema, validated}
use nextbos_ai.Schemas.Chart.{ChartPlan, dump_chart_plan, is_valid_chart_plan}
use nextbos_ai.Agent.State.{
  AgentState, Message, Write, chart_plan_result, llm_snapshot_id, messages, message, ai, system,
}
use nextbos_ai.Agent.World.{World, ModelRuntime, ChatModel}
use nextbos_ai.Agent.Nodes.Inputs.{model_input, snapshot}

abbrev pub max_chart_plan_sample_rows : ℕ
max_chart_plan_sample_rows = 20

abbrev placeholder : String
placeholder = "已识别为图表请求，下一步生成 ChartPlan。"

-- `_compact_sql_execution_result`: rows that are no list count as none.
unfoldable pub compact_sql_execution_result : Fields → Value
compact_sql_execution_result r =
    let rows = list_of (get "rows" r) in
    obj (
      field "status" (get "status" r) (
        field "columns" (or_else (get "columns" r) (arr nil)) (
          field "rows" (list_value (take max_chart_plan_sample_rows rows)) (
            field "row_count" (get_or "row_count" (int (length rows)) r) (
              field "truncated"
                (or_else (get_or "truncated" (bool Bool.false) r)
                  (bool (ltb max_chart_plan_sample_rows (length rows))))
                end)))))

module _ (w : World) where
  unfoldable pub chart_plan_messages : AgentState → List Message → List Message
  unfolding compact_sql_execution_result
  chart_plan_messages s ms =
      let payload = obj (
        field "intent_decision" (or_else s.intent_decision (obj end)) (
          field "sql_execution_result"
            (compact_sql_execution_result (snapshot s.sql_execution_result)) end)) in
      message system w.chart_plan_prompt
      ∷ (ms ++ message system ("当前需要生成 ChartPlan 的结构化输入是：\n" <> w.json_dumps payload) ∷ [])

abbrev status_message : String → String → Value
status_message status text = obj (field "status" (str status) (field "message" (str text) end))

-- `except ValidationError`: any other exception leaves the node.
unfoldable pub on_invalid : Option String → ExceptionClass → Exception → Outcome (List Write)
on_invalid snapshot_id validation_error e = ok (
    chart_plan_result (status_message "failed" "ChartPlan 结构化输出校验失败。")
    ∷ llm_snapshot_id snapshot_id
    ∷ [])
on_invalid snapshot_id _ e = raise e

unfoldable pub planned : Option String → Outcome ChartPlan → Outcome (List Write)
unfolding on_invalid
planned snapshot_id (ok plan) =
    ok (chart_plan_result (dump_chart_plan plan) ∷ llm_snapshot_id snapshot_id ∷ [])
planned snapshot_id (raise e) = on_invalid snapshot_id e.class e

module _ (w : World) (plans : Schema ChartPlan dump_chart_plan is_valid_chart_plan) where
  ask_plan : ChatModel → List Message → Outcome ChartPlan
  ask_plan chat_model prompt = do
    answer ← chat_model.structured "ChartPlan" prompt
    validated (plans.model_validate answer)

  -- The node.
  unfoldable pub chart_plan : Option ModelRuntime → AgentState → Outcome (List Write)
  unfolding chart_plan_messages ask_plan planned
  chart_plan none s = ok (
      chart_plan_result (status_message "pending" placeholder)
      ∷ messages (message ai placeholder ∷ [])
      ∷ [])
  chart_plan (some runtime) s = do
    config ← runtime.resolve_config s.model_options
    chat_model ← runtime.create_chat_model config
    planned config.snapshot_id (ask_plan chat_model (chart_plan_messages w s (model_input s)))
