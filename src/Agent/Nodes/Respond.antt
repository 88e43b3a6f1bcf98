-- ===== src/Agent/Nodes/Respond.antt =====
-- agent/nodes/respond.py and agent/prompts/renderer.py
pub mod Compaction
use nextbos_ai.Prelude.{
  ℕ, Bool, true, false, List, [], ◌∷◌, ◌++◌, ◌<>◌, ltb, length, take, Outcome, ok, raise,
  type_error, ◌>>=◌, if◌then◌else◌,
}
use nextbos_ai.Value.{
  Value, bool, int, arr, obj, Fields, nil, end, field, get, get_or, or_else, truthy, list_of,
  list_value, str_list, dict_or_empty,
}
use nextbos_ai.Agent.State.{
  AgentState, Message, MessageKind, ai, system, message, Write, messages, llm_snapshot_id,
}
use nextbos_ai.Agent.World.{World, ModelRuntime}
use nextbos_ai.Agent.Nodes.Inputs.{model_input}

abbrev pub max_sql_context_rows : ℕ
max_sql_context_rows = 20

-- `_compact_sql_execution_result`: rows that are no list count as none.
unfoldable pub compact_sql_execution_result : Fields → Value
compact_sql_execution_result r =
    let rows = list_of (get "rows" r) in
    obj (
      field "status" (get "status" r) (
        field "query_id" (get "query_id" r) (
          field "columns" (or_else (get "columns" r) (arr nil)) (
            field "rows" (list_value (take max_sql_context_rows rows)) (
              field "row_count" (get_or "row_count" (int (length rows)) r) (
                field "truncated"
                  (or_else (get_or "truncated" (bool false) r)
                    (bool (ltb max_sql_context_rows (length rows))))
                  (field "error" (get "error" r) end)))))))

abbrev sql_answer_rules : Value
sql_answer_rules = str_list (
    "只能基于这里的真实 SQL 执行结果回答，不要编造未返回的数据。" ∷ "如果 rows 为空，要明确说明没有查到符合条件的数据。" ∷ "除非用户明确要求，不要主动展示 SQL 原文。"
    ∷ [])

abbrev chart_answer_rules : Value
chart_answer_rules = str_list (
    "如果 chart_spec_result.status 是 succeeded，要说明图表已经生成。" ∷ "图表渲染配置是后端基于真实 SQL 结果生成的 ECharts option。"
    ∷ "不要编造 chart_spec_result 中不存在的图表或数据。" ∷ [])

module _ (w : World) where
  unfoldable pub prepend_system_prompt : List Message → List Message
  prepend_system_prompt ms = message system w.system_prompt ∷ ms

  unfoldable pub append_sql_execution_context : List Message → AgentState → List Message
  unfolding compact_sql_execution_result
  append_sql_execution_context ms s =
      let context = obj (
        field "sql_execution_result"
          (compact_sql_execution_result (dict_or_empty s.sql_execution_result))
          (field "answer_rules" sql_answer_rules end)) in
      if truthy s.sql_execution_result
      then ms ++ message system ("SQL 执行结果上下文：\n" <> w.json_dumps context) ∷ []
      else ms

  unfoldable pub append_chart_spec_context : List Message → AgentState → List Message
  append_chart_spec_context ms s =
      let context = obj (
        field "chart_spec_result" s.chart_spec_result
          (field "answer_rules" chart_answer_rules end)) in
      if truthy s.chart_spec_result
      then ms ++ message system ("图表配置结果上下文：\n" <> w.json_dumps context) ∷ []
      else ms

  unfoldable pub append_runtime_context : List Message → AgentState → List Message
  unfolding append_sql_execution_context append_chart_spec_context
  append_runtime_context ms s = append_chart_spec_context (append_sql_execution_context ms s) s

-- The two ways in which `create_respond_node` is used.
pub record RespondOptions : Type 0 where
  pub tools_enabled : Bool
  pub prefer_summarized_messages : Bool

abbrev pub first_respond : RespondOptions
first_respond = record { tools_enabled = true; prefer_summarized_messages = true }

abbrev pub last_respond : RespondOptions
last_respond = record { tools_enabled = false; prefer_summarized_messages = false }

-- `isinstance(response, AIMessage)`, or a `TypeError`.
check_response : MessageKind → Message → Outcome Message
check_response ai m = ok m
check_response _ m =
    raise (record {
      class = type_error;
      text = "LangChain chat model returned a non-AIMessage response";
    })

module _ (w : World) where
  -- The messages that the model is given.
  unfoldable pub model_messages : RespondOptions → AgentState → List Message
  unfolding prepend_system_prompt append_runtime_context
  model_messages o s =
      append_runtime_context w
        (prepend_system_prompt w
          (if o.prefer_summarized_messages then model_input s else s.messages))
        s

  -- The node. The built-in tools are bound where tools are enabled.
  unfoldable pub respond : RespondOptions → ModelRuntime → AgentState → Outcome (List Write)
  unfolding model_messages check_response
  respond o runtime s = do
    config ← runtime.resolve_config s.model_options
    chat_model ← runtime.create_chat_model config
    answer ← chat_model.invoke o.tools_enabled (model_messages o s)
    response ← check_response answer.kind answer
    ok (messages (response ∷ []) ∷ llm_snapshot_id config.snapshot_id ∷ [])
