-- ===== src/Services/Steps.antt =====
-- services/agent_service.py: the `agent_step` that the frontend is shown for the update of a node.
use Prim.Native.String as Text
use nextbos_ai.Prelude.{
  ℕ, String, Bool, List, [], ◌∷◌, ◌==◌, map, length, Outcome, ok, raise, ◌>>=◌, type_error,
  if◌then◌else◌,
}
use nextbos_ai.Value.{
  Value, null, bool, int, str, arr, nil, obj, Fields, end, field, items, keys, get, get_or, truthy,
  or_else, dict_or_empty, is_null, list_value,
}
use nextbos_ai.Agent.World.{World, text_of}

-- The characters of a text, which a loop over it gives.
abbrev characters : String → List Value
characters Text.[] = []
characters (Text.◌∷◌ c s) = str (Text.◌∷◌ c "") ∷ characters s

-- `list(v)`: the elements, the characters or the keys of a value.
unfoldable pub elements : Value → Outcome (List Value)
elements (arr vs) = ok (items vs)
elements (str s) = ok (characters s)
elements (obj fs) = ok (map str (keys fs))
elements _ = raise (record { class = type_error; text = "object is not iterable" })

-- `len(v)`.
unfoldable pub len : Value → Outcome ℕ
unfolding elements
len v = do vs ← elements v; ok (length vs)

-- `len(d.get(key) or [])`.
unfoldable pub count_of : String → Fields → Outcome Value
unfolding len
count_of key d = do n ← len (or_else (get key d) (arr nil)); ok (int n)

-- `_drop_none_values`.
unfoldable pub drop_none_values : Fields → Fields
drop_none_values end = end
drop_none_values (field k v fs) =
    let rest = drop_none_values fs in if is_null v then rest else field k v rest

-- `_agent_step`.
unfoldable pub agent_step : String → String → String → Fields → Fields
unfolding drop_none_values
agent_step node status message payload = field "type" (str "agent_step") (
    field "node" (str node) (
      field "status" (str status)
        (field "message" (str message) (field "payload" (obj (drop_none_values payload)) end))))

-- `_dict_value`.
unfoldable pub dict_value : Fields → String → Fields
dict_value payload key = dict_or_empty (get key payload)

-- `_status_message`, for a dictionary of three messages.
unfoldable pub status_message :
    String → String × String → String × String → String × String → String → String
status_message status a b c fallback =
    if a.0 == status
    then a.1
    else if b.0 == status
    then b.1
    else if c.0 == status
    then c.1
    else fallback

-- `_compact_issue`.
unfoldable pub compact_issue : World → Value → Value
unfolding drop_none_values
compact_issue w (obj issue) = obj (
    drop_none_values (
      field "issue_type" (get "issue_type" issue) (
        field "severity" (get "severity" issue) (
          field "message" (get "message" issue)
            (field "suggested_fix" (get "suggested_fix" issue) end)))))
compact_issue w issue = obj (field "message" (str (text_of w issue)) end)

-- `_encoding_field`.
unfoldable pub encoding_field : World → Value → Value
encoding_field w (obj encoding) =
    if truthy (get "field" encoding) then str (text_of w (get "field" encoding)) else null
encoding_field w _ = null

-- `str(d.get("status") or fallback)`.
abbrev pub status_of : World → Fields → String → String
status_of w d fallback = text_of w (or_else (get "status" d) (str fallback))

-- The branches of `_agent_step_from_update`, one per node.
unfoldable pub wren_context_step : World → Fields → Outcome Fields
unfolding dict_value count_of agent_step
wren_context_step w update = do
  let context = dict_value update "wren_context"
  let raw = dict_or_empty (get "raw" context)
  models ← count_of "models" context
  metrics ← count_of "metrics" context
  joins ← count_of "joins" context
  rules ← count_of "business_rules" context
  examples ← count_of "sql_examples" context
  ok (
      agent_step "wren_context" (if truthy (get "error" raw) then "failed" else "completed")
        (if truthy (get "error" raw) then "Wren 业务上下文获取失败" else "Wren 业务上下文已获取")
        (field "model_count" models (
          field "metric_count" metrics (
            field "join_count" joins (
              field "rule_count" rules
                (field "sql_example_count" examples (field "error" (get "error" raw) end)))))))

unfoldable pub sql_plan_step : World → Fields → Outcome Fields
unfolding dict_value count_of agent_step status_message
sql_plan_step w update = do
  let plan = dict_value update "sql_generation_plan"
  let status = status_of w plan "completed"
  candidates ← count_of "candidates" plan
  ok (
      agent_step "sql_plan" status
        (status_message status ("ready_for_dry_run", "SQL 计划已生成")
          ("needs_clarification", "SQL 计划需要补充信息") ("cannot_plan", "SQL 计划无法生成") "SQL 计划节点已完成")
        (field "query_intent" (get "query_intent" plan) (
          field "candidate_count" candidates (
            field "preferred_candidate_name" (get "preferred_candidate_name" plan) (
              field "clarification_question" (get "clarification_question" plan)
                (field "confidence" (get "confidence" plan) end))))))

unfoldable pub sql_validate_step : World → Fields → Outcome Fields
unfolding dict_value agent_step status_message elements compact_issue
sql_validate_step w update = do
  let result = dict_value update "sql_validation_result"
  let status = status_of w result "completed"
  issues ← elements (or_else (get "issues" result) (arr nil))
  ok (
      agent_step "sql_validate" status
        (status_message status ("passed", "SQL 校验通过") ("needs_repair", "SQL 校验需要修复")
          ("failed", "SQL 校验失败") "SQL 校验节点已完成")
        (field "candidate_name" (get "candidate_name" result) (
          field "issue_count" (int (length issues))
            (field "issues" (list_value (map (compact_issue w) issues)) end))))

unfoldable pub sql_execute_step : World → Fields → Outcome Fields
unfolding dict_value count_of agent_step status_message
sql_execute_step w update = do
  let result = dict_value update "sql_execution_result"
  let status = status_of w result "completed"
  columns ← count_of "columns" result
  ok (
      agent_step "sql_execute" status
        (status_message status ("succeeded", "SQL 执行成功") ("failed", "SQL 执行失败")
          ("skipped", "SQL 执行已跳过") "SQL 执行节点已完成")
        (field "query_id" (get "query_id" result) (
          field "row_count" (get_or "row_count" (int 0) result) (
            field "column_count" columns (
              field "truncated" (get_or "truncated" (bool Bool.false) result)
                (field "error" (get "message" (dict_or_empty (get "error" result))) end))))))

unfoldable pub chart_plan_step : World → Fields → Fields
unfolding dict_value agent_step encoding_field
chart_plan_step w update =
    let result = dict_value update "chart_plan_result" in
    let status = status_of w result "planned" in
    agent_step "chart_plan" status (if status == "planned" then "图表规划已生成" else "图表规划未生成") (
      field "chart_type" (get "chart_type" result) (
        field "title" (get "title" result) (
          field "x_field" (encoding_field w (get "x" result)) (
            field "y_field" (encoding_field w (get "y" result))
              (field "message" (get "message" result) end)))))

unfoldable pub chart_spec_step : World → Fields → Fields
unfolding dict_value agent_step
chart_spec_step w update =
    let result = dict_value update "chart_spec_result" in
    let status = status_of w result "completed" in
    let chart = dict_or_empty (get "chart" result) in
    agent_step "chart_spec" status
      (if status == "succeeded" then "ECharts 配置已生成" else "ECharts 配置未生成")
      (field "chart_type" (get "chart_type" chart) (
        field "title" (get "title" chart) (
          field "row_count" (get_or "row_count" (int 0) chart)
            (field "message" (get "message" result) end))))

unfoldable pub one_step : Outcome Fields → Outcome (List Fields)
one_step step = do fs ← step; ok (fs ∷ [])

-- `_agent_step_from_update`, of an update that is a dictionary: at most one step.
unfoldable pub agent_step_from_update : World → String → Fields → Outcome (List Fields)
unfolding wren_context_step sql_plan_step sql_validate_step sql_execute_step chart_plan_step
    chart_spec_step one_step
agent_step_from_update w node update =
    if node == "wren_context"
    then one_step (wren_context_step w update)
    else if node == "sql_plan"
    then one_step (sql_plan_step w update)
    else if node == "sql_validate"
    then one_step (sql_validate_step w update)
    else if node == "sql_execute"
    then one_step (sql_execute_step w update)
    else if node == "chart_plan"
    then ok (chart_plan_step w update ∷ [])
    else if node == "chart_spec"
    then ok (chart_spec_step w update ∷ [])
    else ok []
