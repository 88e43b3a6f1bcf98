-- ===== src/Agent/Nodes/ChartSpec.antt =====
-- agent/nodes/chart_spec.py
pub mod FieldSets
pub mod Offered
pub mod Plotted
pub mod Read
pub mod Drawn
use nextbos_ai.Prelude.{
  ℕ, String, Bool, true, false, not, Option, none, some, List, [], ◌∷◌, ◌++◌, ◌==◌, ◌<>◌, map, keep,
  length, is_empty, text_or, traverse, Outcome, ok, raise, other_error, ◌>>=◌, if◌then◌else◌,
}
use nextbos_ai.Value.{
  Value, null, str, int, arr, obj, object, ObjectClass, decimal, date, Object, Fields, nil, end,
  field, get, is_str, truthy, or_else, keys, list_value,
}
use nextbos_ai.Schemas.Model.{Schema}
use nextbos_ai.Schemas.Chart.{
  ChartType, bar, line, pie, succeeded, skipped, ChartEncoding, ChartPlan, ChartSpec,
  ChartSpecResult, chart_type_text, new_chart_spec, new_chart_spec_result, dump_chart_plan,
  dump_chart_spec_result, is_valid_chart_plan,
}
use nextbos_ai.Agent.State.{AgentState, Write, chart_spec_result, messages, message, ai}
use nextbos_ai.Agent.World.{World, text_of, dict_of, iterate}
use nextbos_ai.Agent.Nodes.Inputs.{snapshot}
use nextbos_ai.Agent.Nodes.ChartSpec.FieldSets.{sorted_set, missing_from, join}

module _ (w : World) where
  object_json : ObjectClass → Object → Value
  object_json decimal o = w.to_float o
  object_json date o = str (w.isoformat o)
  object_json _ o = object o

  unfoldable pub json_value : Value → Value
  unfolding object_json
  json_value (object o) = object_json o.class o
  json_value v = v

  -- `[_json_value(row.get(name)) for row in rows]`.
  unfoldable pub column_values : String → List Fields → List Value
  unfolding json_value
  column_values name rows = map (λ row. json_value (get name row)) rows

  -- `{str(column["name"]) for column in columns if column.get("name")}`, in their order.
  abbrev pub column_names : List Fields → List String
  column_names [] = []
  column_names (c ∷ cs) =
      let rest = column_names cs in
      if truthy (get "name" c) then text_of w (get "name" c) ∷ rest else rest

abbrev pub row_keys : List Fields → List String
row_keys [] = []
row_keys (r ∷ rs) = keys r ++ row_keys rs

-- The fields that the rows and the columns of a result offer.
unfoldable pub available_fields : World → List Fields → List Fields → List String
available_fields w columns rows = column_names w columns ++ row_keys rows

-- `plan.x.field` of a missing encoding raises; a validated plan has both axes.
encoding : Option ChartEncoding → Outcome ChartEncoding
encoding none = raise (record { class = other_error; text = "no encoding" })
encoding (some e) = ok e

series_fields : Option ChartEncoding → List String
series_fields none = []
series_fields (some e) = e.on ∷ []

-- `sorted(_required_fields(plan))`.
unfoldable pub required_fields : ChartPlan → ChartEncoding → ChartEncoding → List String
unfolding series_fields
required_fields p x y = sorted_set (x.on ∷ y.on ∷ series_fields p.series)

module _ (w : World) (p : ChartPlan) (x y : ChartEncoding) (rows : List Fields) where
  axis_option : Fields
  unfolding column_values
  axis_option = field "title" (obj (field "text" (str p.title) end)) (
      field "tooltip" (obj (field "trigger" (str "axis") end)) (
        field "xAxis"
          (obj (
            field "type" (str "category") (
              field "name" (str (text_or x.label x.on))
                (field "data" (list_value (column_values w x.on rows)) end))))
          (field "yAxis"
            (obj (field "type" (str "value") (field "name" (str (text_or y.label y.on)) end)))
            (field "series"
              (list_value (
                obj (
                  field "type" (str (chart_type_text p.chart_type)) (
                    field "name" (str (text_or y.label y.on))
                      (field "data" (list_value (column_values w y.on rows)) end)))
                ∷ []))
              end))))

  pie_slice : Fields → Value
  unfolding json_value
  pie_slice row =
      obj (
        field "name" (json_value w (get x.on row))
          (field "value" (json_value w (get y.on row)) end))

  pie_option : Fields
  unfolding pie_slice
  pie_option = field "title" (obj (field "text" (str p.title) end)) (
      field "tooltip" (obj (field "trigger" (str "item") end)) (
        field "series"
          (list_value (
            obj (
              field "type" (str "pie") (
                field "name" (str (text_or y.label y.on))
                  (field "data" (list_value (map pie_slice rows)) end)))
            ∷ []))
          end))

  -- `_build_pie_chart` for a pie, `_build_axis_chart` otherwise.
  option_at : ChartType → Fields
  unfolding axis_option pie_option
  option_at pie = pie_option
  option_at _ = axis_option

  unfoldable pub chart : ChartSpec
  unfolding option_at required_fields
  chart = record {
    title = p.title;
    chart_type = p.chart_type;
    option = option_at p.chart_type;
    source_fields = required_fields p x y;
    row_count = length rows;
  }

unfoldable pub skipped_result : String → Outcome ChartSpecResult
skipped_result text =
    new_chart_spec_result (record { status = skipped; chart = none; message = some text })

module _ (w : World) (plans : Schema ChartPlan dump_chart_plan is_valid_chart_plan) where
  -- The part of the builder after the plan is read, for its two axes.
  unfoldable pub chart_of_axes :
      ChartPlan
      → ChartEncoding
      → ChartEncoding
      → List Fields
      → List Fields
      → Outcome ChartSpecResult
  unfolding available_fields chart skipped_result
  chart_of_axes p x y columns rows =
      let missing = missing_from (available_fields w columns rows) (required_fields p x y) in
      if not (is_empty missing)
      then skipped_result ("ChartPlan 字段不存在于 SQL 结果中：" <> join ", " missing)
      else (do
        spec ← new_chart_spec (chart w p x y rows)
        new_chart_spec_result (record { status = succeeded; chart = some spec; message = none }))

  -- The part after the plan is read. The columns are read before the rows, as `_available_fields`
  -- does; a column or a row that is no dictionary raises.
  unfoldable pub chart_of_plan : Option ChartPlan → Value → Value → Outcome ChartSpecResult
  unfolding encoding chart_of_axes
  chart_of_plan none columns rows = skipped_result "ChartPlan 不完整，无法生成图表。"
  chart_of_plan (some p) columns rows = do
    column_values ← iterate columns
    column_fields ← traverse dict_of column_values
    row_values ← iterate rows
    row_fields ← traverse dict_of row_values
    x ← encoding p.x
    y ← encoding p.y
    chart_of_axes p x y column_fields row_fields

  -- `_build_chart_spec_result`.
  unfoldable pub build_chart_spec_result : Value → Fields → Outcome ChartSpecResult
  unfolding chart_of_plan
  build_chart_spec_result chart_plan result =
      if not (is_str "succeeded" (get "status" result))
      then skipped_result "SQL 未成功执行，无法生成图表。"
      else if not (truthy (get "rows" result))
      then skipped_result "SQL 结果为空，无法生成图表。"
      else chart_of_plan (plans.model_validate chart_plan)
          (or_else (get "columns" result) (arr nil)) (get "rows" result)

  message_writes : Option ChartSpec → List Write
  message_writes none = []
  message_writes (some c) =
      messages (
        message ai
          ("前端 ECharts option：\n```json\n" <> w.json_dumps_indented (obj c.option) <> "\n```")
        ∷ [])
      ∷ []

  -- The update of the state for a result.
  unfoldable pub chart_spec_writes : ChartSpecResult → List Write
  unfolding message_writes
  chart_spec_writes r = chart_spec_result (dump_chart_spec_result r) ∷ message_writes r.chart

  -- The node.
  unfoldable pub chart_spec : AgentState → Outcome (List Write)
  unfolding build_chart_spec_result
  chart_spec s = do
    result ←
        build_chart_spec_result (or_else s.chart_plan_result (obj end))
          (snapshot s.sql_execution_result)
    ok (chart_spec_writes result)
