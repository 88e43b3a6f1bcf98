-- ===== src/Schemas/Chart.antt =====
-- agent/schemas/chart.py
use nextbos_ai.Prelude.{
  ℕ, String, Bool, true, not, ◌&&◌, Option, none, some, List, ◌==◌, is_none, lacks_text, Outcome,
  if◌then◌else◌,
}
use nextbos_ai.Value.{Value, null, int, str, obj, Fields, end, field, opt_str, str_list}
use nextbos_ai.Schemas.Model.{construct}

pub data ChartType : Type 0 where
  bar line pie : ChartType

pub data ChartSpecStatus : Type 0 where
  succeeded skipped failed : ChartSpecStatus

abbrev pub chart_type_text : ChartType → String
chart_type_text bar = "bar"
chart_type_text line = "line"
chart_type_text pie = "pie"

abbrev pub status_text : ChartSpecStatus → String
status_text succeeded = "succeeded"
status_text skipped = "skipped"
status_text failed = "failed"

pub record ChartEncoding : Type 0 where
  pub on : String
  pub label : Option String

pub record ChartPlan : Type 0 where
  pub chart_type : ChartType
  pub title : String
  pub x : Option ChartEncoding
  pub y : Option ChartEncoding
  pub series : Option ChartEncoding
  pub description : String

pub record ChartSpec : Type 0 where
  pub title : String
  pub chart_type : ChartType
  pub option : Fields
  pub source_fields : List String
  pub row_count : ℕ

pub record ChartSpecResult : Type 0 where
  pub status : ChartSpecStatus
  pub chart : Option ChartSpec
  pub message : Option String

abbrev pub encoding_ok : Option ChartEncoding → Bool
encoding_ok none = true
encoding_ok (some e) = not (e.on == "")

abbrev pub plan_fields_ok : ChartPlan → Bool
plan_fields_ok p = not (p.title == "") && encoding_ok p.x && encoding_ok p.y && encoding_ok p.series

missing_axis : ChartType → Option String
missing_axis pie = some "饼图必须使用分类字段和数值字段"
missing_axis _ = some "柱状图和折线图必须包含横轴和纵轴字段"

axes_contract : ChartType → Option ChartEncoding → Option ChartEncoding → Option String
axes_contract t (some x) (some y) = if x.on == y.on then some "横轴和纵轴不能使用同一个字段" else none
axes_contract t none y = missing_axis t
axes_contract t (some x) none = missing_axis t

-- `validate_chart_contract`: the reason of its `ValueError`, or `none`.
unfoldable pub validate_chart_contract : ChartPlan → Option String
unfolding axes_contract missing_axis
validate_chart_contract p = axes_contract p.chart_type p.x p.y

unfoldable pub is_valid_chart_plan : ChartPlan → Bool
unfolding validate_chart_contract
is_valid_chart_plan p = plan_fields_ok p && is_none (validate_chart_contract p)

-- `ChartSpec(...)`: `min_length=1` on the title.
unfoldable pub new_chart_spec : ChartSpec → Outcome ChartSpec
new_chart_spec c = construct (not (c.title == "")) none c

contract_at : ChartSpecStatus → ChartSpecResult → Option String
contract_at succeeded r = if is_none r.chart then some "succeeded 状态必须包含 chart" else none
contract_at _ r =
    if not (is_none r.chart)
    then some "未成功生成图表时不能包含 chart"
    else if lacks_text r.message
    then some "跳过或失败时必须包含原因"
    else none

-- `validate_status_contract` of the result.
unfoldable pub validate_status_contract : ChartSpecResult → Option String
unfolding contract_at
validate_status_contract r = contract_at r.status r

-- `ChartSpecResult(...)`.
unfoldable pub new_chart_spec_result : ChartSpecResult → Outcome ChartSpecResult
unfolding validate_status_contract
new_chart_spec_result r = construct true (validate_status_contract r) r

-- `model_dump()`.
abbrev pub dump_encoding : Option ChartEncoding → Value
dump_encoding none = null
dump_encoding (some e) = obj (field "field" (str e.on) (field "label" (opt_str e.label) end))

abbrev pub dump_chart_plan : ChartPlan → Value
dump_chart_plan p = obj (
    field "chart_type" (str (chart_type_text p.chart_type)) (
      field "title" (str p.title) (
        field "x" (dump_encoding p.x) (
          field "y" (dump_encoding p.y) (
            field "series" (dump_encoding p.series)
              (field "description" (str p.description) end))))))

abbrev pub dump_chart_spec : Option ChartSpec → Value
dump_chart_spec none = null
dump_chart_spec (some c) = obj (
    field "type" (str "echarts") (
      field "title" (str c.title) (
        field "chart_type" (str (chart_type_text c.chart_type)) (
          field "option" (obj c.option) (
            field "source_fields" (str_list c.source_fields)
              (field "row_count" (int c.row_count) end))))))

abbrev pub dump_chart_spec_result : ChartSpecResult → Value
dump_chart_spec_result r = obj (
    field "status" (str (status_text r.status))
      (field "chart" (dump_chart_spec r.chart) (field "message" (opt_str r.message) end)))
