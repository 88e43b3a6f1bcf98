-- ===== src/Agent/Nodes/ChartSpec/Drawn.antt =====
-- When a chart is drawn, and of what.
use nextbos_ai.Prelude.{
  String, true, false, not, Option, none, some, List, [], ◌∷◌, ◌≡◌, refl, sym, ap, ◌∙◌, arith, ◌==◌,
  ◌<>◌, map, is_empty, traverse, ok, ◌>>=◌, >>=-eq-ok, ok_injective, Bool-cases, inl, inr,
}
use nextbos_ai.Value.{Value, arr, obj, nil, Fields, get, is_str, truthy, or_else, list_value}
use nextbos_ai.Schemas.Model.{Schema, construct-eq-ok}
use nextbos_ai.Schemas.Chart.{
  succeeded, ChartEncoding, ChartPlan, ChartSpec, ChartSpecResult, new_chart_spec,
  new_chart_spec_result, dump_chart_plan, is_valid_chart_plan,
}
use nextbos_ai.Agent.World.{World, dict_of, iterate}
use nextbos_ai.Agent.Nodes.ChartSpec.{
  available_fields, required_fields, encoding, chart, skipped_result, chart_of_axes, chart_of_plan,
  build_chart_spec_result,
}
use nextbos_ai.Agent.Nodes.ChartSpec.Read.{dictionaries_inversion, columns_inversion}
use nextbos_ai.Agent.Nodes.ChartSpec.Offered.{IsOffered, IsNamed, missing_from-IsOffered}
use nextbos_ai.Agent.Nodes.ChartSpec.Plotted.{IsPlotted, chart-IsPlotted}
use nextbos_ai.Agent.Nodes.ChartSpec.FieldSets.{missing_from, join}

skipped_not_succeeded :
    (text : String) (r : ChartSpecResult) → skipped_result text ≡ ok r → r.status ≡ succeeded → ⊥
unfolding skipped_result new_chart_spec_result
skipped_not_succeeded text r h e = ground arith

-- The chart of a plan: it has both axes, it shows their fields in the rows of the result, and every
-- field that the plan names is the name of a column or a key of a row.
pub record IsDrawn (w : World) (plan : Option ChartPlan) (rows columns : Value)
    (r : ChartSpecResult) : Type 0 where
  pub chart_plan : ChartPlan
  pub x : ChartEncoding
  pub y : ChartEncoding
  pub row_fields : List Fields
  pub column_fields : List Fields
  pub read : plan ≡ some chart_plan
  pub x_axis : chart_plan.x ≡ some x
  pub y_axis : chart_plan.y ≡ some y
  pub data_rows : rows ≡ list_value (map obj row_fields)
  pub data_columns : columns ≡ list_value (map obj column_fields)
  pub drawn : ChartSpec
  pub result : r.chart ≡ some drawn
  pub plotted : IsPlotted w x y row_fields chart_plan drawn
  pub available : (s : String) → IsNamed chart_plan x y s → IsOffered w column_fields row_fields s

encoding_inversion : (o : Option ChartEncoding) (e : ChartEncoding) → encoding o ≡ ok e → o ≡ some e
unfolding encoding
encoding_inversion none e h = cc
encoding_inversion (some a) e h = ap some (ok_injective h)

not_empty_cases : (ss : List String) → not (is_empty ss) ≡ false → ss ≡ []
not_empty_cases [] h = refl
not_empty_cases (s ∷ ss) h = cc

module _ (w : World) (plans : Schema ChartPlan dump_chart_plan is_valid_chart_plan) where
  chart_of_axes_inversion :
      (p : ChartPlan) (x y : ChartEncoding) (columns rows : List Fields) (r : ChartSpecResult)
      → chart_of_axes w plans p x y columns rows ≡ ok r
      → r.status ≡ succeeded
      → (r.chart ≡ some (chart w p x y rows))
        × (missing_from (available_fields w columns rows) (required_fields p x y) ≡ [])
  unfolding chart_of_axes new_chart_spec new_chart_spec_result
  chart_of_axes_inversion p x y columns rows r h e =
      let missing = missing_from (available_fields w columns rows) (required_fields p x y) in
      elim (Bool-cases (not (is_empty missing))) [
        | inl m ↦
            absurd
              (skipped_not_succeeded ("ChartPlan 字段不存在于 SQL 结果中：" <> join ", " missing) r (cc) e)
        | inr m ↦
            let (spec, made, built) =
              >>=-eq-ok (new_chart_spec (chart w p x y rows)) _ (drawn_branch m h) in
            let (a, b, same) =
              construct-eq-ok (not ((chart w p x y rows).title == "")) none (chart w p x y rows)
                spec made in
            let (c, d, result) =
              construct-eq-ok true none
                (record { status = succeeded; chart = some spec; message = none }) r built in
            (ap (λ o. o.chart) (sym result) ∙ ap some (sym same), not_empty_cases missing m)
      ]
    where
      drawn_branch :
          not (is_empty (missing_from (available_fields w columns rows) (required_fields p x y)))
            ≡ false
          → chart_of_axes w plans p x y columns rows ≡ ok r
          → (new_chart_spec (chart w p x y rows) >>= λ spec.
              new_chart_spec_result
                (record { status = succeeded; chart = some spec; message = none }))
            ≡ ok r
      drawn_branch m h = cc

  chart_of_plan-IsDrawn :
      (o : Option ChartPlan) (columns rows : Value) (r : ChartSpecResult)
      → truthy rows ≡ true
      → chart_of_plan w plans o (or_else columns (arr nil)) rows ≡ ok r
      → r.status ≡ succeeded
      → IsDrawn w o rows (or_else columns (arr nil)) r
  unfolding chart_of_plan
  chart_of_plan-IsDrawn none columns rows r t h e = absurd (skipped_not_succeeded _ r h e)
  chart_of_plan-IsDrawn (some p) columns rows r t h e =
      let (column_values, a, h1) = >>=-eq-ok (iterate (or_else columns (arr nil))) _ h in
      let (column_fields, b, h2) = >>=-eq-ok (traverse dict_of column_values) _ h1 in
      let (row_values, c, h3) = >>=-eq-ok (iterate rows) _ h2 in
      let (row_fields, d, h4) = >>=-eq-ok (traverse dict_of row_values) _ h3 in
      let (x, f, h5) = >>=-eq-ok (encoding p.x) _ h4 in
      let (y, g, h6) = >>=-eq-ok (encoding p.y) _ h5 in
      let (drawn, available) = chart_of_axes_inversion p x y column_fields row_fields r h6 e in
      record {
        chart_plan = p;
        x = x;
        y = y;
        row_fields = row_fields;
        column_fields = column_fields;
        read = refl;
        x_axis = encoding_inversion p.x x f;
        y_axis = encoding_inversion p.y y g;
        data_rows = dictionaries_inversion rows row_values row_fields t c d;
        data_columns = columns_inversion columns column_values column_fields a b;
        drawn = chart w p x y row_fields;
        result = drawn;
        plotted = chart-IsPlotted w x y row_fields p;
        available = λ s n. missing_from-IsOffered w column_fields row_fields p x y s available n;
      }

  -- A succeeded chart is drawn only from a succeeded SQL result with rows and from a plan that pydantic
  -- accepts and that has both axes. Every field that the plan names, of an axis or the series, is the
  -- name of a column or a key of a row, and they are the chart's source fields. The chart has the title
  -- and type of the plan and the number of rows. Its data are the values of the y field in exactly the
  -- rows of the result, for a pie with those of the x field as names, and otherwise over a category
  -- axis with those of the x field.
  pub build_chart_spec_result-IsDrawn :
      (chart_plan : Value) (result : Fields) (r : ChartSpecResult)
      → build_chart_spec_result w plans chart_plan result ≡ ok r
      → r.status ≡ succeeded
      → (is_str "succeeded" (get "status" result) ≡ true)
        × (truthy (get "rows" result) ≡ true)
        × IsDrawn w
            (plans.model_validate chart_plan)
            (get "rows" result)
            (or_else (get "columns" result) (arr nil))
            r
  unfolding build_chart_spec_result
  build_chart_spec_result-IsDrawn chart_plan result r h e =
      elim (Bool-cases (is_str "succeeded" (get "status" result))) [
        | inr a ↦ absurd (skipped_not_succeeded "SQL 未成功执行，无法生成图表。" r (cc) e)
        | inl a ↦ elim (Bool-cases (truthy (get "rows" result))) [
          | inr b ↦ absurd (skipped_not_succeeded "SQL 结果为空，无法生成图表。" r (cc) e)
          | inl b ↦ (
            a,
            b,
            chart_of_plan-IsDrawn (plans.model_validate chart_plan) (get "columns" result)
                (get "rows" result) r b (cc) e,
          )
        ]
      ]
