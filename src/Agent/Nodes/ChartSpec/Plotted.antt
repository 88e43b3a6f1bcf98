-- ===== src/Agent/Nodes/ChartSpec/Plotted.antt =====
-- What the chart of a plan shows.
use nextbos_ai.Prelude.{String, List, [], ◌∷◌, ◌≡◌, ◌≢◌, refl, map, length, IsIn}
use nextbos_ai.Value.{str, obj, Fields, end, field, get, list_value}
use nextbos_ai.Schemas.Chart.{
  ChartType, bar, line, pie, chart_type_text, ChartEncoding, ChartPlan, ChartSpec,
}
use nextbos_ai.Agent.World.{World}
use nextbos_ai.Agent.Nodes.ChartSpec.{
  json_value, column_values, chart, axis_option, pie_option, pie_slice, option_at,
}
use nextbos_ai.Agent.Nodes.ChartSpec.Offered.{IsNamed, required_fields-IsNamed}

module _ (w : World) (x y : ChartEncoding) (rows : List Fields) where
  -- The option has one series, of the type of the plan. For bars and lines its data are the values
  -- of the y field in the rows, and those of the category axis the values of the x field.
  pub record IsAxisOption (t : ChartType) (option : Fields) : Type 0 where
    pub axis : Fields
    pub series : Fields
    pub x_axis : get "xAxis" option ≡ obj axis
    pub categories : get "data" axis ≡ list_value (map (λ row. json_value w (get x.on row)) rows)
    pub one_series : get "series" option ≡ list_value (obj series ∷ [])
    pub kind : get "type" series ≡ str (chart_type_text t)
    pub points : get "data" series ≡ list_value (map (λ row. json_value w (get y.on row)) rows)

  -- For a pie the data are one slice for each row, named by its x field and sized by its y field.
  pub record IsPieOption (option : Fields) : Type 0 where
    pub series : Fields
    pub one_series : get "series" option ≡ list_value (obj series ∷ [])
    pub kind : get "type" series ≡ str "pie"
    pub slices :
        get "data" series
        ≡ list_value (
            map
              (λ row. obj (
                field "name"
                  (json_value w (get x.on row))
                  (field "value" (json_value w (get y.on row)) end)))
              rows)

  pub record IsPlotted (p : ChartPlan) (c : ChartSpec) : Type 0 where
    pub title : c.title ≡ p.title
    pub chart_type : c.chart_type ≡ p.chart_type
    pub row_count : c.row_count ≡ length rows
    pub sources : (s : String) → IsIn s c.source_fields → IsNamed p x y s
    pub named : (s : String) → IsNamed p x y s → IsIn s c.source_fields
    pub of_axes : p.chart_type ≢ pie → IsAxisOption p.chart_type c.option
    pub of_pie : p.chart_type ≡ pie → IsPieOption c.option

  axis_option-IsAxisOption : (p : ChartPlan) → IsAxisOption p.chart_type (axis_option w p x y rows)
  unfolding axis_option column_values
  axis_option-IsAxisOption p = record {
    axis = _;
    series = _;
    x_axis = refl;
    categories = refl;
    one_series = refl;
    kind = refl;
    points = refl;
  }

  pie_option-IsPieOption : (p : ChartPlan) → IsPieOption (pie_option w p x y rows)
  unfolding pie_option pie_slice
  pie_option-IsPieOption p = record { series = _; one_series = refl; kind = refl; slices = refl }

  option_at-IsAxisOption :
      (p : ChartPlan) (t : ChartType)
      → t ≢ pie
      → IsAxisOption p.chart_type (option_at w p x y rows t)
  unfolding option_at
  option_at-IsAxisOption p bar ne = axis_option-IsAxisOption p
  option_at-IsAxisOption p line ne = axis_option-IsAxisOption p
  option_at-IsAxisOption p pie ne = absurd (ne refl)

  option_at-IsPieOption :
      (p : ChartPlan) (t : ChartType) → t ≡ pie → IsPieOption (option_at w p x y rows t)
  unfolding option_at
  option_at-IsPieOption p bar e = cc
  option_at-IsPieOption p line e = cc
  option_at-IsPieOption p pie e = pie_option-IsPieOption p

  pub chart-IsPlotted : (p : ChartPlan) → IsPlotted p (chart w p x y rows)
  unfolding chart
  chart-IsPlotted p = record {
    title = refl;
    chart_type = refl;
    row_count = refl;
    sources = λ s. (required_fields-IsNamed p x y s).0;
    named = λ s. (required_fields-IsNamed p x y s).1;
    of_axes = option_at-IsAxisOption p p.chart_type;
    of_pie = option_at-IsPieOption p p.chart_type;
  }
