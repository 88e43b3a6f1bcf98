-- ===== src/Testing/Readers/Plans.antt =====
-- Readers of SqlGenerationPlan and ChartPlan.
use nextbos_ai.Prelude.{String, Option, none, some, ◌≡◌, refl, ◌==◌, if◌then◌else◌}
use nextbos_ai.Value.{Value, null, obj, Fields, get}
use nextbos_ai.Schemas.Model.{Schema}
use nextbos_ai.Schemas.SqlPlan.{
  SqlPlanStatus, ready_for_dry_run, needs_clarification, cannot_plan, SqlQueryIntent, lookup,
  aggregation, comparison, trend, diagnosis, SqlPlanFilter, SqlPlanStep, SqlCandidate,
  SqlGenerationPlan, status_text, query_intent_text, dump_filter, dump_step, dump_candidate,
  dump_plan, is_valid_plan,
}
use nextbos_ai.Schemas.Chart.{
  ChartType, bar, line, pie, ChartEncoding, ChartPlan, chart_type_text, dump_encoding,
  dump_chart_plan, is_valid_chart_plan,
}
use nextbos_ai.Testing.Readers.Base.{
  ◌>>=◌, read_str, read_opt_str, read_float, read_dict, read_list, read_list-dump,
  read_list-str_list, read_opt_str-opt_str, schema_of,
}

abbrev pub read_status : String → Option SqlPlanStatus
read_status t =
    if t == "ready_for_dry_run"
    then some ready_for_dry_run
    else if t == "needs_clarification"
    then some needs_clarification
    else if t == "cannot_plan"
    then some cannot_plan
    else none

abbrev pub read_query_intent : String → Option SqlQueryIntent
read_query_intent t =
    if t == "lookup"
    then some lookup
    else if t == "aggregation"
    then some aggregation
    else if t == "comparison"
    then some comparison
    else if t == "trend"
    then some trend
    else if t == "diagnosis"
    then some diagnosis
    else none

read_status-status_text : (x : SqlPlanStatus) → read_status (status_text x) ≡ some x
read_status-status_text ready_for_dry_run = refl
read_status-status_text _ = refl

read_query_intent-query_intent_text :
    (x : SqlQueryIntent) → read_query_intent (query_intent_text x) ≡ some x
read_query_intent-query_intent_text lookup = refl
read_query_intent-query_intent_text _ = refl

abbrev pub read_filter : Value → Option SqlPlanFilter
read_filter v = do
  d ← read_dict v
  on ← read_str (get "field" d)
  operator ← read_str (get "operator" d)
  value ← read_str (get "value" d)
  some (record { on = on; operator = operator; value = value })

abbrev pub read_step : Value → Option SqlPlanStep
read_step v = do
  d ← read_dict v
  objective ← read_str (get "objective" d)
  required_context ← read_list read_str (get "required_context" d)
  some (record { objective = objective; required_context = required_context })

abbrev pub read_candidate : Value → Option SqlCandidate
read_candidate v = do
  d ← read_dict v
  name ← read_str (get "name" d)
  sql ← read_str (get "sql" d)
  rationale ← read_str (get "rationale" d)
  expected_columns ← read_list read_str (get "expected_columns" d)
  risk_notes ← read_list read_str (get "risk_notes" d)
  some (record {
    name = name;
    sql = sql;
    rationale = rationale;
    expected_columns = expected_columns;
    risk_notes = risk_notes;
  })

read_step-dump_step : (s : SqlPlanStep) → read_step (dump_step s) ≡ some s
read_step-dump_step s = simp read_list-str_list

read_candidate-dump_candidate : (c : SqlCandidate) → read_candidate (dump_candidate c) ≡ some c
read_candidate-dump_candidate c = simp read_list-str_list

abbrev pub read_plan : Value → Option SqlGenerationPlan
read_plan v = do
  d ← read_dict v
  t ← read_str (get "status" d)
  status ← read_status t
  i ← read_str (get "query_intent" d)
  query_intent ← read_query_intent i
  question ← read_str (get "question" d)
  planning_summary ← read_str (get "planning_summary" d)
  models ← read_list read_str (get "models" d)
  metrics ← read_list read_str (get "metrics" d)
  dimensions ← read_list read_str (get "dimensions" d)
  filters ← read_list read_filter (get "filters" d)
  time_range ← read_opt_str (get "time_range" d)
  assumptions ← read_list read_str (get "assumptions" d)
  steps ← read_list read_step (get "steps" d)
  candidates ← read_list read_candidate (get "candidates" d)
  preferred_candidate_name ← read_opt_str (get "preferred_candidate_name" d)
  clarification_question ← read_opt_str (get "clarification_question" d)
  confidence ← read_float (get "confidence" d)
  some (record {
    status = status;
    query_intent = query_intent;
    question = question;
    planning_summary = planning_summary;
    models = models;
    metrics = metrics;
    dimensions = dimensions;
    filters = filters;
    time_range = time_range;
    assumptions = assumptions;
    steps = steps;
    candidates = candidates;
    preferred_candidate_name = preferred_candidate_name;
    clarification_question = clarification_question;
    confidence = confidence;
  })

pub read_plan-dump_plan : (p : SqlGenerationPlan) → read_plan (dump_plan p) ≡ some p
read_plan-dump_plan p =
    let filters = read_list-dump read_filter dump_filter p.filters (λ f. refl) in
    let steps = read_list-dump read_step dump_step p.steps read_step-dump_step in
    let candidates =
      read_list-dump read_candidate dump_candidate p.candidates read_candidate-dump_candidate in
    simp (
      read_status-status_text, read_query_intent-query_intent_text, read_opt_str-opt_str,
      read_list-str_list, filters, steps, candidates,
    )

abbrev pub plans : Schema SqlGenerationPlan dump_plan is_valid_plan
plans = schema_of dump_plan is_valid_plan read_plan read_plan-dump_plan

abbrev pub read_chart_type : String → Option ChartType
read_chart_type t =
    if t == "bar"
    then some bar
    else if t == "line"
    then some line
    else if t == "pie"
    then some pie
    else none

read_chart_type-chart_type_text : (x : ChartType) → read_chart_type (chart_type_text x) ≡ some x
read_chart_type-chart_type_text bar = refl
read_chart_type-chart_type_text _ = refl

abbrev pub read_encoding_dict : Fields → Option ChartEncoding
read_encoding_dict d = do
  on ← read_str (get "field" d)
  label ← read_opt_str (get "label" d)
  some (record { on = on; label = label })

abbrev pub read_encoding : Value → Option (Option ChartEncoding)
read_encoding null = some none
read_encoding (obj d) = read_encoding_dict d >>= λ e. some (some e)
read_encoding _ = none

read_encoding-dump_encoding : (e : Option ChartEncoding) → read_encoding (dump_encoding e) ≡ some e
read_encoding-dump_encoding none = refl
read_encoding-dump_encoding (some e) = simp read_opt_str-opt_str

abbrev pub read_chart_plan : Value → Option ChartPlan
read_chart_plan v = do
  d ← read_dict v
  t ← read_str (get "chart_type" d)
  chart_type ← read_chart_type t
  title ← read_str (get "title" d)
  x ← read_encoding (get "x" d)
  y ← read_encoding (get "y" d)
  series ← read_encoding (get "series" d)
  description ← read_str (get "description" d)
  some (record {
    chart_type = chart_type;
    title = title;
    x = x;
    y = y;
    series = series;
    description = description;
  })

pub read_chart_plan-dump_chart_plan : (p : ChartPlan) → read_chart_plan (dump_chart_plan p) ≡ some p
read_chart_plan-dump_chart_plan p =
    simp (read_chart_type-chart_type_text, read_encoding-dump_encoding)

abbrev pub chart_plans : Schema ChartPlan dump_chart_plan is_valid_chart_plan
chart_plans =
    schema_of dump_chart_plan is_valid_chart_plan read_chart_plan read_chart_plan-dump_chart_plan
