-- ===== src/Testing/Readers/Decisions.antt =====
-- Readers of IntentDecision and WrenContextRequest.
use nextbos_ai.Prelude.{String, Option, none, some, ◌≡◌, refl, ◌==◌, if◌then◌else◌}
use nextbos_ai.Value.{Value, get}
use nextbos_ai.Schemas.Model.{Schema}
use nextbos_ai.Schemas.Intent.{
  IntentType, direct_answer, business_query, business_analysis, chart_request, report_request,
  clarification, OutputType, text, table, chart, report, IntentFilter, IntentDecision,
  intent_type_text, output_type_text, dump_intent_filter, dump_decision, is_valid_decision,
}
use nextbos_ai.Integrations.WrenTypes.{
  WrenContextFilter, WrenContextRequest, dump_context_filter, dump_request,
}
use nextbos_ai.Agent.Nodes.WrenContext.{always}
use nextbos_ai.Testing.Readers.Base.{
  ◌>>=◌, read_str, read_opt_str, read_float, read_bool, read_dict, read_list, read_list-dump,
  read_list-str_list, read_opt_str-opt_str, schema_of,
}

abbrev pub read_intent_type : String → Option IntentType
read_intent_type t =
    if t == "direct_answer"
    then some direct_answer
    else if t == "business_query"
    then some business_query
    else if t == "business_analysis"
    then some business_analysis
    else if t == "chart_request"
    then some chart_request
    else if t == "report_request"
    then some report_request
    else if t == "clarification"
    then some clarification
    else none

abbrev pub read_output_type : String → Option OutputType
read_output_type t =
    if t == "text"
    then some text
    else if t == "table"
    then some table
    else if t == "chart"
    then some chart
    else if t == "report"
    then some report
    else none

read_intent_type-intent_type_text :
    (x : IntentType) → read_intent_type (intent_type_text x) ≡ some x
read_intent_type-intent_type_text direct_answer = refl
read_intent_type-intent_type_text _ = refl

read_output_type-output_type_text :
    (x : OutputType) → read_output_type (output_type_text x) ≡ some x
read_output_type-output_type_text text = refl
read_output_type-output_type_text _ = refl

abbrev pub read_intent_filter : Value → Option IntentFilter
read_intent_filter v = do
  d ← read_dict v
  on ← read_str (get "field" d)
  value ← read_str (get "value" d)
  some (record { on = on; value = value })

abbrev pub read_decision : Value → Option IntentDecision
read_decision v = do
  d ← read_dict v
  t ← read_str (get "intent_type" d)
  intent_type ← read_intent_type t
  needs_business_data ← read_bool (get "needs_business_data" d)
  o ← read_str (get "output_type" d)
  output_type ← read_output_type o
  question_rewrite ← read_str (get "question_rewrite" d)
  metrics ← read_list read_str (get "metrics" d)
  dimensions ← read_list read_str (get "dimensions" d)
  filters ← read_list read_intent_filter (get "filters" d)
  time_range ← read_opt_str (get "time_range" d)
  confidence ← read_float (get "confidence" d)
  missing_slots ← read_list read_str (get "missing_slots" d)
  clarification_question ← read_opt_str (get "clarification_question" d)
  some (record {
    intent_type = intent_type;
    needs_business_data = needs_business_data;
    output_type = output_type;
    question_rewrite = question_rewrite;
    metrics = metrics;
    dimensions = dimensions;
    filters = filters;
    time_range = time_range;
    confidence = confidence;
    missing_slots = missing_slots;
    clarification_question = clarification_question;
  })

pub read_decision-dump_decision : (d : IntentDecision) → read_decision (dump_decision d) ≡ some d
read_decision-dump_decision d =
    let filters = read_list-dump read_intent_filter dump_intent_filter d.filters (λ f. refl) in
    simp (
      read_intent_type-intent_type_text, read_output_type-output_type_text, read_opt_str-opt_str,
      read_list-str_list, filters,
    )

abbrev pub decisions : Schema IntentDecision dump_decision is_valid_decision
decisions = schema_of dump_decision is_valid_decision read_decision read_decision-dump_decision

abbrev pub read_context_filter : Value → Option WrenContextFilter
read_context_filter v = do
  d ← read_dict v
  on ← read_str (get "field" d)
  value ← read_str (get "value" d)
  some (record { on = on; value = value })

abbrev pub read_request : Value → Option WrenContextRequest
read_request v = do
  d ← read_dict v
  question ← read_str (get "question" d)
  tenant_id ← read_opt_str (get "tenant_id" d)
  user_id ← read_opt_str (get "user_id" d)
  metrics ← read_list read_str (get "metrics" d)
  dimensions ← read_list read_str (get "dimensions" d)
  filters ← read_list read_context_filter (get "filters" d)
  time_range ← read_opt_str (get "time_range" d)
  some (record {
    question = question;
    tenant_id = tenant_id;
    user_id = user_id;
    metrics = metrics;
    dimensions = dimensions;
    filters = filters;
    time_range = time_range;
  })

pub read_request-dump_request : (r : WrenContextRequest) → read_request (dump_request r) ≡ some r
read_request-dump_request r =
    let filters = read_list-dump read_context_filter dump_context_filter r.filters (λ f. refl) in
    simp (read_opt_str-opt_str, read_list-str_list, filters)

abbrev pub requests : Schema WrenContextRequest dump_request always
requests = schema_of dump_request always read_request read_request-dump_request
