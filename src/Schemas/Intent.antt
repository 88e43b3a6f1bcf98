-- ===== src/Schemas/Intent.antt =====
-- agent/schemas/intent.py
use nextbos_ai.Prelude.{ℕ, String, Bool, not, ◌&&◌, Option, List, map, ◌==◌, leb}
use nextbos_ai.Value.{Value, bool, float, str, obj, end, field, opt_str, str_list, list_value}

pub data IntentType : Type 0 where
  direct_answer business_query business_analysis chart_request : IntentType
  report_request clarification : IntentType

pub data OutputType : Type 0 where
  text table chart report : OutputType

pub data RouteTarget : Type 0 where
  to_direct_answer to_wren_context to_clarify : RouteTarget

abbrev pub intent_type_text : IntentType → String
intent_type_text direct_answer = "direct_answer"
intent_type_text business_query = "business_query"
intent_type_text business_analysis = "business_analysis"
intent_type_text chart_request = "chart_request"
intent_type_text report_request = "report_request"
intent_type_text clarification = "clarification"

abbrev pub output_type_text : OutputType → String
output_type_text text = "text"
output_type_text table = "table"
output_type_text chart = "chart"
output_type_text report = "report"

abbrev pub route_target_text : RouteTarget → String
route_target_text to_direct_answer = "direct_answer"
route_target_text to_wren_context = "wren_context"
route_target_text to_clarify = "clarify"

pub record IntentFilter : Type 0 where
  pub on : String
  pub value : String

-- `confidence` is in millionths.
pub record IntentDecision : Type 0 where
  pub intent_type : IntentType
  pub needs_business_data : Bool
  pub output_type : OutputType
  pub question_rewrite : String
  pub metrics : List String
  pub dimensions : List String
  pub filters : List IntentFilter
  pub time_range : Option String
  pub confidence : ℕ
  pub missing_slots : List String
  pub clarification_question : Option String

-- The `min_length` and `le` constraints of the fields.
abbrev pub is_valid_decision : IntentDecision → Bool
is_valid_decision d = not (d.question_rewrite == "") && leb d.confidence 1000000

-- `model_dump()`.
abbrev pub dump_intent_filter : IntentFilter → Value
dump_intent_filter f = obj (field "field" (str f.on) (field "value" (str f.value) end))

abbrev pub dump_decision : IntentDecision → Value
dump_decision d = obj (
    field "intent_type" (str (intent_type_text d.intent_type)) (
      field "needs_business_data" (bool d.needs_business_data) (
        field "output_type" (str (output_type_text d.output_type)) (
          field "question_rewrite" (str d.question_rewrite) (
            field "metrics" (str_list d.metrics) (
              field "dimensions" (str_list d.dimensions) (
                field "filters" (list_value (map dump_intent_filter d.filters)) (
                  field "time_range" (opt_str d.time_range) (
                    field "confidence" (float d.confidence) (
                      field "missing_slots" (str_list d.missing_slots) (
                        field "clarification_question" (opt_str d.clarification_question)
                          end)))))))))))
