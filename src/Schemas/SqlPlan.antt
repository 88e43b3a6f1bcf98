-- ===== src/Schemas/SqlPlan.antt =====
-- agent/schemas/sql_plan.py
use nextbos_ai.Prelude.{
  ℕ, String, Bool, not, ◌&&◌, Option, none, some, List, map, ◌==◌, leb, all, any, is_none,
  lacks_text, is_empty, length, Outcome, if◌then◌else◌,
}
use nextbos_ai.Value.{Value, float, str, obj, end, field, opt_str, str_list, list_value}
use nextbos_ai.Schemas.Model.{construct}

pub data SqlPlanStatus : Type 0 where
  ready_for_dry_run needs_clarification cannot_plan : SqlPlanStatus

pub data SqlQueryIntent : Type 0 where
  lookup aggregation comparison trend diagnosis : SqlQueryIntent

abbrev pub status_text : SqlPlanStatus → String
status_text ready_for_dry_run = "ready_for_dry_run"
status_text needs_clarification = "needs_clarification"
status_text cannot_plan = "cannot_plan"

abbrev pub query_intent_text : SqlQueryIntent → String
query_intent_text lookup = "lookup"
query_intent_text aggregation = "aggregation"
query_intent_text comparison = "comparison"
query_intent_text trend = "trend"
query_intent_text diagnosis = "diagnosis"

pub record SqlPlanFilter : Type 0 where
  pub on : String
  pub operator : String
  pub value : String

pub record SqlPlanStep : Type 0 where
  pub objective : String
  pub required_context : List String

pub record SqlCandidate : Type 0 where
  pub name : String
  pub sql : String
  pub rationale : String
  pub expected_columns : List String
  pub risk_notes : List String

-- `confidence` is in millionths.
pub record SqlGenerationPlan : Type 0 where
  pub status : SqlPlanStatus
  pub query_intent : SqlQueryIntent
  pub question : String
  pub planning_summary : String
  pub models : List String
  pub metrics : List String
  pub dimensions : List String
  pub filters : List SqlPlanFilter
  pub time_range : Option String
  pub assumptions : List String
  pub steps : List SqlPlanStep
  pub candidates : List SqlCandidate
  pub preferred_candidate_name : Option String
  pub clarification_question : Option String
  pub confidence : ℕ

abbrev pub candidate_ok : SqlCandidate → Bool
candidate_ok c = not (c.sql == "")

-- The `min_length`, `max_length` and `le` constraints of the fields.
abbrev pub plan_fields_ok : SqlGenerationPlan → Bool
plan_fields_ok p =
    not (p.question == "")
    && all candidate_ok p.candidates
    && leb (length p.candidates) 3
    && leb p.confidence 1000000

-- `name in {candidate.name for candidate in self.candidates}`.
abbrev pub names_candidate : String → List SqlCandidate → Bool
names_candidate n cs = any (λ c. c.name == n) cs

preference_contract : Option String → List SqlCandidate → Option String
preference_contract none cs = none
preference_contract (some n) cs =
    if names_candidate n cs then none else some "preferred_candidate_name 必须来自 candidates"

-- `validate_status_contract`: the reason of its `ValueError`, or `none`.
contract_at : SqlPlanStatus → SqlGenerationPlan → Option String
unfolding preference_contract
contract_at ready_for_dry_run p =
    if is_empty p.candidates
    then some "ready_for_dry_run 状态必须至少包含一条候选 SQL"
    else preference_contract p.preferred_candidate_name p.candidates
contract_at needs_clarification p =
    if lacks_text p.clarification_question
    then some "无法继续生成 SQL 时必须提供澄清问题"
    else preference_contract p.preferred_candidate_name p.candidates
contract_at cannot_plan p =
    if lacks_text p.clarification_question
    then some "无法继续生成 SQL 时必须提供澄清问题"
    else preference_contract p.preferred_candidate_name p.candidates

unfoldable pub validate_status_contract : SqlGenerationPlan → Option String
unfolding contract_at
validate_status_contract p = contract_at p.status p

-- `SqlGenerationPlan(...)`.
unfoldable pub new_plan : SqlGenerationPlan → Outcome SqlGenerationPlan
unfolding validate_status_contract
new_plan p = construct (plan_fields_ok p) (validate_status_contract p) p

unfoldable pub is_valid_plan : SqlGenerationPlan → Bool
unfolding validate_status_contract
is_valid_plan p = plan_fields_ok p && is_none (validate_status_contract p)

-- `model_dump()`.
abbrev pub dump_filter : SqlPlanFilter → Value
dump_filter f =
    obj (
      field "field" (str f.on)
        (field "operator" (str f.operator) (field "value" (str f.value) end)))

abbrev pub dump_step : SqlPlanStep → Value
dump_step s = obj (
    field "objective" (str s.objective)
      (field "required_context" (str_list s.required_context) end))

abbrev pub dump_candidate : SqlCandidate → Value
dump_candidate c = obj (
    field "name" (str c.name) (
      field "sql" (str c.sql) (
        field "rationale" (str c.rationale) (
          field "expected_columns" (str_list c.expected_columns)
            (field "risk_notes" (str_list c.risk_notes) end)))))

abbrev pub dump_plan : SqlGenerationPlan → Value
dump_plan p = obj (
    field "status" (str (status_text p.status)) (
      field "query_intent" (str (query_intent_text p.query_intent)) (
        field "question" (str p.question) (
          field "planning_summary" (str p.planning_summary) (
            field "models" (str_list p.models) (
              field "metrics" (str_list p.metrics) (
                field "dimensions" (str_list p.dimensions) (
                  field "filters" (list_value (map dump_filter p.filters)) (
                    field "time_range" (opt_str p.time_range) (
                      field "assumptions" (str_list p.assumptions) (
                        field "steps" (list_value (map dump_step p.steps)) (
                          field "candidates" (list_value (map dump_candidate p.candidates)) (
                            field "preferred_candidate_name" (opt_str p.preferred_candidate_name) (
                              field "clarification_question" (opt_str p.clarification_question)
                                (field "confidence" (float p.confidence) end)))))))))))))))
