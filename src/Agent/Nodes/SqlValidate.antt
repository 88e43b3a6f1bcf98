-- ===== src/Agent/Nodes/SqlValidate.antt =====
-- agent/nodes/sql_validate.py
pub mod Choice
pub mod Pipeline
pub mod Handover
use nextbos_ai.Prelude.{
  String, Bool, true, false, Option, none, some, List, [], ◌∷◌, ◌==◌, ◌<>◌, Outcome, ok, ◌>>=◌,
  if◌then◌else◌, lacks_text, text_or,
}
use nextbos_ai.Value.{Value, obj, end, or_else}
use nextbos_ai.Schemas.Model.{Schema}
use nextbos_ai.Schemas.SqlValidation.{
  SqlValidationStatus, passed, needs_repair, failed, unknown, error, SqlValidationResult,
  new_validation_result, dump_validation,
}
use nextbos_ai.Schemas.SqlPlan.{
  SqlPlanStatus, ready_for_dry_run, needs_clarification, cannot_plan, SqlCandidate,
  SqlGenerationPlan, dump_plan, is_valid_plan,
}
use nextbos_ai.Agent.State.{AgentState, Write, messages, sql_validation_result, message, ai}

-- `WrenContextClient.validate_sql(candidate_name=…, sql=…)`, as the node calls it.
abbrev pub Validator : Type 0
Validator = String → String → Outcome SqlValidationResult

-- The loop of `_preferred_candidate`.
abbrev pub candidate_named : String → List SqlCandidate → Option SqlCandidate
candidate_named n [] = none
candidate_named n (c ∷ cs) = if c.name == n then some c else candidate_named n cs

preferred_of : Option String → List SqlCandidate → Option SqlCandidate
preferred_of name [] = none
preferred_of none (c ∷ cs) = some c
preferred_of (some n) (c ∷ cs) = candidate_named n (c ∷ cs)

unfoldable pub preferred_candidate : SqlGenerationPlan → Option SqlCandidate
unfolding preferred_of
preferred_candidate p = preferred_of p.preferred_candidate_name p.candidates

abbrev candidate_name : Option SqlCandidate → String
candidate_name none = "none"
candidate_name (some c) = c.name

abbrev candidate_sql : Option SqlCandidate → String
candidate_sql none = "/* no sql candidate */"
candidate_sql (some c) = c.sql

abbrev pub failure : String → Option SqlCandidate → SqlValidationResult
failure text candidate = record {
  candidate_name = candidate_name candidate;
  sql = candidate_sql candidate;
  status = failed;
  validated_sql = none;
  issues =
      record {
        issue_type = unknown;
        severity = error;
        message = text;
        detail = none;
        suggested_fix = none;
      }
      ∷ [];
  dry_plan = end;
  dry_run = end;
  repair_attempt = 0;
  max_repair_attempts = 2;
}

unfoldable pub failed_validation_result : String → Option SqlCandidate → Outcome SqlValidationResult
failed_validation_result text candidate = new_validation_result (failure text candidate)

abbrev validation_text : SqlValidationStatus → String → String
validation_text passed name = "SQL dry-run 校验通过，候选：" <> name
validation_text needs_repair name = "SQL dry-run 需要修复，候选：" <> name
validation_text failed name = "SQL dry-run 校验失败，候选：" <> name

unfoldable pub validation_message : SqlValidationResult → String
validation_message r = validation_text r.status r.candidate_name

unready : SqlGenerationPlan → Outcome SqlValidationResult
unready p = failed_validation_result (text_or p.clarification_question "SQL 规划尚未生成可校验候选") none

-- The last two branches: a candidate, with a client or without.
check_candidate : Option Validator → Option SqlCandidate → Outcome SqlValidationResult
check_candidate client none = failed_validation_result "SQL 规划没有可校验候选" none
check_candidate none (some c) = failed_validation_result "未配置 WrenAI SQL 校验客户端" (some c)
check_candidate (some validate_sql) (some c) = validate_sql c.name c.sql

check_plan : Option Validator → SqlPlanStatus → SqlGenerationPlan → Outcome SqlValidationResult
unfolding check_candidate unready
check_plan client ready_for_dry_run p = check_candidate client (preferred_candidate p)
check_plan client needs_clarification p = unready p
check_plan client cannot_plan p = unready p

unfoldable pub validate_plan :
    Option Validator → Option SqlGenerationPlan → Outcome SqlValidationResult
unfolding check_plan failed_validation_result preferred_candidate
validate_plan client none = failed_validation_result "SQL 规划结果为空或格式不合法" none
validate_plan client (some p) = check_plan client p.status p

-- The update of the state for a result.
unfoldable pub validation_writes : SqlValidationResult → List Write
unfolding validation_message
validation_writes r =
    sql_validation_result (dump_validation r)
    ∷ messages (message ai (validation_message r) ∷ [])
    ∷ []

module _ (plans : Schema SqlGenerationPlan dump_plan is_valid_plan) where
  unfoldable pub sql_generation_plan_from_state : AgentState → Option SqlGenerationPlan
  sql_generation_plan_from_state s = plans.model_validate (or_else s.sql_generation_plan (obj end))

  -- The node.
  unfoldable pub sql_validate : Option Validator → AgentState → Outcome (List Write)
  unfolding sql_generation_plan_from_state validate_plan
  sql_validate client s = do
    result ← validate_plan client (sql_generation_plan_from_state s)
    ok (validation_writes result)
