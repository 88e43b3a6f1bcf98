-- ===== src/Integrations/Wren/Validation.antt =====
-- integrations/business/wren.py: `validate_sql_sync` and the helpers that it alone uses.
pub mod Checks
use nextbos_ai.Prelude.{
  ℕ, String, Bool, true, false, Option, none, some, List, [], ◌∷◌, leb, Outcome, ok, raise, ◌>>=◌,
  if◌then◌else◌,
}
use nextbos_ai.Value.{
  Value, str, obj, Fields, end, field, get, get_or, truthy, as_dict, dict_or_empty, is_false,
}
use nextbos_ai.Schemas.Model.{construct}
use nextbos_ai.Schemas.SqlValidation.{
  SqlValidationStatus, passed, needs_repair, failed, unknown, error, SqlValidationResult,
  SqlValidationIssue, issue_fields_ok, new_validation_result,
}
use nextbos_ai.Agent.World.{World, text_of}
use nextbos_ai.Integrations.WrenTypes.{WrenProjectConfig}
use nextbos_ai.Integrations.Wren.{
  Tool, Toolkit, WrenLangChainContextClient, Step, get_tools, invoke_required_tool_envelope,
}

abbrev pub failed_status : ℕ → ℕ → SqlValidationStatus
failed_status attempt limit = if leb limit attempt then failed else needs_repair

-- What a check is about: the candidate, and how often it was repaired.
pub record Check : Type 0 where
  pub candidate_name : String
  pub sql : String
  pub repair_attempt : ℕ
  pub max_repair_attempts : ℕ

-- `SqlValidationIssue(issue_type="unknown", severity="error", message=…)`.
abbrev pub new_issue : String → Outcome SqlValidationIssue
new_issue text =
    let i : SqlValidationIssue = record {
      issue_type = unknown;
      severity = error;
      message = text;
      detail = none;
      suggested_fix = none;
    } in
    construct (issue_fields_ok i) none i

-- `_failed_sql_validation_result`.
unfoldable pub failed_sql_validation_result : Check → String → Fields → Outcome SqlValidationResult
failed_sql_validation_result c text dry_plan = do
  issue ← new_issue text
  new_validation_result (record {
    candidate_name = c.candidate_name;
    sql = c.sql;
    status = failed_status c.repair_attempt c.max_repair_attempts;
    validated_sql = none;
    issues = issue ∷ [];
    dry_plan = dry_plan;
    dry_run = end;
    repair_attempt = c.repair_attempt;
    max_repair_attempts = c.max_repair_attempts;
  })

-- `_wren_error_message`.
unfoldable pub wren_error_message : World → Fields → String
wren_error_message w payload =
    let e = dict_or_empty (get "error" payload) in
    if truthy (get "message" e)
    then text_of w (get "message" e)
    else if truthy (get "content" payload)
    then text_of w (get "content" payload)
    else "Wren dry-plan 校验失败"

-- `data.get("dialect_sql") if isinstance(data, dict) else None`.
unfoldable pub dialect_sql_of : Fields → Value
dialect_sql_of payload = get "dialect_sql" (dict_or_empty (get_or "data" (obj end) payload))

unfoldable pub passed_sql_validation_result : Check → String → Fields → Outcome SqlValidationResult
passed_sql_validation_result c validated_sql dry_plan = new_validation_result (record {
  candidate_name = c.candidate_name;
  sql = c.sql;
  status = passed;
  validated_sql = some validated_sql;
  issues = [];
  dry_plan = dry_plan;
  dry_run = end;
  repair_attempt = c.repair_attempt;
  max_repair_attempts = c.max_repair_attempts;
})

-- The part after the tool's answer.
check_payload : World → Check → Fields → Outcome SqlValidationResult
unfolding failed_sql_validation_result wren_error_message dialect_sql_of
    passed_sql_validation_result
check_payload w c payload =
    if is_false (get "ok" payload)
    then failed_sql_validation_result c (wren_error_message w payload) payload
    else if truthy (dialect_sql_of payload)
    then passed_sql_validation_result c (text_of w (dialect_sql_of payload)) payload
    else failed_sql_validation_result c "Wren dry-plan 未返回 dialect_sql" payload

check_answer : World → Check → Outcome Fields → Outcome SqlValidationResult
unfolding check_payload failed_sql_validation_result
check_answer w c (raise e) = failed_sql_validation_result c e.text end
check_answer w c (ok payload) = check_payload w c payload

-- The answer of the tool `wren_dry_plan` for a statement.
unfoldable pub dry_plan_answer : Outcome (List Tool) → String → Outcome Fields
unfolding invoke_required_tool_envelope
dry_plan_answer tools sql = do
  ts ← tools
  invoke_required_tool_envelope ts "wren_dry_plan" (field "sql" (str sql) end)

-- `validate_sql_sync`, and `validate_sql`, which runs it in a thread.
unfoldable pub validate_sql_sync :
    World
    → (WrenProjectConfig → Outcome Toolkit)
    → WrenLangChainContextClient
    → Check
    → Step SqlValidationResult
unfolding get_tools dry_plan_answer check_answer
validate_sql_sync w load client c =
    let tools = get_tools load client in
    record { client = tools.client; result = check_answer w c (dry_plan_answer tools.result c.sql) }
