-- ===== src/Schemas/SqlValidation.antt =====
-- agent/schemas/sql_validation.py
use nextbos_ai.Prelude.{
  ℕ, String, Bool, true, false, not, ◌&&◌, Option, none, some, List, map, ◌==◌, leb, all, any,
  is_none, lacks_text, is_empty, Outcome, if◌then◌else◌,
}
use nextbos_ai.Value.{Value, str, obj, int, Fields, end, field, opt_str, list_value}
use nextbos_ai.Schemas.Model.{construct}

pub data SqlValidationStatus : Type 0 where
  passed needs_repair failed : SqlValidationStatus

pub data SqlValidationIssueType : Type 0 where
  model field_issue join dialect syntax permission resource unknown : SqlValidationIssueType

pub data SqlValidationIssueSeverity : Type 0 where
  warning error : SqlValidationIssueSeverity

abbrev pub status_text : SqlValidationStatus → String
status_text passed = "passed"
status_text needs_repair = "needs_repair"
status_text failed = "failed"

abbrev pub issue_type_text : SqlValidationIssueType → String
issue_type_text model = "model"
issue_type_text field_issue = "field"
issue_type_text join = "join"
issue_type_text dialect = "dialect"
issue_type_text syntax = "syntax"
issue_type_text permission = "permission"
issue_type_text resource = "resource"
issue_type_text unknown = "unknown"

abbrev pub severity_text : SqlValidationIssueSeverity → String
severity_text warning = "warning"
severity_text error = "error"

pub record SqlValidationIssue : Type 0 where
  pub issue_type : SqlValidationIssueType
  pub severity : SqlValidationIssueSeverity
  pub message : String
  pub detail : Option String
  pub suggested_fix : Option String

pub record SqlValidationResult : Type 0 where
  pub candidate_name : String
  pub sql : String
  pub status : SqlValidationStatus
  pub validated_sql : Option String
  pub issues : List SqlValidationIssue
  pub dry_plan : Fields
  pub dry_run : Fields
  pub repair_attempt : ℕ
  pub max_repair_attempts : ℕ

-- The `min_length` and `le` constraints of the fields.
abbrev pub issue_fields_ok : SqlValidationIssue → Bool
issue_fields_ok i = not (i.message == "")

abbrev pub result_fields_ok : SqlValidationResult → Bool
result_fields_ok r =
    not (r.candidate_name == "")
    && not (r.sql == "")
    && all issue_fields_ok r.issues
    && leb r.max_repair_attempts 5

abbrev pub is_error : SqlValidationIssue → Bool
is_error i = elim i.severity [ warning ↦ false | error ↦ true ]

-- `validate_status_contract`: the reason of its `ValueError`, or `none`.
contract_at : SqlValidationStatus → SqlValidationResult → Option String
contract_at passed r =
    if lacks_text r.validated_sql
    then some "passed 状态必须包含 validated_sql"
    else if any is_error r.issues
    then some "passed 状态不能包含 error 级别问题"
    else none
contract_at needs_repair r =
    if not (is_none r.validated_sql)
    then some "未通过校验时 validated_sql 必须为空"
    else if is_empty r.issues
    then some "未通过校验时必须包含至少一个 issue"
    else if leb r.max_repair_attempts r.repair_attempt
    then some "达到最大修复次数后不能继续标记为 needs_repair"
    else none
contract_at failed r =
    if not (is_none r.validated_sql)
    then some "未通过校验时 validated_sql 必须为空"
    else if is_empty r.issues
    then some "未通过校验时必须包含至少一个 issue"
    else none

unfoldable pub validate_status_contract : SqlValidationResult → Option String
unfolding contract_at
validate_status_contract r = contract_at r.status r

-- `SqlValidationResult(...)`.
unfoldable pub new_validation_result : SqlValidationResult → Outcome SqlValidationResult
unfolding validate_status_contract
new_validation_result r = construct (result_fields_ok r) (validate_status_contract r) r

-- What every instance satisfies.
unfoldable pub is_valid_validation : SqlValidationResult → Bool
unfolding validate_status_contract
is_valid_validation r = result_fields_ok r && is_none (validate_status_contract r)

-- `model_dump()`.
abbrev pub dump_issue : SqlValidationIssue → Value
dump_issue i = obj (
    field "issue_type" (str (issue_type_text i.issue_type)) (
      field "severity" (str (severity_text i.severity)) (
        field "message" (str i.message) (
          field "detail" (opt_str i.detail)
            (field "suggested_fix" (opt_str i.suggested_fix) end)))))

abbrev pub dump_validation : SqlValidationResult → Value
dump_validation r = obj (
    field "candidate_name" (str r.candidate_name) (
      field "sql" (str r.sql) (
        field "status" (str (status_text r.status)) (
          field "validated_sql" (opt_str r.validated_sql) (
            field "issues" (list_value (map dump_issue r.issues)) (
              field "dry_plan" (obj r.dry_plan) (
                field "dry_run" (obj r.dry_run) (
                  field "repair_attempt" (int r.repair_attempt)
                    (field "max_repair_attempts" (int r.max_repair_attempts) end)))))))))
