-- ===== src/Testing/Readers/Validations.antt =====
-- A reader of SqlValidationResult.
use nextbos_ai.Prelude.{String, Option, none, some, ◌≡◌, refl, ◌==◌, if◌then◌else◌}
use nextbos_ai.Value.{Value, get}
use nextbos_ai.Schemas.Model.{Schema}
use nextbos_ai.Schemas.SqlValidation.{
  SqlValidationStatus, passed, needs_repair, failed, SqlValidationIssueType, model, field_issue,
  join, dialect, syntax, permission, resource, unknown, SqlValidationIssueSeverity, warning, error,
  SqlValidationIssue, SqlValidationResult, status_text, issue_type_text, severity_text, dump_issue,
  dump_validation, is_valid_validation,
}
use nextbos_ai.Testing.Readers.Base.{
  ◌>>=◌, read_str, read_opt_str, read_int, read_dict, read_list, read_list-dump,
  read_opt_str-opt_str, schema_of,
}

abbrev pub read_status : String → Option SqlValidationStatus
read_status t =
    if t == "passed"
    then some passed
    else if t == "needs_repair"
    then some needs_repair
    else if t == "failed"
    then some failed
    else none

abbrev pub read_issue_type : String → Option SqlValidationIssueType
read_issue_type t =
    if t == "model"
    then some model
    else if t == "field"
    then some field_issue
    else if t == "join"
    then some join
    else if t == "dialect"
    then some dialect
    else if t == "syntax"
    then some syntax
    else if t == "permission"
    then some permission
    else if t == "resource"
    then some resource
    else if t == "unknown"
    then some unknown
    else none

abbrev pub read_severity : String → Option SqlValidationIssueSeverity
read_severity t = if t == "warning" then some warning else if t == "error" then some error else none

read_status-status_text : (x : SqlValidationStatus) → read_status (status_text x) ≡ some x
read_status-status_text passed = refl
read_status-status_text _ = refl

read_issue_type-issue_type_text :
    (x : SqlValidationIssueType) → read_issue_type (issue_type_text x) ≡ some x
read_issue_type-issue_type_text model = refl
read_issue_type-issue_type_text _ = refl

read_severity-severity_text :
    (x : SqlValidationIssueSeverity) → read_severity (severity_text x) ≡ some x
read_severity-severity_text warning = refl
read_severity-severity_text _ = refl

abbrev pub read_issue : Value → Option SqlValidationIssue
read_issue v = do
  d ← read_dict v
  t ← read_str (get "issue_type" d)
  issue_type ← read_issue_type t
  u ← read_str (get "severity" d)
  severity ← read_severity u
  message ← read_str (get "message" d)
  detail ← read_opt_str (get "detail" d)
  suggested_fix ← read_opt_str (get "suggested_fix" d)
  some (record {
    issue_type = issue_type;
    severity = severity;
    message = message;
    detail = detail;
    suggested_fix = suggested_fix;
  })

read_issue-dump_issue : (i : SqlValidationIssue) → read_issue (dump_issue i) ≡ some i
read_issue-dump_issue i =
    simp (read_issue_type-issue_type_text, read_severity-severity_text, read_opt_str-opt_str)

abbrev pub read_validation : Value → Option SqlValidationResult
read_validation v = do
  d ← read_dict v
  candidate_name ← read_str (get "candidate_name" d)
  sql ← read_str (get "sql" d)
  t ← read_str (get "status" d)
  status ← read_status t
  validated_sql ← read_opt_str (get "validated_sql" d)
  issues ← read_list read_issue (get "issues" d)
  dry_plan ← read_dict (get "dry_plan" d)
  dry_run ← read_dict (get "dry_run" d)
  repair_attempt ← read_int (get "repair_attempt" d)
  max_repair_attempts ← read_int (get "max_repair_attempts" d)
  some (record {
    candidate_name = candidate_name;
    sql = sql;
    status = status;
    validated_sql = validated_sql;
    issues = issues;
    dry_plan = dry_plan;
    dry_run = dry_run;
    repair_attempt = repair_attempt;
    max_repair_attempts = max_repair_attempts;
  })

pub read_validation-dump_validation :
    (r : SqlValidationResult) → read_validation (dump_validation r) ≡ some r
read_validation-dump_validation r =
    let issues = read_list-dump read_issue dump_issue r.issues read_issue-dump_issue in
    simp (read_status-status_text, read_opt_str-opt_str, issues)

abbrev pub validations : Schema SqlValidationResult dump_validation is_valid_validation
validations =
    schema_of dump_validation is_valid_validation read_validation read_validation-dump_validation
