-- ===== src/Agent/Nodes/SqlExecute.antt =====
-- agent/nodes/sql_execute.py
pub mod Safety
use nextbos_ai.Prelude.{
  ℕ, String, Bool, true, false, ◌&&◌, ◌||◌, Option, none, some, List, [], ◌∷◌, ◌==◌, ◌<>◌, nat_eq,
  all, is_empty, decimal, Outcome, ok, ◌>>=◌, if◌then◌else◌,
}
use nextbos_ai.Value.{Value, null, bool, str, obj, Fields, end, field, or_else, is_null}
use nextbos_ai.Schemas.Model.{Schema}
use nextbos_ai.Schemas.SqlValidation.{
  SqlValidationStatus, passed, needs_repair, SqlValidationResult, dump_validation,
  is_valid_validation,
}
use nextbos_ai.Schemas.SqlExecution.{
  SqlExecutionStatus, succeeded, failed, skipped, SqlExecutionError, SqlExecutionResult, new_error,
  new_execution_result, dump_execution,
}
use nextbos_ai.Agent.State.{
  AgentState, Write, messages, sql_execution_result, sql_result_review, message, ai,
}

-- `SqlExecutionClient.execute_sql(sql=…, query_id=…, max_rows=…)`.
abbrev pub Executor : Type 0
Executor = String → Option String → ℕ → Outcome SqlExecutionResult

-- What the node does: the update that it returns, and the SQL that it hands to the client.
pub record Execution : Type 0 where
  pub executed : List String
  pub result : Outcome SqlExecutionResult

unfoldable pub skipped_execution_result : String → Outcome SqlExecutionResult
skipped_execution_result text = do
  error ← new_error (record { message = text; error_type = "validation" })
  new_execution_result (record {
    status = skipped;
    query_id = none;
    sql = none;
    columns = [];
    rows = [];
    row_count = 0;
    truncated = false;
    error = some error;
  })

abbrev error_text : Option SqlExecutionError → String → String
error_text none fallback = fallback
error_text (some e) fallback = e.message

abbrev execution_text : SqlExecutionStatus → SqlExecutionResult → String
execution_text succeeded r = "SQL 执行成功，返回 " <> decimal r.row_count <> " 行。"
execution_text skipped r = "SQL 执行已跳过：" <> error_text r.error "未满足执行条件"
execution_text failed r = "SQL 执行失败：" <> error_text r.error "未知错误"

unfoldable pub execution_message : SqlExecutionResult → String
execution_message r = execution_text r.status r

-- `all(value is None for value in row.values())`.
abbrev pub all_null : Fields → Bool
all_null end = true
all_null (field k v fs) = is_null v && all_null fs

unfoldable pub has_empty_or_null_result : SqlExecutionResult → Bool
has_empty_or_null_result r =
    if nat_eq r.row_count 0 || is_empty r.rows then true else all all_null r.rows

abbrev pub is_succeeded : SqlExecutionStatus → Bool
is_succeeded succeeded = true
is_succeeded _ = false

unfoldable pub review_sql_execution_result : SqlExecutionResult → Value
unfolding has_empty_or_null_result
review_sql_execution_result r =
    let needs_review = is_succeeded r.status && has_empty_or_null_result r in
    obj (
      field "needs_review" (bool needs_review)
        (field "reason" (if needs_review then str "SQL 执行成功但结果为空或全为空值" else null) end))

-- The statement that may be executed: `status == "passed"` and a `validated_sql` that is not empty.
executable_at : SqlValidationStatus → Option String → Option String
executable_at passed (some sql) = if sql == "" then none else some sql
executable_at _ _ = none

unfoldable pub executable_sql : SqlValidationResult → Option String
unfolding executable_at
executable_sql r = executable_at r.status r.validated_sql

submit : Option Executor → Option String → String → ℕ → Execution
submit none query_id sql max_rows = record {
  executed = [];
  result = skipped_execution_result "未配置 SQL 执行客户端";
}
submit (some execute_sql) query_id sql max_rows = record {
  executed = sql ∷ [];
  result = execute_sql sql query_id max_rows;
}

execute_checked : Option Executor → Option String → Option String → ℕ → Execution
unfolding submit skipped_execution_result
execute_checked client none query_id max_rows = record {
  executed = [];
  result = skipped_execution_result "SQL 未通过校验，已跳过执行";
}
execute_checked client (some sql) query_id max_rows = submit client query_id sql max_rows

unfoldable pub execute_validated :
    Option Executor → Option SqlValidationResult → Option String → ℕ → Execution
unfolding execute_checked executable_sql skipped_execution_result
execute_validated client none query_id max_rows = record {
  executed = [];
  result = skipped_execution_result "SQL 校验结果为空或格式不合法";
}
execute_validated client (some r) query_id max_rows =
    execute_checked client (executable_sql r) query_id max_rows

-- The update of the state for a result.
unfoldable pub execution_writes : SqlExecutionResult → List Write
execution_writes r =
    sql_execution_result (dump_execution r)
    ∷ sql_result_review (review_sql_execution_result r)
    ∷ messages (message ai (execution_message r) ∷ [])
    ∷ []

module _ (validations : Schema SqlValidationResult dump_validation is_valid_validation) where
  unfoldable pub sql_validation_result_from_state : AgentState → Option SqlValidationResult
  sql_validation_result_from_state s =
      validations.model_validate (or_else s.sql_validation_result (obj end))

  -- The node, with the `uuid4()` that it draws for the query.
  unfoldable pub sql_execute : Option Executor → ℕ → String → AgentState → Execution
  unfolding execute_validated sql_validation_result_from_state
  sql_execute client max_rows query_id s =
      execute_validated client (sql_validation_result_from_state s) (some query_id) max_rows
