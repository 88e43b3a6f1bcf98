-- ===== src/Schemas/SqlExecution.antt =====
-- agent/schemas/sql_execution.py
use nextbos_ai.Prelude.{
  ℕ, String, Bool, true, not, ◌&&◌, ◌||◌, Option, none, some, List, map, ◌==◌, nat_eq, all, is_none,
  lacks_text, is_empty, length, Outcome, if◌then◌else◌,
}
use nextbos_ai.Value.{Value, null, bool, str, obj, int, Fields, end, field, opt_str, list_value}
use nextbos_ai.Schemas.Model.{construct}

pub data SqlExecutionStatus : Type 0 where
  succeeded failed skipped : SqlExecutionStatus

abbrev pub status_text : SqlExecutionStatus → String
status_text succeeded = "succeeded"
status_text failed = "failed"
status_text skipped = "skipped"

pub record SqlExecutionColumn : Type 0 where
  pub name : String
  pub data_type : Option String

pub record SqlExecutionError : Type 0 where
  pub message : String
  pub error_type : String

pub record SqlExecutionResult : Type 0 where
  pub status : SqlExecutionStatus
  pub query_id : Option String
  pub sql : Option String
  pub columns : List SqlExecutionColumn
  pub rows : List Fields
  pub row_count : ℕ
  pub truncated : Bool
  pub error : Option SqlExecutionError

-- `SqlExecutionColumn(...)` and `SqlExecutionError(...)`: `min_length=1` on the name and the message.
unfoldable pub new_column : SqlExecutionColumn → Outcome SqlExecutionColumn
new_column c = construct (not (c.name == "")) none c

unfoldable pub new_error : SqlExecutionError → Outcome SqlExecutionError
new_error e = construct (not (e.message == "")) none e

abbrev pub column_ok : SqlExecutionColumn → Bool
column_ok c = not (c.name == "")

abbrev pub error_ok : Option SqlExecutionError → Bool
error_ok none = true
error_ok (some e) = not (e.message == "")

-- `validate_status_contract`: the reason of its `ValueError`, or `none`.
contract_at : SqlExecutionStatus → SqlExecutionResult → Option String
contract_at succeeded r =
    if lacks_text r.sql
    then some "succeeded 状态必须包含实际执行 SQL"
    else if not (is_none r.error)
    then some "succeeded 状态不能包含 error"
    else if not (nat_eq r.row_count (length r.rows))
    then some "row_count 必须等于 rows 长度"
    else none
contract_at failed r =
    if not (is_empty r.rows) || not (is_empty r.columns)
    then some "未成功执行时不能包含结果数据"
    else if is_none r.error
    then some "failed 状态必须包含 error"
    else none
contract_at skipped r =
    if not (is_empty r.rows) || not (is_empty r.columns) then some "未成功执行时不能包含结果数据" else none

unfoldable pub validate_status_contract : SqlExecutionResult → Option String
unfolding contract_at
validate_status_contract r = contract_at r.status r

abbrev pub result_fields_ok : SqlExecutionResult → Bool
result_fields_ok r = all column_ok r.columns && error_ok r.error

-- `SqlExecutionResult(...)`.
unfoldable pub new_execution_result : SqlExecutionResult → Outcome SqlExecutionResult
unfolding validate_status_contract
new_execution_result r = construct (result_fields_ok r) (validate_status_contract r) r

unfoldable pub is_valid_execution : SqlExecutionResult → Bool
unfolding validate_status_contract
is_valid_execution r = result_fields_ok r && is_none (validate_status_contract r)

-- `model_dump()`.
abbrev pub dump_column : SqlExecutionColumn → Value
dump_column c = obj (field "name" (str c.name) (field "data_type" (opt_str c.data_type) end))

abbrev pub dump_error : Option SqlExecutionError → Value
dump_error none = null
dump_error (some e) =
    obj (field "message" (str e.message) (field "error_type" (str e.error_type) end))

abbrev pub dump_execution : SqlExecutionResult → Value
dump_execution r = obj (
    field "status" (str (status_text r.status)) (
      field "query_id" (opt_str r.query_id) (
        field "sql" (opt_str r.sql) (
          field "columns" (list_value (map dump_column r.columns)) (
            field "rows" (list_value (map obj r.rows)) (
              field "row_count" (int r.row_count) (
                field "truncated" (bool r.truncated) (field "error" (dump_error r.error) end))))))))
