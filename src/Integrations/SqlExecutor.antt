-- ===== src/Integrations/SqlExecutor.antt =====
-- integrations/business/sql_executor.py: the client that runs SQL through a LangChain tool.
pub mod Answers
pub mod Report
use nextbos_ai.Prelude.{
  ℕ, String, Bool, true, false, Option, none, some, List, [], ◌∷◌, not, is_empty, is_none, length,
  filter_map, traverse, Outcome, ok, raise, ◌>>=◌, if◌then◌else◌,
}
use nextbos_ai.Value.{
  Value, null, str, arr, obj, nil, Fields, get, truthy, or_else, as_dict, list_of, is_false, keys,
}
use nextbos_ai.Schemas.SqlExecution.{
  succeeded, failed, SqlExecutionColumn, SqlExecutionResult, new_column, new_error,
  new_execution_result,
}
use nextbos_ai.Agent.World.{World, text_of}

-- `query_tool.invoke({"sql": …, "limit": …})`, a tool of LangChain.
abbrev pub QueryTool : Type 0
QueryTool = String → ℕ → Outcome Value

-- `_rows_from_payload`: the dictionaries among the rows.
unfoldable pub rows_from_payload : Fields → List Fields
rows_from_payload payload =
    filter_map as_dict
      (list_of (or_else (get "rows" payload) (or_else (get "results" payload) (arr nil))))

-- `data_type = column.get("data_type") or column.get("type")`, as a text where it is true.
text_if_any : World → Value → Option String
text_if_any w v = if truthy v then some (text_of w v) else none

unfoldable pub column_from_payload : World → Value → Outcome SqlExecutionColumn
unfolding text_if_any
column_from_payload w (str s) = new_column (record { name = s; data_type = none })
column_from_payload w (obj c) = new_column (record {
  name = text_of w (or_else (get "name" c) (or_else (get "column_name" c) (str "")));
  data_type = text_if_any w (or_else (get "data_type" c) (get "type" c));
})
column_from_payload w v = new_column (record { name = text_of w v; data_type = none })

inferred_columns : List Fields → Outcome (List SqlExecutionColumn)
inferred_columns [] = ok []
inferred_columns (row ∷ rows) =
    traverse (λ name. new_column (record { name = name; data_type = none })) (keys row)

-- `_columns_from_payload`: the described columns, or the keys of the first row.
unfoldable pub columns_from_payload :
    World → Fields → List Fields → Outcome (List SqlExecutionColumn)
unfolding column_from_payload inferred_columns
columns_from_payload w payload rows =
    let described = list_of (get "columns" payload) in
    if not (is_empty described)
    then traverse (column_from_payload w) described
    else inferred_columns rows

unfoldable pub failed_execution_result :
    String → Option String → String → Outcome SqlExecutionResult
failed_execution_result sql query_id text = do
  error ← new_error (record { message = text; error_type = "database" })
  new_execution_result (record {
    status = failed;
    query_id = query_id;
    sql = some sql;
    columns = [];
    rows = [];
    row_count = 0;
    truncated = false;
    error = some error;
  })

-- `_error_message`, for an error that is a dictionary and for another one.
error_text : World → Value → Fields → String
error_text w error payload =
    if truthy error
    then text_of w error
    else if truthy (get "content" payload)
    then text_of w (get "content" payload)
    else "SQL 执行失败"

unfoldable pub error_message : World → Fields → String
unfolding error_text
error_message w payload = message_at (as_dict (get "error" payload))
  where
    message_at : Option Fields → String
    message_at none = error_text w (get "error" payload) payload
    message_at (some e) =
        if truthy (get "message" e)
        then text_of w (get "message" e)
        else error_text w (get "error" payload) payload

data_at : Option Fields → Fields → Fields
data_at none payload = payload
data_at (some body) payload = body

-- `payload.get("data")` where it is a dictionary, and else the payload.
unfoldable pub data_of : Fields → Fields
unfolding data_at
data_of payload = data_at (as_dict (get "data" payload)) payload

-- The dataset of a payload whose `ok` is not false.
unfoldable pub dataset : World → String → Option String → Fields → Outcome SqlExecutionResult
unfolding rows_from_payload columns_from_payload
dataset w sql query_id body = do
  let rows = rows_from_payload body
  columns ← columns_from_payload w body rows
  new_execution_result (record {
    status = succeeded;
    query_id = query_id;
    sql = some sql;
    columns = columns;
    rows = rows;
    row_count = length rows;
    truncated = truthy (get "truncated" body);
    error = none;
  })

result_of_payload : World → String → Option String → Option Fields → Outcome SqlExecutionResult
unfolding dataset failed_execution_result error_message data_of
result_of_payload w sql query_id none = failed_execution_result sql query_id "SQL 执行工具返回内容不是对象"
result_of_payload w sql query_id (some payload) =
    if is_false (get "ok" payload)
    then failed_execution_result sql query_id (error_message w payload)
    else dataset w sql query_id (data_of payload)

result_of_answer : World → String → Option String → Outcome Value → Outcome SqlExecutionResult
unfolding result_of_payload failed_execution_result
result_of_answer w sql query_id (raise e) = failed_execution_result sql query_id e.text
result_of_answer w sql query_id (ok v) = result_of_payload w sql query_id (as_dict v)

-- `execute_sql_sync`, and `execute_sql`, which runs it in a thread.
unfoldable pub execute_sql_sync :
    World → QueryTool → String → Option String → ℕ → Outcome SqlExecutionResult
unfolding result_of_answer
execute_sql_sync w query_tool sql query_id max_rows =
    result_of_answer w sql query_id (query_tool sql max_rows)
