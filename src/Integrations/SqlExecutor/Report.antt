-- ===== src/Integrations/SqlExecutor/Report.antt =====
-- What the SQL execution client returns.
use nextbos_ai.Prelude.{
  ℕ, String, true, false, Option, none, some, List, [], ◌≡◌, filter_map, not, ◌==◌, ◌≢◌, refl, sym,
  ap, ◌∙◌, arith, eq_iff, length, Exception, validation_error, Outcome, ok, raise, >>=-eq-ok, ◌⊎◌,
  inl, inr, Bool-cases,
}
use mathlib.Core.Path.{subst}
use nextbos_ai.Value.{Value, obj, Fields, get, truthy, is_false, as_dict, as_list, list_value}
use nextbos_ai.Value.Laws.{as_dict-eq-some}
use nextbos_ai.Schemas.Model.{construct-eq-ok, invalid}
use nextbos_ai.Schemas.SqlExecution.{
  succeeded, failed, SqlExecutionError, SqlExecutionResult, new_error, new_execution_result,
  is_valid_execution,
}
use nextbos_ai.Agent.World.{World}
use nextbos_ai.Integrations.SqlExecutor.{
  QueryTool, columns_from_payload, failed_execution_result, error_message, data_of, dataset,
  result_of_payload, result_of_answer, execute_sql_sync,
}
use nextbos_ai.Integrations.SqlExecutor.Answers.{
  Carries, Lists, Refuses, raised, no_dictionary, data_of-Carries, rows_source, rows_source-Lists,
  rows_of_list, rows_of_other, error_message-Refuses,
}

-- A dataset of the tool's answer: the rows are the dictionaries among those of its data.
pub record IsDataset (answer : Outcome Value) (r : SqlExecutionResult) : Type 0 where
  pub payload : Fields
  pub answered : answer ≡ ok (obj payload)
  pub accepted : is_false (get "ok" payload) ≡ false
  pub body : Fields
  pub carried : Carries payload body
  pub source : Value
  pub lists : Lists body source
  pub list_rows : (vs : List Value) → source ≡ list_value vs → r.rows ≡ filter_map as_dict vs
  pub other_rows : as_list source ≡ none → r.rows ≡ []
  pub counted : r.row_count ≡ length r.rows
  pub cut : r.truncated ≡ truthy (get "truncated" body)
  pub was_succeeded : r.status ≡ succeeded
  pub no_error : r.error ≡ none

-- A refusal: no data.
pub record IsFailure (r : SqlExecutionResult) : Type 0 where
  pub was_failed : r.status ≡ failed
  pub no_rows : r.rows ≡ []
  pub no_columns : r.columns ≡ []

-- A failure with the error that the answer gives.
pub record IsRefusal (w : World) (answer : Outcome Value) (r : SqlExecutionResult) : Type 0 where
  pub failure : IsFailure r
  pub text : String
  pub reason : Refuses w answer text
  pub error : r.error ≡ some (record { message = text; error_type = "database" })

pub record IsReport (w : World) (answer : Outcome Value) (sql : String) (query_id : Option String)
    (r : SqlExecutionResult) : Type 0 where
  pub valid : is_valid_execution r ≡ true
  pub statement : r.sql ≡ some sql
  pub query : r.query_id ≡ query_id
  pub outcome : IsDataset answer r ⊎ IsRefusal w answer r

new_error_same : (e d : SqlExecutionError) → new_error e ≡ ok d → e ≡ d
unfolding new_error
new_error_same e d h = let (a, b, same) = construct-eq-ok (not (e.message == "")) none e d h in same

new_execution_result_valid :
    (r c : SqlExecutionResult)
    → new_execution_result r ≡ ok c
    → (is_valid_execution c ≡ true) × (r ≡ c)
unfolding new_execution_result is_valid_execution
new_execution_result_valid r c h =
    let (fields, contract, same) = construct-eq-ok _ _ r c h in
    (subst (λ a. is_valid_execution a ≡ true) same (ground arith), same)

module _ (w : World) (sql : String) (query_id : Option String) where
  failed-IsReport :
      (answer : Outcome Value) (text : String) (r : SqlExecutionResult)
      → Refuses w answer text
      → failed_execution_result sql query_id text ≡ ok r
      → IsReport w answer sql query_id r
  unfolding failed_execution_result
  failed-IsReport answer text r why h =
      let (e, made, built) = >>=-eq-ok (new_error _) _ h in
      let (valid, same) = new_execution_result_valid _ r built in
      subst (IsReport w answer sql query_id) same (record {
        valid = subst (λ a. is_valid_execution a ≡ true) (sym same) valid;
        statement = refl;
        query = refl;
        outcome = inr (record {
          failure = record { was_failed = refl; no_rows = refl; no_columns = refl };
          text = text;
          reason = why;
          error = ap some (sym (new_error_same _ e made));
        });
      })

  dataset-IsReport :
      (payload : Fields) (r : SqlExecutionResult)
      → is_false (get "ok" payload) ≡ false
      → dataset w sql query_id (data_of payload) ≡ ok r
      → IsReport w (ok (obj payload)) sql query_id r
  unfolding dataset
  dataset-IsReport payload r k h =
      let body = data_of payload in
      let (columns, made, built) = >>=-eq-ok (columns_from_payload w body _) _ h in
      let (valid, same) = new_execution_result_valid _ r built in
      subst (IsReport w (ok (obj payload)) sql query_id) same (record {
        valid = subst (λ a. is_valid_execution a ≡ true) (sym same) valid;
        statement = refl;
        query = refl;
        outcome = inl (record {
          payload = payload;
          answered = refl;
          accepted = k;
          body = body;
          carried = data_of-Carries payload;
          source = rows_source body;
          lists = rows_source-Lists body;
          list_rows = rows_of_list body;
          other_rows = rows_of_other body;
          counted = refl;
          cut = refl;
          was_succeeded = refl;
          no_error = refl;
        });
      })

  result_of_payload-IsReport :
      (v : Value) (o : Option Fields) (r : SqlExecutionResult)
      → as_dict v ≡ o
      → result_of_payload w sql query_id o ≡ ok r
      → IsReport w (ok v) sql query_id r
  unfolding result_of_payload
  result_of_payload-IsReport v none r d h = failed-IsReport (ok v) _ r (no_dictionary v d) h
  result_of_payload-IsReport v (some payload) r d h =
      subst (λ u. IsReport w (ok u) sql query_id r) (sym (as_dict-eq-some v payload d))
        (elim (Bool-cases (is_false (get "ok" payload))) [
          | inl e ↦
              failed-IsReport (ok (obj payload)) (error_message w payload) r
                (error_message-Refuses w payload e) (cc)
          | inr e ↦ dataset-IsReport payload r e (cc)
        ])

  result_of_answer-IsReport :
      (answer : Outcome Value) (r : SqlExecutionResult)
      → result_of_answer w sql query_id answer ≡ ok r
      → IsReport w answer sql query_id r
  unfolding result_of_answer
  result_of_answer-IsReport (ok v) r h = result_of_payload-IsReport v (as_dict v) r refl h
  result_of_answer-IsReport (raise e) r h = failed-IsReport (raise e) e.text r (raised e) h

-- Every result of the client meets the contract of its model and names the statement and the query
-- that were asked. It is either a dataset or a failure, never a skipped result. A dataset is given
-- only for a dictionary whose `ok` is not false: its rows are the dictionaries, in order, in the list
-- under `rows`, or under `results` where `rows` is false, of the answer's `data` or of the answer
-- itself, with their number and the mark of truncation. A failure has no rows or columns, and its
-- error says why: the text of the tool's exception, that the answer is no dictionary, or where `ok`
-- is false the answer's error, content, or a fixed text.
pub execute_sql_sync-IsReport :
    (w : World) (query_tool : QueryTool) (sql : String) (query_id : Option String) (max_rows : ℕ)
    (r : SqlExecutionResult)
    → execute_sql_sync w query_tool sql query_id max_rows ≡ ok r
    → IsReport w (query_tool sql max_rows) sql query_id r
unfolding execute_sql_sync
execute_sql_sync-IsReport w query_tool sql query_id max_rows r h =
    result_of_answer-IsReport w sql query_id (query_tool sql max_rows) r h

abbrev database_failure : String → Option String → String → SqlExecutionResult
database_failure sql query_id text = record {
  status = failed;
  query_id = query_id;
  sql = some sql;
  columns = [];
  rows = [];
  row_count = 0;
  truncated = false;
  error = some (record { message = text; error_type = "database" });
}

failed_execution_result_total :
    (sql : String) (query_id : Option String) (text : String)
    → text ≢ ""
    → failed_execution_result sql query_id text ≡ ok (database_failure sql query_id text)
unfolding failed_execution_result new_error new_execution_result
failed_execution_result_total sql query_id text h = ground (arith, eq_iff text "")

failed_execution_result_refused :
    (sql : String) (query_id : Option String) (text : String)
    → text ≡ ""
    → failed_execution_result sql query_id text ≡ raise (invalid "field constraint")
unfolding failed_execution_result new_error
failed_execution_result_refused sql query_id text h = rw h

-- An exception of the tool that has a text does not leave the client: the result is a failure. With
-- an empty text the client itself raises a `ValidationError`, since the message of an error must not
-- be empty.
pub execute_sql_sync_of_raise :
    (w : World) (query_tool : QueryTool) (sql : String) (query_id : Option String) (max_rows : ℕ)
    (e : Exception)
    → query_tool sql max_rows ≡ raise e
    → (e.text ≢ ""
        → (r : SqlExecutionResult) × (execute_sql_sync w query_tool sql query_id max_rows ≡ ok r)
          × IsFailure r)
      × (e.text ≡ ""
          → (x : Exception) × (execute_sql_sync w query_tool sql query_id max_rows ≡ raise x)
            × (x.class ≡ validation_error))
unfolding execute_sql_sync result_of_answer
execute_sql_sync_of_raise w query_tool sql query_id max_rows e h = (
  λ ne. (
    database_failure sql query_id e.text,
    ap (result_of_answer w sql query_id) h ∙ failed_execution_result_total sql query_id e.text ne,
    record { was_failed = refl; no_rows = refl; no_columns = refl },
  ),
  λ eq. (
    invalid "field constraint",
    ap (result_of_answer w sql query_id) h ∙ failed_execution_result_refused sql query_id e.text eq,
    refl,
  ),
)
