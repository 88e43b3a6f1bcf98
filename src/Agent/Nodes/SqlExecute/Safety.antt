-- ===== src/Agent/Nodes/SqlExecute/Safety.antt =====
-- What the `sql_execute` node hands to the database.
use nextbos_ai.Prelude.{
  ℕ, String, true, false, Option, none, some, [], ◌∷◌, ◌≡◌, ◌≢◌, refl, ap, arith, eq_iff, IsIn, any,
}
use nextbos_ai.Value.{obj, end, or_else}
use nextbos_ai.Schemas.Model.{Schema}
use nextbos_ai.Schemas.SqlValidation.{
  passed, SqlValidationResult, dump_validation, is_valid_validation, is_error,
}
use nextbos_ai.Agent.State.{AgentState}
use nextbos_ai.Agent.Nodes.SqlExecute.{
  Executor, Execution, executable_sql, execute_checked, execute_validated, sql_execute,
  sql_validation_result_from_state,
}

-- A statement that the snapshot `r` allows: validated, not empty, and with no error-level issue.
pub record Allows (r : SqlValidationResult) (sql : String) : Type 0 where
  pub was_passed : r.status ≡ passed
  pub validated : r.validated_sql ≡ some sql
  pub not_empty : sql ≢ ""
  pub no_errors : any is_error r.issues ≡ false

passed-no_errors :
    (r : SqlValidationResult)
    → is_valid_validation r ≡ true
    → r.status ≡ passed
    → any is_error r.issues ≡ false
unfolding is_valid_validation
passed-no_errors r h p = ground arith

executable_sql-Allows :
    (r : SqlValidationResult) (sql : String)
    → is_valid_validation r ≡ true
    → executable_sql r ≡ some sql
    → Allows r sql
unfolding executable_sql
executable_sql-Allows r sql h e = record {
  was_passed = ground arith;
  validated = ground arith;
  not_empty = ground (arith, eq_iff sql "");
  no_errors = passed-no_errors r h (ground arith);
}

checked_inversion :
    (client : Option Executor) (o : Option String) (q : Option String) (n : ℕ) (sql : String)
    → IsIn sql (execute_checked client o q n).executed
    → o ≡ some sql
unfolding execute_checked
checked_inversion client none q n sql m = absurd m
checked_inversion none (some s) q n sql m = absurd m
checked_inversion (some c) (some s) q n sql m = ground arith

executed_inversion :
    (client : Option Executor) (o : Option SqlValidationResult) (q : Option String) (n : ℕ)
    (sql : String)
    → IsIn sql (execute_validated client o q n).executed
    → (r : SqlValidationResult) × (o ≡ some r) × (executable_sql r ≡ some sql)
unfolding execute_validated
executed_inversion client none q n sql m = absurd m
executed_inversion client (some r) q n sql m =
    (r, refl, checked_inversion client (executable_sql r) q n sql m)

-- What a snapshot leads to where the graph has an execution client.
pub record IsHandled (execute_sql : Executor) (n : ℕ) (q : String) (r : SqlValidationResult)
    (x : Execution) : Type 0 where
  pub submitted :
      r.status ≡ passed
      → (sql : String) × (r.validated_sql ≡ some sql)
        × (sql ≢ "")
        × (x.executed ≡ sql ∷ [])
        × (x.result ≡ execute_sql sql (some q) n)
  pub withheld : r.status ≢ passed → x.executed ≡ []

is_valid_validation-passed :
    (r : SqlValidationResult)
    → is_valid_validation r ≡ true
    → r.status ≡ passed
    → (sql : String) × (r.validated_sql ≡ some sql) × (sql ≢ "")
unfolding is_valid_validation
is_valid_validation-passed r h p = sql_cases r.validated_sql refl
  where
    sql_cases :
        (o : Option String)
        → r.validated_sql ≡ o
        → (sql : String) × (r.validated_sql ≡ some sql) × (sql ≢ "")
    sql_cases none e = absurd (ground arith)
    sql_cases (some sql) e = (sql, e, ground (arith, eq_iff sql ""))

executable_sql-of_passed :
    (r : SqlValidationResult) (sql : String)
    → r.status ≡ passed
    → r.validated_sql ≡ some sql
    → sql ≢ ""
    → executable_sql r ≡ some sql
unfolding executable_sql
executable_sql-of_passed r sql p v ne = ground (arith, eq_iff sql "")

executable_sql-of_others : (r : SqlValidationResult) → r.status ≢ passed → executable_sql r ≡ none
unfolding executable_sql
executable_sql-of_others r ne = ground arith

pub execute_validated-IsHandled :
    (execute_sql : Executor) (n : ℕ) (q : String) (r : SqlValidationResult)
    → is_valid_validation r ≡ true
    → IsHandled execute_sql n q r (execute_validated (some execute_sql) (some r) (some q) n)
unfolding execute_validated
execute_validated-IsHandled execute_sql n q r h = record {
  submitted = λ p.
      let (sql, e, ne) = is_valid_validation-passed r h p in
      let allowed = executable_sql-of_passed r sql p e ne in
      (
        sql,
        e,
        ne,
        ap (λ o. (execute_checked (some execute_sql) o (some q) n).executed) allowed,
        ap (λ o. (execute_checked (some execute_sql) o (some q) n).result) allowed,
      );
  withheld = λ ne.
      ap (λ o. (execute_checked (some execute_sql) o (some q) n).executed)
        (executable_sql-of_others r ne);
}

module _ (validations : Schema SqlValidationResult dump_validation is_valid_validation) where
  -- Every statement that the node hands to the execution client is the non-empty `validated_sql` of
  -- a snapshot in the state that pydantic accepts, whose status is `passed` and whose issues hold
  -- no error.
  pub sql_execute-Allows :
      (client : Option Executor) (n : ℕ) (q : String) (s : AgentState) (sql : String)
      → IsIn sql (sql_execute validations client n q s).executed
      → (r : SqlValidationResult) × (validations.model_validate
            (or_else s.sql_validation_result (obj end))
          ≡ some r)
        × Allows r sql
  unfolding sql_execute
  sql_execute-Allows client n q s sql m =
      let (r, e, x) =
        executed_inversion client (sql_validation_result_from_state validations s) (some q) n sql
          m in
      (r, e, executable_sql-Allows r sql (validations.sound _ r e) x)
