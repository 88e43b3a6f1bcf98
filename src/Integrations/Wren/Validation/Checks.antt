-- ===== src/Integrations/Wren/Validation/Checks.antt =====
-- What the Wren client's check of a candidate returns.
use mathlib.Core.Path.{subst}
use nextbos_ai.Prelude.{
  String, true, false, [], ◌==◌, ap, ◌<◌, ◌≤◌, ok_injective, none, some, ◌≡◌, refl, sym, arith,
  Outcome, ok, raise, >>=-eq-ok, ◌⊎◌, inl, inr, Bool-cases,
}
use nextbos_ai.Value.{Value, obj, Fields, end, field, get, get_or, dict_or_empty, truthy, is_false}
use nextbos_ai.Schemas.Model.{construct-eq-ok}
use nextbos_ai.Schemas.SqlValidation.{
  passed, needs_repair, failed, SqlValidationResult, new_validation_result, is_valid_validation,
}
use nextbos_ai.Agent.World.{World, text_of}
use nextbos_ai.Integrations.WrenTypes.{WrenProjectConfig}
use nextbos_ai.Integrations.Wren.{Toolkit, WrenLangChainContextClient, get_tools}
use nextbos_ai.Integrations.Wren.Validation.{
  Check, new_issue, failed_sql_validation_result, passed_sql_validation_result, dialect_sql_of,
  check_payload, check_answer, dry_plan_answer, validate_sql_sync, wren_error_message,
}

-- A passed check: the dry plan of the statement gave an object whose `ok` is not false and whose
-- `data` is a dictionary, and the validated SQL is the text of the true `dialect_sql` of that.
pub record IsPlanned (w : World) (answer : Outcome Fields) (r : SqlValidationResult) : Type 0 where
  pub payload : Fields
  pub answered : answer ≡ ok payload
  pub accepted : is_false (get "ok" payload) ≡ false
  pub planned : truthy (dialect_sql_of payload) ≡ true
  pub text : r.validated_sql ≡ some (text_of w (dialect_sql_of payload))
  pub body : Fields
  pub dictionary : get "data" payload ≡ obj body
  pub dialect : truthy (get "dialect_sql" body) ≡ true
  pub dialect_text : r.validated_sql ≡ some (text_of w (get "dialect_sql" body))
  pub was_passed : r.status ≡ passed
  pub no_issues : r.issues ≡ []

-- What the tool's answer must be for a check to pass.
abbrev pub HasDialect : Outcome Fields → Type 0
HasDialect answer =
    (payload : Fields) × (body : Fields) × (answer ≡ ok payload)
    × (is_false (get "ok" payload) ≡ false)
    × (get "data" payload ≡ obj body)
    × (truthy (get "dialect_sql" body) ≡ true)

-- A check that did not pass leaves no SQL, and may be repaired while attempts are left.
pub record IsRefused (c : Check) (answer : Outcome Fields) (r : SqlValidationResult) : Type 0 where
  pub nothing : r.validated_sql ≡ none
  pub refused : HasDialect answer → ⊥
  pub repairable : c.repair_attempt < c.max_repair_attempts → r.status ≡ needs_repair
  pub exhausted : c.max_repair_attempts ≤ c.repair_attempt → r.status ≡ failed

pub record IsVerdict (w : World) (c : Check) (answer : Outcome Fields) (r : SqlValidationResult)
    : Type 0 where
  pub valid : is_valid_validation r ≡ true
  pub candidate : r.candidate_name ≡ c.candidate_name
  pub statement : r.sql ≡ c.sql
  pub outcome : IsPlanned w answer r ⊎ IsRefused c answer r

new_validation_result_valid :
    (r c : SqlValidationResult)
    → new_validation_result r ≡ ok c
    → (is_valid_validation c ≡ true) × (r ≡ c)
unfolding new_validation_result is_valid_validation
new_validation_result_valid r c h =
    let (fields, contract, same) = construct-eq-ok _ _ r c h in
    (subst (λ a. is_valid_validation a ≡ true) same (ground arith), same)

get_or-dict :
    (k : String) (fs : Fields)
    → truthy (get "dialect_sql" (dict_or_empty (get_or k (obj end) fs))) ≡ true
    → (body : Fields) × (get k fs ≡ obj body)
      × (get "dialect_sql" (dict_or_empty (get_or k (obj end) fs)) ≡ get "dialect_sql" body)
get_or-dict k end h = cc
get_or-dict k (field j v fs) h = elim (Bool-cases (j == k)) [
  | inl e ↦
      let (body, same) = dict_body v (rw e at h) in
      rw e (body, same, ap (λ u. get "dialect_sql" (dict_or_empty u)) same)
  | inr e ↦ rw e (get_or-dict k fs (rw e at h))
]
  where
    dict_body :
        (v : Value)
        → truthy (get "dialect_sql" (dict_or_empty v)) ≡ true
        → (b : Fields) × (v ≡ obj b)
    dict_body (obj b) t = (b, refl)
    dict_body _ t = cc

-- A true dialect SQL stands in a dictionary under `data`.
dialect_found :
    (payload : Fields)
    → truthy (dialect_sql_of payload) ≡ true
    → (body : Fields) × (get "data" payload ≡ obj body)
      × (dialect_sql_of payload ≡ get "dialect_sql" body)
unfolding dialect_sql_of
dialect_found payload h = get_or-dict "data" payload h

dict_data :
    (fs : Fields) (body : Fields)
    → get "data" fs ≡ obj body
    → dialect_sql_of fs ≡ get "dialect_sql" body
unfolding dialect_sql_of
dict_data end body h = cc
dict_data (field j v fs) body h = elim (Bool-cases (j == "data")) [
  | inl e ↦ rw e (ap (λ u. get "dialect_sql" (dict_or_empty u)) (rw e at h))
  | inr e ↦ rw e (dict_data fs body (rw e at h))
]

refused_ok : (payload : Fields) → is_false (get "ok" payload) ≡ true → HasDialect (ok payload) → ⊥
refused_ok payload e (p, body, same, accepted, stored, dialect) = cc (ok_injective same)

refused_dialect :
    (payload : Fields) → truthy (dialect_sql_of payload) ≡ false → HasDialect (ok payload) → ⊥
refused_dialect payload e (p, body, same, accepted, stored, dialect) =
    cc (ok_injective same, dict_data p body stored)

module _ (w : World) (c : Check) where
  refused-IsVerdict :
      (answer : Outcome Fields) (text : String) (dry_plan : Fields) (r : SqlValidationResult)
      → (HasDialect answer → ⊥)
      → failed_sql_validation_result c text dry_plan ≡ ok r
      → IsVerdict w c answer r
  unfolding failed_sql_validation_result
  refused-IsVerdict answer text dry_plan r refused h =
      let (i, made, built) = >>=-eq-ok (new_issue text) _ h in
      let (valid, same) = new_validation_result_valid _ r built in
      subst (IsVerdict w c answer) same (record {
        valid = subst (λ a. is_valid_validation a ≡ true) (sym same) valid;
        candidate = refl;
        statement = refl;
        outcome = inr (record {
          nothing = refl;
          refused = refused;
          repairable = λ early. ground arith;
          exhausted = λ late. ground arith;
        });
      })

  passed-IsVerdict :
      (payload : Fields) (r : SqlValidationResult)
      → is_false (get "ok" payload) ≡ false
      → truthy (dialect_sql_of payload) ≡ true
      → passed_sql_validation_result c (text_of w (dialect_sql_of payload)) payload ≡ ok r
      → IsVerdict w c (ok payload) r
  unfolding passed_sql_validation_result
  passed-IsVerdict payload r k t h =
      let (body, stored, found) = dialect_found payload t in
      let (valid, same) = new_validation_result_valid _ r h in
      subst (IsVerdict w c (ok payload)) same (record {
        valid = subst (λ a. is_valid_validation a ≡ true) (sym same) valid;
        candidate = refl;
        statement = refl;
        outcome = inl (record {
          payload = payload;
          answered = refl;
          accepted = k;
          planned = t;
          text = refl;
          body = body;
          dictionary = stored;
          dialect = subst (λ v. truthy v ≡ true) found t;
          dialect_text = ap (λ v. some (text_of w v)) found;
          was_passed = refl;
          no_issues = refl;
        });
      })

  check_payload-IsVerdict :
      (payload : Fields) (r : SqlValidationResult)
      → check_payload w c payload ≡ ok r
      → IsVerdict w c (ok payload) r
  unfolding check_payload
  check_payload-IsVerdict payload r h = elim (Bool-cases (is_false (get "ok" payload))) [
    | inl e ↦
        refused-IsVerdict (ok payload) (wren_error_message w payload) payload r
          (λ d. refused_ok payload e d) (cc)
    | inr e ↦ elim (Bool-cases (truthy (dialect_sql_of payload))) [
      | inl t ↦ passed-IsVerdict payload r e t (cc)
      | inr t ↦
          refused-IsVerdict (ok payload) "Wren dry-plan 未返回 dialect_sql" payload r
            (λ d. refused_dialect payload t d) (cc)
    ]
  ]

  check_answer-IsVerdict :
      (answer : Outcome Fields) (r : SqlValidationResult)
      → check_answer w c answer ≡ ok r
      → IsVerdict w c answer r
  unfolding check_answer
  check_answer-IsVerdict (ok payload) r h = check_payload-IsVerdict payload r h
  check_answer-IsVerdict (raise e) r h =
      refused-IsVerdict (raise e) e.text end r (λ (p, body, same, a, s, d). cc) h

-- Every result of the check meets the contract of its model, names the candidate and keeps its SQL.
-- It passed only where `wren_dry_plan` answered for that SQL with an object whose `ok` is not false
-- and whose dictionary `data` has a true `dialect_sql`, whose text is the validated SQL. For any
-- other answer there is no validated SQL, and the status is `needs_repair` while the attempts are
-- below the limit and `failed` from the limit on.
pub validate_sql_sync-IsVerdict :
    (w : World) (load : WrenProjectConfig → Outcome Toolkit) (client : WrenLangChainContextClient)
    (c : Check) (r : SqlValidationResult)
    → (validate_sql_sync w load client c).result ≡ ok r
    → IsVerdict w c (dry_plan_answer (get_tools load client).result c.sql) r
unfolding validate_sql_sync
validate_sql_sync-IsVerdict w load client c r h =
    check_answer-IsVerdict w c (dry_plan_answer (get_tools load client).result c.sql) r h
