-- ===== src/Agent/Nodes/SqlValidate/Choice.antt =====
-- Which candidate the `sql_validate` node sends to the dry run, and what it does without a client.
use mathlib.Core.Path.{subst}
use nextbos_ai.Prelude.{
  eq-false_of_ne, ne_of_test, some_injective, ap, sym, ◌++◌, all-IsIn, String, true, Option, none,
  some, List, [], ◌∷◌, ◌==◌, ◌≡◌, ◌≢◌, refl, arith, eq_iff, inl, inr, Outcome, ok, IsIn, Bool-cases,
  text_or,
}
use nextbos_ai.Schemas.Model.{Schema}
use nextbos_ai.Agent.State.{AgentState}
use nextbos_ai.Schemas.SqlValidation.{failed, SqlValidationResult, new_validation_result}
use nextbos_ai.Schemas.SqlPlan.{
  ready_for_dry_run, SqlPlanStatus, needs_clarification, cannot_plan, SqlCandidate,
  SqlGenerationPlan, is_valid_plan, dump_plan, candidate_ok, names_candidate,
}
use nextbos_ai.Agent.Nodes.SqlValidate.{
  Validator, candidate_named, preferred_of, preferred_candidate, failure, failed_validation_result,
  check_candidate, check_plan, unready, validate_plan, sql_generation_plan_from_state, sql_validate,
  validation_writes,
}

-- The first candidate of a name.
abbrev pub IsFirstNamed : String → List SqlCandidate → SqlCandidate → Type 0
IsFirstNamed n cs c =
    (before : List SqlCandidate) × (after : List SqlCandidate) × (cs ≡ before ++ c ∷ after)
    × (c.name ≡ n)
    × ((d : SqlCandidate) → IsIn d before → d.name ≢ n)

-- What the choice of a candidate promises: it is one of the plan's, the first one where the plan has
-- no preference, and otherwise the first one of the preferred name.
pub record IsChoice (p : SqlGenerationPlan) (c : SqlCandidate) : Type 0 where
  pub listed : IsIn c p.candidates
  pub first : p.preferred_candidate_name ≡ none → (cs : List SqlCandidate) × (p.candidates ≡ c ∷ cs)
  pub preferred : (n : String) → p.preferred_candidate_name ≡ some n → IsFirstNamed n p.candidates c

candidate_named_found :
    (n : String) (cs : List SqlCandidate)
    → names_candidate n cs ≡ true
    → (c : SqlCandidate) × (candidate_named n cs ≡ some c)
candidate_named_found n [] h = cc
candidate_named_found n (c ∷ cs) h = elim (Bool-cases (c.name == n)) [
  | inl e ↦ (c, rw e)
  | inr e ↦ rw e (candidate_named_found n cs (rw e at h))
]

candidate_named_sound :
    (n : String) (cs : List SqlCandidate) (c : SqlCandidate)
    → candidate_named n cs ≡ some c
    → IsFirstNamed n cs c
candidate_named_sound n [] c h = cc
candidate_named_sound n (d ∷ cs) c h = elim (Bool-cases (d.name == n)) [
  | inl e ↦
      let same : d ≡ c = some_injective refl (rw e at h) in
      (
        [],
        cs,
        ap (λ x. x ∷ cs) same,
        subst (λ x. x.name ≡ n) same (ground (arith, eq_iff d.name n)),
        λ x i. absurd i,
      )
  | inr e ↦
      let (before, after, split, named, earlier) = candidate_named_sound n cs c (rw e at h) in
      (
        d ∷ before,
        after,
        ap (λ xs. d ∷ xs) split,
        named,
        λ x i. elim i [
          | inl q ↦ subst (λ y. y.name ≢ n) (sym q) (ne_of_test d.name n e)
          | inr j ↦ earlier x j
        ],
      )
]

IsIn-middle : (before after : List SqlCandidate) (c : SqlCandidate) → IsIn c (before ++ c ∷ after)
IsIn-middle [] after c = inl refl
IsIn-middle (b ∷ bs) after c = inr (IsIn-middle bs after c)

preferred_of-IsChoice :
    (name : Option String) (cs : List SqlCandidate) (c : SqlCandidate)
    → preferred_of name cs ≡ some c
    → IsIn c cs
      × (name ≡ none → (ds : List SqlCandidate) × (cs ≡ c ∷ ds))
      × ((n : String) → name ≡ some n → IsFirstNamed n cs c)
unfolding preferred_of
preferred_of-IsChoice name [] c h = cc
preferred_of-IsChoice none (d ∷ cs) c h =
    let same : d ≡ c = some_injective refl h in
    (inl (sym same), λ e. (cs, ap (λ x. x ∷ cs) same), λ n e. cc)
preferred_of-IsChoice (some m) (d ∷ cs) c h =
    let (before, after, split, named, earlier) = candidate_named_sound m (d ∷ cs) c h in
    (
      subst (IsIn c) (sym split) (IsIn-middle before after c),
      λ e. cc,
      λ n e.
          subst (λ k. IsFirstNamed k (d ∷ cs) c) (some_injective refl e)
            (before, after, split, named, earlier),
    )

pub preferred_candidate-IsChoice :
    (p : SqlGenerationPlan) (c : SqlCandidate) → preferred_candidate p ≡ some c → IsChoice p c
unfolding preferred_candidate
preferred_candidate-IsChoice p c h =
    let (listed, first, named) =
      preferred_of-IsChoice p.preferred_candidate_name p.candidates c h in
    record { listed = listed; first = first; preferred = named }

preferred_of_found :
    (name : Option String) (d : SqlCandidate) (cs : List SqlCandidate)
    → ((n : String) → name ≡ some n → names_candidate n (d ∷ cs) ≡ true)
    → (c : SqlCandidate) × (preferred_of name (d ∷ cs) ≡ some c)
unfolding preferred_of
preferred_of_found none d cs h = (d, refl)
preferred_of_found (some n) d cs h = candidate_named_found n (d ∷ cs) (h n refl)

is_valid_plan-preferred :
    (p : SqlGenerationPlan) (n : String)
    → is_valid_plan p ≡ true
    → p.preferred_candidate_name ≡ some n
    → names_candidate n p.candidates ≡ true
unfolding is_valid_plan
is_valid_plan-preferred p n h e = ground arith

pub is_valid_plan-ready :
    (p : SqlGenerationPlan)
    → is_valid_plan p ≡ true
    → p.status ≡ ready_for_dry_run
    → (d : SqlCandidate) × (cs : List SqlCandidate) × (p.candidates ≡ d ∷ cs)
unfolding is_valid_plan
is_valid_plan-ready p h e = list_cases p.candidates (ground arith)
  where
    list_cases :
        (l : List SqlCandidate)
        → l ≢ []
        → (d : SqlCandidate) × (cs : List SqlCandidate) × (l ≡ d ∷ cs)
    list_cases [] ne = absurd (ne refl)
    list_cases (d ∷ cs) ne = (d, cs, refl)

-- A plan that pydantic accepts and that is ready always has a candidate for the dry run, so the
-- branch of the node for a missing candidate is never taken. It is one of the plan's: the first one
-- where the plan has no preference, and otherwise the first one of the preferred name.
pub preferred_candidate-exists :
    (p : SqlGenerationPlan)
    → is_valid_plan p ≡ true
    → p.status ≡ ready_for_dry_run
    → (c : SqlCandidate) × (preferred_candidate p ≡ some c) × IsChoice p c
preferred_candidate-exists p h e =
    let (d, cs, q) = is_valid_plan-ready p h e in
    let (c, found) =
      preferred_of_found p.preferred_candidate_name d cs
        (λ n m. subst (λ l. names_candidate n l ≡ true) q (is_valid_plan-preferred p n h m)) in
    let chosen : preferred_candidate p ≡ some c = unfold preferred_candidate in rw q found in
    (c, chosen, preferred_candidate-IsChoice p c chosen)

pub validate_plan_ready :
    (validate_sql : Validator) (p : SqlGenerationPlan) (c : SqlCandidate)
    → p.status ≡ ready_for_dry_run
    → preferred_candidate p ≡ some c
    → validate_plan (some validate_sql) (some p) ≡ validate_sql c.name c.sql
unfolding validate_plan check_plan check_candidate
validate_plan_ready validate_sql p c ready chosen = rw (ready, chosen) refl

failed_validation_result-none :
    (text : String) → text ≢ "" → failed_validation_result text none ≡ ok (failure text none)
unfolding failed_validation_result new_validation_result
failed_validation_result-none text ne = rw (eq-false_of_ne text "" ne)

failed_validation_result-some :
    (text : String) (c : SqlCandidate)
    → text ≢ ""
    → c.name ≢ ""
    → c.sql ≢ ""
    → failed_validation_result text (some c) ≡ ok (failure text (some c))
unfolding failed_validation_result new_validation_result
failed_validation_result-some text c ne named written =
    rw (eq-false_of_ne text "" ne, eq-false_of_ne c.name "" named, eq-false_of_ne c.sql "" written)

text_or-ne : (o : Option String) (fallback : String) → fallback ≢ "" → text_or o fallback ≢ ""
text_or-ne none fallback h = h
text_or-ne (some s) fallback h = ground (arith, eq_iff s "")

is_valid_plan-sql :
    (p : SqlGenerationPlan) (c : SqlCandidate)
    → is_valid_plan p ≡ true
    → IsIn c p.candidates
    → c.sql ≢ ""
unfolding is_valid_plan
is_valid_plan-sql p c h m =
    let written : candidate_ok c ≡ true = all-IsIn candidate_ok p.candidates c (ground arith) m in
    ground (arith, eq_iff c.sql "")

-- A result of the fail-closed kind.
pub record IsClosed (m : Outcome SqlValidationResult) : Type 0 where
  pub result : SqlValidationResult
  pub returned : m ≡ ok result
  pub was_failed : result.status ≡ failed
  pub empty : result.validated_sql ≡ none

unready-IsClosed : (p : SqlGenerationPlan) → IsClosed (unready p)
unfolding unready
unready-IsClosed p = record {
  result = failure (text_or p.clarification_question "SQL 规划尚未生成可校验候选") none;
  returned = failed_validation_result-none _ (
      text_or-ne p.clarification_question "SQL 规划尚未生成可校验候选"
        (ground (arith, eq_iff "SQL 规划尚未生成可校验候选" "")));
  was_failed = refl;
  empty = refl;
}

check_candidate-IsClosed :
    (p : SqlGenerationPlan) (o : Option SqlCandidate)
    → is_valid_plan p ≡ true
    → ((c : SqlCandidate) → o ≡ some c → IsIn c p.candidates × (c.name ≢ ""))
    → IsClosed (check_candidate none o)
unfolding check_candidate
check_candidate-IsClosed p none h k = record {
  result = failure "SQL 规划没有可校验候选" none;
  returned = failed_validation_result-none _ (ground (arith, eq_iff "SQL 规划没有可校验候选" ""));
  was_failed = refl;
  empty = refl;
}
check_candidate-IsClosed p (some c) h k = record {
  result = failure "未配置 WrenAI SQL 校验客户端" (some c);
  returned =
      failed_validation_result-some _ c (ground (arith, eq_iff "未配置 WrenAI SQL 校验客户端" ""))
        (k c refl).1 (is_valid_plan-sql p c h (k c refl).0);
  was_failed = refl;
  empty = refl;
}

check_plan-IsClosed :
    (t : SqlPlanStatus) (p : SqlGenerationPlan)
    → is_valid_plan p ≡ true
    → ((c : SqlCandidate) → preferred_candidate p ≡ some c → c.name ≢ "")
    → IsClosed (check_plan none t p)
unfolding check_plan
check_plan-IsClosed ready_for_dry_run p h k =
    check_candidate-IsClosed p (preferred_candidate p) h
      (λ c e. ((preferred_candidate-IsChoice p c e).listed, k c e))
check_plan-IsClosed needs_clarification p h k = unready-IsClosed p
check_plan-IsClosed cannot_plan p h k = unready-IsClosed p

validate_plan-IsClosed :
    (o : Option SqlGenerationPlan)
    → ((p : SqlGenerationPlan) → o ≡ some p → is_valid_plan p ≡ true)
    → ((p : SqlGenerationPlan) (c : SqlCandidate)
        → o ≡ some p
        → preferred_candidate p ≡ some c
        → c.name ≢ "")
    → IsClosed (validate_plan none o)
unfolding validate_plan
validate_plan-IsClosed none h k = record {
  result = failure "SQL 规划结果为空或格式不合法" none;
  returned = failed_validation_result-none _ (ground (arith, eq_iff "SQL 规划结果为空或格式不合法" ""));
  was_failed = refl;
  empty = refl;
}
validate_plan-IsClosed (some p) h k = check_plan-IsClosed p.status p (h p refl) (λ c. k p c refl)

module _ (plans : Schema SqlGenerationPlan dump_plan is_valid_plan) where
  -- With no Wren client the node still returns, and what it writes is a failed result with no SQL to
  -- execute, whatever the plan in the state is; only the name of the chosen candidate must not be
  -- empty.
  pub sql_validate_fails_closed :
      (s : AgentState)
      → ((p : SqlGenerationPlan) (c : SqlCandidate)
          → sql_generation_plan_from_state plans s ≡ some p
          → preferred_candidate p ≡ some c
          → c.name ≢ "")
      → (r : SqlValidationResult) × (sql_validate plans none s ≡ ok (validation_writes r))
        × (r.status ≡ failed)
        × (r.validated_sql ≡ none)
  unfolding sql_validate
  sql_validate_fails_closed s k =
      let closed =
        validate_plan-IsClosed (sql_generation_plan_from_state plans s) (λ p e. plans.sound _ p e)
          k in
      (closed.result, rw closed.returned, closed.was_failed, closed.empty)
