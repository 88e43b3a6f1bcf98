-- ===== src/Agent/Graph/Planned.antt =====
-- A whole run of the graph with the Wren client of integrations/business/wren.py.
use nextbos_ai.Prelude.{
  String, Option, some, ◌≡◌, ap, ◌∙◌, arith, some_injective, false, Outcome, ok, IsIn, inl, inr,
}
use nextbos_ai.Value.{Fields, get, is_false}
use nextbos_ai.Schemas.SqlPlan.{SqlCandidate, SqlGenerationPlan, ready_for_dry_run}
use nextbos_ai.Schemas.SqlValidation.{passed, SqlValidationResult}
use nextbos_ai.Agent.State.{AgentState}
use nextbos_ai.Agent.World.{World, text_of}
use nextbos_ai.Agent.Nodes.SqlValidate.{
  Validator, preferred_candidate, sql_generation_plan_from_state,
}
use nextbos_ai.Agent.Nodes.SqlValidate.Pipeline.{ReturnsValid}
use nextbos_ai.Agent.Graph.{Dependencies, invoke, validator_of}
use nextbos_ai.Agent.Graph.Safety.{IsSafe, invoke-IsSafe}
use nextbos_ai.Integrations.WrenTypes.{WrenProjectConfig}
use nextbos_ai.Integrations.Wren.{Toolkit, WrenLangChainContextClient, get_tools}
use nextbos_ai.Integrations.Wren.Validation.{
  Check, dry_plan_answer, dialect_sql_of, validate_sql_sync,
}
use nextbos_ai.Integrations.Wren.Validation.Checks.{
  IsPlanned, IsVerdict, IsRefused, validate_sql_sync-IsVerdict,
}

-- `validate_sql(candidate_name=…, sql=…)` with its default attempts, in a state of the client.
abbrev pub first_check : String → String → Check
first_check name sql = record {
  candidate_name = name;
  sql = sql;
  repair_attempt = 0;
  max_repair_attempts = 2;
}

abbrev pub langchain_validator :
    World → (WrenProjectConfig → Outcome Toolkit) → WrenLangChainContextClient → Validator
langchain_validator w load client name sql =
    (validate_sql_sync w load client (first_check name sql)).result

-- The statement is the text of the dialect SQL that `wren_dry_plan` gave for the preferred candidate
-- of a ready plan, which stood in a state of the run.
pub record IsDryPlanned (d : Dependencies) (load : WrenProjectConfig → Outcome Toolkit)
    (client : WrenLangChainContextClient) (sql : String) : Type 0 where
  pub state : AgentState
  pub plan : SqlGenerationPlan
  pub candidate : SqlCandidate
  pub payload : Fields
  pub planned : sql_generation_plan_from_state d.plans state ≡ some plan
  pub ready : plan.status ≡ ready_for_dry_run
  pub preferred : preferred_candidate plan ≡ some candidate
  pub answered : dry_plan_answer (get_tools load client).result candidate.sql ≡ ok payload
  pub accepted : is_false (get "ok" payload) ≡ false
  pub text : sql ≡ text_of d.world (dialect_sql_of payload)

refused_not_passed :
    (r : SqlValidationResult) (c : Check) (answer : Outcome Fields)
    → IsRefused c answer r
    → r.status ≡ passed
    → ⊥
refused_not_passed r c answer h p = ground (arith, h.repairable, h.exhausted)

module _ (w : World) (load : WrenProjectConfig → Outcome Toolkit)
    (client : WrenLangChainContextClient) where
  validator_returned :
      (o : Option Validator) (f : Validator) (name sql : String) (r : SqlValidationResult)
      → o ≡ some (langchain_validator w load client)
      → o ≡ some f
      → f name sql ≡ ok r
      → (validate_sql_sync w load client (first_check name sql)).result ≡ ok r
  validator_returned o f name sql r e same h = ap (λ g. g name sql) (some_injective e same) ∙ h

  verdict :
      (o : Option Validator) (f : Validator) (name sql : String) (r : SqlValidationResult)
      → o ≡ some (langchain_validator w load client)
      → o ≡ some f
      → f name sql ≡ ok r
      → IsVerdict w (first_check name sql) (dry_plan_answer (get_tools load client).result sql) r
  verdict o f name sql r e same h =
      validate_sql_sync-IsVerdict w load client (first_check name sql) r
        (validator_returned o f name sql r e same h)

  pub langchain_validator-ReturnsValid :
      (o : Option Validator) → o ≡ some (langchain_validator w load client) → ReturnsValid o
  langchain_validator-ReturnsValid o e f name sql r same h = (verdict o f name sql r e same h).valid

IsPlanned-of_verdict :
    (w : World) (c : Check) (answer : Outcome Fields) (r : SqlValidationResult)
    → IsVerdict w c answer r
    → r.status ≡ passed
    → IsPlanned w answer r
IsPlanned-of_verdict w c answer r v p = elim v.outcome [
  | inl q ↦ q
  | inr q ↦ absurd (refused_not_passed r c answer q p)
]

module _ (d : Dependencies) (load : WrenProjectConfig → Outcome Toolkit)
    (client : WrenLangChainContextClient)
    (e : validator_of d.wren_context_client ≡ some (langchain_validator d.world load client)) where
  IsDryPlanned-of_safe : (sql : String) → IsSafe d sql → IsDryPlanned d load client sql
  IsDryPlanned-of_safe sql safe =
      let run = safe.dry_run in
      let v =
        verdict d.world load client (validator_of d.wren_context_client) run.validate_sql
          run.candidate.name run.candidate.sql safe.result e run.configured run.returned in
      let q = IsPlanned-of_verdict d.world _ _ safe.result v safe.allowed.was_passed in
      record {
        state = safe.state;
        plan = run.plan;
        candidate = run.candidate;
        payload = q.payload;
        planned = run.planned;
        ready = run.ready;
        preferred = run.preferred;
        answered = q.answered;
        accepted = q.accepted;
        text = some_injective safe.allowed.validated q.text;
      }

  -- Where the graph is built with the Wren client of the repository, every statement that a run
  -- hands to the execution client is the text of the dialect SQL that the tool `wren_dry_plan` gave,
  -- with an `ok` that is not false, for the SQL of the preferred candidate of a ready plan, which
  -- stood in a state of that run. This holds for any initial state and any model and tools.
  pub invoke-IsDryPlanned :
      (s : AgentState) (sql : String)
      → IsIn sql (invoke d s).executed
      → IsDryPlanned d load client sql
  invoke-IsDryPlanned s sql m = IsDryPlanned-of_safe sql (
      invoke-IsSafe d s sql
        (langchain_validator-ReturnsValid d.world load client (validator_of d.wren_context_client)
          e)
        m)
