-- ===== src/Agent/Graph/Safety.antt =====
-- What a whole run of the graph hands to the database.
use mathlib.Core.Path.{subst}
use nextbos_ai.Prelude.{
  ℕ, zero, suc, String, Option, none, some, List, [], ◌++◌, ◌≡◌, ◌≢◌, refl, arith, inl, inr,
  Outcome, ok, raise, IsIn, IsIn-append,
}
use nextbos_ai.Schemas.SqlValidation.{SqlValidationResult}
use nextbos_ai.Agent.State.{AgentState, Write, apply_writes}
use nextbos_ai.Agent.World.{ModelRuntime}
use nextbos_ai.Agent.Nodes.SqlValidate.{
  sql_validate as validate_node, sql_generation_plan_from_state,
}
use nextbos_ai.Agent.Nodes.SqlValidate.Pipeline.{IsDryRun, ReturnsValid, sql_validate-sql_execute}
use nextbos_ai.Agent.Nodes.SqlExecute.{sql_execute as execute_node}
use nextbos_ai.Agent.Nodes.SqlExecute.Safety.{Allows}
use nextbos_ai.Agent.Graph.{
  NodeName, summarize, sql_validate, sql_execute, tools, Target, node, stop, Dependencies, GraphRun,
  run_node, runtime_node, next_node, continue, merge, run, invoke, validator_of,
}

-- The statement is the validated SQL of a passed result without errors, and that result is what the
-- Wren client returned for the preferred candidate of a ready plan that stood in a state of the run.
pub record IsSafe (d : Dependencies) (sql : String) : Type 0 where
  pub state : AgentState
  pub result : SqlValidationResult
  pub dry_run :
      IsDryRun
        (validator_of d.wren_context_client)
        (sql_generation_plan_from_state d.plans state)
        result
  pub allowed : Allows result sql

module _ (d : Dependencies) where
  runtime_node-quiet :
      (rt : Option ModelRuntime) (n : NodeName) (s : AgentState)
      → n ≢ sql_execute
      → (runtime_node d rt n s).executed ≡ []
  unfolding runtime_node
  runtime_node-quiet rt summarize s h = refl
  runtime_node-quiet rt tools s h = refl
  runtime_node-quiet none n s h = ground arith
  runtime_node-quiet (some r) sql_execute s h = absurd (h refl)
  runtime_node-quiet (some r) n s h = ground arith

  -- `sql_execute` is entered from `sql_validate` alone.
  next_node-ne-sql_execute :
      (n m : NodeName) (s : AgentState)
      → n ≢ sql_validate
      → next_node d n s ≡ node m
      → m ≢ sql_execute
  unfolding next_node
  next_node-ne-sql_execute sql_validate m s h e = absurd (h refl)
  next_node-ne-sql_execute _ m s h e = ground arith

  next_node-sql_validate :
      (m : NodeName) (s : AgentState) → next_node d sql_validate s ≡ node m → m ≡ sql_execute
  unfolding next_node
  next_node-sql_validate m s e = cc

  continue_safe :
      (rest : NodeName → AgentState → GraphRun) (t : Target) (s : AgentState) (sql : String)
      → ((m : NodeName) → t ≡ node m → IsIn sql (rest m s).executed → IsSafe d sql)
      → IsIn sql (continue rest t s).executed
      → IsSafe d sql
  unfolding continue
  continue_safe rest stop s sql h m = absurd m
  continue_safe rest (node n) s sql h m = h n refl m

  merge_safe :
      (rest : NodeName → AgentState → GraphRun) (n : NodeName) (s : AgentState)
      (r : Outcome (List Write)) (sql : String)
      → ((ws : List Write) (m : NodeName)
          → r ≡ ok ws
          → next_node d n (apply_writes d.add_messages s ws) ≡ node m
          → IsIn sql (rest m (apply_writes d.add_messages s ws)).executed
          → IsSafe d sql)
      → IsIn sql (merge d rest n s r).executed
      → IsSafe d sql
  unfolding merge
  merge_safe rest n s (raise e) sql h m = absurd m
  merge_safe rest n s (ok ws) sql h m =
      let s' = apply_writes d.add_messages s ws in
      continue_safe rest (next_node d n s') s' sql (λ k e i. h ws k refl e i) m

  runtime_node-validate :
      (rt : Option ModelRuntime) (s : AgentState) (ws : List Write)
      → (runtime_node d rt sql_validate s).result ≡ ok ws
      → validate_node d.plans (validator_of d.wren_context_client) s ≡ ok ws
  unfolding runtime_node
  runtime_node-validate none s ws h = cc
  runtime_node-validate (some r) s ws h = h

  runtime_node-execute :
      (rt : Option ModelRuntime) (s : AgentState) (sql : String)
      → IsIn sql (runtime_node d rt sql_execute s).executed
      → IsIn sql (execute_node d.validations d.sql_execution_client 100 d.query_id s).executed
  unfolding runtime_node
  runtime_node-execute none s sql m = absurd m
  runtime_node-execute (some r) s sql m = m

  module _ (valid : ReturnsValid (validator_of d.wren_context_client)) where
    pipeline_safe :
        (s : AgentState) (ws : List Write) (sql : String)
        → (run_node d sql_validate s).result ≡ ok ws
        → IsIn sql (run_node d sql_execute (apply_writes d.add_messages s ws)).executed
        → IsSafe d sql
    unfolding run_node
    pipeline_safe s ws sql h m =
        let (r, dry, allowed) =
          sql_validate-sql_execute d.plans d.validations d.add_messages
            (validator_of d.wren_context_client) valid d.sql_execution_client 100 d.query_id s ws
            sql (runtime_node-validate d.model_runtime s ws h)
            (runtime_node-execute d.model_runtime (apply_writes d.add_messages s ws) sql m) in
        record { state = s; result = r; dry_run = dry; allowed = allowed }

    -- One round of a run: the node is not `sql_execute`, and the rest of the run is safe.
    round_safe :
        (rest : NodeName → AgentState → GraphRun) (n : NodeName) (s : AgentState) (sql : String)
        → n ≢ sql_execute
        → ((ws : List Write) (m : NodeName)
            → (run_node d n s).result ≡ ok ws
            → next_node d n (apply_writes d.add_messages s ws) ≡ node m
            → IsIn sql (rest m (apply_writes d.add_messages s ws)).executed
            → IsSafe d sql)
        → IsIn sql
            ((run_node d n s).executed ++ (merge d rest n s (run_node d n s).result).executed)
        → IsSafe d sql
    unfolding run_node
    round_safe rest n s sql ne h m = merge_safe rest n s (run_node d n s).result sql h (
        subst (λ l. IsIn sql (l ++ (merge d rest n s (run_node d n s).result).executed))
          (runtime_node-quiet d.model_runtime n s ne) m)

NodeName-discrete : Discrete NodeName
NodeName-discrete = hlevel

module _ (d : Dependencies) (valid : ReturnsValid (validator_of d.wren_context_client))
    (sql : String) where
  -- What is shown for each amount of fuel: a run from another node than `sql_execute` is safe, and
  -- so is a run from `sql_execute` on the state that `sql_validate` has left.
  record SafeFuel (fuel : ℕ) : Type 0 where
    elsewhere :
        (n : NodeName) (s : AgentState)
        → n ≢ sql_execute
        → IsIn sql (run d fuel n s).executed
        → IsSafe d sql
    validated :
        (s : AgentState) (ws : List Write)
        → (run_node d sql_validate s).result ≡ ok ws
        → IsIn sql (run d fuel sql_execute (apply_writes d.add_messages s ws)).executed
        → IsSafe d sql

  SafeFuel-zero : SafeFuel zero
  unfolding run
  SafeFuel-zero = record { elsewhere = λ n s ne m. absurd m; validated = λ s ws h m. absurd m }

  module _ (fuel : ℕ) (safe : SafeFuel fuel) where
    after_validate :
        (n : NodeName) (s : AgentState) (ws : List Write) (k : NodeName)
        → n ≡ sql_validate
        → (run_node d n s).result ≡ ok ws
        → next_node d n (apply_writes d.add_messages s ws) ≡ node k
        → IsIn sql (run d fuel k (apply_writes d.add_messages s ws)).executed
        → IsSafe d sql
    after_validate n s ws k p h e i =
        let s' : AgentState = apply_writes d.add_messages s ws in
        let entered : k ≡ sql_execute =
          next_node-sql_validate d k s' (subst (λ a. next_node d a s' ≡ node k) p e) in
        safe.validated s ws (subst (λ a. (run_node d a s).result ≡ ok ws) p h)
          (subst (λ a. IsIn sql (run d fuel a s').executed) entered i)

  elsewhere-suc :
      (fuel : ℕ) (safe : SafeFuel fuel) (n : NodeName) (s : AgentState)
      → n ≢ sql_execute
      → IsIn sql (run d (suc fuel) n s).executed
      → IsSafe d sql
  unfolding run
  elsewhere-suc fuel safe n s ne m =
      round_safe d valid (run d fuel) n s sql ne
        (λ ws k h e i. elim (NodeName-discrete n sql_validate) [
          | yes p ↦ after_validate fuel safe n s ws k p h e i
          | no p ↦
              safe.elsewhere k (apply_writes d.add_messages s ws)
                (next_node-ne-sql_execute d n k _ p e) i
        ])
        m

  validated-suc :
      (fuel : ℕ) (safe : SafeFuel fuel) (s : AgentState) (ws : List Write)
      → (run_node d sql_validate s).result ≡ ok ws
      → IsIn sql (run d (suc fuel) sql_execute (apply_writes d.add_messages s ws)).executed
      → IsSafe d sql
  unfolding run
  validated-suc fuel safe s ws h m =
      let s' : AgentState = apply_writes d.add_messages s ws in
      elim (IsIn-append (run_node d sql_execute s').executed _ sql m) [
        | inl here ↦ pipeline_safe d valid s ws sql h here
        | inr later ↦
            merge_safe d (run d fuel) sql_execute s' (run_node d sql_execute s').result sql
              (λ ws' k r e i.
                safe.elsewhere k (apply_writes d.add_messages s' ws')
                  (next_node-ne-sql_execute d sql_execute k _ (cc) e) i)
              later
      ]

  SafeFuel-all : (fuel : ℕ) → SafeFuel fuel
  SafeFuel-all zero = SafeFuel-zero
  SafeFuel-all (suc fuel) =
      let safe = SafeFuel-all fuel in
      record { elsewhere = elsewhere-suc fuel safe; validated = validated-suc fuel safe }

-- Every statement that a run of the graph hands to the execution client is the validated SQL of a
-- passed result without errors, which the Wren client returned for the preferred candidate of a
-- ready plan in a state of that run. This holds from any initial state, also one that carries a
-- validation result, and whatever the model, the tools and the execution client answer. The Wren
-- client is assumed to return instances of the result's model.
pub invoke-IsSafe :
    (d : Dependencies) (s : AgentState) (sql : String)
    → ReturnsValid (validator_of d.wren_context_client)
    → IsIn sql (invoke d s).executed
    → IsSafe d sql
unfolding invoke
invoke-IsSafe d s sql valid m = (SafeFuel-all d valid sql 10).elsewhere summarize s (cc) m
