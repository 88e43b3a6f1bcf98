-- ===== src/Agent/Graph/Carried.antt =====
-- What a run of the graph carries over from the state that it starts in: a checkpoint keeps the keys
-- of the turns before.
use nextbos_ai.Prelude.{
  ℕ, zero, suc, Bool, true, false, Option, none, some, List, [], ◌∷◌, ◌≡◌, refl, ap, sym, ◌∙◌, inl,
  inr, arith, all, IsIn, Outcome, ok, raise, Exception, ExceptionClass, ◌>>=◌, validation_error,
  some_injective, ok_injective, String,
}
use mathlib.Core.Path.{subst}
use nextbos_ai.Schemas.SqlExecution.{SqlExecutionResult}
use nextbos_ai.Schemas.Chart.{ChartPlan}
use nextbos_ai.Agent.State.{AgentState, Message, Write, apply_write, apply_writes}
use nextbos_ai.Agent.World.{ModelRuntime}
use nextbos_ai.Agent.Nodes.Summarize as SummarizeNode
use nextbos_ai.Agent.Nodes.Intent as IntentNode
use nextbos_ai.Agent.Nodes.WrenContext as WrenContextNode
use nextbos_ai.Agent.Nodes.SqlPlan as SqlPlanNode
use nextbos_ai.Agent.Nodes.SqlValidate as SqlValidateNode
use nextbos_ai.Agent.Nodes.SqlExecute as SqlExecuteNode
use nextbos_ai.Agent.Nodes.ChartPlan as ChartPlanNode
use nextbos_ai.Agent.Nodes.Clarify as ClarifyNode
use nextbos_ai.Agent.Nodes.Respond as RespondNode
use nextbos_ai.Agent.Nodes.Tools as ToolsNode
use nextbos_ai.Agent.Graph.{
  Dependencies, NodeName, summarize, intent, wren_context, sql_plan, sql_validate, sql_execute,
  chart_plan, chart_spec, clarify, respond, tools, final_respond, GraphRun, Target, stop, node,
  fallback_respond, sql_execute_run, execution_writes, runtime_node, run_node, next_node, query_of,
  validator_of, continue, merge, run, invoke,
}

-- The write is of another key than `chart_spec_result`.
abbrev pub is_other_write : Write → Bool
is_other_write (Write.chart_spec_result v) = false
is_other_write _ = true

-- What returns does not write that key.
pub record KeepsChart (o : Outcome (List Write)) : Type 0 where
  pub kept : (ws : List Write) → o ≡ ok ws → all is_other_write ws ≡ true

pub KeepsChart-ok : (ws : List Write) → all is_other_write ws ≡ true → KeepsChart (ok ws)
KeepsChart-ok ws h = record {
  kept = λ vs e. subst (λ l. all is_other_write l ≡ true) (ok_injective e) h;
}

KeepsChart-raise : (e : Exception) → KeepsChart (raise e)
KeepsChart-raise e = record { kept = λ ws h. cc }

KeepsChart-bind :
    {A : Type 0} (m : Outcome A) (rest : A → Outcome (List Write))
    → ((a : A) → KeepsChart (rest a))
    → KeepsChart (m >>= rest)
KeepsChart-bind (ok a) rest k = k a
KeepsChart-bind (raise e) rest k = KeepsChart-raise e

apply_write-keeps :
    (add_messages : List Message → List Message → List Message) (s : AgentState) (w : Write)
    → is_other_write w ≡ true
    → (apply_write add_messages s w).chart_spec_result ≡ s.chart_spec_result
unfolding apply_write
apply_write-keeps add_messages s (Write.chart_spec_result v) h = cc
apply_write-keeps add_messages s _ h = refl

module _ (add_messages : List Message → List Message → List Message) where
  apply_writes-keeps :
      (s : AgentState) (ws : List Write)
      → all is_other_write ws ≡ true
      → (apply_writes add_messages s ws).chart_spec_result ≡ s.chart_spec_result
  unfolding apply_writes
  apply_writes-keeps s [] h = refl
  apply_writes-keeps s (w ∷ ws) h =
      apply_writes-keeps (apply_write add_messages s w) ws (ground arith)
      ∙ apply_write-keeps add_messages s w (ground arith)

module _ (d : Dependencies) where
  -- The components from outside the repository do not write the key.
  pub record OthersKeepChart : Type 0 where
    pub tool_node_keeps : (s : AgentState) → KeepsChart (d.tool_node s)
    pub summarization_keeps :
        (n : SummarizeNode.SummarizationNode) (o : SummarizeNode.SummaryOptions) (s : AgentState)
        → d.summarization ≡ some n
        → KeepsChart (n o s)

  summarize-keeps :
      (n : Option SummarizeNode.SummarizationNode) (o : Option SummarizeNode.SummaryOptions)
      (s : AgentState)
      → ((m : SummarizeNode.SummarizationNode) (p : SummarizeNode.SummaryOptions)
          → n ≡ some m
          → KeepsChart (m p s))
      → KeepsChart (SummarizeNode.summarize n o s)
  unfolding SummarizeNode.summarize SummarizeNode.skip_summarization
  summarize-keeps none o s k = KeepsChart-ok _ refl
  summarize-keeps (some n) o s k = k n (SummarizeNode.options_or_default o) refl

  intent-keeps :
      (r : ModelRuntime) (s : AgentState) → KeepsChart (IntentNode.intent d.world d.decisions r s)
  unfolding IntentNode.intent IntentNode.intent_writes
  intent-keeps r s = search (KeepsChart-bind, KeepsChart-ok)

  wren_context-keeps :
      (q : Option WrenContextNode.ContextQuery) (s : AgentState)
      → KeepsChart (WrenContextNode.wren_context d.world d.requests q s)
  unfolding WrenContextNode.wren_context
  wren_context-keeps q s = search (KeepsChart-bind, KeepsChart-ok)

  sql_plan-keeps :
      (r : ModelRuntime) (s : AgentState) → KeepsChart (SqlPlanNode.sql_plan d.world d.plans r s)
  unfolding SqlPlanNode.sql_plan
  sql_plan-keeps r s = search (KeepsChart-bind, KeepsChart-ok)

  sql_validate-keeps :
      (v : Option SqlValidateNode.Validator) (s : AgentState)
      → KeepsChart (SqlValidateNode.sql_validate d.plans v s)
  unfolding SqlValidateNode.sql_validate SqlValidateNode.validation_writes
  sql_validate-keeps v s = search (KeepsChart-bind, KeepsChart-ok)

  execution-keeps : (o : Outcome SqlExecutionResult) → KeepsChart (execution_writes o)
  unfolding execution_writes SqlExecuteNode.execution_writes
  execution-keeps (raise e) = KeepsChart-raise e
  execution-keeps (ok r) = KeepsChart-ok _ refl

  planned-keeps :
      (snapshot_id : Option String) (o : Outcome ChartPlan)
      → KeepsChart (ChartPlanNode.planned snapshot_id o)
  unfolding ChartPlanNode.planned ChartPlanNode.on_invalid
  planned-keeps snapshot_id (ok plan) = KeepsChart-ok _ refl
  planned-keeps snapshot_id (raise e) = invalid-keeps e.class
    where
      invalid-keeps : (c : ExceptionClass) → KeepsChart (ChartPlanNode.on_invalid snapshot_id c e)
      invalid-keeps validation_error = KeepsChart-ok _ refl
      invalid-keeps _ = KeepsChart-raise e

  chart_plan-keeps :
      (r : Option ModelRuntime) (s : AgentState)
      → KeepsChart (ChartPlanNode.chart_plan d.world d.chart_plans r s)
  unfolding ChartPlanNode.chart_plan
  chart_plan-keeps none s = KeepsChart-ok _ refl
  chart_plan-keeps (some r) s = search (KeepsChart-bind, planned-keeps)

  respond-keeps :
      (o : RespondNode.RespondOptions) (r : ModelRuntime) (s : AgentState)
      → KeepsChart (RespondNode.respond d.world o r s)
  unfolding RespondNode.respond
  respond-keeps o r s = search (KeepsChart-bind, KeepsChart-ok)

  runtime_node-keeps :
      (others : OthersKeepChart) (rt : Option ModelRuntime) (n : NodeName) (s : AgentState)
      → (chart_spec ≡ n → ⊥)
      → KeepsChart (runtime_node d rt n s).result
  unfolding runtime_node sql_execute_run fallback_respond ClarifyNode.clarify ToolsNode.tools
  runtime_node-keeps others rt summarize s h =
      summarize-keeps d.summarization d.summary_options s
        (λ m p e. others.summarization_keeps m p s e)
  runtime_node-keeps others rt tools s h = others.tool_node_keeps s
  runtime_node-keeps others none respond s h = KeepsChart-ok _ refl
  runtime_node-keeps others none final_respond s h = KeepsChart-ok _ refl
  runtime_node-keeps others (some r) respond s h = respond-keeps RespondNode.first_respond r s
  runtime_node-keeps others (some r) final_respond s h = respond-keeps RespondNode.last_respond r s
  runtime_node-keeps others (some r) intent s h = intent-keeps r s
  runtime_node-keeps others (some r) wren_context s h =
      wren_context-keeps (query_of d.wren_context_client) s
  runtime_node-keeps others (some r) sql_plan s h = sql_plan-keeps r s
  runtime_node-keeps others (some r) sql_validate s h =
      sql_validate-keeps (validator_of d.wren_context_client) s
  runtime_node-keeps others (some r) sql_execute s h = execution-keeps _
  runtime_node-keeps others (some r) chart_plan s h = chart_plan-keeps (some r) s
  runtime_node-keeps others (some r) chart_spec s h = absurd (h refl)
  runtime_node-keeps others (some r) clarify s h = KeepsChart-ok _ refl
  runtime_node-keeps others none _ s h = KeepsChart-raise _

  -- The state of a result that came to its end.
  abbrev EndsLike : AgentState → GraphRun → Type 0
  EndsLike s r =
      (s' : AgentState)
      → r.result ≡ some (ok s')
      → (IsIn chart_spec r.visited → ⊥)
      → s'.chart_spec_result ≡ s.chart_spec_result

  continue-EndsLike :
      (rest : NodeName → AgentState → GraphRun) (t : Target) (s : AgentState)
      → ((m : NodeName) → EndsLike s (rest m s))
      → EndsLike s (continue rest t s)
  unfolding continue
  continue-EndsLike rest stop s h s' e v =
      sym (ap (λ x. x.chart_spec_result) (ok_injective (some_injective refl e)))
  continue-EndsLike rest (node m) s h s' e v = h m s' e v

  merge-EndsLike :
      (rest : NodeName → AgentState → GraphRun) (n : NodeName) (s : AgentState)
      (o : Outcome (List Write))
      → KeepsChart o
      → ((m : NodeName) (x : AgentState) → EndsLike x (rest m x))
      → EndsLike s (merge d rest n s o)
  unfolding merge
  merge-EndsLike rest n s (raise e) k h s' q v = cc
  merge-EndsLike rest n s (ok ws) k h s' q v =
      let next = apply_writes d.add_messages s ws in
      continue-EndsLike rest (next_node d n next) next (λ m. h m next) s' q v
      ∙ apply_writes-keeps d.add_messages s ws (k.kept ws refl)

  run-EndsLike :
      (others : OthersKeepChart) (fuel : ℕ) (n : NodeName) (s : AgentState)
      → EndsLike s (run d fuel n s)
  unfolding run run_node
  run-EndsLike others zero n s s' e v = cc
  run-EndsLike others (suc fuel) n s s' e v =
      merge-EndsLike (run d fuel) n s (run_node d n s).result
        (runtime_node-keeps others d.model_runtime n s (λ q. v (inl q)))
        (λ m x. run-EndsLike others fuel m x) s' e (λ i. v (inr i))

  -- A run that ends without a visit to `chart_spec`, as for a direct answer, leaves the chart in
  -- the state as it found it, so also one that a checkpoint kept from an earlier question. The
  -- tool node and LangMem's node are assumed not to write the chart.
  pub invoke-chart_spec_result :
      (s s' : AgentState)
      → OthersKeepChart
      → (invoke d s).result ≡ some (ok s')
      → (IsIn chart_spec (invoke d s).visited → ⊥)
      → s'.chart_spec_result ≡ s.chart_spec_result
  unfolding invoke
  invoke-chart_spec_result s s' others e v = run-EndsLike others 10 summarize s s' e v
