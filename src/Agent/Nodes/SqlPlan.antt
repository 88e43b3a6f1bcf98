-- ===== src/Agent/Nodes/SqlPlan.antt =====
-- agent/nodes/sql_plan.py
use nextbos_ai.Prelude.{
  String, none, some, List, [], ◌∷◌, ◌++◌, ◌==◌, ◌<>◌, Outcome, ok, raise, catch, Exception,
  ExceptionClass, validation_error, ◌>>=◌, if◌then◌else◌,
}
use nextbos_ai.Value.{str, obj, end, field, get, truthy, or_else}
use nextbos_ai.Schemas.Model.{Schema, validated}
use nextbos_ai.Schemas.SqlPlan.{
  cannot_plan, lookup, SqlGenerationPlan, new_plan, dump_plan, is_valid_plan,
}
use nextbos_ai.Agent.State.{
  AgentState, Message, Write, sql_generation_plan, llm_snapshot_id, message, system,
}
use nextbos_ai.Agent.World.{World, ModelRuntime, ChatModel, text_of}
use nextbos_ai.Agent.Nodes.Inputs.{model_input, snapshot, latest_human_question}

module _ (w : World) where
  unfoldable pub current_question : AgentState → List Message → String
  unfolding latest_human_question
  current_question s ms =
      let rewritten = get "question_rewrite" (snapshot s.intent_decision) in
      let requested = get "question" (snapshot s.wren_context_request) in
      if truthy rewritten
      then text_of w rewritten
      else if truthy requested
      then text_of w requested
      else latest_human_question w ms

  unfoldable pub sql_plan_messages : AgentState → List Message → String → List Message
  sql_plan_messages s ms question =
      let payload = obj (
        field "current_question" (str question) (
          field "intent_decision" (or_else s.intent_decision (obj end)) (
            field "wren_context_request" (or_else s.wren_context_request (obj end))
              (field "wren_context" (or_else s.wren_context (obj end)) end)))) in
      message system w.sql_plan_prompt
      ∷ (ms ++ message system ("当前需要生成 SQL 计划的结构化输入是：\n" <> w.json_dumps payload) ∷ [])

abbrev question_or_default : String → String
question_or_default q = if q == "" then "当前业务问题" else q

abbrev pub fallback_plan : String → SqlGenerationPlan
fallback_plan question = record {
  status = cannot_plan;
  query_intent = lookup;
  question = question_or_default question;
  planning_summary = "SQL 规划结构化输出校验失败，已停止进入 dry-run。";
  models = [];
  metrics = [];
  dimensions = [];
  filters = [];
  time_range = none;
  assumptions = [];
  steps = [];
  candidates = [];
  preferred_candidate_name = none;
  clarification_question = some "当前业务上下文不足以生成可靠 SQL，请补充更明确的查询条件。";
  confidence = 0;
}

unfoldable pub fallback_sql_generation_plan : String → Outcome SqlGenerationPlan
fallback_sql_generation_plan question = new_plan (fallback_plan question)

-- `except ValidationError`: any other exception leaves the node.
on_invalid : String → ExceptionClass → Exception → Outcome SqlGenerationPlan
unfolding fallback_sql_generation_plan
on_invalid question validation_error e = fallback_sql_generation_plan question
on_invalid question _ e = raise e

module _ (w : World) (plans : Schema SqlGenerationPlan dump_plan is_valid_plan) where
  unfoldable pub plan_or_fallback : ChatModel → List Message → String → Outcome SqlGenerationPlan
  unfolding on_invalid
  plan_or_fallback chat_model prompt question =
      catch
        (do
          answer ← chat_model.structured "SqlGenerationPlan" prompt
          validated (plans.model_validate answer))
        (λ e. on_invalid question e.class e)

  -- The node.
  unfoldable pub sql_plan : ModelRuntime → AgentState → Outcome (List Write)
  unfolding plan_or_fallback current_question sql_plan_messages
  sql_plan runtime s = do
    let ms = model_input s
    let question = current_question w s ms
    config ← runtime.resolve_config s.model_options
    chat_model ← runtime.create_chat_model config
    plan ← plan_or_fallback chat_model (sql_plan_messages w s ms question) question
    ok (sql_generation_plan (dump_plan plan) ∷ llm_snapshot_id config.snapshot_id ∷ [])
