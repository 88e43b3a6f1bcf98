-- ===== src/Agent/Nodes/Intent.antt =====
-- agent/nodes/intent.py
use nextbos_ai.Prelude.{String, Option, List, [], ◌∷◌, ◌++◌, ◌<>◌, Outcome, ok, ◌>>=◌}
use nextbos_ai.Value.{str}
use nextbos_ai.Schemas.Model.{Schema, validated}
use nextbos_ai.Schemas.Intent.{IntentDecision, dump_decision, is_valid_decision, route_target_text}
use nextbos_ai.Agent.State.{
  AgentState, Message, Write, intent_decision, route_target, llm_snapshot_id, message, system,
}
use nextbos_ai.Agent.World.{World, ModelRuntime}
use nextbos_ai.Agent.Nodes.Inputs.{model_input, latest_human_question}
use nextbos_ai.Agent.Nodes.Route.{route_intent_decision}

module _ (w : World) where
  unfoldable pub intent_messages : List Message → String → List Message
  intent_messages ms question =
      message system w.intent_prompt ∷ (ms ++ message system ("当前需要识别意图的用户问题是：\n" <> question) ∷ [])

-- The update of the state for a decision.
unfoldable pub intent_writes : IntentDecision → Option String → List Write
intent_writes d snapshot_id =
    intent_decision (dump_decision d)
    ∷ route_target (str (route_target_text (route_intent_decision d)))
    ∷ llm_snapshot_id snapshot_id
    ∷ []

module _ (w : World) (decisions : Schema IntentDecision dump_decision is_valid_decision) where
  -- The node.
  unfoldable pub intent : ModelRuntime → AgentState → Outcome (List Write)
  unfolding intent_messages latest_human_question
  intent runtime s = do
    let ms = model_input s
    let question = latest_human_question w ms
    config ← runtime.resolve_config s.model_options
    chat_model ← runtime.create_chat_model config
    answer ← chat_model.structured "IntentDecision" (intent_messages w ms question)
    decision ← validated (decisions.model_validate answer)
    ok (intent_writes decision config.snapshot_id)
