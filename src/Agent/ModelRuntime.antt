-- ===== src/Agent/ModelRuntime.antt =====
-- agent/model_runtime.py
pub mod Reaches
use nextbos_ai.Prelude.{String, Option, none, some, Outcome, ok, raise, ◌>>=◌}
use nextbos_ai.Value.{Value, Fields, end, get}
use nextbos_ai.Llm.Models.{EffectiveModelConfig}
use nextbos_ai.Llm.ConfigResolver.{
  ModelSelection, RequestedModelParams, ModelConfigRepository, Settings, resolve,
}
use nextbos_ai.Llm.ChatModels.{build_chat_model_kwargs}
use nextbos_ai.Agent.State.{ChatModelOptions}
use nextbos_ai.Agent.World.{ChatModel, ModelRuntime}

abbrev pub params_of : Option Fields → Fields
params_of none = end
params_of (some p) = p

-- `_to_requested_params`.
unfoldable pub to_requested_params : Option Fields → RequestedModelParams
to_requested_params params = record {
  temperature = get "temperature" (params_of params);
  max_tokens = get "max_tokens" (params_of params);
  top_p = get "top_p" (params_of params);
  timeout_seconds = get "timeout_seconds" (params_of params);
}

abbrev alias_in : Option ChatModelOptions → Option String
alias_in none = none
alias_in (some o) = o.model_alias

abbrev pub params_in : Option ChatModelOptions → Option Fields
params_in none = none
params_in (some o) = o.model_params

-- `resolve_config`.
unfoldable pub resolve_config :
    (Value → String)
    → ModelConfigRepository
    → Settings
    → Option ChatModelOptions
    → Outcome EffectiveModelConfig
unfolding to_requested_params
resolve_config sha256_json repository settings options =
    resolve sha256_json repository settings (some (record { model_alias = alias_in options }))
      (some (to_requested_params (params_in options)))

-- `create_langchain_chat_model`, for a factory of LangChain.
unfoldable pub create_chat_model :
    (Fields → Outcome ChatModel) → EffectiveModelConfig → Outcome ChatModel
create_chat_model factory config = do kwargs ← build_chat_model_kwargs config; factory kwargs

-- `AgentModelRuntime`, as the nodes use it.
abbrev pub agent_model_runtime :
    (Value → String)
    → ModelConfigRepository
    → Settings
    → (Fields → Outcome ChatModel)
    → ModelRuntime
agent_model_runtime sha256_json repository settings factory = record {
  resolve_config = resolve_config sha256_json repository settings;
  create_chat_model = create_chat_model factory;
}
