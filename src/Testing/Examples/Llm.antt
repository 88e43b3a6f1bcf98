-- ===== src/Testing/Examples/Llm.antt =====
-- Examples for the model configuration.
use nextbos_ai.Prelude.{String, Option, none, some, ◌≡◌, refl, true, ok, inl}
use nextbos_ai.Value.{Value, null, str, int, float, Fields, end, field, get}
use nextbos_ai.Agent.State.{ChatModelOptions}
use nextbos_ai.Llm.Models.{ProviderCredential, ModelProfile, EffectiveModelConfig}
use nextbos_ai.Llm.ConfigResolver.{
  Settings, ModelSelection, RequestedModelParams, ModelConfigRepository, Shape, resolve,
  select_profile, build_config, snapshot_of, env_shape, to_overrides,
}
use nextbos_ai.Llm.ConfigResolver.Precedence.{IsResolved, resolve-IsResolved}
use nextbos_ai.Llm.ConfigResolver.Secrets.{snapshot_of-build_config, snapshot_of-env_shape}
use nextbos_ai.Llm.ChatModels.{build_chat_model_kwargs}
use nextbos_ai.Llm.ChatModels.Arguments.{IsArguments, build_chat_model_kwargs-IsArguments}
use nextbos_ai.Agent.ModelRuntime.{resolve_config, params_of, params_in}
use nextbos_ai.Agent.ModelRuntime.Reaches.{resolve_config-build_chat_model_kwargs}

abbrev hash : Value → String
hash v = "digest"

abbrev credential : ProviderCredential
credential = record { id = some "c1"; provider = "openai"; name = "main"; api_key = some "sk-1" }

abbrev rotated : ProviderCredential
rotated = record credential { api_key = some "sk-2" }

abbrev profile : ModelProfile
profile = record {
  id = "p1";
  alias = "fast";
  provider = "openai";
  display_name = "Fast";
  model_name = "gpt";
  base_url = "https://llm";
  credential = some credential;
  default_params = field "temperature" (float 700000) (field "top_p" (float 900000) end);
  status = "active";
  is_default = true;
  scope = "global";
  scope_id = none;
  version = 3;
}

abbrev repository : ModelConfigRepository
repository = record {
  get_active_profile_by_alias = λ a. ok (some profile);
  get_default_active_profile = λ scope. ok none;
  save_effective_snapshot = λ s. ok (record s { id = some "s1" });
}

abbrev settings : Settings
settings = record {
  llm_provider = "openai";
  llm_base_url = "https://env";
  llm_model = "env-model";
  llm_api_key = "sk-env";
  llm_temperature = 700000;
  llm_timeout_seconds = 60;
}

abbrev options : ChatModelOptions
options = record {
  model_alias = some "fast";
  model_params = some (field "temperature" (float 100000) end);
}

abbrev requested : RequestedModelParams
requested = record {
  temperature = float 100000;
  max_tokens = null;
  top_p = null;
  timeout_seconds = null;
}

abbrev resolved : EffectiveModelConfig
resolved = record {
  source = "request_override";
  provider = "openai";
  base_url = "https://llm";
  model_name = "gpt";
  params = field "temperature" (float 100000) (field "top_p" (float 900000) end);
  credential = some credential;
  digest = "digest";
  snapshot_id = some "s1";
  model_profile_id = some "p1";
  model_profile_version = some 3;
}

abbrev selection : ModelSelection
selection = record { model_alias = some "fast" }

resolved_so : resolve hash repository settings (some selection) (some requested) ≡ ok resolved
unfolding resolve to_overrides
resolved_so = refl

resolve-IsResolved_example :
    (p : Option ModelProfile) × (select_profile repository (some selection) ≡ ok p)
    × IsResolved settings p requested resolved
resolve-IsResolved_example =
    resolve-IsResolved hash repository settings (some selection) requested resolved resolved_so

abbrev shape : Shape
shape = record {
  source = "db_default";
  provider = "openai";
  base_url = "https://llm";
  model_name = "gpt";
  params = end;
  credential = none;
  model_profile_id = some "p1";
  model_profile_version = some 3;
}

snapshot_of-build_config_example :
    snapshot_of (build_config hash (record shape { credential = some credential }))
    ≡ snapshot_of (build_config hash (record shape { credential = some rotated }))
snapshot_of-build_config_example =
    snapshot_of-build_config hash shape (some credential) (some rotated) refl

snapshot_of-env_shape_example :
    snapshot_of (build_config hash (env_shape settings end))
    ≡ snapshot_of (build_config hash (env_shape (record settings { llm_api_key = "" }) end))
snapshot_of-env_shape_example = snapshot_of-env_shape hash settings end ""

abbrev kwargs : Fields
kwargs = field "model" (str "gpt") (
    field "base_url" (str "https://llm") (
      field "api_key" (str "sk-1") (
        field "timeout" (int 60)
          (field "temperature" (float 100000) (field "top_p" (float 900000) end)))))

kwargs_so : build_chat_model_kwargs resolved ≡ ok kwargs
unfolding build_chat_model_kwargs
kwargs_so = refl

build_chat_model_kwargs-IsArguments_example : IsArguments resolved kwargs
build_chat_model_kwargs-IsArguments_example =
    build_chat_model_kwargs-IsArguments resolved kwargs kwargs_so

resolved_from_options : resolve_config hash repository settings (some options) ≡ ok resolved
unfolding resolve_config resolve to_overrides
resolved_from_options = refl

resolve_config-build_chat_model_kwargs_example :
    get "temperature" kwargs ≡ get "temperature" (params_of (params_in (some options)))
resolve_config-build_chat_model_kwargs_example =
    resolve_config-build_chat_model_kwargs hash repository settings (some options) resolved kwargs
      resolved_from_options kwargs_so "temperature" (inl refl) refl
