-- ===== src/Llm/ChatModels.antt =====
-- llm/chat_models.py: the arguments of the LangChain chat model.
pub mod Arguments
use nextbos_ai.Prelude.{
  String, Bool, true, false, ◌||◌, Option, none, some, List, [], ◌∷◌, ◌==◌, lacks_text, Outcome, ok,
  raise, llm_configuration_error, if◌then◌else◌,
}
use nextbos_ai.Value.{Value, str, int, Fields, end, field, get, get_or, is_null, put}
use nextbos_ai.Llm.Models.{ProviderCredential, EffectiveModelConfig}

abbrev pub api_key_of : Option ProviderCredential → Option String
api_key_of none = none
api_key_of (some c) = c.api_key

-- `for key in (...): if value is not None: kwargs[key] = value`.
abbrev pub copy_set : List String → Fields → Fields → Fields
copy_set [] params kwargs = kwargs
copy_set (k ∷ ks) params kwargs =
    copy_set ks params (if is_null (get k params) then kwargs else put k (get k params) kwargs)

required_kwargs : EffectiveModelConfig → String → Fields
required_kwargs c key = field "model" (str c.model_name) (
    field "base_url" (str c.base_url) (
      field "api_key" (str key) (field "timeout" (get_or "timeout_seconds" (int 60) c.params) end)))

unfoldable pub kwargs_with_key : EffectiveModelConfig → Option String → Outcome Fields
unfolding required_kwargs
kwargs_with_key c none =
    raise (record { class = llm_configuration_error; text = "LLM api key is required" })
kwargs_with_key c (some key) =
    if key == ""
    then raise (record { class = llm_configuration_error; text = "LLM api key is required" })
    else ok
        (copy_set ("temperature" ∷ "max_tokens" ∷ "top_p" ∷ []) c.params (required_kwargs c key))

-- `build_chat_model_kwargs`.
unfoldable pub build_chat_model_kwargs : EffectiveModelConfig → Outcome Fields
unfolding kwargs_with_key
build_chat_model_kwargs c =
    if c.base_url == "" || c.model_name == ""
    then raise (record {
      class = llm_configuration_error;
      text = "LLM base_url and model_name are required";
    })
    else kwargs_with_key c (api_key_of c.credential)
