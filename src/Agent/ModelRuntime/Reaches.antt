-- ===== src/Agent/ModelRuntime/Reaches.antt =====
-- From the options of a request to the arguments of the chat model.
use mathlib.Core.Path.{subst}
use nextbos_ai.Prelude.{
  sym, String, Option, ◌≡◌, false, ◌∙◌, arith, ok, ◌⊎◌, inl, inr, if◌then◌else◌,
}
use nextbos_ai.Value.{Value, Fields, get, is_null}
use nextbos_ai.Agent.State.{ChatModelOptions}
use nextbos_ai.Llm.Models.{EffectiveModelConfig}
use nextbos_ai.Llm.ConfigResolver.{Settings, ModelConfigRepository}
use nextbos_ai.Llm.ConfigResolver.Precedence.{resolve-IsResolved}
use nextbos_ai.Llm.ChatModels.{build_chat_model_kwargs}
use nextbos_ai.Llm.ChatModels.Arguments.{build_chat_model_kwargs-IsArguments}
use nextbos_ai.Agent.ModelRuntime.{params_of, params_in, resolve_config, to_requested_params}

set_or_set : (v w a : Value) → is_null v ≡ false → a ≡ (if is_null v then w else v) → a ≡ v
set_or_set v w a n h = ground arith

-- A temperature, `max_tokens` or `top_p` that the options of a request set is the one that the chat
-- model is created with, whatever profile or environment the configuration comes from.
pub resolve_config-build_chat_model_kwargs :
    (sha256_json : Value → String) (repository : ModelConfigRepository) (s : Settings)
    (options : Option ChatModelOptions) (c : EffectiveModelConfig) (kwargs : Fields)
    → resolve_config sha256_json repository s options ≡ ok c
    → build_chat_model_kwargs c ≡ ok kwargs
    → (k : String) → (k ≡ "temperature") ⊎ (k ≡ "max_tokens") ⊎ (k ≡ "top_p")
    → is_null (get k (params_of (params_in options))) ≡ false
    → get k kwargs ≡ get k (params_of (params_in options))
unfolding resolve_config to_requested_params
resolve_config-build_chat_model_kwargs sha256_json repository s options c kwargs h b k i n =
    let p = to_requested_params (params_in options) in
    let (profile, selected, resolved) = resolve-IsResolved sha256_json repository s _ p c h in
    let a = build_chat_model_kwargs-IsArguments c kwargs b in
    let o = params_of (params_in options) in
    let reach : String → Type 0 = λ j. is_null (get j o) ≡ false → get j kwargs ≡ get j o in
    elim i [
      | inl q ↦
          subst reach (sym q)
            (λ m. set_or_set _ _ _ m (a.temperature ∙ resolved.params.temperature)) n
      | inr (inl q) ↦
          subst reach (sym q) (λ m. set_or_set _ _ _ m (a.max_tokens ∙ resolved.params.max_tokens))
            n
      | inr (inr q) ↦
          subst reach (sym q) (λ m. set_or_set _ _ _ m (a.top_p ∙ resolved.params.top_p)) n
    ]
