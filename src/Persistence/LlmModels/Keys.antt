-- ===== src/Persistence/LlmModels/Keys.antt =====
-- The API keys of the profiles that are stored.
use nextbos_ai.Prelude.{
  String, Option, none, some, ◌≡◌, refl, ap, sym, ◌∙◌, ok, raise, Exception,
  llm_configuration_error, >>=-eq-ok, ok_injective, ◌||◌, ◌==◌, Bool-cases, inl, inr,
}
use mathlib.Core.Path.{subst}
use nextbos_ai.Value.{Value, Fields}
use nextbos_ai.Llm.Models.{ModelProfile, EffectiveModelConfig}
use nextbos_ai.Llm.ConfigResolver.{
  ModelSelection, RequestedModelParams, Settings, select_profile, shape_of, profile_shape,
  env_shape, build_config, save_snapshot, resolve, to_overrides, params_or_none, alias_of,
}
use nextbos_ai.Llm.ChatModels.{api_key_of, build_chat_model_kwargs, kwargs_with_key}
use nextbos_ai.Persistence.LlmModels.{
  LlmTables, LlmModelProfile, LlmProviderCredential, credential_of, found_credential,
  credential_to_domain, decrypted, to_domain, found_profile, get_active_profile_by_alias,
  get_default_active_profile, llm_model_repository,
}

abbrev LacksKey : Option ModelProfile → Type 0
LacksKey none = Unit
LacksKey (some p) = api_key_of p.credential ≡ none

found_credential-LacksKey :
    (o : Option LlmProviderCredential) → api_key_of (found_credential none o) ≡ none
unfolding found_credential credential_to_domain decrypted
found_credential-LacksKey none = refl
found_credential-LacksKey (some row) = refl

credential_of-LacksKey :
    (db : LlmTables) (id : Option String) → api_key_of (credential_of none db id) ≡ none
unfolding credential_of
credential_of-LacksKey db none = refl
credential_of-LacksKey db (some id) = found_credential-LacksKey _

found_profile-LacksKey :
    (db : LlmTables) (o : Option LlmModelProfile) → LacksKey (found_profile none db o)
unfolding found_profile to_domain
found_profile-LacksKey db none = tt
found_profile-LacksKey db (some row) = credential_of-LacksKey db row.credential_id

-- The selected profile of the repository of the runtime, which is given no way to decrypt.
select_profile-LacksKey :
    (db : LlmTables) (id : String) (selection : Option ModelSelection) (o : Option ModelProfile)
    → select_profile (llm_model_repository none db id) selection ≡ ok o
    → LacksKey o
unfolding select_profile get_active_profile_by_alias get_default_active_profile
select_profile-LacksKey db id selection o h = selected (alias_of selection) h
  where
    selected :
        (a : Option String)
        → (elim a [
          | none ↦ ok (get_default_active_profile none db "global")
          | some alias ↦ ok (get_active_profile_by_alias none db alias)
        ])
          ≡ ok o
        → LacksKey o
    selected none e = subst LacksKey (ok_injective e) (found_profile-LacksKey db _)
    selected (some alias) e = subst LacksKey (ok_injective e) (found_profile-LacksKey db _)

-- A configuration of a profile without a key has none.
shape_of-LacksKey :
    (settings : Settings) (selection : Option ModelSelection) (o : Option ModelProfile)
    (overrides : Fields) (profile_id : String)
    → LacksKey o
    → (shape_of settings selection o overrides).model_profile_id ≡ some profile_id
    → api_key_of (shape_of settings selection o overrides).credential ≡ none
unfolding env_shape profile_shape
shape_of-LacksKey settings selection none overrides profile_id l h = cc
shape_of-LacksKey settings selection (some p) overrides profile_id l h = l

abbrev no_key : Exception
no_key = record { class = llm_configuration_error; text = "LLM api key is required" }

abbrev no_url : Exception
no_url = record {
  class = llm_configuration_error;
  text = "LLM base_url and model_name are required";
}

-- A configuration without a key gives no chat model.
build_chat_model_kwargs-LacksKey :
    (c : EffectiveModelConfig)
    → api_key_of c.credential ≡ none
    → (e : Exception) × (build_chat_model_kwargs c ≡ raise e) × (e.class ≡ llm_configuration_error)
unfolding build_chat_model_kwargs kwargs_with_key
build_chat_model_kwargs-LacksKey c h =
    elim (Bool-cases ((c.base_url == "") || (c.model_name == ""))) [
      | inl e ↦ (no_url, rw e, refl)
      | inr e ↦ (no_key, rw (e, h), refl)
    ]

-- Where the repository is given no `decrypt_api_key`, as in the runtime, no configuration that is
-- resolved from a stored profile gives a chat model: the arguments raise an
-- `LLMConfigurationError`, whatever keys the database holds.
pub resolve-LacksKey :
    (sha256_json : Value → String) (db : LlmTables) (id : String) (settings : Settings)
    (selection : Option ModelSelection) (requested : Option RequestedModelParams)
    (c : EffectiveModelConfig) (profile_id : String)
    → resolve sha256_json (llm_model_repository none db id) settings selection requested ≡ ok c
    → c.model_profile_id ≡ some profile_id
    → (e : Exception) × (build_chat_model_kwargs c ≡ raise e) × (e.class ≡ llm_configuration_error)
unfolding resolve save_snapshot build_config
resolve-LacksKey sha256_json db id settings selection requested c profile_id h p =
    let (o, a, h1) = >>=-eq-ok (select_profile (llm_model_repository none db id) selection) _ h in
    let same = ok_injective h1 in
    build_chat_model_kwargs-LacksKey c (
      ap (λ x. api_key_of x.credential) (sym same)
      ∙ shape_of-LacksKey settings selection o (to_overrides (params_or_none requested)) profile_id
          (select_profile-LacksKey db id selection o a) (ap (λ x. x.model_profile_id) same ∙ p))
