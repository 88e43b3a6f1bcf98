-- ===== src/Llm/ConfigResolver.antt =====
-- llm/config_resolver.py: the model configuration of a run.
pub mod Precedence
pub mod Secrets
use nextbos_ai.Prelude.{
  ℕ, String, Bool, true, false, Option, none, some, ◌==◌, Outcome, ok, raise, ◌>>=◌, if◌then◌else◌,
}
use nextbos_ai.Value.{
  Value, null, str, int, float, obj, Fields, end, field, is_null, opt_str, update,
}
use nextbos_ai.Llm.Models.{
  ProviderCredential, ModelProfile, EffectiveModelConfig, EffectiveModelConfigSnapshot,
}

-- The settings of core/config.py that the resolver reads; the temperature in millionths.
pub record Settings : Type 0 where
  pub llm_provider : String
  pub llm_base_url : String
  pub llm_model : String
  pub llm_api_key : String
  pub llm_temperature : ℕ
  pub llm_timeout_seconds : ℕ

pub record ModelSelection : Type 0 where
  pub model_alias : Option String

-- `None` is `null`.
pub record RequestedModelParams : Type 0 where
  pub temperature : Value
  pub max_tokens : Value
  pub top_p : Value
  pub timeout_seconds : Value

abbrev pub no_params : RequestedModelParams
no_params = record { temperature = null; max_tokens = null; top_p = null; timeout_seconds = null }

abbrev pub field_if_set : String → Value → Fields → Fields
field_if_set k v fs = if is_null v then fs else field k v fs

-- `to_overrides`.
unfoldable pub to_overrides : RequestedModelParams → Fields
to_overrides p = field_if_set "temperature" p.temperature (
    field_if_set "max_tokens" p.max_tokens
      (field_if_set "top_p" p.top_p (field_if_set "timeout_seconds" p.timeout_seconds end)))

-- The protocol `ModelConfigRepository`.
pub record ModelConfigRepository : Type 0 where
  pub get_active_profile_by_alias : String → Outcome (Option ModelProfile)
  pub get_default_active_profile : String → Outcome (Option ModelProfile)
  pub save_effective_snapshot : EffectiveModelConfigSnapshot → Outcome EffectiveModelConfigSnapshot

-- `selection.model_alias` where there is a selection, and a text that is not empty.
abbrev pub alias_of : Option ModelSelection → Option String
alias_of none = none
alias_of (some s) = elim s.model_alias [ none ↦ none | some a ↦ if a == "" then none else some a ]

-- `_select_profile`.
unfoldable pub select_profile :
    ModelConfigRepository → Option ModelSelection → Outcome (Option ModelProfile)
select_profile repository selection = elim (alias_of selection) [
  | none ↦ repository.get_default_active_profile "global"
  | some a ↦ repository.get_active_profile_by_alias a
]

abbrev pub credential_id_of : Option ProviderCredential → Option String
credential_id_of none = none
credential_id_of (some c) = c.id

abbrev opt_int : Option ℕ → Value
opt_int none = null
opt_int (some n) = int n

-- What `_build_config` is called with.
pub record Shape : Type 0 where
  pub source : String
  pub provider : String
  pub base_url : String
  pub model_name : String
  pub params : Fields
  pub credential : Option ProviderCredential
  pub model_profile_id : Option String
  pub model_profile_version : Option ℕ

-- The payload of the digest.
unfoldable pub digest_payload : Shape → Value
digest_payload c = obj (
    field "source" (str c.source) (
      field "model_profile_id" (opt_str c.model_profile_id) (
        field "model_profile_version" (opt_int c.model_profile_version) (
          field "provider" (str c.provider) (
            field "base_url" (str c.base_url) (
              field "model_name" (str c.model_name) (
                field "params" (obj c.params)
                  (field "credential_id" (opt_str (credential_id_of c.credential)) end))))))))

module _ (sha256_json : Value → String) where
  -- `_build_config`; `sha256_json` is `_digest`, the hash of the canonical JSON text.
  unfoldable pub build_config : Shape → EffectiveModelConfig
  unfolding digest_payload
  build_config c = record {
    source = c.source;
    provider = c.provider;
    base_url = c.base_url;
    model_name = c.model_name;
    params = c.params;
    credential = c.credential;
    digest = sha256_json (digest_payload c);
    snapshot_id = none;
    model_profile_id = c.model_profile_id;
    model_profile_version = c.model_profile_version;
  }

-- The snapshot that `_save_snapshot` hands to the repository.
unfoldable pub snapshot_of : EffectiveModelConfig → EffectiveModelConfigSnapshot
snapshot_of c = record {
  source = c.source;
  provider = c.provider;
  base_url = c.base_url;
  model_name = c.model_name;
  params = c.params;
  config_digest = c.digest;
  id = none;
  credential_id = credential_id_of c.credential;
  model_profile_id = c.model_profile_id;
  model_profile_version = c.model_profile_version;
}

-- `_save_snapshot`.
unfoldable pub save_snapshot :
    ModelConfigRepository → EffectiveModelConfig → Outcome EffectiveModelConfig
unfolding snapshot_of
save_snapshot repository c = do
  saved ← repository.save_effective_snapshot (snapshot_of c)
  ok (record c { snapshot_id = saved.id })

source_of : Option String → String
source_of none = "db_default"
source_of (some a) = "request_override"

-- The configuration of a profile of the database.
unfoldable pub profile_shape : Option ModelSelection → ModelProfile → Fields → Shape
unfolding source_of
profile_shape selection p overrides = record {
  source = source_of (alias_of selection);
  provider = p.provider;
  base_url = p.base_url;
  model_name = p.model_name;
  params = update p.default_params overrides;
  credential = p.credential;
  model_profile_id = some p.id;
  model_profile_version = some p.version;
}

abbrev pub env_params : Settings → Fields
env_params s =
    field "temperature" (float s.llm_temperature)
      (field "timeout_seconds" (int s.llm_timeout_seconds) end)

abbrev pub env_credential : Settings → Option ProviderCredential
env_credential s =
    if s.llm_api_key == ""
    then none
    else some (record {
      id = none;
      provider = s.llm_provider;
      name = "env";
      api_key = some s.llm_api_key;
    })

-- The configuration of the environment.
unfoldable pub env_shape : Settings → Fields → Shape
env_shape s overrides = record {
  source = "env_fallback";
  provider = s.llm_provider;
  base_url = s.llm_base_url;
  model_name = s.llm_model;
  params = update (env_params s) overrides;
  credential = env_credential s;
  model_profile_id = none;
  model_profile_version = none;
}

abbrev pub shape_of : Settings → Option ModelSelection → Option ModelProfile → Fields → Shape
shape_of s selection none overrides = env_shape s overrides
shape_of s selection (some p) overrides = profile_shape selection p overrides

abbrev pub params_or_none : Option RequestedModelParams → RequestedModelParams
params_or_none none = no_params
params_or_none (some p) = p

-- `resolve`.
unfoldable pub resolve :
    (Value → String)
    → ModelConfigRepository
    → Settings
    → Option ModelSelection
    → Option RequestedModelParams
    → Outcome EffectiveModelConfig
unfolding select_profile to_overrides build_config save_snapshot profile_shape env_shape
resolve sha256_json repository settings selection requested = do
  profile ← select_profile repository selection
  save_snapshot repository (
      build_config sha256_json
        (shape_of settings selection profile (to_overrides (params_or_none requested))))
