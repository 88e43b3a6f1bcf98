-- ===== src/Llm/Models.antt =====
-- llm/models.py
use nextbos_ai.Prelude.{ℕ, String, Bool, Option}
use nextbos_ai.Value.{Fields}

pub record ProviderCredential : Type 0 where
  pub id : Option String
  pub provider : String
  pub name : String
  pub api_key : Option String

pub record ModelProfile : Type 0 where
  pub id : String
  pub alias : String
  pub provider : String
  pub display_name : String
  pub model_name : String
  pub base_url : String
  pub credential : Option ProviderCredential
  pub default_params : Fields
  pub status : String
  pub is_default : Bool
  pub scope : String
  pub scope_id : Option String
  pub version : ℕ

pub record EffectiveModelConfig : Type 0 where
  pub source : String
  pub provider : String
  pub base_url : String
  pub model_name : String
  pub params : Fields
  pub credential : Option ProviderCredential
  pub digest : String
  pub snapshot_id : Option String
  pub model_profile_id : Option String
  pub model_profile_version : Option ℕ

pub record EffectiveModelConfigSnapshot : Type 0 where
  pub source : String
  pub provider : String
  pub base_url : String
  pub model_name : String
  pub params : Fields
  pub config_digest : String
  pub id : Option String
  pub credential_id : Option String
  pub model_profile_id : Option String
  pub model_profile_version : Option ℕ
