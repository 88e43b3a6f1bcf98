-- ===== src/Persistence/LlmModels.antt =====
-- persistence/postgres/llm_model_repository.py, and the rows of persistence/postgres/models.py that it
-- reads and writes. The columns for times are left out, as nothing reads them.
pub mod Keys
use nextbos_ai.Prelude.{
  ℕ, String, Bool, Option, none, some, List, [], ◌∷◌, ◌==◌, ◌&&◌, Outcome, ok, if◌then◌else◌,
}
use nextbos_ai.Value.{Fields}
use nextbos_ai.Llm.Models.{ProviderCredential, ModelProfile, EffectiveModelConfigSnapshot}
use nextbos_ai.Llm.ConfigResolver.{ModelConfigRepository}

pub record LlmProviderCredential : Type 0 where
  pub id : String
  pub provider : String
  pub name : String
  pub encrypted_api_key : Option String
  pub secret_ref : Option String
  pub status : String

pub record LlmModelProfile : Type 0 where
  pub id : String
  pub alias : String
  pub provider : String
  pub display_name : String
  pub model_name : String
  pub base_url : String
  pub credential_id : Option String
  pub default_params : Fields
  pub status : String
  pub is_default : Bool
  pub scope : String
  pub scope_id : Option String
  pub version : ℕ

pub record LlmEffectiveConfigSnapshot : Type 0 where
  pub id : String
  pub source : String
  pub model_profile_id : Option String
  pub model_profile_version : Option ℕ
  pub provider : String
  pub base_url : String
  pub model_name : String
  pub params : Fields
  pub credential_id : Option String
  pub config_digest : String

-- The tables. A query without an order gives the rows in the order of the list.
pub record LlmTables : Type 0 where
  pub credentials : List LlmProviderCredential
  pub profiles : List LlmModelProfile
  pub snapshots : List LlmEffectiveConfigSnapshot

-- `session.scalar(select(…).where(p))`: the first row, if there is one.
abbrev pub first_row : {A : Type 0} → (A → Bool) → List A → Option A
first_row p [] = none
first_row p (x ∷ xs) = let rest = first_row p xs in if p x then some x else rest

decrypted : Option (String → String) → Option String → Option String
decrypted none key = none
decrypted (some decrypt) none = none
decrypted (some decrypt) (some key) = if key == "" then none else some (decrypt key)

-- `decrypt_api_key` is the argument of the repository, `None` where it is not given.
module _ (decrypt_api_key : Option (String → String)) where
  -- `_credential_to_domain`.
  unfoldable pub credential_to_domain : LlmProviderCredential → ProviderCredential
  unfolding decrypted
  credential_to_domain row = record {
    id = some row.id;
    provider = row.provider;
    name = row.name;
    api_key = decrypted decrypt_api_key row.encrypted_api_key;
  }

  found_credential : Option LlmProviderCredential → Option ProviderCredential
  unfolding credential_to_domain
  found_credential none = none
  found_credential (some row) = some (credential_to_domain row)

  credential_of : LlmTables → Option String → Option ProviderCredential
  unfolding found_credential
  credential_of db none = none
  credential_of db (some id) = found_credential (first_row (λ c. c.id == id) db.credentials)

  -- `_to_domain`.
  unfoldable pub to_domain : LlmTables → LlmModelProfile → ModelProfile
  unfolding credential_of
  to_domain db row = record {
    id = row.id;
    alias = row.alias;
    provider = row.provider;
    display_name = row.display_name;
    model_name = row.model_name;
    base_url = row.base_url;
    credential = credential_of db row.credential_id;
    default_params = row.default_params;
    status = row.status;
    is_default = row.is_default;
    scope = row.scope;
    scope_id = row.scope_id;
    version = row.version;
  }

  unfoldable pub found_profile : LlmTables → Option LlmModelProfile → Option ModelProfile
  unfolding to_domain
  found_profile db none = none
  found_profile db (some row) = some (to_domain db row)

  -- `get_active_profile_by_alias`.
  unfoldable pub get_active_profile_by_alias : LlmTables → String → Option ModelProfile
  unfolding found_profile
  get_active_profile_by_alias db alias =
      found_profile db (first_row (λ p. p.alias == alias && p.status == "active") db.profiles)

  -- `get_default_active_profile`.
  unfoldable pub get_default_active_profile : LlmTables → String → Option ModelProfile
  unfolding found_profile
  get_default_active_profile db scope =
      found_profile db
        (first_row (λ p. p.scope == scope && p.status == "active" && p.is_default) db.profiles)

snapshot_row : String → EffectiveModelConfigSnapshot → LlmEffectiveConfigSnapshot
snapshot_row id s = record {
  id = id;
  source = s.source;
  model_profile_id = s.model_profile_id;
  model_profile_version = s.model_profile_version;
  provider = s.provider;
  base_url = s.base_url;
  model_name = s.model_name;
  params = s.params;
  credential_id = s.credential_id;
  config_digest = s.config_digest;
}

pub record Saved : Type 0 where
  pub tables : LlmTables
  pub snapshot : EffectiveModelConfigSnapshot

-- `save_effective_snapshot`, with the id that the database generates.
unfoldable pub save_effective_snapshot : String → EffectiveModelConfigSnapshot → LlmTables → Saved
unfolding snapshot_row
save_effective_snapshot id s db = record {
  tables = record db { snapshots = snapshot_row id s ∷ db.snapshots };
  snapshot = record s { id = some id };
}

-- `PostgresLLMModelRepository`, as the resolver uses it on the tables as they stand.
abbrev pub llm_model_repository :
    Option (String → String) → LlmTables → String → ModelConfigRepository
llm_model_repository decrypt_api_key db id = record {
  get_active_profile_by_alias = λ alias. ok (get_active_profile_by_alias decrypt_api_key db alias);
  get_default_active_profile = λ scope. ok (get_default_active_profile decrypt_api_key db scope);
  save_effective_snapshot = λ s. ok (save_effective_snapshot id s db).snapshot;
}
