-- ===== src/Llm/ConfigResolver/Secrets.antt =====
-- What of a credential leaves the resolver.
use nextbos_ai.Prelude.{String, Option, ◌≡◌, arith}
use nextbos_ai.Value.{Value, Fields}
use nextbos_ai.Llm.Models.{ProviderCredential}
use nextbos_ai.Llm.ConfigResolver.{
  Shape, build_config, snapshot_of, credential_id_of, digest_payload, Settings, env_shape,
}

-- The snapshot that is stored for a configuration, its digest included, is a function of the
-- credential's id alone: two credentials with the same id, whatever their API keys, give the same
-- snapshot.
pub snapshot_of-build_config :
    (sha256_json : Value → String) (c : Shape) (a b : Option ProviderCredential)
    → credential_id_of a ≡ credential_id_of b
    → snapshot_of (build_config sha256_json (record c { credential = a }))
      ≡ snapshot_of (build_config sha256_json (record c { credential = b }))
unfolding snapshot_of build_config digest_payload
snapshot_of-build_config sha256_json c a b h = cc

-- The snapshot of an environment configuration does not depend on the API key, nor on whether one
-- is set.
pub snapshot_of-env_shape :
    (sha256_json : Value → String) (s : Settings) (overrides : Fields) (key : String)
    → snapshot_of (build_config sha256_json (env_shape s overrides))
      ≡ snapshot_of
          (build_config sha256_json (env_shape (record s { llm_api_key = key }) overrides))
unfolding snapshot_of build_config digest_payload env_shape
snapshot_of-env_shape sha256_json s overrides key = ground arith
