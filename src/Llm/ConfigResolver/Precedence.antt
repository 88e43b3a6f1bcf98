-- ===== src/Llm/ConfigResolver/Precedence.antt =====
-- Which source each part of a resolved configuration comes from.
use nextbos_ai.Prelude.{
  ℕ, ok_injective, ne_of_test, String, Option, none, some, ◌≡◌, ◌≢◌, refl, ◌∙◌, arith, eq_iff, ok,
  >>=-eq-ok, if◌then◌else◌,
}
use mathlib.Core.Path.{subst}
use nextbos_ai.Value.{Value, Fields, get, is_null, update}
use nextbos_ai.Value.Dicts.{get_last, get-update}
use nextbos_ai.Llm.Models.{ModelProfile, EffectiveModelConfig}
use nextbos_ai.Llm.ConfigResolver.{
  Settings, ModelSelection, RequestedModelParams, ModelConfigRepository, to_overrides,
  select_profile, shape_of, env_params, build_config, save_snapshot, resolve, profile_shape,
  env_shape, field_if_set,
}

abbrev pub set_or : Value → Value → Value
set_or v fallback = if is_null v then fallback else v

-- A requested parameter wins over the value of the base; every other key is the base's.
pub record Overrides (requested : RequestedModelParams) (base params : Fields) : Type 0 where
  pub temperature : get "temperature" params ≡ set_or requested.temperature (get "temperature" base)
  pub max_tokens : get "max_tokens" params ≡ set_or requested.max_tokens (get "max_tokens" base)
  pub top_p : get "top_p" params ≡ set_or requested.top_p (get "top_p" base)
  pub timeout_seconds :
      get "timeout_seconds" params ≡ set_or requested.timeout_seconds (get "timeout_seconds" base)
  pub others :
      (k : String)
      → k ≢ "temperature"
      → k ≢ "max_tokens"
      → k ≢ "top_p"
      → k ≢ "timeout_seconds"
      → get k params ≡ get k base

get_last_skip :
    (k j : String) (v a : Value) (fs : Fields)
    → k ≢ j
    → get_last k a (field_if_set j v fs) ≡ get_last k a fs
get_last_skip k j v a fs h = ground (arith, eq_iff j k)

get_last_others :
    (k : String) (p : RequestedModelParams) (a : Value)
    → k ≢ "temperature"
    → k ≢ "max_tokens"
    → k ≢ "top_p"
    → k ≢ "timeout_seconds"
    → get_last k a (to_overrides p) ≡ a
unfolding to_overrides
get_last_others k p a t m q s =
    get_last_skip k "temperature" p.temperature a _ t
    ∙ get_last_skip k "max_tokens" p.max_tokens a _ m
    ∙ get_last_skip k "top_p" p.top_p a _ q
    ∙ get_last_skip k "timeout_seconds" p.timeout_seconds a _ s

get_last_hit :
    (k : String) (v a : Value) (fs : Fields)
    → get_last k a (field_if_set k v fs) ≡ get_last k (set_or v a) fs
get_last_hit k v a fs = ground (arith, eq_iff k k)

module _ (p : RequestedModelParams) (a : Value) where
  last_temperature : get_last "temperature" a (to_overrides p) ≡ set_or p.temperature a
  unfolding to_overrides
  last_temperature =
      get_last_hit "temperature" p.temperature a _
      ∙ get_last_skip "temperature" "max_tokens" p.max_tokens _ _ (ne_of_test _ _ refl)
      ∙ get_last_skip "temperature" "top_p" p.top_p _ _ (ne_of_test _ _ refl)
      ∙ get_last_skip "temperature" "timeout_seconds" p.timeout_seconds _ _ (ne_of_test _ _ refl)

  last_max_tokens : get_last "max_tokens" a (to_overrides p) ≡ set_or p.max_tokens a
  unfolding to_overrides
  last_max_tokens =
      get_last_skip "max_tokens" "temperature" p.temperature a _ (ne_of_test _ _ refl)
      ∙ get_last_hit "max_tokens" p.max_tokens a _
      ∙ get_last_skip "max_tokens" "top_p" p.top_p _ _ (ne_of_test _ _ refl)
      ∙ get_last_skip "max_tokens" "timeout_seconds" p.timeout_seconds _ _ (ne_of_test _ _ refl)

  last_top_p : get_last "top_p" a (to_overrides p) ≡ set_or p.top_p a
  unfolding to_overrides
  last_top_p =
      get_last_skip "top_p" "temperature" p.temperature a _ (ne_of_test _ _ refl)
      ∙ get_last_skip "top_p" "max_tokens" p.max_tokens a _ (ne_of_test _ _ refl)
      ∙ get_last_hit "top_p" p.top_p a _
      ∙ get_last_skip "top_p" "timeout_seconds" p.timeout_seconds _ _ (ne_of_test _ _ refl)

  last_timeout_seconds : get_last "timeout_seconds" a (to_overrides p) ≡ set_or p.timeout_seconds a
  unfolding to_overrides
  last_timeout_seconds =
      get_last_skip "timeout_seconds" "temperature" p.temperature a _ (ne_of_test _ _ refl)
      ∙ get_last_skip "timeout_seconds" "max_tokens" p.max_tokens a _ (ne_of_test _ _ refl)
      ∙ get_last_skip "timeout_seconds" "top_p" p.top_p a _ (ne_of_test _ _ refl)
      ∙ get_last_hit "timeout_seconds" p.timeout_seconds a _

update-Overrides :
    (p : RequestedModelParams) (base : Fields) → Overrides p base (update base (to_overrides p))
update-Overrides p base = record {
  temperature = get-update "temperature" base (to_overrides p) ∙ last_temperature p _;
  max_tokens = get-update "max_tokens" base (to_overrides p) ∙ last_max_tokens p _;
  top_p = get-update "top_p" base (to_overrides p) ∙ last_top_p p _;
  timeout_seconds = get-update "timeout_seconds" base (to_overrides p) ∙ last_timeout_seconds p _;
  others =
      λ k t m q s. get-update k base (to_overrides p) ∙ get_last_others k p (get k base) t m q s;
}

abbrev pub base_params : Settings → Option ModelProfile → Fields
base_params s none = env_params s
base_params s (some p) = p.default_params

abbrev pub model_of : Settings → Option ModelProfile → String
model_of s none = s.llm_model
model_of s (some p) = p.model_name

abbrev pub version_of : Option ModelProfile → Option ℕ
version_of none = none
version_of (some p) = some p.version

-- A configuration whose model is the profile's, or that of the environment where there is none.
pub record IsResolved (s : Settings) (profile : Option ModelProfile)
    (requested : RequestedModelParams) (c : EffectiveModelConfig) : Type 0 where
  pub model : c.model_name ≡ model_of s profile
  pub version : c.model_profile_version ≡ version_of profile
  pub params : Overrides requested (base_params s profile) c.params

shape_of-IsResolved :
    (sha256_json : Value → String) (s : Settings) (selection : Option ModelSelection)
    (profile : Option ModelProfile) (p : RequestedModelParams)
    → IsResolved s profile p
        (build_config sha256_json (shape_of s selection profile (to_overrides p)))
unfolding build_config env_shape profile_shape
shape_of-IsResolved sha256_json s selection none p = record {
  model = refl;
  version = refl;
  params = update-Overrides p (env_params s);
}
shape_of-IsResolved sha256_json s selection (some f) p = record {
  model = refl;
  version = refl;
  params = update-Overrides p f.default_params;
}

save_snapshot-IsResolved :
    (repository : ModelConfigRepository) (s : Settings) (profile : Option ModelProfile)
    (p : RequestedModelParams) (c r : EffectiveModelConfig)
    → IsResolved s profile p c
    → save_snapshot repository c ≡ ok r
    → IsResolved s profile p r
unfolding save_snapshot
save_snapshot-IsResolved repository s profile p c r h e =
    let (saved, stored, same) = >>=-eq-ok (repository.save_effective_snapshot _) _ e in
    subst (IsResolved s profile p) (ok_injective same)
      (record { model = h.model; version = h.version; params = h.params })

-- A resolved configuration comes from the profile that the selection gives: the model, the profile's
-- version and every parameter are the profile's, or the environment's where the repository has no
-- such profile, but each of the four parameters that the request sets is the request's.
pub resolve-IsResolved :
    (sha256_json : Value → String) (repository : ModelConfigRepository) (s : Settings)
    (selection : Option ModelSelection) (p : RequestedModelParams) (c : EffectiveModelConfig)
    → resolve sha256_json repository s selection (some p) ≡ ok c
    → (profile : Option ModelProfile) × (select_profile repository selection ≡ ok profile)
      × IsResolved s profile p c
unfolding resolve
resolve-IsResolved sha256_json repository s selection p c h =
    let (profile, selected, saved) = >>=-eq-ok (select_profile repository selection) _ h in
    (
      profile,
      selected,
      save_snapshot-IsResolved repository s profile p _ c
          (shape_of-IsResolved sha256_json s selection profile p) saved,
    )
