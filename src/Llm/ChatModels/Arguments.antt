-- ===== src/Llm/ChatModels/Arguments.antt =====
-- The arguments that a chat model is created with.
use mathlib.Core.Path.{subst}
use nextbos_ai.Prelude.{
  String, Option, none, some, [], ◌∷◌, ◌≡◌, ◌≢◌, refl, ◌∙◌, arith, eq_iff, ◌==◌, ok, ok_injective,
  ne_of_test, Bool-cases, inl, inr, if◌then◌else◌,
}
use nextbos_ai.Value.{null, str, int, Fields, get, get_or, is_null, put}
use nextbos_ai.Value.Dicts.{get-put}
use nextbos_ai.Llm.Models.{EffectiveModelConfig}
use nextbos_ai.Llm.ChatModels.{
  api_key_of, copy_set, required_kwargs, kwargs_with_key, build_chat_model_kwargs,
}

-- The arguments of a model: complete, with the key, and with the configuration's parameters.
pub record IsArguments (c : EffectiveModelConfig) (kwargs : Fields) : Type 0 where
  pub base_url : (get "base_url" kwargs ≡ str c.base_url) × (c.base_url ≢ "")
  pub model : (get "model" kwargs ≡ str c.model_name) × (c.model_name ≢ "")
  pub key :
      (k : String) × (api_key_of c.credential ≡ some k) × (k ≢ "") × (get "api_key" kwargs ≡ str k)
  pub timeout : get "timeout" kwargs ≡ get_or "timeout_seconds" (int 60) c.params
  pub temperature : get "temperature" kwargs ≡ get "temperature" c.params
  pub max_tokens : get "max_tokens" kwargs ≡ get "max_tokens" c.params
  pub top_p : get "top_p" kwargs ≡ get "top_p" c.params

-- One step of the copy, for a key that is copied and for another one.
get-copied :
    (k : String) (params kwargs : Fields)
    → get k kwargs ≡ null
    → get k (if is_null (get k params) then kwargs else put k (get k params) kwargs) ≡ get k params
get-copied k params kwargs h = ground (arith, get-put k k (get k params) kwargs, eq_iff k k)

get-not_copied :
    (k j : String) (params kwargs : Fields)
    → j ≢ k
    → get k (if is_null (get j params) then kwargs else put j (get j params) kwargs) ≡ get k kwargs
get-not_copied k j params kwargs h = ground (arith, get-put k j (get j params) kwargs, eq_iff j k)

abbrev copied : Fields → Fields → Fields
copied params kwargs = copy_set ("temperature" ∷ "max_tokens" ∷ "top_p" ∷ []) params kwargs

get-copied_other :
    (k : String) (params kwargs : Fields)
    → "temperature" ≢ k
    → "max_tokens" ≢ k
    → "top_p" ≢ k
    → get k (copied params kwargs) ≡ get k kwargs
get-copied_other k params kwargs t m p =
    get-not_copied k "top_p" params _ p
    ∙ get-not_copied k "max_tokens" params _ m
    ∙ get-not_copied k "temperature" params kwargs t

kwargs-IsArguments :
    (c : EffectiveModelConfig) (k : String)
    → c.base_url ≢ ""
    → c.model_name ≢ ""
    → api_key_of c.credential ≡ some k
    → k ≢ ""
    → IsArguments c (copied c.params (required_kwargs c k))
unfolding required_kwargs
kwargs-IsArguments c k b m a e =
    let other : (j : String)
        → "temperature" ≢ j
        → "max_tokens" ≢ j
        → "top_p" ≢ j
        → get j (copied c.params (required_kwargs c k)) ≡ get j (required_kwargs c k) =
      λ j. get-copied_other j c.params (required_kwargs c k) in
    record {
      base_url =
          (other "base_url" (ne_of_test _ _ refl) (ne_of_test _ _ refl) (ne_of_test _ _ refl), b);
      model = (other "model" (ne_of_test _ _ refl) (ne_of_test _ _ refl) (ne_of_test _ _ refl), m);
      key = (
        k,
        a,
        e,
        other "api_key" (ne_of_test _ _ refl) (ne_of_test _ _ refl) (ne_of_test _ _ refl),
      );
      timeout = other "timeout" (ne_of_test _ _ refl) (ne_of_test _ _ refl) (ne_of_test _ _ refl);
      temperature =
          get-not_copied "temperature" "top_p" c.params _ (ne_of_test _ _ refl)
          ∙ get-not_copied "temperature" "max_tokens" c.params _ (ne_of_test _ _ refl)
          ∙ get-copied "temperature" c.params (required_kwargs c k) refl;
      max_tokens =
          get-not_copied "max_tokens" "top_p" c.params _ (ne_of_test _ _ refl)
          ∙ get-copied "max_tokens" c.params _ (
              get-not_copied "max_tokens" "temperature" c.params (required_kwargs c k)
                (ne_of_test _ _ refl));
      top_p = get-copied "top_p" c.params _ (
          get-not_copied "top_p" "max_tokens" c.params _ (ne_of_test _ _ refl)
          ∙ get-not_copied "top_p" "temperature" c.params (required_kwargs c k)
              (ne_of_test _ _ refl));
    }

kwargs_with_key-IsArguments :
    (c : EffectiveModelConfig) (o : Option String) (kwargs : Fields)
    → c.base_url ≢ ""
    → c.model_name ≢ ""
    → api_key_of c.credential ≡ o
    → kwargs_with_key c o ≡ ok kwargs
    → IsArguments c kwargs
unfolding kwargs_with_key
kwargs_with_key-IsArguments c none kwargs b m a h = cc
kwargs_with_key-IsArguments c (some k) kwargs b m a h = elim (Bool-cases (k == "")) [
  | inl e ↦ cc
  | inr e ↦
      subst (IsArguments c) (ok_injective (cc)) (kwargs-IsArguments c k b m a (ne_of_test k "" e))
]

-- A chat model is created only with a base URL, a model name and an API key that are not empty,
-- which it is given as they stand; it gets the temperature, `max_tokens` and `top_p` exactly where
-- the configuration sets them, and the configured timeout or 60 seconds.
pub build_chat_model_kwargs-IsArguments :
    (c : EffectiveModelConfig) (kwargs : Fields)
    → build_chat_model_kwargs c ≡ ok kwargs
    → IsArguments c kwargs
unfolding build_chat_model_kwargs
build_chat_model_kwargs-IsArguments c kwargs h = elim (Bool-cases (c.base_url == "")) [
  | inl e ↦ cc
  | inr e ↦ elim (Bool-cases (c.model_name == "")) [
    | inl f ↦ absurd (ground arith)
    | inr f ↦
        kwargs_with_key-IsArguments c _ kwargs (ne_of_test _ _ e) (ne_of_test _ _ f) refl
          (ground arith)
  ]
]
