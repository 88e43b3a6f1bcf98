-- ===== src/Integrations/SqlExecutor/Answers.antt =====
-- What the execution client reads of the answer of its tool.
use nextbos_ai.Prelude.{
  String, true, false, none, List, [], ◌≡◌, refl, ap, ◌∙◌, filter_map, Option-cases, inl, inr,
  some_injective, Exception, Outcome, ok, raise, Bool-cases,
}
use mathlib.Core.Path.{subst}
use nextbos_ai.Value.{
  Value, arr, obj, nil, Fields, get, truthy, or_else, is_false, as_dict, as_list, list_of,
  list_value,
}
use nextbos_ai.Value.Laws.{items-of_list, as_dict-eq-some}
use nextbos_ai.Agent.World.{World, text_of}
use nextbos_ai.Integrations.SqlExecutor.{rows_from_payload, error_text, error_message, data_of}

-- Where the data of a payload stands: in its dictionary `data`, and else in the payload itself.
pub data Carries (payload : Fields) : Fields → Type 0 where
  nested : (body : Fields) → get "data" payload ≡ obj body → Carries payload body
  plain : as_dict (get "data" payload) ≡ none → Carries payload payload

-- The list that the rows are taken from: `rows` where it is true, else `results` where that is. A
-- true value that is no list has no rows.
pub data Lists (body : Fields) : Value → Type 0 where
  of_rows : truthy (get "rows" body) ≡ true → Lists body (get "rows" body)
  of_results :
      truthy (get "rows" body) ≡ false
      → truthy (get "results" body) ≡ true
      → Lists body (get "results" body)
  no_rows :
      truthy (get "rows" body) ≡ false
      → truthy (get "results" body) ≡ false
      → Lists body (list_value [])

-- Why an answer is refused, with the text of the error: the tool raised, its answer is no dictionary,
-- or its `ok` is false. The text is then that of the error's `message`, of the error, or of the
-- answer's `content`, the first one that is true, or a fixed one.
pub data Refuses (w : World) : Outcome Value → String → Type 0 where
  raised : (e : Exception) → Refuses w (raise e) e.text
  no_dictionary : (v : Value) → as_dict v ≡ none → Refuses w (ok v) "SQL 执行工具返回内容不是对象"
  with_message :
      (payload error : Fields)
      → is_false (get "ok" payload) ≡ true
      → get "error" payload ≡ obj error
      → truthy (get "message" error) ≡ true
      → Refuses w (ok (obj payload)) (text_of w (get "message" error))
  with_error :
      (payload : Fields)
      → is_false (get "ok" payload) ≡ true
      → truthy (get "error" payload) ≡ true
      → ((error : Fields) → get "error" payload ≡ obj error → truthy (get "message" error) ≡ false)
      → Refuses w (ok (obj payload)) (text_of w (get "error" payload))
  with_content :
      (payload : Fields)
      → is_false (get "ok" payload) ≡ true
      → truthy (get "error" payload) ≡ false
      → truthy (get "content" payload) ≡ true
      → Refuses w (ok (obj payload)) (text_of w (get "content" payload))
  without_text :
      (payload : Fields)
      → is_false (get "ok" payload) ≡ true
      → truthy (get "error" payload) ≡ false
      → truthy (get "content" payload) ≡ false
      → Refuses w (ok (obj payload)) "SQL 执行失败"

pub data_of-Carries : (payload : Fields) → Carries payload (data_of payload)
unfolding data_of
data_of-Carries payload = elim (Option-cases (as_dict (get "data" payload))) [
  | inl e ↦ rw e (plain e)
  | inr (body, e) ↦ rw e (nested body (as_dict-eq-some (get "data" payload) body e))
]

-- The value that `payload.get("rows") or payload.get("results") or []` is.
abbrev pub rows_source : Fields → Value
rows_source body = or_else (get "rows" body) (or_else (get "results" body) (arr nil))

pub rows_source-Lists : (body : Fields) → Lists body (rows_source body)
rows_source-Lists body = elim (Bool-cases (truthy (get "rows" body))) [
  | inl e ↦ rw e (of_rows e)
  | inr e ↦ elim (Bool-cases (truthy (get "results" body))) [
    | inl f ↦ rw (e, f) (of_results e f)
    | inr f ↦ rw (e, f) (no_rows e f)
  ]
]

pub rows_of_list :
    (body : Fields) (vs : List Value)
    → rows_source body ≡ list_value vs
    → rows_from_payload body ≡ filter_map as_dict vs
unfolding rows_from_payload
rows_of_list body vs h =
    ap (λ v. filter_map as_dict (list_of v)) h ∙ ap (filter_map as_dict) (items-of_list vs)

no_list : (v : Value) → as_list v ≡ none → list_of v ≡ []
no_list (arr vs) h = cc
no_list _ h = refl

pub rows_of_other :
    (body : Fields) → as_list (rows_source body) ≡ none → rows_from_payload body ≡ []
unfolding rows_from_payload
rows_of_other body h = ap (filter_map as_dict) (no_list (rows_source body) h)

module _ (w : World) where
  error_text-Refuses :
      (payload : Fields)
      → is_false (get "ok" payload) ≡ true
      → ((error : Fields) → get "error" payload ≡ obj error → truthy (get "message" error) ≡ false)
      → Refuses w (ok (obj payload)) (error_text w (get "error" payload) payload)
  unfolding error_text
  error_text-Refuses payload k lacks = elim (Bool-cases (truthy (get "error" payload))) [
    | inl e ↦ rw e (with_error payload k e lacks)
    | inr e ↦ elim (Bool-cases (truthy (get "content" payload))) [
      | inl f ↦ rw (e, f) (with_content payload k e f)
      | inr f ↦ rw (e, f) (without_text payload k e f)
    ]
  ]

  pub error_message-Refuses :
      (payload : Fields)
      → is_false (get "ok" payload) ≡ true
      → Refuses w (ok (obj payload)) (error_message w payload)
  unfolding error_message
  error_message-Refuses payload k = elim (Option-cases (as_dict (get "error" payload))) [
    | inl e ↦ rw e (error_text-Refuses payload k (λ error same. cc))
    | inr (error, e) ↦ elim (Bool-cases (truthy (get "message" error))) [
      | inl t ↦
          rw (e, t) (with_message payload error k (as_dict-eq-some (get "error" payload) error e) t)
      | inr t ↦
          rw (e, t)
            (error_text-Refuses payload k (λ other same.
              subst (λ f. truthy (get "message" f) ≡ false) (some_injective e (ap as_dict same)) t))
    ]
  ]
