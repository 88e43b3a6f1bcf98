-- ===== src/Services/StreamEvents/Tokens.antt =====
-- Where the token of an event comes from.
use nextbos_ai.Prelude.{
  String, true, false, ◌≡◌, ◌≢◌, ◌⊎◌, refl, inl, inr, sym, ◌∙◌, arith, Bool-cases,
}
use mathlib.Core.Path.{subst}
use nextbos_ai.Value.{Value, null, str, obj, Fields, get, as_dict, is_str, is_null}
use nextbos_ai.Value.Laws.{is_null-eq, is_str-eq}
use nextbos_ai.Agent.World.{World}
use nextbos_ai.Services.Contents.{message_content_to_text}
use nextbos_ai.Services.StreamEvents.{
  EventBody, chunk, chunk_with, node_updates, state, node_is_shown, metadata_is_shown,
  is_frontend_token_event, content_of_chunk, extract_token,
}

-- The value of `langgraph_node` for a node whose tokens are shown: none, or one of two names.
abbrev pub IsShownNode : Value → Type 0
IsShownNode v = (v ≡ null) ⊎ (v ≡ str "respond") ⊎ (v ≡ str "final_respond")

-- The text of a chunk: of one without metadata, or of one whose metadata name no hidden node.
pub data IsToken (w : World) : EventBody → String → Type 0 where
  of_chunk : (content : Value) → IsToken w (chunk content) (message_content_to_text w content)
  of_node :
      (content metadata : Value)
      → ((fs : Fields) → metadata ≡ obj fs → IsShownNode (get "langgraph_node" fs))
      → IsToken w (chunk_with content metadata) (message_content_to_text w content)

IsShownNode-of_test : (v : Value) → node_is_shown v ≡ true → IsShownNode v
unfolding node_is_shown
IsShownNode-of_test v h = elim (Bool-cases (is_null v)) [
  | inl e ↦ inl (is_null-eq v e)
  | inr e ↦ elim (Bool-cases (is_str "respond" v)) [
    | inl f ↦ inr (inl (is_str-eq "respond" v f))
    | inr f ↦ inr (inr (is_str-eq "final_respond" v (ground arith)))
  ]
]

shown_metadata :
    (content metadata : Value)
    → is_frontend_token_event (chunk_with content metadata) ≡ true
    → (fs : Fields) → metadata ≡ obj fs
    → IsShownNode (get "langgraph_node" fs)
unfolding is_frontend_token_event metadata_is_shown
shown_metadata content metadata h fs e =
    IsShownNode-of_test (get "langgraph_node" fs)
      (subst (λ v. metadata_is_shown (as_dict v) ≡ true) e h)

hidden_token :
    (w : World) (body : EventBody)
    → is_frontend_token_event body ≡ false
    → extract_token w body ≡ ""
unfolding extract_token
hidden_token w body h = rw h refl

shown_token :
    (w : World) (body : EventBody)
    → is_frontend_token_event body ≡ true
    → extract_token w body ≡ message_content_to_text w (content_of_chunk body)
unfolding extract_token
shown_token w body h = rw h refl

no_content : (w : World) → message_content_to_text w (str "") ≡ ""
unfolding message_content_to_text
no_content w = refl

is_frontend_token_event-IsToken :
    (w : World) (body : EventBody)
    → is_frontend_token_event body ≡ true
    → extract_token w body ≢ ""
    → IsToken w body (extract_token w body)
unfolding content_of_chunk
is_frontend_token_event-IsToken w (chunk content) h ne =
    subst (IsToken w (chunk content)) (sym (shown_token w (chunk content) h)) (of_chunk content)
is_frontend_token_event-IsToken w (chunk_with content metadata) h ne =
    subst (IsToken w (chunk_with content metadata))
      (sym (shown_token w (chunk_with content metadata) h))
      (of_node content metadata (shown_metadata content metadata h))
is_frontend_token_event-IsToken w (node_updates us) h ne =
    absurd (ne (shown_token w (node_updates us) h ∙ no_content w))
is_frontend_token_event-IsToken w (state s) h ne =
    absurd (ne (shown_token w (state s) h ∙ no_content w))

-- A token that is not empty is the text of a chunk that is shown.
pub extract_token-IsToken :
    (w : World) (body : EventBody)
    → extract_token w body ≢ ""
    → IsToken w body (extract_token w body)
extract_token-IsToken w body ne = elim (Bool-cases (is_frontend_token_event body)) [
  | inl h ↦ is_frontend_token_event-IsToken w body h ne
  | inr h ↦ absurd (ne (hidden_token w body h))
]
