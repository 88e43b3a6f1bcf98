-- ===== src/Testing/Examples/Api.antt =====
-- Examples for the routes, the stored profiles and the HTTP errors.
use nextbos_ai.Prelude.{
  String, true, none, some, List, [], ◌∷◌, ◌≡◌, refl, ◌⊎◌, All, IsIn, last?, length, min, ◌≤◌,
  concat, traverse, ok, raise, Exception, timeout_error, llm_configuration_error, ok_injective,
}
use mathlib.Core.Path.{subst}
use nextbos_ai.Value.{Value, Fields, end}
use nextbos_ai.Conversation.Tables.{ConversationMessage, Tables}
use nextbos_ai.Conversation.Repository.{append_message, user_message}
use nextbos_ai.Conversation.Repository.Counting.{no_rows}
use nextbos_ai.Llm.Models.{EffectiveModelConfig}
use nextbos_ai.Llm.ConfigResolver.{Settings, RequestedModelParams, resolve, no_params}
use nextbos_ai.Llm.ChatModels.{build_chat_model_kwargs}
use nextbos_ai.Persistence.LlmModels.{LlmTables, llm_model_repository}
use nextbos_ai.Persistence.LlmModels.Keys.{resolve-LacksKey}
use nextbos_ai.Services.StreamEvents.{StreamEvent}
use nextbos_ai.Services.AgentService.{token_event, done_event}
use nextbos_ai.Api.Errors.{map_exception_to_http_error, is_timeout_error}
use nextbos_ai.Api.Errors.Public.{public_errors, map_exception_to_http_error-IsPublic}
use nextbos_ai.Api.Streaming.{JsonDumps}
use nextbos_ai.Api.Streaming.Framing.{is_line, encoded, sent, decode, decode-encode_sse_event}
use nextbos_ai.Api.Chat.{ChatRequest, chat_stream_route}
use nextbos_ai.Api.Chat.Ends.{IsErrorFrame, IsFrameOf, chat_stream_route-ends}
use nextbos_ai.Api.Conversations.{
  ConversationMessageResponse, list_conversation_messages, message_to_response,
  is_valid_messages_query,
}
use nextbos_ai.Api.Conversations.Pages.{list_conversation_messages-IsOwned}
use nextbos_ai.Testing.Fixtures.{world}
use nextbos_ai.Testing.Sorting.{insertion}
use nextbos_ai.Testing.Examples.Services.{no_attributes, no_uuid, draws, broken_stream}

abbrev timed_out : Exception
timed_out = record { class = timeout_error; text = "secret-host" }

map_exception_to_http_error-IsPublic_example :
    IsIn (map_exception_to_http_error timed_out) public_errors
    × ((f : Exception)
        → timed_out.class ≡ f.class
        → is_timeout_error timed_out ≡ is_timeout_error f
        → map_exception_to_http_error timed_out ≡ map_exception_to_http_error f)
map_exception_to_http_error-IsPublic_example = map_exception_to_http_error-IsPublic timed_out

-- An encoder that writes one text for every dictionary.
abbrev braces : JsonDumps
braces body = ok "{}"

abbrev two_events : List StreamEvent
two_events = token_event "a" ∷ done_event "a" ∷ []

two_names : All (λ e. is_line e.event ≡ true) two_events
unfolding is_line
two_names = (refl, (refl, tt))

braces-line : (body : Fields) (payload : String) → braces body ≡ ok payload → is_line payload ≡ true
unfolding is_line
braces-line body payload h = subst (λ p. is_line p ≡ true) (ok_injective h) refl

abbrev two_frames : List String
two_frames = "event: token\ndata: {}\n\n" ∷ "event: done\ndata: {}\n\n" ∷ []

two_encoded : traverse (encoded braces) two_events ≡ ok two_frames
unfolding nextbos_ai.Api.Streaming.encode_sse_event
two_encoded = refl

decode-encode_sse_event_example :
    (pairs : List (String × String)) × (traverse (sent braces) two_events ≡ ok pairs)
    × (decode (concat two_frames) ≡ some pairs)
decode-encode_sse_event_example =
    decode-encode_sse_event braces two_events two_frames braces-line two_names two_encoded

abbrev request : ChatRequest
request = record {
  thread_id = "t";
  user_id = "alice";
  message = "sales by region";
  model_alias = none;
  model_params = none;
}

-- The stream of a graph that raises ends with a frame of an error.
chat_stream_route-ends_example :
    (f : String) × (last? (
        chat_stream_route world no_attributes no_uuid braces broken_stream draws request none
          no_rows)
      ≡ some f)
    × (IsErrorFrame braces f ⊎ ((content : String) × IsFrameOf braces (done_event content) f))
chat_stream_route-ends_example =
    chat_stream_route-ends world no_attributes no_uuid braces broken_stream draws request none
      no_rows (λ e. ("{}", refl))

abbrev one_message : Tables
one_message = append_message (user_message "t" "alice" "hello" none end) "m1" 1 1 no_rows

valid_query : is_valid_messages_query "alice" 50 ≡ true
unfolding is_valid_messages_query
valid_query = refl

list_conversation_messages-IsOwned_example :
    ((m : ConversationMessageResponse)
      → IsIn m (list_conversation_messages insertion "t" "alice" 50 one_message).items
      → (row : ConversationMessage) × IsIn row one_message.messages
        × (m ≡ message_to_response row)
        × (m.thread_id ≡ "t")
        × (m.user_id ≡ "alice"))
    × (length (list_conversation_messages insertion "t" "alice" 50 one_message).items ≤ 200)
    × (length (list_conversation_messages insertion "t" "alice" 50 one_message).items
        ≡ min 50 (list_conversation_messages insertion "t" "alice" 50 one_message).total)
list_conversation_messages-IsOwned_example =
    list_conversation_messages-IsOwned insertion "t" "alice" 50 one_message valid_query

-- A default profile with a credential whose encrypted key is stored.
abbrev stored : LlmTables
stored = record {
  credentials =
      record {
        id = "c1";
        provider = "openai";
        name = "main";
        encrypted_api_key = some "cipher";
        secret_ref = none;
        status = "active";
      }
      ∷ [];
  profiles =
      record {
        id = "p1";
        alias = "fast";
        provider = "openai";
        display_name = "Fast";
        model_name = "gpt";
        base_url = "https://llm";
        credential_id = some "c1";
        default_params = end;
        status = "active";
        is_default = true;
        scope = "global";
        scope_id = none;
        version = 1;
      }
      ∷ [];
  snapshots = [];
}

abbrev hash : Value → String
hash v = "digest"

abbrev settings : Settings
settings = record {
  llm_provider = "openai";
  llm_base_url = "https://env";
  llm_model = "env-model";
  llm_api_key = "sk-env";
  llm_temperature = 700000;
  llm_timeout_seconds = 60;
}

abbrev resolved : EffectiveModelConfig
resolved = record {
  source = "db_default";
  provider = "openai";
  base_url = "https://llm";
  model_name = "gpt";
  params = end;
  credential = some (record { id = some "c1"; provider = "openai"; name = "main"; api_key = none });
  digest = "digest";
  snapshot_id = some "s1";
  model_profile_id = some "p1";
  model_profile_version = some 1;
}

stored-resolved :
    resolve hash (llm_model_repository none stored "s1") settings none none ≡ ok resolved
unfolding resolve nextbos_ai.Llm.ConfigResolver.select_profile
    nextbos_ai.Llm.ConfigResolver.save_snapshot nextbos_ai.Llm.ConfigResolver.build_config
    nextbos_ai.Llm.ConfigResolver.profile_shape nextbos_ai.Llm.ConfigResolver.to_overrides
    nextbos_ai.Persistence.LlmModels.get_default_active_profile
    nextbos_ai.Persistence.LlmModels.to_domain nextbos_ai.Persistence.LlmModels.credential_to_domain
    nextbos_ai.Persistence.LlmModels.save_effective_snapshot
stored-resolved = refl

resolve-LacksKey_example :
    (e : Exception) × (build_chat_model_kwargs resolved ≡ raise e)
    × (e.class ≡ llm_configuration_error)
resolve-LacksKey_example =
    resolve-LacksKey hash stored "s1" settings none none resolved "p1" stored-resolved refl
