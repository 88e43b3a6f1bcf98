-- ===== src/Api/Conversations.antt =====
-- api/routes/conversations.py: the routes on the stored conversations. FastAPI checks the lengths of
-- the query's texts and the limits before; `is_valid_…` are those checks. A failing database is not
-- modelled, and so neither is the mapping of its exceptions.
pub mod Pages
use Prim.Native.Nat.{ℕ}
use Prim.Native.String.{count}
use nextbos_ai.Prelude.{String, Bool, true, Option, none, some, List, ◌&&◌, leb, map}
use nextbos_ai.Value.{Fields}
use nextbos_ai.Conversation.Tables.{ConversationThread, ConversationMessage, Tables}
use nextbos_ai.Conversation.Repository.{
  Order, list_threads, count_threads, list_messages, count_messages, create_thread, first_of,
}

abbrev length_within : ℕ → ℕ → String → Bool
length_within low high s = leb low (count s) && leb (count s) high

abbrev title_within : Option String → Bool
title_within none = true
title_within (some s) = length_within 1 256 s

pub record CreateConversationRequest : Type 0 where
  pub user_id : String
  pub title : Option String
  pub metadata : Fields

unfoldable pub is_valid_creation : CreateConversationRequest → Bool
is_valid_creation r = length_within 1 128 r.user_id && title_within r.title

-- The constraints of the queries' parameters.
unfoldable pub is_valid_list_query : String → ℕ → Bool
is_valid_list_query user_id limit = length_within 1 128 user_id && leb 1 limit && leb limit 100

unfoldable pub is_valid_messages_query : String → ℕ → Bool
is_valid_messages_query user_id limit = length_within 1 128 user_id && leb 1 limit && leb limit 200

pub record ConversationResponse : Type 0 where
  pub thread_id : String
  pub user_id : String
  pub title : Option String
  pub status : String
  pub message_count : ℕ
  pub last_message_at : Option ℕ
  pub metadata : Fields
  pub created_at : ℕ
  pub updated_at : ℕ

pub record ConversationMessageResponse : Type 0 where
  pub message_id : String
  pub thread_id : String
  pub user_id : String
  pub role : String
  pub type : String
  pub content : Option String
  pub metadata : Fields
  pub status : String
  pub created_at : ℕ

-- A list response, of which `code`, `status` and `message` are constant.
pub record Page (A : Type 0) : Type 0 where
  pub items : List A
  pub total : ℕ
  pub limit : ℕ

-- `_thread_to_response`.
unfoldable pub thread_to_response : ConversationThread → ConversationResponse
thread_to_response t = record {
  thread_id = t.thread_id;
  user_id = t.user_id;
  title = t.title;
  status = t.status;
  message_count = t.message_count;
  last_message_at = t.last_message_at;
  metadata = t.metadata_json;
  created_at = t.created_at;
  updated_at = t.updated_at;
}

-- `_message_to_response`.
unfoldable pub message_to_response : ConversationMessage → ConversationMessageResponse
message_to_response m = record {
  message_id = m.id;
  thread_id = m.thread_id;
  user_id = m.user_id;
  role = m.role;
  type = m.type;
  content = m.content;
  metadata = m.metadata_json;
  status = m.status;
  created_at = m.created_at;
}

-- `list_conversations`.
unfoldable pub list_conversations :
    Order ConversationThread → String → ℕ → Tables → Page ConversationResponse
unfolding thread_to_response
list_conversations order user_id limit db = record {
  items = map thread_to_response (list_threads order user_id limit db);
  total = count_threads user_id db;
  limit = limit;
}

-- `list_conversation_messages`.
unfoldable pub list_conversation_messages :
    Order ConversationMessage → String → String → ℕ → Tables → Page ConversationMessageResponse
unfolding message_to_response
list_conversation_messages order thread_id user_id limit db = record {
  items = map message_to_response (list_messages order thread_id user_id limit db);
  total = count_messages thread_id user_id db;
  limit = limit;
}

pub record Created : Type 0 where
  pub tables : Tables
  pub response : Option ConversationResponse

response_of : Option ConversationThread → Option ConversationResponse
unfolding thread_to_response
response_of none = none
response_of (some t) = some (thread_to_response t)

-- `create_conversation`, with the new id and the time of the transaction; the response is that of the
-- inserted row, which stands first.
unfoldable pub create_conversation : CreateConversationRequest → String → ℕ → Tables → Created
unfolding create_thread response_of
create_conversation r thread_id now db =
    let after = create_thread thread_id r.user_id r.title r.metadata now db in
    record { tables = after; response = response_of (first_of after.threads) }
