-- ===== src/Conversation/Tables.antt =====
-- persistence/postgres/models.py: the rows of the conversation tables, and the tables as one store.
-- Times are numbers; the database's generated ids are texts.
use nextbos_ai.Prelude.{ℕ, String, Option, List}
use nextbos_ai.Value.{Fields}

pub record ConversationThread : Type 0 where
  pub thread_id : String
  pub user_id : String
  pub title : Option String
  pub status : String
  pub last_message_at : Option ℕ
  pub message_count : ℕ
  pub metadata_json : Fields
  pub created_at : ℕ
  pub updated_at : ℕ

pub record ConversationMessage : Type 0 where
  pub id : String
  pub thread_id : String
  pub user_id : String
  pub role : String
  pub type : String
  pub content : Option String
  pub status : String
  pub trace_id : Option String
  pub llm_snapshot_id : Option String
  pub metadata_json : Fields
  pub created_at : ℕ

pub record ConversationSummary : Type 0 where
  pub id : String
  pub thread_id : String
  pub user_id : String
  pub summary : String
  pub covered_through_message_id : Option String
  pub message_count : ℕ
  pub token_estimate : Option ℕ
  pub metadata_json : Fields
  pub created_at : ℕ
  pub updated_at : ℕ

-- The tables, each in the order of its insertions, the latest first.
pub record Tables : Type 0 where
  pub threads : List ConversationThread
  pub messages : List ConversationMessage
  pub summaries : List ConversationSummary
