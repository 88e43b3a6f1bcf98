-- ===== src/Conversation/ContextLoader.antt =====
-- conversation/context_loader.py
pub mod Restored
use nextbos_ai.Prelude.{
  ℕ, String, Bool, Option, none, some, List, [], ◌∷◌, ◌++◌, ◌==◌, ◌<>◌, filter_map, strip,
  if◌then◌else◌,
}
use nextbos_ai.Value.{Value, str, Fields, get, or_else}
use nextbos_ai.Agent.State.{Message, MessageKind, human, ai, system, tool, message}
use nextbos_ai.Agent.World.{World, text_of}
use nextbos_ai.Conversation.Tables.{ConversationMessage, ConversationSummary, Tables}
use nextbos_ai.Conversation.Repository.{Order, get_latest_summary, list_recent_messages}

-- `_summary_to_message`.
unfoldable pub summary_to_message : Option ConversationSummary → Option Message
unfolding strip
summary_to_message none = none
summary_to_message (some s) =
    if strip s.summary == ""
    then none
    else some (message system ("以下是这段会话此前的长期摘要，用于在短期 Redis checkpoint 过期后恢复上下文：\n" <> s.summary))

abbrev content_or_empty : Option String → String
content_or_empty none = ""
content_or_empty (some c) = c

abbrev restored : MessageKind → ConversationMessage → Message
restored kind row = record (message kind (content_or_empty row.content)) { id = some row.id }

-- `_conversation_message_to_langchain_message`; a row of an unknown role gives nothing.
unfoldable pub conversation_message_to_langchain_message :
    World → ConversationMessage → Option Message
conversation_message_to_langchain_message w row =
    if row.role == "user"
    then some (restored human row)
    else if row.role == "assistant"
    then some (restored ai row)
    else if row.role == "system"
    then some (restored system row)
    else if row.role == "tool"
    then some (record (restored tool row) {
      tool_call_id = some (text_of w (or_else (get "tool_call_id" row.metadata_json) (str row.id)));
    })
    else none

abbrev pub listed : Option Message → List Message
listed none = []
listed (some m) = m ∷ []

-- `load_messages`.
unfoldable pub load_messages :
    World
    → Order ConversationMessage
    → Order ConversationSummary
    → ℕ
    → String
    → Tables
    → List Message
unfolding summary_to_message conversation_message_to_langchain_message
load_messages w messages summaries recent_message_limit thread_id db =
    listed (summary_to_message (get_latest_summary summaries thread_id db))
    ++ filter_map (conversation_message_to_langchain_message w)
        (list_recent_messages messages thread_id recent_message_limit db)
