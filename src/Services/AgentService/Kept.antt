-- ===== src/Services/AgentService/Kept.antt =====
-- What a chat keeps in the tables, whether its run of the graph ends or raises.
use nextbos_ai.Prelude.{
  String, Option, none, some, List, ◌∷◌, ◌≡◌, refl, ◌⊎◌, inl, inr, Outcome, ok, raise, Exception,
}
use nextbos_ai.Value.{Value, Object, end}
use nextbos_ai.Agent.State.{AgentState}
use nextbos_ai.Agent.World.{World}
use nextbos_ai.Conversation.Tables.{ConversationMessage, Tables}
use nextbos_ai.Conversation.Repository.{
  append_message, save_summary, message_row, user_message, assistant_message,
}
use nextbos_ai.Conversation.Repository.Counting.{Reachable, next, appended, summarized}
use nextbos_ai.Conversation.Summary.{ExtractedConversationSummary, extract_running_summary}
use nextbos_ai.Services.StreamEvents.{StreamEvent}
use nextbos_ai.Services.Calls.{RunGraph, StreamGraph, ChatCall, Draw, Draws}
use nextbos_ai.Services.AgentService.{
  ChatRun, ChatStream, StreamState, append_user_message, save_extracted, persist_assistant_result,
  finish_chat, finish_stream, chat, stream_chat,
}

-- The rows of the question and of the answer.
abbrev pub question_row : Draws → ChatCall → ConversationMessage
question_row d c =
    message_row (user_message c.thread_id c.user_id c.message c.trace_id end) d.user.id d.user.now

abbrev pub answer_row : Draws → ChatCall → String → Option String → ConversationMessage
answer_row d c content snapshot =
    message_row (assistant_message c.thread_id c.user_id (some content) c.trace_id snapshot end)
      d.assistant.id d.assistant.now

-- The question and the answer are stored, in this order.
abbrev pub IsAnswered : Draws → ChatCall → Tables → String → Tables → Type 0
IsAnswered d c before content after =
    (snapshot : Option String) × (after.messages
      ≡ answer_row d c content snapshot ∷ question_row d c ∷ before.messages)

save_extracted-messages :
    (d : Draw) (c : ChatCall) (o : Option ExtractedConversationSummary) (db : Tables)
    → (save_extracted d c o db).messages ≡ db.messages
unfolding save_extracted save_summary
save_extracted-messages d c none db = refl
save_extracted-messages d c (some s) db = refl

save_extracted-Reachable :
    (d : Draw) (c : ChatCall) (o : Option ExtractedConversationSummary) (db : Tables)
    → Reachable db
    → Reachable (save_extracted d c o db)
unfolding save_extracted
save_extracted-Reachable d c none db r = r
save_extracted-Reachable d c (some s) db r = next r (summarized _ d.id d.now d.later db)

append_user_message-Reachable :
    (d : Draw) (c : ChatCall) (db : Tables) → Reachable db → Reachable (append_user_message d c db)
unfolding append_user_message
append_user_message-Reachable d c db r = next r (appended _ d.id d.now d.later db)

module _ (w : World) (getattr : Object → String → Value) (uuid : String → Option String) where
  persisted-IsAnswered :
      (d : Draws) (c : ChatCall) (content : String) (s : AgentState) (db : Tables)
      → IsAnswered d c db content
          (persist_assistant_result w getattr uuid d c content s (append_user_message d.user c db))
  unfolding persist_assistant_result append_user_message append_message
  persisted-IsAnswered d c content s db = (
    s.llm_snapshot_id,
    save_extracted-messages d.summary c (extract_running_summary getattr uuid s.context) _,
  )

  persisted-Reachable :
      (d : Draws) (c : ChatCall) (content : String) (s : AgentState) (db : Tables)
      → Reachable db
      → Reachable (persist_assistant_result w getattr uuid d c content s db)
  unfolding persist_assistant_result
  persisted-Reachable d c content s db r =
      save_extracted-Reachable d.summary c (extract_running_summary getattr uuid s.context) _
        (next r (appended _ d.assistant.id d.assistant.now d.assistant.later db))

  -- What a chat leaves of a call, for its outcome.
  abbrev pub IsKeptChat : Draws → ChatCall → Tables → ChatRun → Type 0
  IsKeptChat d c db r =
      ((e : Exception) × (r.result ≡ raise e) × (r.tables ≡ append_user_message d.user c db))
      ⊎ ((content : String) × (r.result ≡ ok content) × IsAnswered d c db content r.tables)

  abbrev pub IsKeptStream : Draws → ChatCall → Tables → ChatStream → Type 0
  IsKeptStream d c db r =
      ((e : Exception) × (r.failure ≡ some e) × (r.tables ≡ append_user_message d.user c db))
      ⊎ ((content : String) × (r.failure ≡ none) × IsAnswered d c db content r.tables)

  finish_chat-IsKeptChat :
      (d : Draws) (c : ChatCall) (db : Tables) (o : Outcome AgentState)
      → IsKeptChat d c db (finish_chat w getattr uuid d c (append_user_message d.user c db) o)
  unfolding finish_chat
  finish_chat-IsKeptChat d c db (raise e) = inl (e, refl, refl)
  finish_chat-IsKeptChat d c db (ok s) = inr (_, refl, persisted-IsAnswered d c _ s db)

  finish_stream-IsKeptStream :
      (d : Draws) (c : ChatCall) (db : Tables) (yielded : List StreamEvent)
      (o : Outcome StreamState)
      → IsKeptStream d c db
          (finish_stream w getattr uuid d c (append_user_message d.user c db) yielded o)
  unfolding finish_stream
  finish_stream-IsKeptStream d c db yielded (raise e) = inl (e, refl, refl)
  finish_stream-IsKeptStream d c db yielded (ok st) =
      inr (_, refl, persisted-IsAnswered d c _ st.final_state db)

  -- Whatever the graph does, a chat that raises leaves the tables with the user's message appended
  -- and nothing else, also where the graph raised in the middle of a stream. One that ends leaves
  -- the answer and the question as the two latest messages, the question first, and every earlier
  -- message as it was.
  pub chat-IsKept :
      (run_graph : RunGraph) (stream_graph : StreamGraph) (d : Draws) (c : ChatCall) (db : Tables)
      → IsKeptChat d c db (chat w getattr uuid run_graph d c db)
        × IsKeptStream d c db (stream_chat w getattr uuid stream_graph d c db)
  unfolding chat stream_chat
  chat-IsKept run_graph stream_graph d c db =
      (finish_chat-IsKeptChat d c db _, finish_stream-IsKeptStream d c db _ _)

  finish_chat-Reachable :
      (d : Draws) (c : ChatCall) (db : Tables) (o : Outcome AgentState)
      → Reachable db
      → Reachable (finish_chat w getattr uuid d c db o).tables
  unfolding finish_chat
  finish_chat-Reachable d c db (raise e) r = r
  finish_chat-Reachable d c db (ok s) r = persisted-Reachable d c _ s db r

  finish_stream-Reachable :
      (d : Draws) (c : ChatCall) (db : Tables) (yielded : List StreamEvent)
      (o : Outcome StreamState)
      → Reachable db
      → Reachable (finish_stream w getattr uuid d c db yielded o).tables
  unfolding finish_stream
  finish_stream-Reachable d c db yielded (raise e) r = r
  finish_stream-Reachable d c db yielded (ok st) r = persisted-Reachable d c _ st.final_state db r

  -- From tables that the transactions of the repository reach, both ways to chat lead to such
  -- tables again, so that the stored counts of messages stay right.
  pub chat-Reachable :
      (run_graph : RunGraph) (stream_graph : StreamGraph) (d : Draws) (c : ChatCall) (db : Tables)
      → Reachable db
      → Reachable (chat w getattr uuid run_graph d c db).tables
        × Reachable (stream_chat w getattr uuid stream_graph d c db).tables
  unfolding chat stream_chat
  chat-Reachable run_graph stream_graph d c db r =
      let asked = append_user_message-Reachable d.user c db r in
      (finish_chat-Reachable d c _ _ asked, finish_stream-Reachable d c _ _ _ asked)
