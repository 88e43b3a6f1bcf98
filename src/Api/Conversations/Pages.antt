-- ===== src/Api/Conversations/Pages.antt =====
-- What the pages of the routes show, and a new conversation in them.
use nextbos_ai.Prelude.{
  ℕ, String, ◌≡◌, ◌≤◌, ap, ◌∙◌, arith, length, IsIn-map, min, length-map, IsIn, true,
}
use nextbos_ai.Conversation.Tables.{ConversationMessage, Tables}
use nextbos_ai.Conversation.Repository.{Order, list_messages}
use nextbos_ai.Conversation.Repository.Reading.{list_messages-count_messages}
use nextbos_ai.Api.Conversations.{
  ConversationMessageResponse, message_to_response, list_conversation_messages,
  is_valid_messages_query,
}

-- Every message of a page that a valid query is answered with is a stored row of the thread and of
-- the user of the query. There are at most 200 of them, and as many as the smaller one of the limit
-- and the total.
pub list_conversation_messages-IsOwned :
    (order : Order ConversationMessage) (thread_id user_id : String) (limit : ℕ) (db : Tables)
    → is_valid_messages_query user_id limit ≡ true
    → ((m : ConversationMessageResponse)
        → IsIn m (list_conversation_messages order thread_id user_id limit db).items
        → (row : ConversationMessage) × IsIn row db.messages
          × (m ≡ message_to_response row)
          × (m.thread_id ≡ thread_id)
          × (m.user_id ≡ user_id))
      × (length (list_conversation_messages order thread_id user_id limit db).items ≤ 200)
      × (length (list_conversation_messages order thread_id user_id limit db).items
          ≡ min limit (list_conversation_messages order thread_id user_id limit db).total)
unfolding list_conversation_messages message_to_response is_valid_messages_query
list_conversation_messages-IsOwned order thread_id user_id limit db valid =
    let (owned, count) = list_messages-count_messages order thread_id user_id limit db in
    let rows = list_messages order thread_id user_id limit db in
    let bound : limit ≤ 200 = ground arith in
    (
      λ m i.
          let (row, stored, e) = IsIn-map message_to_response rows m i in
          let (inside, thread, user) = owned row stored in
          (row, inside, e, ap (λ x. x.thread_id) e ∙ thread, ap (λ x. x.user_id) e ∙ user),
      omega (arith, length-map message_to_response rows, count, bound),
      length-map message_to_response rows ∙ count,
    )
