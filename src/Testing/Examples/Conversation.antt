-- ===== src/Testing/Examples/Conversation.antt =====
-- Examples for the stored conversations.
use nextbos_ai.Prelude.{String, none, some, ◌≡◌, ◌≢◌, refl, ◌≤◌, ◌⊎◌, length, keep, min, IsIn}
use nextbos_ai.Value.{end}
use nextbos_ai.Agent.State.{Message}
use nextbos_ai.Conversation.Tables.{ConversationThread, Tables}
use nextbos_ai.Conversation.Repository.{
  append_message, user_message, get_thread, message_of_thread, list_threads, count_threads,
  count_message, get_latest_summary,
}
use nextbos_ai.Conversation.Repository.Counting.{
  no_rows, Reachable, start, next, appended, get_thread-message_count,
}
use nextbos_ai.Conversation.Repository.Ownership.{upserted, append_message-get_thread}
use nextbos_ai.Conversation.Repository.Reading.{list_threads-count_threads}
use nextbos_ai.Conversation.ContextLoader.{load_messages, summary_to_message}
use nextbos_ai.Conversation.ContextLoader.Restored.{IsStored, load_messages-IsStored}
use nextbos_ai.Testing.Fixtures.{world}
use nextbos_ai.Testing.Sorting.{insertion}

-- Two messages of two users in one thread.
abbrev one_message : Tables
one_message = append_message (user_message "t" "alice" "hello" none end) "m1" 1 1 no_rows

abbrev two_messages : Tables
two_messages = append_message (user_message "t" "bob" "hi" none end) "m2" 2 2 one_message

two_messages-Reachable : Reachable two_messages
two_messages-Reachable =
    next (next start (appended (user_message "t" "alice" "hello" none end) "m1" 1 1 no_rows))
      (appended (user_message "t" "bob" "hi" none end) "m2" 2 2 one_message)

abbrev bobs_thread : ConversationThread
bobs_thread = record {
  thread_id = "t";
  user_id = "bob";
  title = none;
  status = "active";
  last_message_at = some 2;
  message_count = 2;
  metadata_json = end;
  created_at = 1;
  updated_at = 2;
}

found : get_thread "t" two_messages ≡ some bobs_thread
unfolding append_message get_thread
found = refl

get_thread-message_count_example :
    bobs_thread.message_count ≡ length (keep (message_of_thread "t") two_messages.messages)
get_thread-message_count_example =
    get_thread-message_count two_messages "t" bobs_thread two_messages-Reachable found

append_message-get_thread_example :
    (get_thread "t" two_messages
      ≡ some (
          count_message 2
            (upserted (user_message "t" "bob" "hi" none end) 2 2 (get_thread "t" one_message))))
    × ((upserted (user_message "t" "bob" "hi" none end) 2 2 (get_thread "t" one_message)).user_id
        ≡ "bob")
    × ((k : String) → "t" ≢ k → get_thread k two_messages ≡ get_thread k one_message)
append_message-get_thread_example =
    append_message-get_thread (user_message "t" "bob" "hi" none end) "m2" 2 2 one_message

list_threads-count_threads_example :
    ((t : ConversationThread)
      → IsIn t (list_threads insertion "bob" 20 two_messages)
      → IsIn t two_messages.threads × (t.user_id ≡ "bob"))
    × (length (list_threads insertion "bob" 20 two_messages)
        ≡ min 20 (count_threads "bob" two_messages))
list_threads-count_threads_example = list_threads-count_threads insertion "bob" 20 two_messages

load_messages-IsStored_example :
    ((x : Message)
      → IsIn x (load_messages world insertion insertion 20 "t" two_messages)
      → (summary_to_message (get_latest_summary insertion "t" two_messages) ≡ some x)
        ⊎ IsStored world "t" two_messages x)
    × (length (load_messages world insertion insertion 20 "t" two_messages) ≤ 21)
load_messages-IsStored_example =
    load_messages-IsStored world insertion insertion 20 "t" two_messages
