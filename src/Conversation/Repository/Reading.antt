-- ===== src/Conversation/Repository/Reading.antt =====
-- What the repository reads.
use nextbos_ai.Prelude.{
  ℕ, String, Bool, true, List, ◌≡◌, arith, eq_iff, keep, length, take, min, IsIn, length-take,
  length-reverse, IsIn-reverse, IsIn-take, IsIn-keep,
}
use nextbos_ai.Conversation.Tables.{ConversationMessage, ConversationThread, Tables}
use nextbos_ai.Conversation.Repository.{
  Order, message_keys, message_of_owner, thread_of_owner, thread_keys, list_messages,
  count_messages, list_threads, count_threads,
}

module _ {A : Type 0} (order : Order A) (keys : A → List ℕ) (p : A → Bool) where
  pub page_IsIn :
      (n : ℕ) (xs : List A) (x : A)
      → IsIn x (take n (order.order_by_desc keys (keep p xs)))
      → IsIn x xs × (p x ≡ true)
  page_IsIn n xs x m = IsIn-keep p xs x (order.no_new_rows keys (keep p xs) x (IsIn-take n _ x m))

  pub page_length :
      (n : ℕ) (xs : List A)
      → length (take n (order.order_by_desc keys (keep p xs))) ≡ min n (length (keep p xs))
  page_length n xs = omega (
    arith,
    length-take n (order.order_by_desc keys (keep p xs)),
    order.same_count keys (keep p xs),
  )

-- Every message that `list_messages` gives is stored for that thread and that user, and the number of
-- them is the smaller one of the limit and `count_messages`.
pub list_messages-count_messages :
    (order : Order ConversationMessage) (thread_id user_id : String) (limit : ℕ) (db : Tables)
    → ((m : ConversationMessage)
        → IsIn m (list_messages order thread_id user_id limit db)
        → IsIn m db.messages × (m.thread_id ≡ thread_id) × (m.user_id ≡ user_id))
      × (length (list_messages order thread_id user_id limit db)
          ≡ min limit (count_messages thread_id user_id db))
unfolding list_messages count_messages
list_messages-count_messages order thread_id user_id limit db = (
  λ m i.
      let (stored, owned) =
        page_IsIn order message_keys (message_of_owner thread_id user_id) limit db.messages m
          (IsIn-reverse _ m i) in
      (
        stored,
        ground (arith, eq_iff m.thread_id thread_id),
        ground (arith, eq_iff m.user_id user_id),
      ),
  omega (
    arith,
    length-reverse (
        take limit (
          order.order_by_desc message_keys
            (keep (message_of_owner thread_id user_id) db.messages))),
    page_length order message_keys (message_of_owner thread_id user_id) limit db.messages,
  ),
)

-- Every thread that `list_threads` gives is stored for that user, and the number of them is the
-- smaller one of the limit and `count_threads`.
pub list_threads-count_threads :
    (order : Order ConversationThread) (user_id : String) (limit : ℕ) (db : Tables)
    → ((t : ConversationThread)
        → IsIn t (list_threads order user_id limit db)
        → IsIn t db.threads × (t.user_id ≡ user_id))
      × (length (list_threads order user_id limit db) ≡ min limit (count_threads user_id db))
unfolding list_threads count_threads
list_threads-count_threads order user_id limit db = (
  λ t i.
      let (stored, owned) =
        page_IsIn order thread_keys (thread_of_owner user_id) limit db.threads t i in
      (stored, ground (arith, eq_iff t.user_id user_id)),
  page_length order thread_keys (thread_of_owner user_id) limit db.threads,
)
