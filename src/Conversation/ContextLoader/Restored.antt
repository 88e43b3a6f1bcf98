-- ===== src/Conversation/ContextLoader/Restored.antt =====
-- Where the loaded context comes from.
use nextbos_ai.Prelude.{
  ℕ, suc, String, Option, none, some, List, [], ◌∷◌, ◌≡◌, refl, ap, arith, eq_iff, ◌≤◌, ◌⊎◌, inl,
  inr, length, length-append, take, keep, filter_map, IsIn, IsIn-append, IsIn-reverse,
  length-reverse, length-take, Option-cases, ◌∙◌, sym, reverse,
}
use mathlib.Core.Path.{subst}
use nextbos_ai.Agent.State.{Message}
use nextbos_ai.Agent.World.{World}
use nextbos_ai.Conversation.Tables.{ConversationMessage, ConversationSummary, Tables}
use nextbos_ai.Conversation.Repository.{
  Order, message_keys, message_of_thread, get_latest_summary, list_recent_messages,
}
use nextbos_ai.Conversation.Repository.Reading.{page_IsIn}
use nextbos_ai.Conversation.ContextLoader.{
  summary_to_message, conversation_message_to_langchain_message, listed, load_messages,
}

-- A message that a stored row of the thread gives, under the id of the row.
pub record IsStored (w : World) (thread_id : String) (db : Tables) (x : Message) : Type 0 where
  pub row : ConversationMessage
  pub stored : IsIn row db.messages
  pub same_thread : row.thread_id ≡ thread_id
  pub converted : conversation_message_to_langchain_message w row ≡ some x
  pub same_id : x.id ≡ some row.id

converted-id :
    (w : World) (row : ConversationMessage) (x : Message)
    → conversation_message_to_langchain_message w row ≡ some x
    → x.id ≡ some row.id
unfolding conversation_message_to_langchain_message
converted-id w row x h = ground arith

module _ {A B : Type 0} (f : A → Option B) where
  pub filter_map-none : (x : A) (xs : List A) → f x ≡ none → filter_map f (x ∷ xs) ≡ filter_map f xs
  filter_map-none x xs e = rw (e, filter_map)

  pub filter_map-some :
      (x : A) (xs : List A) (b : B) → f x ≡ some b → filter_map f (x ∷ xs) ≡ b ∷ filter_map f xs
  filter_map-some x xs b e = rw (e, filter_map)

  pub IsIn-filter_map :
      (xs : List A) (y : B) → IsIn y (filter_map f xs) → (x : A) × IsIn x xs × (f x ≡ some y)
  IsIn-filter_map [] y m = absurd m
  IsIn-filter_map (x ∷ xs) y m =
      let later : IsIn y (filter_map f xs) → (a : A) × IsIn a (x ∷ xs) × (f a ≡ some y) =
        λ i. let (a, k, q) = IsIn-filter_map xs y i in (a, inr k, q) in
      elim (Option-cases (f x)) [
        | inl e ↦ later (subst (IsIn y) (filter_map-none x xs e) m)
        | inr (b, e) ↦ elim (subst (IsIn y) (filter_map-some x xs b e) m) [
          | inl q ↦ (x, inl refl, e ∙ ap some (sym q))
          | inr i ↦ later i
        ]
      ]

  length-filter_map : (xs : List A) → length (filter_map f xs) ≤ length xs
  length-filter_map [] = omega arith
  length-filter_map (x ∷ xs) = ground (arith, length-filter_map xs)

listed-IsIn : (o : Option Message) (x : Message) → IsIn x (listed o) → o ≡ some x
listed-IsIn none x m = absurd m
listed-IsIn (some a) x (inl e) = ap some (sym e)
listed-IsIn (some a) x (inr m) = absurd m

listed-length : (o : Option Message) → length (listed o) ≤ 1
listed-length none = omega arith
listed-length (some a) = omega arith

-- Every message of the loaded context is the latest summary of the thread, or comes from a stored
-- row of the thread, of whichever user, and carries the row's id. The context has at most one
-- message more than the limit.
pub load_messages-IsStored :
    (w : World) (messages : Order ConversationMessage) (summaries : Order ConversationSummary)
    (n : ℕ) (thread_id : String) (db : Tables)
    → ((x : Message)
        → IsIn x (load_messages w messages summaries n thread_id db)
        → (summary_to_message (get_latest_summary summaries thread_id db) ≡ some x)
          ⊎ IsStored w thread_id db x)
      × (length (load_messages w messages summaries n thread_id db) ≤ suc n)
unfolding load_messages list_recent_messages
load_messages-IsStored w messages summaries n thread_id db =
    let f = conversation_message_to_langchain_message w in
    let page =
      take n
        (messages.order_by_desc message_keys (keep (message_of_thread thread_id) db.messages)) in
    let rows = reverse page in
    let first = listed (summary_to_message (get_latest_summary summaries thread_id db)) in
    (
      λ x m. elim (IsIn-append first (filter_map f rows) x m) [
        | inl i ↦ inl (listed-IsIn _ x i)
        | inr i ↦
            let (row, k, q) = IsIn-filter_map f rows x i in
            let (stored, same) =
              page_IsIn messages message_keys (message_of_thread thread_id) n db.messages row
                (IsIn-reverse page row k) in
            inr (record {
              row = row;
              stored = stored;
              same_thread = ground (arith, eq_iff row.thread_id thread_id);
              converted = q;
              same_id = converted-id w row x q;
            })
      ],
      omega (
        arith,
        length-append first (filter_map f rows),
        length-filter_map f rows,
        length-reverse page,
        length-take n
            (messages.order_by_desc message_keys (keep (message_of_thread thread_id) db.messages)),
        listed-length (summary_to_message (get_latest_summary summaries thread_id db)),
      ),
    )
