-- ===== src/Conversation/Repository.antt =====
-- conversation/repository.py. Each write method is one transaction, and so one step on the tables.
-- `now` is the clock at the method, `later` the one in `_upsert_thread`; ids are those that the
-- database generates. `ORDER BY` is a parameter: what it does with rows of equal rank is not said.
pub mod Counting
pub mod Ownership
pub mod Reading
use nextbos_ai.Prelude.{
  ℕ, suc, String, Bool, true, false, ◌&&◌, ◌≡◌, Option, none, some, List, [], ◌∷◌, ◌==◌, keep,
  length, take, ltb, any, reverse, if◌then◌else◌, IsIn, All, leb,
}
use nextbos_ai.Value.{Fields, end}
use nextbos_ai.Conversation.Tables.{
  ConversationThread, ConversationMessage, ConversationSummary, Tables,
}

abbrev pub of_thread : String → ConversationThread → Bool
of_thread thread_id t = t.thread_id == thread_id

abbrev pub message_of_thread : String → ConversationMessage → Bool
message_of_thread thread_id m = m.thread_id == thread_id

abbrev pub message_of_owner : String → String → ConversationMessage → Bool
message_of_owner thread_id user_id m = m.thread_id == thread_id && m.user_id == user_id

-- `UPDATE … WHERE thread_id = …`.
abbrev pub update_threads :
    (ConversationThread → ConversationThread)
    → String
    → List ConversationThread
    → List ConversationThread
update_threads f thread_id [] = []
update_threads f thread_id (t ∷ ts) =
    let rest = update_threads f thread_id ts in
    if of_thread thread_id t then f t ∷ rest else t ∷ rest

abbrev pub or_kept : Option ℕ → Option ℕ → Option ℕ
or_kept none kept = kept
or_kept (some t) kept = some t

-- The row that an upsert inserts, and what it sets where the thread exists.
abbrev pub new_thread : String → String → Option ℕ → ℕ → ConversationThread
new_thread thread_id user_id last_message_at now = record {
  thread_id = thread_id;
  user_id = user_id;
  title = none;
  status = "active";
  last_message_at = last_message_at;
  message_count = 0;
  metadata_json = end;
  created_at = now;
  updated_at = now;
}

abbrev pub touch_thread : String → Option ℕ → ℕ → ConversationThread → ConversationThread
touch_thread user_id last_message_at now t = record t {
  user_id = user_id;
  updated_at = now;
  last_message_at = or_kept last_message_at t.last_message_at;
}

-- `_upsert_thread`.
unfoldable pub upsert_thread :
    String → String → Option ℕ → ℕ → List ConversationThread → List ConversationThread
upsert_thread thread_id user_id last_message_at now ts =
    if any (of_thread thread_id) ts
    then update_threads (touch_thread user_id last_message_at now) thread_id ts
    else new_thread thread_id user_id last_message_at now ∷ ts

-- The arguments of `append_message`.
pub record NewMessage : Type 0 where
  pub thread_id : String
  pub user_id : String
  pub role : String
  pub content : Option String
  pub type : String
  pub status : String
  pub trace_id : Option String
  pub llm_snapshot_id : Option String
  pub metadata : Fields

abbrev pub count_message : ℕ → ConversationThread → ConversationThread
count_message now t = record t {
  last_message_at = some now;
  message_count = suc t.message_count;
  updated_at = now;
}

abbrev pub message_row : NewMessage → String → ℕ → ConversationMessage
message_row m id now = record {
  id = id;
  thread_id = m.thread_id;
  user_id = m.user_id;
  role = m.role;
  type = m.type;
  content = m.content;
  status = m.status;
  trace_id = m.trace_id;
  llm_snapshot_id = m.llm_snapshot_id;
  metadata_json = m.metadata;
  created_at = now;
}

-- `append_message`: the upsert, the insertion and the update of the count.
unfoldable pub append_message : NewMessage → String → ℕ → ℕ → Tables → Tables
unfolding upsert_thread
append_message m id now later db = record db {
  threads =
      update_threads (count_message now) m.thread_id
        (upsert_thread m.thread_id m.user_id (some now) later db.threads);
  messages = message_row m id now ∷ db.messages;
}

-- `append_user_message` and `append_assistant_message`.
abbrev pub user_message : String → String → String → Option String → Fields → NewMessage
user_message thread_id user_id content trace_id metadata = record {
  thread_id = thread_id;
  user_id = user_id;
  role = "user";
  content = some content;
  type = "text";
  status = "completed";
  trace_id = trace_id;
  llm_snapshot_id = none;
  metadata = metadata;
}

abbrev pub assistant_message :
    String → String → Option String → Option String → Option String → Fields → NewMessage
assistant_message thread_id user_id content trace_id llm_snapshot_id metadata = record {
  thread_id = thread_id;
  user_id = user_id;
  role = "assistant";
  content = content;
  type = "text";
  status = "completed";
  trace_id = trace_id;
  llm_snapshot_id = llm_snapshot_id;
  metadata = metadata;
}

abbrev title_or_new : Option String → String
title_or_new none = "新会话"
title_or_new (some t) = if t == "" then "新会话" else t

-- `create_thread`, with the new id of the thread.
unfoldable pub create_thread : String → String → Option String → Fields → ℕ → Tables → Tables
create_thread thread_id user_id title metadata now db = record db {
  threads =
      record {
        thread_id = thread_id;
        user_id = user_id;
        title = some (title_or_new title);
        status = "active";
        last_message_at = none;
        message_count = 0;
        metadata_json = metadata;
        created_at = now;
        updated_at = now;
      }
      ∷ db.threads;
}

-- The arguments of `save_summary`.
pub record NewSummary : Type 0 where
  pub thread_id : String
  pub user_id : String
  pub summary : String
  pub covered_through_message_id : Option String
  pub message_count : ℕ
  pub token_estimate : Option ℕ
  pub metadata : Fields

-- `save_summary`.
unfoldable pub save_summary : NewSummary → String → ℕ → ℕ → Tables → Tables
unfolding upsert_thread
save_summary m id now later db = record db {
  threads = upsert_thread m.thread_id m.user_id none later db.threads;
  summaries =
      record {
        id = id;
        thread_id = m.thread_id;
        user_id = m.user_id;
        summary = m.summary;
        covered_through_message_id = m.covered_through_message_id;
        message_count = m.message_count;
        token_estimate = m.token_estimate;
        metadata_json = m.metadata;
        created_at = now;
        updated_at = now;
      }
      ∷ db.summaries;
}

-- Keys of an `ORDER BY … DESC`, the first one deciding first.
abbrev pub lex_leb : List ℕ → List ℕ → Bool
lex_leb [] ns = true
lex_leb (m ∷ ms) [] = false
lex_leb (m ∷ ms) (n ∷ ns) = if ltb m n then true else (if ltb n m then false else lex_leb ms ns)

-- No row stands right before one with larger keys.
abbrev pub IsDescending : {A : Type 0} → (A → List ℕ) → List A → Type 0
IsDescending keys [] = Unit
IsDescending keys (x ∷ []) = Unit
IsDescending keys (x ∷ y ∷ ys) = (lex_leb (keys y) (keys x) ≡ true) × IsDescending keys (y ∷ ys)

-- `ORDER BY keys DESC` of the database: the same rows, none before one with larger keys.
pub record Order (A : Type 0) : Type 0 where
  pub order_by_desc : (A → List ℕ) → List A → List A
  pub no_new_rows :
      (keys : A → List ℕ) (xs : List A) (x : A) → IsIn x (order_by_desc keys xs) → IsIn x xs
  pub no_lost_rows :
      (keys : A → List ℕ) (xs : List A) (x : A) → IsIn x xs → IsIn x (order_by_desc keys xs)
  pub same_count : (keys : A → List ℕ) (xs : List A) → length (order_by_desc keys xs) ≡ length xs
  pub descending : (keys : A → List ℕ) (xs : List A) → IsDescending keys (order_by_desc keys xs)

abbrev pub message_keys : ConversationMessage → List ℕ
message_keys m = m.created_at ∷ []

-- `list_recent_messages`.
unfoldable pub list_recent_messages :
    Order ConversationMessage → String → ℕ → Tables → List ConversationMessage
list_recent_messages order thread_id limit db =
    reverse (
      take limit
        (order.order_by_desc message_keys (keep (message_of_thread thread_id) db.messages)))

-- `list_messages`.
unfoldable pub list_messages :
    Order ConversationMessage → String → String → ℕ → Tables → List ConversationMessage
list_messages order thread_id user_id limit db = reverse (
    take limit
      (order.order_by_desc message_keys (keep (message_of_owner thread_id user_id) db.messages)))

-- `count_messages`.
unfoldable pub count_messages : String → String → Tables → ℕ
count_messages thread_id user_id db = length (keep (message_of_owner thread_id user_id) db.messages)

abbrev coalesced : Option ℕ → ℕ → ℕ
coalesced none fallback = fallback
coalesced (some t) fallback = t

abbrev pub thread_keys : ConversationThread → List ℕ
thread_keys t = coalesced t.last_message_at t.updated_at ∷ t.created_at ∷ []

abbrev pub thread_of_owner : String → ConversationThread → Bool
thread_of_owner user_id t = t.user_id == user_id

-- `list_threads`.
unfoldable pub list_threads :
    Order ConversationThread → String → ℕ → Tables → List ConversationThread
list_threads order user_id limit db =
    take limit (order.order_by_desc thread_keys (keep (thread_of_owner user_id) db.threads))

-- `count_threads`.
unfoldable pub count_threads : String → Tables → ℕ
count_threads user_id db = length (keep (thread_of_owner user_id) db.threads)

abbrev pub first_of : {A : Type 0} → List A → Option A
first_of [] = none
first_of (x ∷ xs) = some x

-- `get_latest_summary`.
unfoldable pub get_latest_summary :
    Order ConversationSummary → String → Tables → Option ConversationSummary
get_latest_summary order thread_id db = first_of (
    order.order_by_desc (λ s. s.updated_at ∷ [])
      (keep (λ s. s.thread_id == thread_id) db.summaries))

abbrev pub thread_row : String → List ConversationThread → Option ConversationThread
thread_row thread_id [] = none
thread_row thread_id (t ∷ ts) =
    let rest = thread_row thread_id ts in if of_thread thread_id t then some t else rest

-- `get_thread`.
unfoldable pub get_thread : String → Tables → Option ConversationThread
get_thread thread_id db = thread_row thread_id db.threads
