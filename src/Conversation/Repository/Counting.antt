-- ===== src/Conversation/Repository/Counting.antt =====
-- The stored number of messages of a thread.
use nextbos_ai.Prelude.{
  ℕ, suc, String, true, false, Option, none, some, List, [], ◌∷◌, ◌≡◌, ◌≢◌, refl, ◌∙◌, arith,
  eq_iff, ◌==◌, keep, length, any, Bool-cases, inl, inr, if◌then◌else◌,
}
use nextbos_ai.Value.{Fields}
use nextbos_ai.Conversation.Tables.{ConversationThread, Tables}
use nextbos_ai.Conversation.Repository.{
  of_thread, message_of_thread, update_threads, upsert_thread, touch_thread, count_message,
  thread_row, get_thread, NewMessage, NewSummary, append_message, create_thread, save_summary,
}

-- The count in the row of a thread, and 0 where it has no row.
abbrev pub stored_count : String → List ConversationThread → ℕ
stored_count thread_id [] = 0
stored_count thread_id (t ∷ ts) =
    let rest = stored_count thread_id ts in if of_thread thread_id t then t.message_count else rest

abbrev pub IsCounted : Tables → Type 0
IsCounted db =
    (thread_id : String)
    → stored_count thread_id db.threads ≡ length (keep (message_of_thread thread_id) db.messages)

touch_same :
    (k j u : String) (l : Option ℕ) (n : ℕ) (ts : List ConversationThread)
    → stored_count k (update_threads (touch_thread u l n) j ts) ≡ stored_count k ts
touch_same k j u l n [] = refl
touch_same k j u l n (t ∷ ts) = ground (arith, touch_same k j u l n ts)

count_other :
    (k j : String) (n : ℕ) (ts : List ConversationThread)
    → j ≢ k
    → stored_count k (update_threads (count_message n) j ts) ≡ stored_count k ts
count_other k j n [] h = refl
count_other k j n (t ∷ ts) h =
    ground (arith, count_other k j n ts h, eq_iff t.thread_id j, eq_iff t.thread_id k)

count_one :
    (j : String) (n : ℕ) (ts : List ConversationThread)
    → any (of_thread j) ts ≡ true
    → stored_count j (update_threads (count_message n) j ts) ≡ suc (stored_count j ts)
count_one j n [] h = cc
count_one j n (t ∷ ts) h = elim (Bool-cases (t.thread_id == j)) [
  | inl e ↦ ground arith
  | inr e ↦ ground (arith, count_one j n ts (ground arith))
]

absent_count :
    (j : String) (ts : List ConversationThread)
    → any (of_thread j) ts ≡ false
    → stored_count j ts ≡ 0
absent_count j [] h = refl
absent_count j (t ∷ ts) h = ground (arith, absent_count j ts (ground arith))

touch_any :
    (j u : String) (l : Option ℕ) (n : ℕ) (ts : List ConversationThread)
    → any (of_thread j) (update_threads (touch_thread u l n) j ts) ≡ any (of_thread j) ts
touch_any j u l n [] = refl
touch_any j u l n (t ∷ ts) = ground (arith, touch_any j u l n ts)

upsert_any :
    (j u : String) (l : Option ℕ) (n : ℕ) (ts : List ConversationThread)
    → any (of_thread j) (upsert_thread j u l n ts) ≡ true
unfolding upsert_thread
upsert_any j u l n ts = ground (arith, touch_any j u l n ts, eq_iff j j)

upsert_same :
    (k j u : String) (l : Option ℕ) (n : ℕ) (ts : List ConversationThread)
    → stored_count k (upsert_thread j u l n ts) ≡ stored_count k ts
unfolding upsert_thread
upsert_same k j u l n ts = elim (Bool-cases (any (of_thread j) ts)) [
  | inl e ↦ ground (arith, touch_same k j u l n ts)
  | inr e ↦ elim (Bool-cases (j == k)) [
    | inl f ↦ ground (arith, absent_count j ts e, eq_iff j k)
    | inr f ↦ ground arith
  ]
]

append-IsCounted :
    (m : NewMessage) (id : String) (now later : ℕ) (db : Tables)
    → IsCounted db
    → IsCounted (append_message m id now later db)
unfolding append_message
append-IsCounted m id now later db c k =
    let ts = upsert_thread m.thread_id m.user_id (some now) later db.threads in
    elim (Bool-cases (m.thread_id == k)) [
      | inl e ↦ ground (
        arith,
        c k,
        upsert_same k m.thread_id m.user_id (some now) later db.threads,
        count_one m.thread_id now ts (upsert_any m.thread_id m.user_id (some now) later db.threads),
        eq_iff m.thread_id k,
      )
      | inr e ↦ ground (
        arith,
        c k,
        upsert_same k m.thread_id m.user_id (some now) later db.threads,
        count_other k m.thread_id now ts (ground (arith, eq_iff m.thread_id k)),
        eq_iff m.thread_id k,
      )
    ]

summary-IsCounted :
    (m : NewSummary) (id : String) (now later : ℕ) (db : Tables)
    → IsCounted db
    → IsCounted (save_summary m id now later db)
unfolding save_summary
summary-IsCounted m id now later db c k =
    upsert_same k m.thread_id m.user_id none later db.threads ∙ c k

-- `uuid4()` is not the id of a row yet.
created-IsCounted :
    (thread_id user_id : String) (title : Option String) (metadata : Fields) (now : ℕ) (db : Tables)
    → any (of_thread thread_id) db.threads ≡ false
    → IsCounted db
    → IsCounted (create_thread thread_id user_id title metadata now db)
unfolding create_thread
created-IsCounted thread_id user_id title metadata now db f c k =
    elim (Bool-cases (thread_id == k)) [
      | inl e ↦ ground (arith, c k, absent_count thread_id db.threads f, eq_iff thread_id k)
      | inr e ↦ ground (arith, c k)
    ]

-- What the write methods do to the tables: one transaction each.
pub data Step : Tables → Tables → Type 0 where
  appended :
      (m : NewMessage) (id : String) (now later : ℕ) (db : Tables)
      → Step db (append_message m id now later db)
  summarized :
      (m : NewSummary) (id : String) (now later : ℕ) (db : Tables)
      → Step db (save_summary m id now later db)
  created :
      (thread_id user_id : String) (title : Option String) (metadata : Fields) (now : ℕ)
      (db : Tables)
      → any (of_thread thread_id) db.threads ≡ false
      → Step db (create_thread thread_id user_id title metadata now db)

abbrev pub no_rows : Tables
no_rows = record { threads = []; messages = []; summaries = [] }

-- The tables after some transactions, from the empty ones on.
pub data Reachable : Tables → Type 0 where
  start : Reachable no_rows
  next : {db db' : Tables} → Reachable db → Step db db' → Reachable db'

step-IsCounted : {db db' : Tables} → Step db db' → IsCounted db → IsCounted db'
step-IsCounted (appended m id now later db) c = append-IsCounted m id now later db c
step-IsCounted (summarized m id now later db) c = summary-IsCounted m id now later db c
step-IsCounted (created i u t f n db fresh) c = created-IsCounted i u t f n db fresh c

reachable-IsCounted : {db : Tables} → Reachable db → IsCounted db
reachable-IsCounted start = λ k. refl
reachable-IsCounted (next r s) = step-IsCounted s (reachable-IsCounted r)

row_count :
    (k : String) (ts : List ConversationThread) (t : ConversationThread)
    → thread_row k ts ≡ some t
    → t.message_count ≡ stored_count k ts
row_count k [] t h = cc
row_count k (s ∷ ts) t h = elim (Bool-cases (s.thread_id == k)) [
  | inl e ↦ ground arith
  | inr e ↦ ground (arith, row_count k ts t (ground arith))
]

-- After any sequence of the transactions that create threads, append messages and save summaries,
-- the `message_count` of the row that `get_thread` finds is the number of stored messages of that
-- thread. The ids of created threads are assumed to be new.
pub get_thread-message_count :
    (db : Tables) (thread_id : String) (t : ConversationThread)
    → Reachable db
    → get_thread thread_id db ≡ some t
    → t.message_count ≡ length (keep (message_of_thread thread_id) db.messages)
unfolding get_thread
get_thread-message_count db thread_id t r h =
    row_count thread_id db.threads t h ∙ reachable-IsCounted r thread_id
